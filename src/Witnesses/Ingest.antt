-- ===== src/Witnesses/Ingest.antt =====
-- The claim gate and the refusals at concrete labels.
use lambda_ciactions.Common.{
  ◌≡◌, refl, Bool, true, false, inl, inr, ◌↔◌, Option, none, some, List, [], ◌∷◌,
}
use lambda_ciactions.Common.Lists.{In}
use lambda_ciactions.Common.Text.{Text, codes}
use lambda_ciactions.Shared.Types.{RepoMode}
use lambda_ciactions.Ingest.Adopt.{ClaimVia, decide_claim, adopt_ops}
use lambda_ciactions.Common.Text.{text_ops}
use lambda_ciactions.Ingest.JobMatch.{
  ParsedJob, WorkflowAnalysisRecord, JobMatch, basename, job_name_matches, workflow_name_matches,
  is_named, match_of, matches_in, match_job_analysis,
}
use lambda_ciactions.Ingest.JobMatch.Unique.{IsCandidate, match_job_analysis_lem}
use lambda_ciactions.Ingest.Adopt.Claim.{IsClaimable, decide_claim_iff}
use lambda_ciactions.Ingest.Adopt.Normal
use lambda_ciactions.Ingest.Installation.{
  RepoRef, InstallationEvent, InstallationAction, PushEvent, StoreCall, DiscoveryReason,
  discovery_request, until_slash, after_slash, plan_installation, store_calls, until_error,
  handle_installation, push_touches_workflows, push_to_discovery_request, handle_push,
  enqueue_discovery,
}
use lambda_ciactions.Ingest.Installation.Granted.{handle_installation-scanned}
use lambda_ciactions.Ingest.Refusal.{RefusalCode, lca_shaped_label, classify_refusal}
use lambda_ciactions.Ingest.Refusal.Classify.{
  claim_refusal, NamesMissing, classify_refusal-actionable,
}
use lambda_ciactions.Ingest.Adopt.{refused, incompatible, not_linux}

abbrev hosted : List Text
hosted = codes "Ubuntu-latest" ∷ []

abbrev mixed : List Text
mixed = codes "self-hosted" ∷ codes " Lambda-CI-Node" ∷ []

abbrev listed : List Text
listed = codes "lambda-ci" ∷ codes "lambda-ci-node" ∷ []

decide_claim_iff_example :
    ((decide_claim mixed listed none).claim ≡ true) ↔ IsClaimable mixed listed none
decide_claim_iff_example = decide_claim_iff mixed listed none

mixed_claimed : (decide_claim mixed listed none).claim ≡ true
unfolding adopt_ops
mixed_claimed = refl

listed_more : (x : Text) → In x listed → In x (codes "gpu" ∷ listed)
listed_more x m = inr m

hosted_adopted : (decide_claim hosted listed (some RepoMode.adopt)).via ≡ some ClaimVia.adopt
unfolding adopt_ops
hosted_adopted = refl

mixed_refused : (decide_claim mixed [] none).claim ≡ false
unfolding adopt_ops
mixed_refused = refl

classify_refusal-actionable_example :
    (((classify_refusal (claim_refusal mixed [] none)).actionable ≡ true)
      ↔ ((l : Text) × In l mixed × (lca_shaped_label l ≡ true)))
    × (((classify_refusal (claim_refusal mixed [] none)).code ≡ RefusalCode.label_not_allowlisted)
        ↔ (((classify_refusal (claim_refusal mixed [] none)).actionable ≡ true)
            × ((l : Text) → In l mixed → Normal.IsServable l)))
    × (NamesMissing mixed [] none ↔ (
        ((classify_refusal (claim_refusal mixed [] none)).actionable ≡ true)
        × ((l : Text) → In l mixed → Normal.IsServable l)))
classify_refusal-actionable_example = classify_refusal-actionable mixed [] none mixed_refused

windows_refused :
    decide_claim (codes " Lambda-CI" ∷ codes "Windows-latest " ∷ []) (codes "lambda-ci" ∷ []) none
    ≡ refused (incompatible (codes "windows-latest") not_linux)
unfolding adopt_ops
windows_refused = refl

abbrev build : ParsedJob
build = record { id = codes "build"; name = none; needs_docker = true; runner_group = none }

abbrev lint : ParsedJob
lint = record {
  id = codes "lint";
  name = some (codes "Lint");
  needs_docker = false;
  runner_group = none;
}

abbrev ci : WorkflowAnalysisRecord Bool
ci = record {
  path = codes ".github/workflows/ci.yml";
  name = codes "ci.yml";
  parsed = some (build ∷ lint ∷ []);
  compat = λ id. some true;
}

abbrev release : WorkflowAnalysisRecord Bool
release = record {
  path = codes ".github/workflows/release.yml";
  name = codes "Release";
  parsed = some (build ∷ []);
  compat = λ id. none;
}

abbrev matched : JobMatch Bool
matched = record { workflow = ci; job = build; compat = some true }

ci-matched :
    match_job_analysis
      (ci ∷ release ∷ [])
      (some (codes ".github/workflows/ci.yml"))
      (codes "build (20, arm64)")
    ≡ some matched
unfolding text_ops basename job_name_matches workflow_name_matches is_named matches_in
    match_job_analysis
ci-matched = refl

match_job_analysis_lem_example :
    IsCandidate
      (ci ∷ release ∷ [])
      (some (codes ".github/workflows/ci.yml"))
      (codes "build (20, arm64)")
      ci
      build
    × ((a : WorkflowAnalysisRecord Bool) (job : ParsedJob)
        → IsCandidate
            (ci ∷ release ∷ [])
            (some (codes ".github/workflows/ci.yml"))
            (codes "build (20, arm64)")
            a
            job
        → match_of a job ≡ matched)
match_job_analysis_lem_example =
    match_job_analysis_lem (ci ∷ release ∷ []) (some (codes ".github/workflows/ci.yml"))
      (codes "build (20, arm64)") matched ci-matched

abbrev discovery_queue : Option Text
discovery_queue = some (codes "https://sqs/discovery")

abbrev first_repo : RepoRef
first_repo = record { id = 7; full_name = codes "octo/app" }

abbrev second_repo : RepoRef
second_repo = record { id = 8; full_name = codes "octo/lib" }

abbrev install_event : InstallationEvent
install_event = record {
  action = InstallationAction.created;
  installation_id = 5;
  account_login = codes "octo";
  account_id = 3;
  repositories = some (first_repo ∷ second_repo ∷ []);
  repositories_added = none;
  repositories_removed = none;
}

-- A store in which no repository can be enabled.
abbrev enabling_fails : StoreCall → Bool
enabling_fails (StoreCall.enable_repo id r) = true
enabling_fails _ = false

first-enabled :
    (handle_installation discovery_queue enabling_fails install_event).calls
    ≡ StoreCall.upsert_installation 5 (codes "octo") 3 ∷ StoreCall.enable_repo 5 first_repo ∷ []
unfolding plan_installation store_calls until_error handle_installation
first-enabled = refl

handle_installation-scanned_example :
    In
      (discovery_request 5 7 (codes "octo/app") DiscoveryReason.installation)
      (handle_installation discovery_queue enabling_fails install_event).requests
handle_installation-scanned_example =
    handle_installation-scanned install_event first_repo discovery_queue enabling_fails refl
      (rw first-enabled (inr (inl refl)))

abbrev workflow_push : PushEvent
workflow_push = record {
  repo_id = 7;
  full_name = codes "octo/app";
  installation_id = some 5;
  commits = some [];
  head_commit = some (record {
    added = none;
    removed = some (codes "README.md" ∷ codes ".github/workflows/ci.yml" ∷ []);
    modified = none;
  });
}

handle_push_tests :
    (handle_push discovery_queue workflow_push
      ≡ record {
        installation_id = 5;
        repo_id = 7;
        repo_full_name = codes "octo/app";
        owner = codes "octo";
        repo = some (codes "app");
        reason = DiscoveryReason.push;
      }
        ∷ [])
    × (handle_push none workflow_push ≡ [])
    × (handle_push discovery_queue (record workflow_push { head_commit = none }) ≡ [])
    × (handle_push discovery_queue (record workflow_push { installation_id = none }) ≡ [])
unfolding text_ops until_slash after_slash discovery_request push_touches_workflows
    push_to_discovery_request enqueue_discovery handle_push
handle_push_tests = (refl, refl, refl, refl)
