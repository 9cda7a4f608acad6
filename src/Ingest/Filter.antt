-- ===== src/Ingest/Filter.antt =====
-- src/ingest/filter.ts: the label-mode primitive, the opt-out of a repo and the queued request.
use lambda_ciactions.Common.{ℕ, Bool, true, false, Option, none, some, List, map, ◌++◌}
use lambda_ciactions.Common.Lists.{any}
use lambda_ciactions.Common.Text.{Text, codes, to_lower_case, is_member, decimal}
use lambda_ciactions.Shared.Types.{RepoMode, RepoRecord}
use lambda_ciactions.Ingest.Adopt.{ClaimVia}

-- The actions of a `workflow_job` event that the code tells apart.
pub data Action : Type 0 where
  queued in_progress completed waiting : Action
  other : Text → Action

-- `WorkflowJobEvent`, with the fields of its nested objects that are read.
pub record WorkflowJobEvent : Type 0 where
  pub action : Action
  pub installation_id : ℕ
  pub repo_id : ℕ
  pub full_name : Text
  pub owner : Text
  pub repo : Text
  pub run_id : ℕ
  pub job_id : ℕ
  pub labels : List Text
  pub job_name : Text
  pub workflow_name : Option Text
  pub conclusion : Option Text

pub record ProvisionRequest : Type 0 where
  pub installation_id : ℕ
  pub repo_id : ℕ
  pub repo_full_name : Text
  pub owner : Text
  pub repo : Text
  pub run_id : ℕ
  pub job_id : ℕ
  pub labels : List Text
  pub job_name : Text
  pub workflow_name : Option Text
  pub claim_via : Option ClaimVia

abbrev pub is_queued : Action → Bool
is_queued queued = true
is_queued _ = false

unfoldable pub should_claim : WorkflowJobEvent → List Text → Bool
should_claim event claimed_labels = elim (is_queued event.action) [
  | false ↦ false
  | true ↦
      any (λ l. is_member l (map to_lower_case claimed_labels)) (map to_lower_case event.labels)
]

abbrev pub is_off : Option RepoMode → Bool
is_off (some RepoMode.off) = true
is_off _ = false

unfoldable pub is_repo_opted_out : Option RepoRecord → Bool
is_repo_opted_out none = false
is_repo_opted_out (some r) = elim r.enabled [ false ↦ true | true ↦ is_off r.mode ]

unfoldable pub to_provision_request : WorkflowJobEvent → Option ClaimVia → ProvisionRequest
to_provision_request event via = record {
  installation_id = event.installation_id;
  repo_id = event.repo_id;
  repo_full_name = event.full_name;
  owner = event.owner;
  repo = event.repo;
  run_id = event.run_id;
  job_id = event.job_id;
  labels = event.labels;
  job_name = event.job_name;
  workflow_name = event.workflow_name;
  claim_via = via;
}

unfoldable pub dedupe_key : ℕ → ℕ → ℕ → Text
dedupe_key repo_id run_id job_id =
    decimal repo_id ++ (codes ":" ++ (decimal run_id ++ (codes ":" ++ decimal job_id)))
