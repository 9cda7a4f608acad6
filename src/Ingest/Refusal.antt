-- ===== src/Ingest/Refusal.antt =====
-- src/ingest/refusal.ts: why a delivery was answered with `claimed: false`, and whether an operator
-- should see it.
pub mod Shaped
pub mod Classify
use lambda_ciactions.Common.{
  ℕ, zero, suc, ◌%◌, ◌/◌, ◌≡◌, refl, Bool, true, false, ◌||◌, not, Option, none, some, List, [],
  ◌∷◌, ◌++◌, map,
}
use lambda_ciactions.Common.Tests.{if◌then◌else◌, leb, ◌==◌}
use lambda_ciactions.Common.Lists.{filter, is_empty}
use lambda_ciactions.Common.Text.{
  Text, codes, text_eq, starts_with, normalize, normalize_all, is_member, is_nonempty, text_ops,
}
use lambda_ciactions.Shared.Types.{RepoMode}
use lambda_ciactions.Shared.FlavorCatalog.{builtin_flavors, lower_labels_of, catalog_ops}
use lambda_ciactions.Ingest.Adopt.{incompatible_runner_label, is_adopt, adopt_ops}

unfoldable pub catalog_labels : List Text
catalog_labels = lower_labels_of builtin_flavors

abbrev pub lca_label_prefix : Text
lca_label_prefix = codes "lambda-ci"

unfoldable pub lca_shaped_label : Text → Bool
lca_shaped_label label =
    let l = normalize label in
    if not (is_nonempty l)
    then false
    else is_member l catalog_labels
      || text_eq l lca_label_prefix
      || starts_with l (lca_label_prefix ++ codes "-")

-- The loop of `lcaShapedLabels`, with `out` so far.
unfoldable pub lca_shaped_from : List Text → List Text → List Text
lca_shaped_from out [] = out
lca_shaped_from out (raw ∷ rest) =
    let l = normalize raw in
    lca_shaped_from
      (if not (is_nonempty l) || not (lca_shaped_label l)
        then out
        else if is_member l out
        then out
        else out ++ l ∷ [])
      rest

unfoldable pub lca_shaped_labels : List Text → List Text
lca_shaped_labels job_labels = lca_shaped_from [] job_labels

pub data RefusalCode : Type 0 where
  label_not_allowlisted incompatible_label repo_disabled runner_group compat_block no_lca_label
        no_standard_label :
      RefusalCode

pub data RefusalLevel : Type 0 where
  info debug : RefusalLevel

-- The remedy, by the text that the source fills in.
pub data Fix : Type 0 where
  reenable_repo analysis_findings split_job : Fix
  default_group : Text → Fix
  add_labels : List Text → Fix

pub record RefusalClassification : Type 0 where
  pub code : RefusalCode
  pub level : RefusalLevel
  pub actionable : Bool
  pub lca_labels : List Text
  pub fix : Option Fix

pub data Gate : Type 0 where
  claim repo_disabled runner_group compat_block : Gate

-- `RefusalInput`; its `reason` is not read by the classification.
pub record RefusalInput : Type 0 where
  pub gate : Gate
  pub job_labels : List Text
  pub claimed_labels : List Text
  pub mode : Option RepoMode
  pub group : Option Text

-- The two results that turn on whether the job asked for this platform by name.
abbrev pub by_intent : Bool → RefusalCode → List Text → Fix → RefusalClassification
by_intent intent code lca f = record {
  code = code;
  level = if intent then info else debug;
  actionable = intent;
  lca_labels = lca;
  fix = if intent then some f else none;
}

abbrev pub surfaced : RefusalCode → List Text → Fix → RefusalClassification
surfaced code lca f = record {
  code = code;
  level = info;
  actionable = true;
  lca_labels = lca;
  fix = some f;
}

abbrev pub expected : RefusalCode → List Text → RefusalClassification
expected code lca = record {
  code = code;
  level = debug;
  actionable = false;
  lca_labels = lca;
  fix = none;
}

abbrev pub is_none {ℓ} : {A : Type ℓ} → Option A → Bool
is_none none = true
is_none (some a) = false

-- The part of `classifyRefusal` behind its `switch`.
unfoldable pub classify_claim :
    List Text → List Text → List Text → Option RepoMode → RefusalClassification
classify_claim job_labels lca unlisted mode =
    if not (is_none (incompatible_runner_label job_labels))
    then by_intent (not (is_empty lca)) incompatible_label lca split_job
    else if not (is_empty unlisted)
    then surfaced label_not_allowlisted lca (add_labels unlisted)
    else if is_adopt mode
    then expected no_standard_label lca
    else expected no_lca_label lca

abbrev pub group_text : Option Text → Text
group_text none = []
group_text (some g) = g

unfoldable pub classify_gate :
    Gate → RefusalInput → List Text → List Text → List Text → RefusalClassification
unfolding classify_claim
classify_gate repo_disabled input jobs lca unlisted =
    by_intent (not (is_empty lca)) repo_disabled lca reenable_repo
classify_gate runner_group input jobs lca unlisted =
    surfaced runner_group lca (default_group (group_text input.group))
classify_gate compat_block input jobs lca unlisted = surfaced compat_block lca analysis_findings
classify_gate claim input jobs lca unlisted = classify_claim jobs lca unlisted input.mode

unfoldable pub classify_refusal : RefusalInput → RefusalClassification
unfolding classify_gate
classify_refusal input =
    let jobs = normalize_all input.job_labels in
    let allowlist = normalize_all input.claimed_labels in
    let lca = lca_shaped_labels jobs in
    classify_gate input.gate input jobs lca (filter (λ l. not (is_member l allowlist)) lca)

-- A sampling rate between 0 and 1 is given by the whole part of its inverse, which is all that the
-- code reads of it; `never` is a rate of 0 or less, `always` one of 1 or more.
pub data SampleRate : Type 0 where
  always never : SampleRate
  one_in : ℕ → SampleRate

abbrev pub refusal_log_sample_rate : SampleRate
refusal_log_sample_rate = one_in 100

-- The job id by its absolute whole part; `none` is an absent or infinite id.
unfoldable pub sample_refusal_log : Option ℕ → SampleRate → Bool
sample_refusal_log id always = true
sample_refusal_log id never = false
sample_refusal_log none (one_in bucket) = true
sample_refusal_log (some id) (one_in bucket) = id % bucket == 0

-- All that a run on literals computes with.
unfoldable pub refusal_ops : Unit {0}
unfolding text_ops catalog_ops adopt_ops catalog_labels lca_shaped_label lca_shaped_from
    lca_shaped_labels classify_claim classify_gate classify_refusal
refusal_ops = tt
