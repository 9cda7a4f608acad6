-- ===== src/Ingest/WorkflowJob.antt =====
-- src/ingest/handler.ts: `handleWorkflowJob` and what it calls. The parameter store, the reads of
-- DynamoDB and the queue are parameters (`Deps`); the run rows are in a table of `Dynamo`.
pub mod Gates
pub mod Listed
pub mod Claimed
pub mod Refused
use lambda_ciactions.Common.{
  ℕ, Bool, true, false, not, Option, none, some, List, [], ◌∷◌, ◌++◌, map,
}
use lambda_ciactions.Common.Tests.{if◌then◌else◌, ◌==◌}
use lambda_ciactions.Common.Lists.{any, filter, is_empty}
use lambda_ciactions.Common.Text.{Text, codes, text_eq, trim, is_nonempty, decimal}
use lambda_ciactions.Shared.Types.{RepoMode, RepoRecord, RunStatus, running, completed, failed}
use lambda_ciactions.Shared.FlavorCatalog.{CatalogFlavor, is_custom_flavor_label}
use lambda_ciactions.Shared.FlavorStore.{CustomFlavorRecord, routable_custom_flavors}
use lambda_ciactions.Shared.RunStore.{RunInput, TransitionInput}
use lambda_ciactions.Shared.RunStore.Writes.{Dynamo, put_queued_run, transition_run}
use lambda_ciactions.Ingest.Adopt.{
  ClaimVia, ClaimReason, ClaimDecision, decide_claim, unreachable_runner_group,
}
use lambda_ciactions.Ingest.Filter.{
  Action, WorkflowJobEvent, ProvisionRequest, is_repo_opted_out, to_provision_request, dedupe_key,
}
use lambda_ciactions.Ingest.JobMatch.{WorkflowAnalysisRecord, JobMatch, match_job_analysis}
use lambda_ciactions.Ingest.Refusal.{
  Gate, RefusalClassification, classify_refusal, sample_refusal_log, refusal_log_sample_rate,
}

-- The verdict of a compatibility analysis, with the codes of its messages.
pub record Compat : Type 0 where
  pub eligible : Bool
  pub codes_found : List Text

-- What the services answer to one delivery; an outer `none` is a call that throws.
pub record Deps : Type 0 where
  pub get_param : Option Text
  pub get_repo : Option (Option RepoRecord)
  pub list_custom_flavors : Option (List CustomFlavorRecord)
  pub list_workflow_analyses : Option (List (WorkflowAnalysisRecord Compat))
  pub message_sent : Bool
  pub now : ℕ
  pub retention : ℕ

-- `s.split(',')`
abbrev pub add_unit : ℕ → List Text → List Text
add_unit c [] = (c ∷ []) ∷ []
add_unit c (s ∷ rest) = (c ∷ s) ∷ rest

unfoldable pub split_commas : Text → List Text
split_commas [] = [] ∷ []
split_commas (c ∷ s) = let rest = split_commas s in if c == b',' then [] ∷ rest else add_unit c rest

-- The allowlist: the parameter split at commas, trimmed, without the empty parts.
unfoldable pub parse_claimed_labels : Text → List Text
unfolding split_commas trim
parse_claimed_labels value = filter is_nonempty (map trim (split_commas value))

pub data LabelRead : Type 0 where
  skipped ok degraded : LabelRead

pub record ClaimLabels : Type 0 where
  pub labels : List Text
  pub read : LabelRead

abbrev pub loaded_labels : List Text → Option (List CustomFlavorRecord) → ClaimLabels
loaded_labels claimed none = record { labels = claimed; read = degraded }
loaded_labels claimed (some records) = record {
  labels = claimed ++ map (λ f. f.label) (routable_custom_flavors records);
  read = ok;
}

-- `load` is what `listCustomFlavors` reads.
unfoldable pub claim_labels_with_custom :
    List Text → List Text → Option (List CustomFlavorRecord) → ClaimLabels
unfolding routable_custom_flavors is_custom_flavor_label
claim_labels_with_custom job_labels claimed_labels load =
    if any (λ l. is_custom_flavor_label (some l)) job_labels
    then loaded_labels claimed_labels load
    else record { labels = claimed_labels; read = skipped }

-- The message on the provision queue.
pub record QueueMessage : Type 0 where
  pub body : ProvisionRequest
  pub deduplication_id : Text
  pub group_id : Text

-- What `refuse` was called with, whether it writes a log line and whether it stores a row.
pub record Refusal : Type 0 where
  pub gate : Gate
  pub classification : RefusalClassification
  pub logged : Bool
  pub stored : Bool

-- The answers of the handler; `errored` is an error that it throws.
pub data Response : Type 0 where
  status_updated ignored : Action → Response
  disabled blocked errored : Response
  unclaimed : ClaimReason → Response
  group_refused : Text → Response
  claimed : Text → Response

pub record Ingested (Table : Type 0) : Type 0 where
  pub table : Table
  pub refusals : List Refusal
  pub sent : List QueueMessage
  pub response : Response

abbrev pub mode_of : Option (Option RepoRecord) → Option RepoMode
mode_of (some (some repo)) = repo.mode
mode_of _ = none

abbrev pub opted_out : Option (Option RepoRecord) → Bool
opted_out none = false
opted_out (some repo) = is_repo_opted_out repo

abbrev pub refuse_group : Gate → Option Text → Option Text
refuse_group Gate.runner_group group = group
refuse_group _ group = none

-- `refuse(gate, …)`
unfoldable pub refuse :
    WorkflowJobEvent → List Text → Option RepoMode → Gate → Option Text → Refusal
unfolding classify_refusal sample_refusal_log
refuse wf claimed_labels mode gate group =
    let cls = classify_refusal (record {
      gate = gate;
      job_labels = wf.labels;
      claimed_labels = claimed_labels;
      mode = mode;
      group = refuse_group gate group;
    }) in
    record {
      gate = gate;
      classification = cls;
      logged =
          if cls.actionable
          then true
          else sample_refusal_log (some wf.job_id) refusal_log_sample_rate;
      stored = cls.actionable;
    }

-- What the lookup of the analysis found against a job that the claim gate let pass.
pub data PostClaim : Type 0 where
  passes compat_blocks : PostClaim
  group_blocks : Text → PostClaim

abbrev pub or_empty : Option Text → Text
or_empty none = []
or_empty (some g) = g

abbrev pub is_blocked : Option Compat → Bool
is_blocked none = false
is_blocked (some compat) = not compat.eligible

abbrev pub match_verdict : Option (JobMatch Compat) → PostClaim
match_verdict none = passes
match_verdict (some m) =
    if unreachable_runner_group m.job.runner_group
    then group_blocks (or_empty m.job.runner_group)
    else if is_blocked m.compat
    then compat_blocks
    else passes

unfoldable pub post_claim :
    Option (List (WorkflowAnalysisRecord Compat)) → WorkflowJobEvent → PostClaim
unfolding match_job_analysis unreachable_runner_group
post_claim none wf = passes
post_claim (some analyses) wf =
    match_verdict (match_job_analysis analyses wf.workflow_name wf.job_name)

abbrev pub queued_input : WorkflowJobEvent → RunInput
queued_input wf = record {
  repo_id = wf.repo_id;
  repo_full_name = wf.full_name;
  installation_id = wf.installation_id;
  run_id = wf.run_id;
  job_id = wf.job_id;
  labels = wf.labels;
  workflow_name = wf.workflow_name;
  job_name = some wf.job_name;
}

unfoldable pub queue_message : WorkflowJobEvent → Option ClaimVia → QueueMessage
unfolding to_provision_request dedupe_key
queue_message wf via = record {
  body = to_provision_request wf via;
  deduplication_id = dedupe_key wf.repo_id wf.run_id wf.job_id;
  group_id = decimal wf.repo_id;
}

-- The status of a job that has ended.
abbrev pub conclusion_status : Option Text → RunStatus
conclusion_status none = failed
conclusion_status (some c) = if text_eq c (codes "success") then completed else failed

-- The status that a delivery reports.
unfoldable pub status_of : Action → Option Text → Option RunStatus
unfolding text_eq
status_of Action.in_progress conclusion = some running
status_of Action.completed conclusion = some (conclusion_status conclusion)
status_of _ conclusion = none

abbrev pub failure_reason : RunStatus → Option Text → Option Text
failure_reason failed none = some (codes "job failed")
failure_reason failed (some c) = some (codes "job " ++ c)
failure_reason _ conclusion = none

abbrev pub status_move : WorkflowJobEvent → RunStatus → TransitionInput
status_move wf to = record {
  repo_id = wf.repo_id;
  run_id = wf.run_id;
  job_id = wf.job_id;
  to = to;
  flavor = none;
  microvm_id = none;
  reason = failure_reason to wf.conclusion;
}

module _ (db : Dynamo) (deps : Deps) (wf : WorkflowJobEvent) where
  abbrev pub answer : List Refusal → Response → db.Table → Ingested db.Table
  answer refusals response t = record {
    table = t;
    refusals = refusals;
    sent = [];
    response = response;
  }

  abbrev pub update_status : Option RunStatus → db.Table → db.Table
  update_status none t = t
  update_status (some to) t = (transition_run db (status_move wf to) deps.now deps.retention t).0

  -- `handleStatusUpdate`; an error of the write is logged only.
  unfoldable pub handle_status_update : db.Table → db.Table
  unfolding transition_run status_of
  handle_status_update t = update_status (status_of wf.action wf.conclusion) t

  -- The queued row, whose error is logged only, and then the message.
  unfoldable pub enqueue : Option ClaimVia → db.Table → Ingested db.Table
  unfolding put_queued_run queue_message dedupe_key
  enqueue via t = record {
    table = (put_queued_run db (queued_input wf) deps.now t).0;
    refusals = [];
    sent = queue_message wf via ∷ [];
    response =
        if deps.message_sent then claimed (dedupe_key wf.repo_id wf.run_id wf.job_id) else errored;
  }

  abbrev pub after_post_claim :
      List Text → Option RepoMode → Option ClaimVia → PostClaim → db.Table → Ingested db.Table
  after_post_claim labels mode via passes t = enqueue via t
  after_post_claim labels mode via (group_blocks group) t =
      answer (refuse wf labels mode Gate.runner_group (some group) ∷ []) (group_refused group) t
  after_post_claim labels mode via compat_blocks t =
      answer (refuse wf labels mode Gate.compat_block none ∷ []) blocked t

  abbrev pub after_decision :
      List Text → Option RepoMode → ClaimDecision → db.Table → Ingested db.Table
  after_decision labels mode decision t =
      if decision.claim
      then after_post_claim labels mode decision.via (post_claim deps.list_workflow_analyses wf) t
      else answer (refuse wf labels mode Gate.claim none ∷ []) (unclaimed decision.reason) t

  -- The gates over a queued job, given the allowlist.
  unfoldable pub gates : List Text → db.Table → Ingested db.Table
  unfolding refuse claim_labels_with_custom decide_claim post_claim enqueue is_repo_opted_out
  gates labels t =
      let mode = mode_of deps.get_repo in
      if opted_out deps.get_repo
      then answer (refuse wf labels mode Gate.repo_disabled none ∷ []) disabled t
      else after_decision labels mode
          (decide_claim wf.labels
            (claim_labels_with_custom wf.labels labels deps.list_custom_flavors).labels mode)
          t

  abbrev pub with_labels : Option Text → db.Table → Ingested db.Table
  with_labels none t = answer [] errored t
  with_labels (some value) t = gates (parse_claimed_labels value) t

  -- What is done for an action.
  unfoldable pub act : Action → db.Table → Ingested db.Table
  unfolding handle_status_update gates parse_claimed_labels
  act Action.in_progress t = answer [] (status_updated Action.in_progress) (handle_status_update t)
  act Action.completed t = answer [] (status_updated Action.completed) (handle_status_update t)
  act Action.queued t = with_labels deps.get_param t
  act Action.waiting t = answer [] (ignored Action.waiting) t
  act (Action.other name) t = answer [] (ignored (Action.other name)) t

  unfoldable pub handle_workflow_job : db.Table → Ingested db.Table
  unfolding act
  handle_workflow_job t = act wf.action t
