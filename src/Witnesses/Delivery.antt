-- ===== src/Witnesses/Delivery.antt =====
-- The webhook handler at concrete deliveries, and the three functions together.
use lambda_ciactions.Common.{◌≤◌, ◌≡◌, refl, true, arith, ◌↔◌, ◌⊎◌, inl, none, some, List, [], ◌∷◌}
use lambda_ciactions.Common.Lists.{In, length}
use lambda_ciactions.Common.Text.{Text, codes, text_ops}
use lambda_ciactions.Shared.FlavorCatalog.{catalog_ops}
use lambda_ciactions.Shared.RunStore.{run_pk}
use lambda_ciactions.Shared.RunStore.Later.{Kept}
use lambda_ciactions.Shared.RunStore.InMemory.{Rows, in_memory}
use lambda_ciactions.Ingest.Adopt.{ClaimVia, adopt_ops}
use lambda_ciactions.Ingest.Filter.{Action, WorkflowJobEvent}
use lambda_ciactions.Ingest.Signature.{verify_signature, verify_with_rotation, reads, is_shaped}
use lambda_ciactions.Ingest.Signature
use lambda_ciactions.Ingest.Signature.Rotation.{
  Signs, IsOpen, Spaced, verify_with_rotation_iff, reads-Spaced,
}
use lambda_ciactions.Ingest.WorkflowJob.{
  Deps, queue_message, handle_workflow_job, act, gates, parse_claimed_labels, split_commas,
  claim_labels_with_custom, post_claim, enqueue,
}
use lambda_ciactions.Ingest.WorkflowJob.Claimed.{handle_workflow_job-mint_labels}
use lambda_ciactions.Ingest.WorkflowJob.Refused.{Settled, handle_workflow_job-Settled}
use lambda_ciactions.Provision.Labels.{
  mint_labels, mint, jit_runner_labels, max_jit_labels, label_ops,
}
use lambda_ciactions.Provision.Labels.Advertised.{IsLiteral}
use lambda_ciactions.System.{Invocation, deliver, invoke_all, invoke_all-Kept}

-- A digest that is not one, over which the examples compute.
abbrev digest : Text → Text → Text
digest secret body = secret

abbrev rotated : Signature.Delivery
rotated = record {
  raw_body = codes "{}";
  signature = some (codes "sha256=new");
  cached_secret = codes "old";
  fresh_secret = some (codes "new");
  now = 50000;
}

verify_with_rotation_iff_example : ((verify_with_rotation digest rotated 10000).accepted ≡ true) ↔ (
    Signs digest rotated (codes "old")
    ⊎ (IsOpen digest rotated 10000
        × ((fresh : Text) × (some (codes "new") ≡ some fresh) × Signs digest rotated fresh)))
verify_with_rotation_iff_example = verify_with_rotation_iff digest rotated 10000

reads-Spaced_example : Spaced digest 0 (
    reads digest (rotated ∷ record rotated { now = 60000 } ∷ record rotated { now = 90000 } ∷ []) 0)
reads-Spaced_example =
    reads-Spaced digest
      (rotated ∷ record rotated { now = 60000 } ∷ record rotated { now = 90000 } ∷ []) 0

abbrev event : WorkflowJobEvent
event = record {
  action = Action.queued;
  installation_id = 1;
  repo_id = 7;
  full_name = codes "o/r";
  owner = codes "o";
  repo = codes "r";
  run_id = 20;
  job_id = 300;
  labels = codes "lambda-ci" ∷ [];
  job_name = codes "build";
  workflow_name = none;
  conclusion = none;
}

abbrev deps : Deps
deps = record {
  get_param = some (codes "lambda-ci, lambda-ci-node");
  get_repo = none;
  list_custom_flavors = none;
  list_workflow_analyses = none;
  message_sent = true;
  now = 1000;
  retention = 60;
}

abbrev no_rows : Rows
no_rows k = none

unfoldable delivery_ops : Unit {0}
unfolding label_ops text_ops adopt_ops catalog_ops handle_workflow_job act gates
    parse_claimed_labels split_commas claim_labels_with_custom post_claim enqueue
delivery_ops = tt

sent_message :
    In
      (queue_message event (some ClaimVia.label))
      (handle_workflow_job in_memory deps event no_rows).sent
unfolding delivery_ops
sent_message = inl refl

lambda_ci_IsLiteral : IsLiteral (codes "lambda-ci")
unfolding label_ops
lambda_ci_IsLiteral = (refl, refl)

few : length (jit_runner_labels (codes "lambda-ci" ∷ [])) ≤ max_jit_labels
unfolding label_ops
few = omega arith

handle_workflow_job-mint_labels_example :
    mint_labels (queue_message event (some ClaimVia.label)).body.labels
    ≡ mint (jit_runner_labels (codes "lambda-ci" ∷ []))
handle_workflow_job-mint_labels_example =
    handle_workflow_job-mint_labels in_memory deps event no_rows
      (queue_message event (some ClaimVia.label)) (codes "lambda-ci") sent_message (inl refl)
      lambda_ci_IsLiteral few

handle_workflow_job-Settled_example :
    Settled no_rows (handle_workflow_job in_memory deps event no_rows)
handle_workflow_job-Settled_example =
    handle_workflow_job-Settled in_memory deps event no_rows (codes "lambda-ci, lambda-ci-node")
      refl refl

abbrev invocations : List Invocation
invocations =
    deliver deps event
    ∷ deliver deps (record event { action = Action.completed; conclusion = some (codes "success") })
    ∷ deliver deps (record event { action = Action.in_progress })
    ∷ []

invoke_all-Kept_example :
    Kept (no_rows (run_pk 7 20 300)) (invoke_all in_memory invocations no_rows (run_pk 7 20 300))
invoke_all-Kept_example = invoke_all-Kept in_memory invocations (run_pk 7 20 300) no_rows
