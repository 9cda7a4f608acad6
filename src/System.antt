-- ===== src/System.antt =====
-- The three functions that share the table of runs: the webhook handler (src/ingest/handler.ts), the
-- provision consumer (src/provision/handler.ts) and the reaper (src/reaper/handler.ts).
use lambda_ciactions.Common.{ℕ, Bool, Option, List, [], ◌∷◌}
use lambda_ciactions.Common.Text.{Text}
use lambda_ciactions.Shared.Types.{RunStatus}
use lambda_ciactions.Shared.RunStore.{RunRow}
use lambda_ciactions.Shared.RunStore.Writes.{Dynamo}
use lambda_ciactions.Shared.RunStore.Later.{Kept}
use lambda_ciactions.Shared.RunStore.History.{Written, unwritten, then, Written-Kept}
use lambda_ciactions.Ingest.Filter.{WorkflowJobEvent, ProvisionRequest}
use lambda_ciactions.Ingest.WorkflowJob
use lambda_ciactions.Ingest.WorkflowJob.{handle_workflow_job}
use lambda_ciactions.Ingest.WorkflowJob.Refused.{handle_workflow_job-Written}
use lambda_ciactions.Provision.Handler
use lambda_ciactions.Provision.Handler.{SqsRecord, handle_batch}
use lambda_ciactions.Provision.Handler.Batch.{handle_batch-Written}
use lambda_ciactions.Reaper.{ReaperConfig, LiveMicroVm, sweep}
use lambda_ciactions.Reaper.Sweep.{sweep-Written}

-- One invocation, with what the services answer to it.
pub data Invocation : Type 0 where
  deliver : WorkflowJob.Deps → WorkflowJobEvent → Invocation
  provision : (Text → Option ProvisionRequest) → (Text → Handler.Deps) → List SqsRecord → Invocation
  reap :
      ReaperConfig
      → ℕ
      → (ℕ → ℕ)
      → ℕ
      → (Text → Bool)
      → List LiveMicroVm
      → (RunStatus → List RunRow)
      → Invocation

module _ (db : Dynamo) where
  unfoldable pub invoke : Invocation → db.Table → db.Table
  unfolding handle_workflow_job handle_batch sweep
  invoke (deliver deps wf) t = (handle_workflow_job db deps wf t).table
  invoke (provision parse deps_of rs) t = (handle_batch db parse deps_of rs [] t).0
  invoke (reap cfg now clock retention termination vms listed) t =
      (sweep db cfg now clock retention termination vms listed t).table

  unfoldable pub invoke_all : List Invocation → db.Table → db.Table
  unfolding invoke
  invoke_all [] t = t
  invoke_all (i ∷ is) t = invoke_all is (invoke i t)

  invoke-Written : (i : Invocation) (t : db.Table) → Written db t (invoke i t)
  unfolding invoke
  invoke-Written (deliver deps wf) t = handle_workflow_job-Written db deps wf t
  invoke-Written (provision parse deps_of rs) t = handle_batch-Written db parse deps_of rs [] t
  invoke-Written (reap cfg now clock retention termination vms listed) t =
      sweep-Written db cfg now clock retention termination vms listed t

  invoke_all-Written : (is : List Invocation) (t : db.Table) → Written db t (invoke_all is t)
  unfolding invoke_all
  invoke_all-Written [] t = unwritten db t
  invoke_all-Written (i ∷ is) t =
      then db t _ _ (invoke-Written i t) (invoke_all-Written is (invoke i t))

  -- Webhook deliveries, batches of the provision queue and sweeps of the reaper, in any order and with
  -- any answers and faults of the services: no run row is lost, every row only moves forward with its
  -- identity and watermarks kept, new rows are well-formed and well-formed rows stay so.
  pub invoke_all-Kept :
      (is : List Invocation) (k : Text) (t : db.Table)
      → Kept (db.get k t) (db.get k (invoke_all is t))
  invoke_all-Kept is k t = Written-Kept db t _ (invoke_all-Written is t) k
