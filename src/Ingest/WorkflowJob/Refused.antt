-- ===== src/Ingest/WorkflowJob/Refused.antt =====
-- What a delivery that is not claimed leaves, and what any delivery does to the run rows.
use lambda_ciactions.Common.{◌≡◌, refl, ap, ◌∙◌, true, Option, none, some, List, [], ◌∷◌}
use lambda_ciactions.Common.Text.{Text}
use lambda_ciactions.Shared.RunStore.Writes.{Dynamo}
use lambda_ciactions.Shared.RunStore.History.{put, transition, write, write_all, Written, unwritten}
use lambda_ciactions.Shared.Types.{RunStatus}
use lambda_ciactions.Ingest.Filter.{Action, WorkflowJobEvent}
use lambda_ciactions.Ingest.WorkflowJob.{
  Deps, Ingested, Refusal, QueueMessage, parse_claimed_labels, queued_input, status_move,
  handle_status_update, enqueue, with_labels, act, handle_workflow_job, refuse, update_status,
  status_of,
}
use lambda_ciactions.Ingest.WorkflowJob.Claimed.{handle_queued}
use lambda_ciactions.Ingest.WorkflowJob.Gates.{
  Route, off, unlisted, in_group, incompatible, through, gates-Route,
}

-- A delivery for a queued job ends in one of two ways.
pub data Settled {Table : Type 0} (before : Table) (p : Ingested Table) : Type 0 where
  sent_one : (m : QueueMessage) → p.sent ≡ m ∷ [] → p.refusals ≡ [] → Settled before p
  refused_one :
      (r : Refusal)
      → p.sent ≡ []
      → p.refusals ≡ r ∷ []
      → p.table ≡ before
      → (r.stored ≡ true → r.logged ≡ true)
      → Settled before p

module _ (db : Dynamo) (deps : Deps) (wf : WorkflowJobEvent) where
  stored_logged :
      (labels : List Text) (mode : _) (gate : _) (group : Option Text)
      → (refuse wf labels mode gate group).stored ≡ true
      → (refuse wf labels mode gate group).logged ≡ true
  unfolding refuse
  stored_logged labels mode gate group h = rw (h, refuse) refl

  route-Settled :
      (labels : List Text) (t : db.Table) (p : Ingested db.Table)
      → Route db deps wf labels t p
      → Settled t p
  unfolding enqueue
  route-Settled labels t p (off out) = refused_one _ refl refl refl (stored_logged labels _ _ none)
  route-Settled labels t p (unlisted c) =
      refused_one _ refl refl refl (stored_logged labels _ _ none)
  route-Settled labels t p (in_group group e) =
      refused_one _ refl refl refl (stored_logged labels _ _ (some group))
  route-Settled labels t p (incompatible e) =
      refused_one _ refl refl refl (stored_logged labels _ _ none)
  route-Settled labels t p (through o c e) = sent_one _ refl refl

  -- A delivery for a queued job, once the allowlist is read, either sends one message and refuses
  -- nothing, or sends none, leaves the run rows alone and is refused once, with a log line wherever
  -- the refusal is stored.
  pub handle_workflow_job-Settled :
      (t : db.Table) (value : Text)
      → wf.action ≡ Action.queued
      → deps.get_param ≡ some value
      → Settled t (handle_workflow_job db deps wf t)
  handle_workflow_job-Settled t value q e =
      rw (handle_queued db deps wf t q ∙ ap (λ o. with_labels db deps wf o t) e) (
        route-Settled (parse_claimed_labels value) t _
          (gates-Route db deps wf (parse_claimed_labels value) t))

  route-Written :
      (labels : List Text) (t : db.Table) (p : Ingested db.Table)
      → Route db deps wf labels t p
      → Written db t p.table
  unfolding enqueue write_all write
  route-Written labels t p (off out) = unwritten db t
  route-Written labels t p (unlisted c) = unwritten db t
  route-Written labels t p (in_group group e) = unwritten db t
  route-Written labels t p (incompatible e) = unwritten db t
  route-Written labels t p (through o c e) = record {
    writes = put (queued_input wf) deps.now ∷ [];
    made = refl;
  }

  with_labels-Written :
      (o : Option Text) (t : db.Table) → Written db t (with_labels db deps wf o t).table
  with_labels-Written none t = unwritten db t
  with_labels-Written (some value) t =
      route-Written (parse_claimed_labels value) t _
        (gates-Route db deps wf (parse_claimed_labels value) t)

  update-Written :
      (o : Option RunStatus) (t : db.Table) → Written db t (update_status db deps wf o t)
  unfolding write_all write
  update-Written none t = unwritten db t
  update-Written (some to) t = record {
    writes = transition (status_move wf to) deps.now deps.retention ∷ [];
    made = refl;
  }

  status-Written : (t : db.Table) → Written db t (handle_status_update db deps wf t)
  unfolding handle_status_update
  status-Written t = update-Written (status_of wf.action wf.conclusion) t

  act-Written : (a : Action) (t : db.Table) → Written db t (act db deps wf a t).table
  unfolding act
  act-Written Action.queued t = with_labels-Written deps.get_param t
  act-Written Action.in_progress t = status-Written t
  act-Written Action.completed t = status-Written t
  act-Written Action.waiting t = unwritten db t
  act-Written (Action.other name) t = unwritten db t

  pub handle_workflow_job-Written :
      (t : db.Table) → Written db t (handle_workflow_job db deps wf t).table
  unfolding handle_workflow_job
  handle_workflow_job-Written t = act-Written wf.action t
