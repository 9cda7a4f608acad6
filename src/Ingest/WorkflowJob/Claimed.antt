-- ===== src/Ingest/WorkflowJob/Claimed.antt =====
-- When a delivery is claimed, and what Provision makes of the message then.
use lambda_ciactions.Common.{
  ◌≤◌, ◌≡◌, ◌≢◌, refl, ap, ◌∙◌, true, false, Option, none, some, List, [], inl, inr, ◌⊎◌, arith,
}
use lambda_ciactions.Common.Lists.{In, length}
use lambda_ciactions.Common.Text.{Text}
use lambda_ciactions.Shared.RunStore.Writes.{Dynamo}
use lambda_ciactions.Ingest.Filter.{Action, WorkflowJobEvent, to_provision_request}
use lambda_ciactions.Provision.Labels.{mint_labels, mint, jit_runner_labels, max_jit_labels}
use lambda_ciactions.Provision.Labels.Advertised.{IsLiteral, decide_claim-mint_labels}
use lambda_ciactions.Ingest.WorkflowJob.{
  Deps, Ingested, QueueMessage, parse_claimed_labels, opted_out, passes, post_claim, queue_message,
  enqueue, with_labels, act, handle_workflow_job,
}
use lambda_ciactions.Ingest.WorkflowJob.Listed.{IsTaken, IsUnblocked}
use lambda_ciactions.Ingest.WorkflowJob.Gates.{
  Route, off, unlisted, in_group, incompatible, through, gates-Route, decision,
}

-- What a claim takes: a queued job, the allowlist at hand, a repo that is not switched off, labels that
-- can be served and are listed or adopted, and no match with an analysis that stands against it.
pub record Claimable (deps : Deps) (wf : WorkflowJobEvent) : Type 0 where
  pub value : Text
  pub is_queued : wf.action ≡ Action.queued
  pub allowlist : deps.get_param ≡ some value
  pub enabled : opted_out deps.get_repo ≡ false
  pub labels : IsTaken deps wf (parse_claimed_labels value)
  pub compatible : IsUnblocked deps wf

module _ (db : Dynamo) (deps : Deps) (wf : WorkflowJobEvent) where
  -- What a message that was sent says of the gates.
  record Sent (labels : List Text) (m : QueueMessage) : Type 0 where
    enabled : opted_out deps.get_repo ≡ false
    claims : (decision deps wf labels).claim ≡ true
    compatible : post_claim deps.list_workflow_analyses wf ≡ passes
    made : m ≡ queue_message wf (decision deps wf labels).via

  route_sent :
      (labels : List Text) (t : db.Table) (p : Ingested db.Table) (m : QueueMessage)
      → Route db deps wf labels t p
      → In m p.sent
      → Sent labels m
  unfolding enqueue
  route_sent labels t p m (off out) i = absurd i
  route_sent labels t p m (unlisted c) i = absurd i
  route_sent labels t p m (in_group group e) i = absurd i
  route_sent labels t p m (incompatible e) i = absurd i
  route_sent labels t p m (through o c e) (inl same) = record {
    enabled = o;
    claims = c;
    compatible = e;
    made = same;
  }
  route_sent labels t p m (through o c e) (inr nothing) = absurd nothing

  -- A message that was sent, for the delivery as a whole.
  record Delivered (m : QueueMessage) : Type 0 where
    value : Text
    is_queued : wf.action ≡ Action.queued
    allowlist : deps.get_param ≡ some value
    sent : Sent (parse_claimed_labels value) m

  delivered :
      (o : Option Text) (t : db.Table) (m : QueueMessage)
      → In m (with_labels db deps wf o t).sent
      → (value : Text) × (o ≡ some value) × Sent (parse_claimed_labels value) m
  delivered none t m i = absurd i
  delivered (some value) t m i =
      (value, refl, route_sent _ t _ m (gates-Route db deps wf (parse_claimed_labels value) t) i)

  Action-cases : (a : Action) → (a ≡ Action.queued) ⊎ (a ≢ Action.queued)
  Action-cases Action.queued = inl refl
  Action-cases Action.in_progress = inr (λ e. ground arith)
  Action-cases Action.completed = inr (λ e. ground arith)
  Action-cases Action.waiting = inr (λ e. ground arith)
  Action-cases (Action.other name) = inr (λ e. ground arith)

  other_actions : (a : Action) (t : db.Table) → a ≢ Action.queued → (act db deps wf a t).sent ≡ []
  unfolding act
  other_actions Action.queued t n = absurd (n refl)
  other_actions Action.in_progress t n = refl
  other_actions Action.completed t n = refl
  other_actions Action.waiting t n = refl
  other_actions (Action.other name) t n = refl

  pub handle_queued :
      (t : db.Table)
      → wf.action ≡ Action.queued
      → handle_workflow_job db deps wf t ≡ with_labels db deps wf deps.get_param t
  unfolding handle_workflow_job act
  handle_queued t e = ap (λ a. act db deps wf a t) e

  sent-Delivered :
      (t : db.Table) (m : QueueMessage) → In m (handle_workflow_job db deps wf t).sent → Delivered m
  unfolding handle_workflow_job
  sent-Delivered t m i = elim (Action-cases wf.action) [
    | inr other ↦ absurd (rw (other_actions wf.action t other) at i)
    | inl queued ↦
        let (value, e, s) = delivered deps.get_param t m (rw (handle_queued t queued) at i) in
        record { value = value; is_queued = queued; allowlist = e; sent = s }
  ]

  -- The labels of a message that was sent pass every guard in front of the mint, which then carries
  -- all literal ones, provided that one is literal and at most twenty remain.
  pub handle_workflow_job-mint_labels :
      (t : db.Table) (m : QueueMessage) (l : Text)
      → In m (handle_workflow_job db deps wf t).sent
      → In l wf.labels
      → IsLiteral l
      → length (jit_runner_labels wf.labels) ≤ max_jit_labels
      → mint_labels m.body.labels ≡ mint (jit_runner_labels wf.labels)
  unfolding queue_message to_provision_request
  handle_workflow_job-mint_labels t m l i k lit few =
      let d = sent-Delivered t m i in
      let same : m.body.labels ≡ wf.labels = ap (λ q. q.body.labels) d.sent.made in
      ap mint_labels same ∙ decide_claim-mint_labels wf.labels _ _ l d.sent.claims k lit few
