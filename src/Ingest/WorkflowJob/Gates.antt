-- ===== src/Ingest/WorkflowJob/Gates.antt =====
-- The ways that a queued job can take through the gates.
use lambda_ciactions.Common.{◌≡◌, refl, true, false, none, some, List, [], ◌∷◌, inl, inr}
use lambda_ciactions.Common.Tests.{Bool-cases}
use lambda_ciactions.Common.Text.{Text}
use lambda_ciactions.Shared.RunStore.Writes.{Dynamo}
use lambda_ciactions.Ingest.Adopt.{ClaimDecision, decide_claim}
use lambda_ciactions.Ingest.Filter.{WorkflowJobEvent}
use lambda_ciactions.Ingest.Refusal.{Gate}
use lambda_ciactions.Ingest.WorkflowJob.{
  Deps, Ingested, disabled, unclaimed, blocked, group_refused, PostClaim, passes, group_blocks,
  compat_blocks, mode_of, opted_out, claim_labels_with_custom, post_claim, refuse, answer, enqueue,
  after_post_claim, gates,
}

module _ (deps : Deps) (wf : WorkflowJobEvent) where
  -- The decision of the claim gate, over the allowlist and the labels of the custom flavors.
  abbrev pub decision : List Text → ClaimDecision
  decision labels =
      decide_claim wf.labels
        (claim_labels_with_custom wf.labels labels deps.list_custom_flavors).labels
        (mode_of deps.get_repo)

module _ (db : Dynamo) (deps : Deps) (wf : WorkflowJobEvent) where
  pub data Route (labels : List Text) (t : db.Table) : Ingested db.Table → Type 0 where
    off :
        opted_out deps.get_repo ≡ true
        → Route labels t (
            answer db deps wf
              (refuse wf labels (mode_of deps.get_repo) Gate.repo_disabled none ∷ [])
              disabled
              t)
    unlisted :
        (decision deps wf labels).claim ≡ false
        → Route labels t (
            answer db deps wf
              (refuse wf labels (mode_of deps.get_repo) Gate.claim none ∷ [])
              (unclaimed (decision deps wf labels).reason)
              t)
    in_group :
        (group : Text)
        → post_claim deps.list_workflow_analyses wf ≡ group_blocks group
        → Route labels t (
            answer db deps wf
              (refuse wf labels (mode_of deps.get_repo) Gate.runner_group (some group) ∷ [])
              (group_refused group)
              t)
    incompatible :
        post_claim deps.list_workflow_analyses wf ≡ compat_blocks
        → Route labels t (
            answer db deps wf
              (refuse wf labels (mode_of deps.get_repo) Gate.compat_block none ∷ [])
              blocked
              t)
    through :
        opted_out deps.get_repo ≡ false
        → (decision deps wf labels).claim ≡ true
        → post_claim deps.list_workflow_analyses wf ≡ passes
        → Route labels t (enqueue db deps wf (decision deps wf labels).via t)

  after_post_claim-Route :
      (labels : List Text) (t : db.Table) (p : PostClaim)
      → opted_out deps.get_repo ≡ false
      → (decision deps wf labels).claim ≡ true
      → post_claim deps.list_workflow_analyses wf ≡ p
      → Route labels t (
          after_post_claim db deps wf labels
            (mode_of deps.get_repo)
            (decision deps wf labels).via
            p
            t)
  after_post_claim-Route labels t passes o c e = through o c e
  after_post_claim-Route labels t (group_blocks group) o c e = in_group group e
  after_post_claim-Route labels t compat_blocks o c e = incompatible e

  pub gates-Route : (labels : List Text) (t : db.Table) → Route labels t (gates db deps wf labels t)
  unfolding gates
  gates-Route labels t = elim (Bool-cases (opted_out deps.get_repo)) [
    | inl out ↦ rw (out, gates) (off out)
    | inr kept ↦
        rw (kept, gates)
          (elim (Bool-cases (decision deps wf labels).claim) [
            | inr no_claim ↦ rw no_claim (unlisted no_claim)
            | inl claims ↦ rw claims (
                after_post_claim-Route labels t (post_claim deps.list_workflow_analyses wf) kept
                  claims refl)
          ])
  ]
