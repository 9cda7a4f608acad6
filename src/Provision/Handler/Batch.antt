-- ===== src/Provision/Handler/Batch.antt =====
-- All that a batch of messages does to the table is a sequence of guarded writes.
use lambda_ciactions.Common.{
  ◌≡◌, refl, Bool, true, false, Option, none, some, List, [], ◌∷◌, arith, inl, inr, ◌⊎◌,
}
use lambda_ciactions.Common.Tests.{Bool-cases, Option-cases}
use lambda_ciactions.Common.Text.{Text}
use lambda_ciactions.Shared.Types.{provisioning, running, failed}
use lambda_ciactions.Shared.RunStore.{present}
use lambda_ciactions.Shared.RunStore.Writes.{Dynamo, transition_run}
use lambda_ciactions.Shared.RunStore.Later.{Kept}
use lambda_ciactions.Shared.RunStore.History.{
  transition, stamp, write, write_all, Written, unwritten, then, Written-Kept,
}
use lambda_ciactions.Shared.Microvm.{Launched}
use lambda_ciactions.Ingest.Filter.{ProvisionRequest}
use lambda_ciactions.Shared.Quota.{is_quota_error}
use lambda_ciactions.Provision.Labels.{
  MintFailureClassification, MintFailureKind, permanent, transient,
}
use lambda_ciactions.Provision.Reasons.{refusal_message, unroutable_text}
use lambda_ciactions.Provision.Handler
use lambda_ciactions.Provision.Handler.{
  Deps, Call, generate_jit_config, Provisioned, launch, mint_failure, mark_failed, record_vm,
  move_to, provision_one, after_launch, launch_params, SqsRecord, handle_record, handle_batch,
  classified,
}
use lambda_ciactions.Provision.Handler.Routes.{
  Route, degraded, unresolved, imageless, parameterless, refused, failed_mint, launching,
  route-Route, launch_stored,
}

Kind-cases : (k : MintFailureKind) → (k ≡ permanent) ⊎ (k ≡ transient)
Kind-cases permanent = inl refl
Kind-cases transient = inr refl

module _ (db : Dynamo) where
  module _ (deps : Deps) (req : ProvisionRequest) where
    marked :
        (flavor reason : Text) (t : db.Table)
        → Written db t (mark_failed db deps req flavor reason t)
    unfolding mark_failed write_all write
    marked flavor reason t = record {
      writes =
          transition (move_to req failed (some flavor) (some reason)) deps.ended_at deps.retention
          ∷ [];
      made = refl;
    }

    recorded : (flavor id : Text) (t : db.Table) → Written db t (record_vm db deps req flavor id t)
    unfolding record_vm write_all write
    recorded flavor id t = record {
      writes =
          stamp req.repo_id req.run_id req.job_id id (some (deps.hash_hook_token deps.hook_token))
          ∷ transition (move_to req running (some flavor) none) deps.ended_at deps.retention
          ∷ [];
      made = refl;
    }

    classified-Written :
        (flavor : Text) (calls : List Call) (message : Text) (c : MintFailureClassification)
        (t : db.Table)
        → Written db t (classified db deps req flavor calls message c t).table
    classified-Written flavor calls message c t = elim (Kind-cases c.kind) [
      | inl e ↦ rw e (marked flavor _ t)
      | inr e ↦ rw e (unwritten db t)
    ]

    mint_failure-Written :
        (flavor : Text) (calls : List Call) (message : Text) (t : db.Table)
        → Written db t (mint_failure db deps req flavor calls message t).table
    unfolding mint_failure
    mint_failure-Written flavor calls message t = classified-Written flavor calls message _ t

    after_launch-Written :
        (flavor : Text) (calls : List Call) (l : Launched) (t : db.Table)
        → Written db t (after_launch db deps req flavor calls l t).table
    after_launch-Written flavor calls (Launched.launched id) t = recorded flavor id t
    after_launch-Written flavor calls (Launched.failed err) t =
        elim (Bool-cases (is_quota_error err)) [
          | inl quota ↦ rw quota (unwritten db t)
          | inr other ↦ rw other (marked flavor _ t)
        ]

    launch-Written :
        (broker flavor image jit_config : Text) (calls : List Call) (t : db.Table)
        → Written db t (launch db deps req broker flavor image jit_config calls t).table
    unfolding launch
    launch-Written broker flavor image jit_config calls t =
        elim (Bool-cases deps.jit_config_stored) [
          | inl stored ↦
              let e = launch_stored db deps req broker flavor image jit_config calls t stored in
              rw e (after_launch-Written flavor _ _ t)
          | inr lost ↦
              let e : (launch db deps req broker flavor image jit_config calls t).table ≡ t =
                ground arith in
              rw e (unwritten db t)
        ]

    route-Written :
        (broker : Text) (t : db.Table) (p : Provisioned db.Table)
        → Route db deps req broker t p
        → Written db t p.table
    route-Written broker t p degraded = unwritten db t
    route-Written broker t p (unresolved flavor name read) = marked flavor (unroutable_text name) t
    route-Written broker t p imageless = unwritten db t
    route-Written broker t p parameterless = unwritten db t
    route-Written broker t p (refused flavor r e) =
        mint_failure-Written flavor [] (refusal_message r) t
    route-Written broker t p (failed_mint flavor message m e) =
        mint_failure-Written flavor (generate_jit_config m ∷ []) message t
    route-Written broker t p (launching flavor image jit_config m before e g) =
        launch-Written broker flavor image jit_config (generate_jit_config m ∷ []) t

    advanced-Written :
        (broker : Text) (answer : Option Bool) (t : db.Table)
        → Written db t (Handler.advanced db deps req broker answer t).table
    advanced-Written broker (some false) t = unwritten db t
    advanced-Written broker (some true) t =
        route-Written broker t _ (route-Route db deps req broker t)
    advanced-Written broker none t = route-Written broker t _ (route-Route db deps req broker t)

    provision_one-Written : (t : db.Table) → Written db t (provision_one db deps req t).table
    unfolding provision_one write_all write
    provision_one-Written t = elim (Option-cases (present deps.broker_name)) [
      | inl b ↦ rw (b, provision_one) (unwritten db t)
      | inr (broker, b) ↦
          let move = move_to req provisioning none none in
          let answer = transition_run db move deps.started_at deps.retention t in
          rw (b, provision_one)
            (then db t answer.0 _
              (record { writes = transition move deps.started_at deps.retention ∷ []; made = refl })
              (advanced-Written broker answer.1 answer.0))
    ]

  module _ (parse : Text → Option ProvisionRequest) (deps_of : Text → Deps) where
    handle_record-Written :
        (r : SqsRecord) (t : db.Table) → Written db t (handle_record db parse deps_of r t).0
    unfolding handle_record
    handle_record-Written r t = elim (Option-cases (parse r.body)) [
      | inl e ↦ rw (e, handle_record) (unwritten db t)
      | inr (req, e) ↦ rw (e, handle_record) (provision_one-Written (deps_of r.message_id) req t)
    ]

    pub handle_batch-Written :
        (rs : List SqsRecord) (failures : List Text) (t : db.Table)
        → Written db t (handle_batch db parse deps_of rs failures t).0
    unfolding handle_batch
    handle_batch-Written [] failures t = unwritten db t
    handle_batch-Written (r ∷ rs) failures t =
        then db t _ _ (handle_record-Written r t) (handle_batch-Written rs _ _)

    -- Whatever a batch holds, whatever GitHub, the stores and the control plane answer and whichever
    -- write fails: no run row is lost, every row only moves forward with its identity and watermarks
    -- kept, and a well-formed row stays so.
    pub handle_batch-Kept :
        (rs : List SqsRecord) (k : Text) (t : db.Table)
        → Kept (db.get k t) (db.get k (handle_batch db parse deps_of rs [] t).0)
    handle_batch-Kept rs k t = Written-Kept db t _ (handle_batch-Written rs [] t) k
