-- ===== src/Provision/Handler/Skip.antt =====
-- A message whose run has moved on is skipped, also after a failed launch.
use lambda_ciactions.Common.{
  ℕ, ◌≡◌, ◌≢◌, refl, sym, ap, ◌∙◌, Bool, false, Option, none, some, List, [], ◌∷◌, ◌++◌, arith, inl,
  inr,
}
use lambda_ciactions.Common.Tests.{Bool-cases}
use lambda_ciactions.Common.Text.{Text}
use lambda_ciactions.Shared.Types.{
  RunStatus, queued, provisioning, running, completed, failed, timed_out,
}
use lambda_ciactions.Shared.RunStore.{
  RunRow, RunUpdate, TransitionInput, present, run_pk, can_transition,
}
use lambda_ciactions.Shared.RunStore.Writes.{
  Dynamo, Outcome, applied, condition_failed, fault, settle, transition_run,
}
use lambda_ciactions.Shared.RunStore.Guarded
use lambda_ciactions.Shared.RunStore.Guarded.{
  Transitioned, may_move, rejected, threw, threw_late, transition_run_lem,
}
use lambda_ciactions.Shared.Quota.{is_quota_error}
use lambda_ciactions.Shared.Microvm.{Launched, launch_micro_vm}
use lambda_ciactions.Ingest.Filter.{ProvisionRequest}
use lambda_ciactions.Provision.Handler.{
  Deps, Call, generate_jit_config, put_jit_config, Ending, skipped, launch_failed, launch,
  mark_failed, move_to, provision_one, after_launch, launch_params, jit_config_item, sent,
}
use lambda_ciactions.Provision.Handler.Tried.{was_refused, begun, provision_one-Tried}

-- No update ends in an error.
unfoldable pub Reliable : Dynamo → Type 0
Reliable db = (k : Text) (u : RunUpdate) (t : db.Table) → (db.update k u t).1 ≢ fault

settle-none : (o : Outcome) → settle o ≡ none → o ≡ fault
unfolding settle
settle-none applied e = ground arith
settle-none condition_failed e = ground arith
settle-none fault e = refl

module _ (db : Dynamo) where
  settled :
      (input : TransitionInput) (now retention : ℕ) (t : db.Table)
      → Reliable db
      → (transition_run db input now retention t).1 ≢ none
  unfolding transition_run settle Reliable
  settled input now retention t r e = r _ _ t (settle-none _ e)

  skip_answer :
      (input : TransitionInput) (now retention : ℕ) (old new : Option RunRow) (answer : Option Bool)
      → Transitioned input now retention old answer new
      → may_move input old ≡ false
      → answer ≢ none
      → (answer ≡ some false) × (new ≡ old)
  skip_answer input now retention old new answer (Guarded.advanced h) c n = ground arith
  skip_answer input now retention old new answer (rejected h) c n = (refl, refl)
  skip_answer input now retention old new answer threw c n = absurd (n refl)
  skip_answer input now retention old new answer (threw_late h) c n = absurd (n refl)

  module _ (req : ProvisionRequest) where
    abbrev to_provisioning : TransitionInput
    to_provisioning = move_to req provisioning none none

    abbrev key : Text
    key = run_pk req.repo_id req.run_id req.job_id

    skipped_by_answer :
        (deps : Deps) (t : db.Table) (broker : Text)
        → present deps.broker_name ≡ some broker
        → (transition_run db to_provisioning deps.started_at deps.retention t).1 ≡ some false
        → provision_one db deps req t ≡ record {
          table = (transition_run db to_provisioning deps.started_at deps.retention t).0;
          calls = [];
          ending = skipped;
        }
    unfolding provision_one
    skipped_by_answer deps t broker b e = rw (b, provision_one) (rw e refl)

    -- A message whose run is missing or no longer waits is consumed: no mint, no configuration, no
    -- launch, and the row is left as it is. The broker's name must be set, and the write not fail.
    pub provision_one-skipped :
        (deps : Deps) (t : db.Table) (broker : Text)
        → present deps.broker_name ≡ some broker
        → may_move to_provisioning (db.get key t) ≡ false
        → (transition_run db to_provisioning deps.started_at deps.retention t).1 ≢ none
        → ((provision_one db deps req t).ending ≡ skipped)
          × ((provision_one db deps req t).calls ≡ [])
          × (db.get key (provision_one db deps req t).table ≡ db.get key t)
    provision_one-skipped deps t broker b m n =
        let (answer, same) =
          skip_answer to_provisioning deps.started_at deps.retention (db.get key t) _ _
            (transition_run_lem db to_provisioning deps.started_at deps.retention t) m n in
        let e = skipped_by_answer deps t broker b answer in rw e (refl, refl, same)

    failed_closed :
        (status : RunStatus)
        → can_transition status failed ≡ false
        → can_transition status provisioning ≡ false
    unfolding can_transition
    failed_closed queued h = ground arith
    failed_closed provisioning h = ground arith
    failed_closed running h = ground arith
    failed_closed completed h = refl
    failed_closed failed h = refl
    failed_closed timed_out h = refl

    failed_final : can_transition failed provisioning ≡ false
    unfolding can_transition
    failed_final = refl

    closed :
        (flavor reason : Option Text) (now retention : ℕ) (old new : Option RunRow)
        (answer : Option Bool)
        → Transitioned (move_to req failed flavor reason) now retention old answer new
        → answer ≢ none
        → may_move to_provisioning new ≡ false
    unfolding may_move
    closed flavor reason now retention none new answer (Guarded.advanced h) n = refl
    closed flavor reason now retention (some r) new answer (Guarded.advanced h) n = failed_final
    closed flavor reason now retention none new answer (rejected h) n = refl
    closed flavor reason now retention (some r) new answer (rejected h) n = failed_closed r.status h
    closed flavor reason now retention old new answer threw n = absurd (n refl)
    closed flavor reason now retention old new answer (threw_late h) n = absurd (n refl)

    module _ (deps : Deps) (reliable : Reliable db) where
      mark_closed :
          (flavor reason : Text) (t : db.Table)
          → may_move to_provisioning (db.get key (mark_failed db deps req flavor reason t)) ≡ false
      unfolding mark_failed
      mark_closed flavor reason t =
          closed (some flavor) (some reason) deps.ended_at deps.retention (db.get key t) _ _
            (transition_run_lem db (move_to req failed (some flavor) (some reason)) deps.ended_at
              deps.retention t)
            (settled _ deps.ended_at deps.retention t reliable)

      after_launch_closed :
          (flavor : Text) (calls : List Call) (l : Launched) (t : db.Table)
          → (after_launch db deps req flavor calls l t).ending ≡ Ending.threw launch_failed
          → may_move to_provisioning (db.get key (after_launch db deps req flavor calls l t).table)
            ≡ false
      after_launch_closed flavor calls (Launched.launched id) t e = ground arith
      after_launch_closed flavor calls (Launched.failed err) t e =
          elim (Bool-cases (is_quota_error err)) [
            | inl q ↦ ground arith
            | inr q ↦ rw q (mark_closed flavor _ t)
          ]

      launch_closed :
          (broker flavor image jit_config : Text) (calls : List Call) (t : db.Table)
          → let p = launch db deps req broker flavor image jit_config calls t in
            p.ending ≡ Ending.threw launch_failed
            → may_move to_provisioning (db.get key p.table) ≡ false
      unfolding launch
      launch_closed broker flavor image jit_config calls t e =
          elim (Bool-cases deps.jit_config_stored) [
            | inr lost ↦ ground arith
            | inl stored ↦
                let result =
                  launch_micro_vm deps.run_microvm (launch_params deps req broker image) in
                ground (
                  arith,
                  after_launch_closed flavor
                      ((calls ++ (put_jit_config (jit_config_item deps req jit_config) ∷ []))
                        ++ sent result.0)
                      result.1 t,
                )
          ]

      launch_failed_closed :
          (t : db.Table)
          → (provision_one db deps req t).ending ≡ Ending.threw launch_failed
          → may_move to_provisioning (db.get key (provision_one db deps req t).table) ≡ false
      launch_failed_closed t e =
          let tried =
            provision_one-Tried db deps req t (Ending.threw launch_failed) was_refused e in
          rw tried.made (
            launch_closed tried.broker tried.flavor tried.image tried.jit_config
              (generate_jit_config tried.request ∷ []) (begun db deps req t)
              (ap (λ p. p.ending) (sym tried.made) ∙ e))

    -- After a launch that failed for any other reason than quota the message is thrown back, and over
    -- a table whose updates do not fail its next delivery, whatever the services answer then, is
    -- consumed without a mint or a launch.
    pub provision_one-launch_failed :
        (first later : Deps) (t : db.Table) (broker : Text)
        → Reliable db
        → (provision_one db first req t).ending ≡ Ending.threw launch_failed
        → present later.broker_name ≡ some broker
        → let again = provision_one db later req (provision_one db first req t).table in
          (again.ending ≡ skipped) × (again.calls ≡ [])
    provision_one-launch_failed first later t broker reliable e b =
        let (ending, calls, same) =
          provision_one-skipped later (provision_one db first req t).table broker b
            (launch_failed_closed first reliable t e)
            (settled to_provisioning later.started_at later.retention _ reliable) in
        (ending, calls)
