-- ===== src/Provision/Handler/Retry.antt =====
-- What an error leaves in the table: a message that is delivered again finds its run where it was.
use lambda_ciactions.Common.{
  ◌≡◌, ◌≢◌, refl, Bool, true, false, Option, none, some, List, [], ◌∷◌, ◌++◌, arith, inl, inr,
}
use lambda_ciactions.Common.Tests.{Bool-cases, Option-cases}
use lambda_ciactions.Common.Text.{Text}
use lambda_ciactions.Shared.Types.{provisioning}
use lambda_ciactions.Shared.RunStore.{RunRow, TransitionInput, present, run_pk, can_transition}
use lambda_ciactions.Shared.RunStore.Writes.{Dynamo, transition_run}
use lambda_ciactions.Shared.RunStore.Guarded.{
  Transitioned, may_move, advanced, rejected, threw, threw_late, transition_run_lem,
}
use lambda_ciactions.Shared.Microvm.{Launched, launch_micro_vm}
use lambda_ciactions.Ingest.Filter.{ProvisionRequest}
use lambda_ciactions.Provision.Reasons.{refusal_message}
use lambda_ciactions.Provision.Handler
use lambda_ciactions.Provision.Handler.{
  Deps, Call, generate_jit_config, Provisioned, Ending, Cause, launch_failed, launch, mint_failure,
  move_to, provision_one, after_launch, launch_params, jit_config_item, sent, skipped,
}
use lambda_ciactions.Provision.Handler.Routes.{
  Route, degraded, unresolved, imageless, parameterless, refused, failed_mint, launching,
  route-Route,
}

-- An error that asks for another delivery.
pub record Retryable (e : Ending) : Type 0 where
  pub cause : Cause
  pub thrown : e ≡ Ending.threw cause
  pub passing : cause ≢ launch_failed

module _ (db : Dynamo) (deps : Deps) (req : ProvisionRequest) where
  after_launch_table :
      (flavor : Text) (calls : List Call) (l : Launched) (t : db.Table)
      → Retryable (after_launch db deps req flavor calls l t).ending
      → (after_launch db deps req flavor calls l t).table ≡ t
  after_launch_table flavor calls (Launched.launched id) t r = let e = r.thrown in ground arith
  after_launch_table flavor calls (Launched.failed err) t r =
      let e = r.thrown in let n = r.passing in ground arith

  launch_table :
      (broker flavor image jit_config : Text) (calls : List Call) (t : db.Table)
      → let p = launch db deps req broker flavor image jit_config calls t in
        Retryable p.ending → p.table ≡ t
  unfolding launch
  launch_table broker flavor image jit_config calls t r = elim (Bool-cases deps.jit_config_stored) [
    | inr lost ↦ ground arith
    | inl stored ↦
        let result = launch_micro_vm deps.run_microvm (launch_params deps req broker image) in
        ground (
          arith,
          after_launch_table flavor
              ((calls ++ (Call.put_jit_config (jit_config_item deps req jit_config) ∷ []))
                ++ sent result.0)
              result.1 t,
        )
  ]

  mint_failure_table :
      (flavor : Text) (calls : List Call) (message : Text) (t : db.Table)
      → let p = mint_failure db deps req flavor calls message t in Retryable p.ending → p.table ≡ t
  unfolding mint_failure
  mint_failure_table flavor calls message t r = let e = r.thrown in ground arith

  route_table :
      (broker : Text) (t : db.Table) (p : Provisioned db.Table)
      → Route db deps req broker t p
      → Retryable p.ending
      → p.table ≡ t
  route_table broker t p degraded r = refl
  route_table broker t p (unresolved flavor name read) r = let e = r.thrown in ground arith
  route_table broker t p imageless r = refl
  route_table broker t p parameterless r = refl
  route_table broker t p (refused flavor refusal e) r =
      mint_failure_table flavor [] (refusal_message refusal) t r
  route_table broker t p (failed_mint flavor message m e) r =
      mint_failure_table flavor (generate_jit_config m ∷ []) message t r
  route_table broker t p (launching flavor image jit_config m before e g) r =
      launch_table broker flavor image jit_config (generate_jit_config m ∷ []) t r

  abbrev to_provisioning : TransitionInput
  to_provisioning = move_to req provisioning none none

  abbrev key : Text
  key = run_pk req.repo_id req.run_id req.job_id

  still_open :
      (old new : Option RunRow) (answer : Option Bool)
      → Transitioned to_provisioning deps.started_at deps.retention old answer new
      → answer ≢ some false
      → may_move to_provisioning old ≡ true
      → may_move to_provisioning new ≡ true
  unfolding may_move can_transition
  still_open none new (some true) (advanced h) n o = h
  still_open (some r) new (some true) (advanced h) n o = refl
  still_open old new answer (rejected h) n o = absurd (n refl)
  still_open old new answer threw n o = o
  still_open none new none (threw_late h) n o = h
  still_open (some r) new none (threw_late h) n o = refl

  advanced_open :
      (broker : Text) (before : db.Table) (answer : Option Bool) (t : db.Table)
      → Transitioned to_provisioning deps.started_at deps.retention
          (db.get key before)
          answer
          (db.get key t)
      → Retryable (Handler.advanced db deps req broker answer t).ending
      → may_move to_provisioning (db.get key before) ≡ true
      → may_move to_provisioning (db.get key (Handler.advanced db deps req broker answer t).table)
        ≡ true
  advanced_open broker before (some false) t m r o = let e = r.thrown in ground arith
  advanced_open broker before (some true) t m r o =
      rw (route_table broker t _ (route-Route db deps req broker t) r)
        (still_open (db.get key before) (db.get key t) (some true) m (λ e. ground arith) o)
  advanced_open broker before none t m r o =
      rw (route_table broker t _ (route-Route db deps req broker t) r)
        (still_open (db.get key before) (db.get key t) none m (λ e. ground arith) o)

  -- Where `provisionOne` throws for any other reason than a failed launch, a run that could move to
  -- `provisioning` before still can: the next delivery of the message is not skipped.
  pub provision_one-Retryable :
      (t : db.Table)
      → Retryable (provision_one db deps req t).ending
      → may_move to_provisioning (db.get key t) ≡ true
      → may_move to_provisioning (db.get key (provision_one db deps req t).table) ≡ true
  unfolding provision_one
  provision_one-Retryable t r open_before = elim (Option-cases (present deps.broker_name)) [
    | inl e ↦ rw (e, provision_one) open_before
    | inr (broker, e) ↦
        let answer = transition_run db to_provisioning deps.started_at deps.retention t in
        rw (e, provision_one)
          (advanced_open broker t answer.1 answer.0
            (transition_run_lem db to_provisioning deps.started_at deps.retention t)
            (rw (e, provision_one) at r) open_before)
  ]
