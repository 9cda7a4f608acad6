-- ===== src/Provision/Handler/Launch.antt =====
-- What a launch leaves in the row, and what the broker answers to the VM then.
use lambda_ciactions.Common.{
  ℕ, ◌≡◌, ◌≢◌, refl, sym, ap, ◌∙◌, Bool, true, false, Option, none, some, List, [], ◌∷◌, arith, inl,
  inr,
}
use lambda_ciactions.Common.Tests.{Bool-cases}
use lambda_ciactions.Common.Text.{Text, is_nonempty}
use lambda_ciactions.Shared.Types.{provisioning, running}
use lambda_ciactions.Shared.RunStore.{RunRow, TransitionInput, build_stamp_update, run_pk}
use lambda_ciactions.Shared.RunStore.Rows.{assign_all-stamp, meets}
use lambda_ciactions.Shared.RunStore.Writes
use lambda_ciactions.Shared.RunStore.Writes.{
  Dynamo, Outcome, Answers, done, lost_before, lost_after, admits, updated, fault, transition_run,
  stamp_microvm_id,
}
use lambda_ciactions.Shared.RunStore.Guarded
use lambda_ciactions.Shared.RunStore.Guarded.{Transitioned, transition_run_lem}
use lambda_ciactions.Shared.Microvm.{Launched, launch_micro_vm}
use lambda_ciactions.Ingest.Filter.{ProvisionRequest}
use lambda_ciactions.Provision.Handler.{
  Deps, Call, generate_jit_config, launched_vm, launch, record_vm, move_to, provision_one,
  after_launch, launch_params,
}
use lambda_ciactions.Provision.Handler.Routes.{launch_stored}
use lambda_ciactions.Provision.Handler.Tried.{succeeded, begun, provision_one-Tried}
use lambda_ciactions.Provision.Handler.Skip.{Reliable}

-- A row that knows its VM and the hash of its token.
pub record Stamped (id hash : Text) (o : Option RunRow) : Type 0 where
  pub row : RunRow
  pub exists : o ≡ some row
  pub vm : row.microvm_id ≡ some id
  pub token : row.hook_token_hash ≡ some hash

updated-Stamped :
    (id hash : Text) (r : RunRow)
    → is_nonempty hash ≡ true
    → Stamped id hash (updated (build_stamp_update id (some hash)) (some r))
updated-Stamped id hash r h =
    rw (assign_all-stamp id (some hash) r)
      (rw h (record { row = _; exists = refl; vm = refl; token = refl }))

stamp_answers :
    (id hash : Text) (old new : Option RunRow) (o : Outcome)
    → is_nonempty hash ≡ true
    → old ≢ none
    → o ≢ fault
    → Answers
        (admits (build_stamp_update id (some hash)) old)
        old
        (updated (build_stamp_update id (some hash)) old)
        o
        new
    → Stamped id hash new
unfolding build_stamp_update meets
stamp_answers id hash none new o h e n a = absurd (e refl)
stamp_answers id hash (some r) new o h e n (done k) = updated-Stamped id hash r h
stamp_answers id hash (some r) new o h e n (Writes.refused k) =
    absurd (let no : true ≡ false = k in ground arith)
stamp_answers id hash (some r) new o h e n lost_before = absurd (n refl)
stamp_answers id hash (some r) new o h e n (lost_after k) = absurd (n refl)

transition-Stamped :
    (input : TransitionInput) (now retention : ℕ) (id hash : Text) (old new : Option RunRow)
    (answer : Option Bool)
    → input.microvm_id ≡ none
    → Transitioned input now retention old answer new
    → Stamped id hash old
    → Stamped id hash new
transition-Stamped input now retention id hash none new answer m h s =
    let e = s.exists in ground arith
transition-Stamped input now retention id hash (some r) new answer m (Guarded.advanced h) s =
    let e = s.exists in
    let vm = s.vm in
    let token = s.token in
    record { row = _; exists = refl; vm = ground arith; token = ground arith }
transition-Stamped input now retention id hash (some r) new answer m (Guarded.rejected h) s = s
transition-Stamped input now retention id hash (some r) new answer m Guarded.threw s = s
transition-Stamped input now retention id hash (some r) new answer m (Guarded.threw_late h) s =
    let e = s.exists in
    let vm = s.vm in
    let token = s.token in
    record { row = _; exists = refl; vm = ground arith; token = ground arith }

transition_present :
    (input : TransitionInput) (now retention : ℕ) (old new : Option RunRow) (answer : Option Bool)
    → Transitioned input now retention old answer new
    → old ≢ none
    → new ≢ none
transition_present input now retention none new answer m n = absurd (n refl)
transition_present input now retention (some r) new answer (Guarded.advanced h) n = ground arith
transition_present input now retention (some r) new answer (Guarded.rejected h) n = n
transition_present input now retention (some r) new answer Guarded.threw n = n
transition_present input now retention (some r) new answer (Guarded.threw_late h) n = ground arith

module _ (db : Dynamo) (deps : Deps) (req : ProvisionRequest) (reliable : Reliable db) where
  abbrev key : Text
  key = run_pk req.repo_id req.run_id req.job_id

  abbrev token_hash : Text
  token_hash = deps.hash_hook_token deps.hook_token

  record_vm-Stamped :
      (flavor id : Text) (t : db.Table)
      → is_nonempty token_hash ≡ true
      → db.get key t ≢ none
      → Stamped id token_hash (db.get key (record_vm db deps req flavor id t))
  unfolding record_vm stamp_microvm_id Reliable
  record_vm-Stamped flavor id t h n =
      let u = build_stamp_update id (some token_hash) in
      transition-Stamped (move_to req running (some flavor) none) deps.ended_at deps.retention id
        token_hash _ _ _ refl
        (transition_run_lem db (move_to req running (some flavor) none) deps.ended_at deps.retention
          (db.update key u t).0)
        (stamp_answers id token_hash (db.get key t) _ _ h n (reliable key u t)
          (db.update_answers key u t))

  after_launch-Stamped :
      (flavor id : Text) (calls : List Call) (l : Launched) (t : db.Table)
      → is_nonempty token_hash ≡ true
      → db.get key t ≢ none
      → (after_launch db deps req flavor calls l t).ending ≡ launched_vm id
      → Stamped id token_hash (db.get key (after_launch db deps req flavor calls l t).table)
  after_launch-Stamped flavor id calls (Launched.launched vm) t h n e =
      let same : vm ≡ id = ground arith in rw same (record_vm-Stamped flavor id t h n)
  after_launch-Stamped flavor id calls (Launched.failed err) t h n e = ground arith

  launch-Stamped :
      (broker flavor image jit_config id : Text) (calls : List Call) (t : db.Table)
      → is_nonempty token_hash ≡ true
      → db.get key t ≢ none
      → let p = launch db deps req broker flavor image jit_config calls t in
        p.ending ≡ launched_vm id → Stamped id token_hash (db.get key p.table)
  unfolding launch
  launch-Stamped broker flavor image jit_config id calls t h n e =
      elim (Bool-cases deps.jit_config_stored) [
        | inr lost ↦ ground arith
        | inl stored ↦
            let result = launch_micro_vm deps.run_microvm (launch_params deps req broker image) in
            let e' = launch_stored db deps req broker flavor image jit_config calls t stored in
            rw e' (after_launch-Stamped flavor id _ result.1 t h n (rw e' at e))
      ]

  -- Where a VM was launched for a run that has a row, over a table whose updates do not fail, the row
  -- knows the VM and the hash of its token in the end, whatever status it has reached meanwhile.
  pub provision_one-Stamped :
      (t : db.Table) (id : Text)
      → is_nonempty token_hash ≡ true
      → db.get key t ≢ none
      → (provision_one db deps req t).ending ≡ launched_vm id
      → Stamped id token_hash (db.get key (provision_one db deps req t).table)
  provision_one-Stamped t id h n e =
      let tried = provision_one-Tried db deps req t (launched_vm id) (succeeded id) e in
      let move = move_to req provisioning none none in
      rw tried.made (
        launch-Stamped tried.broker tried.flavor tried.image tried.jit_config id
          (generate_jit_config tried.request ∷ []) (begun db deps req t) h
          (transition_present move deps.started_at deps.retention (db.get key t) _ _
            (transition_run_lem db move deps.started_at deps.retention t) n)
          (ap (λ p. p.ending) (sym tried.made) ∙ e))
