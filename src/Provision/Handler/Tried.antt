-- ===== src/Provision/Handler/Tried.antt =====
-- Where a message ends with a launch, or a launch that failed, one way led there.
use lambda_ciactions.Common.{
  ◌≡◌, refl, Bool, true, false, Option, none, some, List, [], ◌∷◌, arith, inl, inr,
}
use lambda_ciactions.Common.Tests.{Option-cases}
use lambda_ciactions.Common.Text.{Text}
use lambda_ciactions.Shared.Types.{provisioning}
use lambda_ciactions.Shared.RunStore.{present}
use lambda_ciactions.Shared.RunStore.Writes.{Dynamo, transition_run}
use lambda_ciactions.Ingest.Filter.{ProvisionRequest}
use lambda_ciactions.Provision.Reasons.{refusal_message}
use lambda_ciactions.Provision.Handler.{
  Deps, Call, MintRequest, generate_jit_config, Provisioned, Ending, launched_vm, threw,
  launch_failed, no_broker_name, launch, mint_failure, move_to, advanced, provision_one,
}
use lambda_ciactions.Provision.Handler.Routes.{
  Route, degraded, unresolved, imageless, parameterless, refused, failed_mint, launching,
  route-Route,
}

-- The endings behind a request to launch that was not throttled.
pub data Attempted : Ending → Type 0 where
  succeeded : (id : Text) → Attempted (launched_vm id)
  was_refused : Attempted (threw launch_failed)

module _ (db : Dynamo) (deps : Deps) (req : ProvisionRequest) where
  pub record Tried (t : db.Table) (p : Provisioned db.Table) : Type 0 where
    pub broker : Text
    pub flavor : Text
    pub image : Text
    pub jit_config : Text
    pub request : MintRequest
    pub made :
        p ≡ launch db deps req broker flavor image jit_config (generate_jit_config request ∷ []) t

  mint_failure_ending :
      (flavor : Text) (calls : List Call) (message : Text) (t : db.Table) (e : Ending)
      → Attempted e
      → (mint_failure db deps req flavor calls message t).ending ≡ e
      → ⊥
  unfolding mint_failure
  mint_failure_ending flavor calls message t e (succeeded id) h = ground arith
  mint_failure_ending flavor calls message t e was_refused h = ground arith

  route-Tried :
      (broker : Text) (t : db.Table) (p : Provisioned db.Table) (e : Ending)
      → Route db deps req broker t p
      → Attempted e
      → p.ending ≡ e
      → Tried t p
  route-Tried broker t p e degraded (succeeded id) h = ground arith
  route-Tried broker t p e degraded was_refused h = ground arith
  route-Tried broker t p e (unresolved flavor name read) (succeeded id) h = ground arith
  route-Tried broker t p e (unresolved flavor name read) was_refused h = ground arith
  route-Tried broker t p e imageless (succeeded id) h = ground arith
  route-Tried broker t p e imageless was_refused h = ground arith
  route-Tried broker t p e parameterless (succeeded id) h = ground arith
  route-Tried broker t p e parameterless was_refused h = ground arith
  route-Tried broker t p e (refused flavor r m) a h =
      absurd (mint_failure_ending flavor [] (refusal_message r) t e a h)
  route-Tried broker t p e (failed_mint flavor message m g) a h =
      absurd (mint_failure_ending flavor (generate_jit_config m ∷ []) message t e a h)
  route-Tried broker t p e (launching flavor image jit_config m before l g) a h = record {
    broker = broker;
    flavor = flavor;
    image = image;
    jit_config = jit_config;
    request = m;
    made = refl;
  }

  advanced-Tried :
      (broker : Text) (answer : Option Bool) (t : db.Table) (e : Ending)
      → Attempted e
      → (advanced db deps req broker answer t).ending ≡ e
      → Tried t (advanced db deps req broker answer t)
  advanced-Tried broker (some false) t e (succeeded id) h = ground arith
  advanced-Tried broker (some false) t e was_refused h = ground arith
  advanced-Tried broker (some true) t e a h =
      route-Tried broker t _ e (route-Route db deps req broker t) a h
  advanced-Tried broker none t e a h =
      route-Tried broker t _ e (route-Route db deps req broker t) a h

  unnamed_ending : (e : Ending) → Attempted e → ¬ (threw no_broker_name ≡ e)
  unnamed_ending e (succeeded id) h = ground arith
  unnamed_ending e was_refused h = ground arith

  -- The table behind the move to `provisioning`.
  abbrev pub begun : db.Table → db.Table
  begun t =
      (transition_run db (move_to req provisioning none none) deps.started_at deps.retention t).0

  pub provision_one-Tried :
      (t : db.Table) (e : Ending)
      → Attempted e
      → (provision_one db deps req t).ending ≡ e
      → Tried (begun t) (provision_one db deps req t)
  unfolding provision_one
  provision_one-Tried t e a h = elim (Option-cases (present deps.broker_name)) [
    | inl b ↦ absurd (unnamed_ending e a (rw (b, provision_one) at h))
    | inr (broker, b) ↦
        let answer =
          transition_run db (move_to req provisioning none none) deps.started_at deps.retention t in
        rw (b, provision_one)
          (advanced-Tried broker answer.1 answer.0 e a (rw (b, provision_one) at h))
  ]
