-- ===== src/Provision/Handler/Token.antt =====
-- The capability token does not reach the run row.
use lambda_ciactions.Common.{
  ℕ, ◌≡◌, refl, sym, ap, ◌∙◌, Bool, false, Option, none, some, List, [], ◌∷◌, arith, inl, inr,
}
use lambda_ciactions.Common.Tests.{Bool-cases}
use lambda_ciactions.Common.Text.{Text, has_substring}
use lambda_ciactions.Shared.Types.{provisioning, failed}
use lambda_ciactions.Shared.RunStore.{RunRow, TransitionInput, run_pk}
use lambda_ciactions.Shared.RunStore.Writes.{Dynamo}
use lambda_ciactions.Shared.RunStore.Guarded
use lambda_ciactions.Shared.RunStore.Guarded.{Transitioned, transition_run_lem}
use lambda_ciactions.Shared.Quota.{is_quota_error}
use lambda_ciactions.Shared.Redact.{redact_secret}
use lambda_ciactions.Shared.Redact.Masked.{IsToken, redact_secret-IsToken, has_substring-behind}
use lambda_ciactions.Shared.Microvm.{Launched, launch_micro_vm}
use lambda_ciactions.Ingest.Filter.{ProvisionRequest}
use lambda_ciactions.Provision.Reasons.{launch_text, launch_failed_word}
use lambda_ciactions.Provision.Handler
use lambda_ciactions.Provision.Handler.{
  Deps, Call, generate_jit_config, Provisioned, Ending, launch_failed, launch, mint_failure,
  mark_failed, move_to, provision_one, after_launch, launch_params,
}
use lambda_ciactions.Provision.Handler.Routes.{launch_stored}
use lambda_ciactions.Provision.Handler.Tried.{was_refused, begun, provision_one-Tried}

launch_text-IsToken :
    (message token : Text)
    → IsToken token
    → has_substring (launch_text (redact_secret message token)) token ≡ false
unfolding launch_text
launch_text-IsToken message token t =
    has_substring-behind launch_failed_word (redact_secret message token) token t (ground arith)
      (redact_secret-IsToken message token t)

-- The reason that a row shows, if any.
abbrev pub reason_of : Option RunRow → Option Text
reason_of none = none
reason_of (some r) = r.reason

-- The reason is that of before, or a text without the token.
pub data Clean (token : Text) (old new : Option RunRow) : Type 0 where
  kept : reason_of new ≡ reason_of old → Clean token old new
  scrubbed :
      (text : Text)
      → reason_of new ≡ some text
      → has_substring text token ≡ false
      → Clean token old new

marks :
    (input : TransitionInput) (now retention : ℕ) (token text : Text) (old new : Option RunRow)
    (answer : Option Bool)
    → input.reason ≡ some text
    → has_substring text token ≡ false
    → Transitioned input now retention old answer new
    → Clean token old new
marks input now retention token text none new answer e c (Guarded.advanced h) = kept refl
marks input now retention token text (some r) new answer e c (Guarded.advanced h) =
    scrubbed text (rw e refl) c
marks input now retention token text old new answer e c (Guarded.rejected h) = kept refl
marks input now retention token text old new answer e c Guarded.threw = kept refl
marks input now retention token text none new answer e c (Guarded.threw_late h) = kept refl
marks input now retention token text (some r) new answer e c (Guarded.threw_late h) =
    scrubbed text (rw e refl) c

moves :
    (input : TransitionInput) (now retention : ℕ) (old new : Option RunRow) (answer : Option Bool)
    → input.reason ≡ none
    → Transitioned input now retention old answer new
    → reason_of new ≡ reason_of old
moves input now retention none new answer e (Guarded.advanced h) = refl
moves input now retention (some r) new answer e (Guarded.advanced h) = rw e refl
moves input now retention old new answer e (Guarded.rejected h) = refl
moves input now retention old new answer e Guarded.threw = refl
moves input now retention none new answer e (Guarded.threw_late h) = refl
moves input now retention (some r) new answer e (Guarded.threw_late h) = rw e refl

Clean-back :
    (token : Text) (a b c : Option RunRow)
    → reason_of b ≡ reason_of a
    → Clean token b c
    → Clean token a c
Clean-back token a b c e (kept k) = kept (k ∙ e)
Clean-back token a b c e (scrubbed text k n) = scrubbed text k n

module _ (db : Dynamo) (deps : Deps) (req : ProvisionRequest)
    (token : IsToken deps.hook_token) where
  abbrev key : Text
  key = run_pk req.repo_id req.run_id req.job_id

  after_launch-Clean :
      (flavor : Text) (calls : List Call) (l : Launched) (t : db.Table)
      → (after_launch db deps req flavor calls l t).ending ≡ Ending.threw launch_failed
      → Clean deps.hook_token
          (db.get key t)
          (db.get key (after_launch db deps req flavor calls l t).table)
  unfolding mark_failed
  after_launch-Clean flavor calls (Launched.launched id) t e = ground arith
  after_launch-Clean flavor calls (Launched.failed err) t e =
      elim (Bool-cases (is_quota_error err)) [
        | inl q ↦
            let no : Ending.threw Handler.throttled ≡ Ending.threw launch_failed = rw q at e in
            ground arith
        | inr q ↦
            let text = launch_text (redact_secret err.message deps.hook_token) in
            rw q (
              marks (move_to req failed (some flavor) (some text)) deps.ended_at deps.retention
                deps.hook_token text (db.get key t) _ _ refl
                (launch_text-IsToken err.message deps.hook_token token)
                (transition_run_lem db (move_to req failed (some flavor) (some text)) deps.ended_at
                  deps.retention t))
      ]

  launch-Clean :
      (broker flavor image jit_config : Text) (calls : List Call) (t : db.Table)
      → let p = launch db deps req broker flavor image jit_config calls t in
        p.ending ≡ Ending.threw launch_failed
        → Clean deps.hook_token (db.get key t) (db.get key p.table)
  unfolding launch
  launch-Clean broker flavor image jit_config calls t e = elim (Bool-cases deps.jit_config_stored) [
    | inr lost ↦ ground arith
    | inl stored ↦
        let result = launch_micro_vm deps.run_microvm (launch_params deps req broker image) in
        let e' = launch_stored db deps req broker flavor image jit_config calls t stored in
        rw e' (after_launch-Clean flavor _ result.1 t (rw e' at e))
  ]

  -- A launch that fails may quote the request with the plaintext token: the reason that the run row
  -- shows afterwards is the one it had, or a text in which the token does not occur.
  pub provision_one-Clean :
      (t : db.Table)
      → (provision_one db deps req t).ending ≡ Ending.threw launch_failed
      → Clean deps.hook_token (db.get key t) (db.get key (provision_one db deps req t).table)
  provision_one-Clean t e =
      let tried = provision_one-Tried db deps req t (Ending.threw launch_failed) was_refused e in
      let move = move_to req provisioning none none in
      Clean-back deps.hook_token (db.get key t) (db.get key (begun db deps req t)) _
        (moves move deps.started_at deps.retention (db.get key t) _ _ refl
          (transition_run_lem db move deps.started_at deps.retention t))
        (rw tried.made (
          launch-Clean tried.broker tried.flavor tried.image tried.jit_config
            (generate_jit_config tried.request ∷ []) (begun db deps req t)
            (ap (λ p. p.ending) (sym tried.made) ∙ e)))
