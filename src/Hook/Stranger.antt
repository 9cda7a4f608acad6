-- ===== src/Hook/Stranger.antt =====
-- What the broker tells a caller without the token of the run that it names.
use lambda_ciactions.Common.{◌≡◌, refl, Bool, false, inl, inr, Option, some}
use lambda_ciactions.Common.Tests.{Bool-cases}
use lambda_ciactions.Common.Text.{Text}
use lambda_ciactions.Shared.RunStore.{JitConfigPayload}
use lambda_ciactions.Hook.{
  HookAction, jitconfig, terminate, HookBrokerRequest, ParsedHookRequest, parsed,
  parse_hook_request, keys_from_ref,
}
use lambda_ciactions.Hook.Broker.{
  Crypto, BrokerDeps, RunFields, Read, found, missing, unread, denied, quietly, hook_token_matches,
  handle_jitconfig, handle_unstamped, is_unstamped, handle_terminate, serve, handle,
}

module _ (crypto : Crypto) where
  -- The read succeeds, and what it finds, if anything, is not for this token.
  pub data IsForeign {A : Type 0} (token : Text) (hash_of : A → Option Text) : Read A → Type 0 where
    nothing : IsForeign token hash_of missing
    other :
        {x : A}
        → hook_token_matches crypto token (hash_of x) ≡ false
        → IsForeign token hash_of (found x)

  abbrev pub jit_hash : JitConfigPayload → Option Text
  jit_hash item = item.hook_token_hash

  abbrev pub row_hash : RunFields → Option Text
  row_hash row = row.hook_token_hash

  jitconfig_denied :
      (token : Text) (jit : Read JitConfigPayload)
      → IsForeign token jit_hash jit
      → handle_jitconfig crypto token jit ≡ quietly (some denied)
  unfolding handle_jitconfig
  jitconfig_denied token missing f = refl
  jitconfig_denied token (found item) (other h) = rw h refl
  jitconfig_denied token unread f = elim f [ ]

  unstamped_denied :
      (token : Text) (jit : Read JitConfigPayload)
      → IsForeign token jit_hash jit
      → handle_unstamped crypto token jit ≡ quietly (some denied)
  unfolding handle_unstamped
  unstamped_denied token missing f = refl
  unstamped_denied token (found item) (other h) = rw h refl
  unstamped_denied token unread f = elim f [ ]

  terminate_denied :
      (termination : Text → Bool) (token : Text) (jit : Read JitConfigPayload)
      (row : Read RunFields)
      → IsForeign token jit_hash jit
      → IsForeign token row_hash row
      → handle_terminate crypto termination token jit row ≡ quietly (some denied)
  unfolding handle_terminate
  terminate_denied termination token jit missing f g = unstamped_denied token jit f
  terminate_denied termination token jit (found row) f (other h) =
      elim (Bool-cases (is_unstamped row.hook_token_hash)) [
        | inl e ↦ rw e (unstamped_denied token jit f)
        | inr e ↦ rw (e, h) refl
      ]
  terminate_denied termination token jit unread f g = elim g [ ]

  serve-denied :
      (deps : BrokerDeps) (action : HookAction) (ref token : Text)
      → IsForeign token jit_hash (deps.get_jit_config_by_ref ref)
      → IsForeign token row_hash
          (deps.get_run_fields_by_key (keys_from_ref ref).pk (keys_from_ref ref).run_sk)
      → serve crypto deps action ref token ≡ quietly (some denied)
  unfolding serve
  serve-denied deps jitconfig ref token f g = jitconfig_denied token _ f
  serve-denied deps terminate ref token f g = terminate_denied deps.termination token _ _ f g

  -- A caller whose token fits neither item of the run gets one and the same answer, and no VM is
  -- terminated: it cannot tell whether the run exists.
  pub handle-denied :
      (deps : BrokerDeps) (event : HookBrokerRequest) (req : ParsedHookRequest)
      → parse_hook_request event ≡ parsed req
      → IsForeign req.token jit_hash (deps.get_jit_config_by_ref req.ref)
      → IsForeign req.token row_hash
          (deps.get_run_fields_by_key (keys_from_ref req.ref).pk (keys_from_ref req.ref).run_sk)
      → handle crypto deps event ≡ quietly (some denied)
  unfolding handle
  handle-denied deps event req h f g = rw h (serve-denied deps req.action req.ref req.token f g)
