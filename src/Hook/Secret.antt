-- ===== src/Hook/Secret.antt =====
-- Who the broker hands a JIT config to.
use lambda_ciactions.Common.{
  ◌≡◌, refl, Bool, true, arith, ap, sym, ◌∙◌, inl, inr, Option, none, some,
}
use lambda_ciactions.Common.Tests.{Bool-cases}
use lambda_ciactions.Common.Text.{Text}
use lambda_ciactions.Shared.RunStore.{JitConfigPayload}
use lambda_ciactions.Hook.{
  HookAction, jitconfig, terminate, HookBrokerRequest, ParsedHookRequest, Parsed, parsed, refused,
  parse_hook_request, keys_from_ref,
}
use lambda_ciactions.Hook.Broker.{
  Crypto, BrokerDeps, RunFields, Handled, Read, found, missing, unread, hook_token_matches,
  handle_jitconfig, handle_unstamped, terminate_vm, is_unstamped, handle_terminate, serve, respond,
  handle,
}

-- The JIT config in an answer.
unfoldable pub revealed : Handled → Option JitConfigPayload
revealed h = elim h.result [ none ↦ none | some r ↦ r.jit ]

terminate_vm_hides :
    (termination : Text → Bool) (o : Option Text) → revealed (terminate_vm termination o) ≡ none
unfolding revealed terminate_vm
terminate_vm_hides termination o = ground arith

module _ (crypto : Crypto) where
  jitconfig_reveals :
      (token : Text) (jit : Read JitConfigPayload) (item : JitConfigPayload)
      → revealed (handle_jitconfig crypto token jit) ≡ some item
      → (jit ≡ found item) × (hook_token_matches crypto token item.hook_token_hash ≡ true)
  unfolding revealed handle_jitconfig
  jitconfig_reveals token unread item h = ground arith
  jitconfig_reveals token missing item h = ground arith
  jitconfig_reveals token (found x) item h =
      elim (Bool-cases (hook_token_matches crypto token x.hook_token_hash)) [
        | inl e ↦
            let k : some x ≡ some item = rw (e, handle_jitconfig) at h in
            let same : x ≡ item = ground arith in (ap found same, rw (← same) e)
        | inr e ↦ let k : none ≡ some item = rw (e, handle_jitconfig) at h in ground arith
      ]

  unstamped_hides :
      (token : Text) (jit : Read JitConfigPayload)
      → revealed (handle_unstamped crypto token jit) ≡ none
  unfolding revealed handle_unstamped
  unstamped_hides token jit = ground arith

  terminate_hides :
      (termination : Text → Bool) (token : Text) (jit : Read JitConfigPayload)
      (row : Read RunFields)
      → revealed (handle_terminate crypto termination token jit row) ≡ none
  unfolding handle_terminate revealed
  terminate_hides termination token jit unread = refl
  terminate_hides termination token jit missing = unstamped_hides token jit
  terminate_hides termination token jit (found row) =
      elim (Bool-cases (is_unstamped row.hook_token_hash)) [
        | inl e ↦ rw e (unstamped_hides token jit)
        | inr e ↦ elim (Bool-cases (hook_token_matches crypto token row.hook_token_hash)) [
          | inl h ↦ rw (e, h) (terminate_vm_hides termination row.microvm_id)
          | inr h ↦ rw (e, h) refl
        ]
      ]

  serve_reveals :
      (deps : BrokerDeps) (action : HookAction) (ref token : Text) (item : JitConfigPayload)
      → revealed (serve crypto deps action ref token) ≡ some item
      → (deps.get_jit_config_by_ref ref ≡ found item)
        × (hook_token_matches crypto token item.hook_token_hash ≡ true)
  unfolding serve
  serve_reveals deps jitconfig ref token item h = jitconfig_reveals token _ item h
  serve_reveals deps terminate ref token item h =
      let row = deps.get_run_fields_by_key (keys_from_ref ref).pk (keys_from_ref ref).run_sk in
      let k = terminate_hides deps.termination token (deps.get_jit_config_by_ref ref) row in
      let q : none ≡ some item = sym k ∙ h in ground arith

  respond_reveals :
      (deps : BrokerDeps) (p : Parsed) (item : JitConfigPayload)
      → revealed (respond crypto deps p) ≡ some item
      → (req : ParsedHookRequest) × (p ≡ parsed req)
        × (deps.get_jit_config_by_ref req.ref ≡ found item)
        × (hook_token_matches crypto req.token item.hook_token_hash ≡ true)
  unfolding revealed
  respond_reveals deps (refused error) item h = ground arith
  respond_reveals deps (parsed req) item h =
      let (read, matches) = serve_reveals deps req.action req.ref req.token item h in
      (req, refl, read, matches)

  -- A JIT config that the broker reveals is the one under the reference of the request, and the
  -- caller has presented the token whose hash it carries.
  pub handle-revealed :
      (deps : BrokerDeps) (event : HookBrokerRequest) (item : JitConfigPayload)
      → revealed (handle crypto deps event) ≡ some item
      → (req : ParsedHookRequest) × (parse_hook_request event ≡ parsed req)
        × (deps.get_jit_config_by_ref req.ref ≡ found item)
        × (hook_token_matches crypto req.token item.hook_token_hash ≡ true)
  unfolding handle
  handle-revealed deps event item h = respond_reveals deps (parse_hook_request event) item h
