-- ===== src/Hook/Authority.antt =====
-- What a caller can obtain from the broker, and what it can learn.
use lambda_ciactions.Common.{◌≡◌, refl, Bool, true, arith, inl, inr, ◌⊎◌, Option, none, some, []}
use lambda_ciactions.Common.Tests.{Bool-cases}
use lambda_ciactions.Common.Lists.{In}
use lambda_ciactions.Common.Text.{Text, is_nonempty}
use lambda_ciactions.Shared.RunStore.{JitConfigPayload}
use lambda_ciactions.Hook.{
  HookAction, jitconfig, terminate, HookBrokerRequest, ParsedHookRequest, Parsed, parsed, refused,
  parse_hook_request, keys_from_ref,
}
use lambda_ciactions.Hook.Broker.{
  Crypto, BrokerDeps, RunFields, Read, found, missing, unread, hook_token_matches, handle_jitconfig,
  handle_unstamped, terminate_vm, is_unstamped, handle_terminate, serve, respond, handle,
}

terminate_vm-calls :
    (termination : Text → Bool) (o : Option Text) (id : Text)
    → In id (terminate_vm termination o).calls
    → o ≡ some id
unfolding terminate_vm
terminate_vm-calls termination none id m = absurd m
terminate_vm-calls termination (some x) id m = elim (Bool-cases (is_nonempty x)) [
  | inl e ↦ elim (rw (e, terminate_vm) at m) [ inl same ↦ cc | inr nothing ↦ absurd nothing ]
  | inr e ↦ absurd (rw (e, terminate_vm) at m)
]

action_cases : (a : HookAction) → (a ≡ jitconfig) ⊎ (a ≡ terminate)
action_cases jitconfig = inl refl
action_cases terminate = inr refl

module _ (crypto : Crypto) where
  -- The caller holds the token of the run row of its own reference, which names the VM.
  pub data MayTerminate (deps : BrokerDeps) (event : HookBrokerRequest) (id : Text) : Type 0 where
    owner :
        (req : ParsedHookRequest) (row : RunFields)
        → parse_hook_request event ≡ parsed req
        → req.action ≡ terminate
        → deps.get_run_fields_by_key (keys_from_ref req.ref).pk (keys_from_ref req.ref).run_sk
          ≡ found row
        → hook_token_matches crypto req.token row.hook_token_hash ≡ true
        → row.microvm_id ≡ some id
        → MayTerminate deps event id

  unstamped_calls :
      (token : Text) (jit : Read JitConfigPayload) → (handle_unstamped crypto token jit).calls ≡ []
  unfolding handle_unstamped
  unstamped_calls token jit = ground arith

  terminate_calls :
      (termination : Text → Bool) (token : Text) (jit : Read JitConfigPayload)
      (row : Read RunFields) (id : Text)
      → In id (handle_terminate crypto termination token jit row).calls
      → (fields : RunFields) × (row ≡ found fields)
        × (hook_token_matches crypto token fields.hook_token_hash ≡ true)
        × (fields.microvm_id ≡ some id)
  unfolding handle_terminate
  terminate_calls termination token jit unread id m = absurd m
  terminate_calls termination token jit missing id m = absurd (rw (unstamped_calls token jit) at m)
  terminate_calls termination token jit (found fields) id m =
      elim (Bool-cases (is_unstamped fields.hook_token_hash)) [
        | inl e ↦
            let k : In id (handle_unstamped crypto token jit).calls =
              rw (e, handle_terminate) at m in
            absurd (rw (unstamped_calls token jit) at k)
        | inr e ↦ elim (Bool-cases (hook_token_matches crypto token fields.hook_token_hash)) [
          | inl h ↦
              let k : In id (terminate_vm termination fields.microvm_id).calls =
                rw (e, h, handle_terminate) at m in
              (fields, refl, h, terminate_vm-calls termination fields.microvm_id id k)
          | inr h ↦ absurd (rw (e, h, handle_terminate) at m)
        ]
      ]

  jitconfig_calls :
      (token : Text) (jit : Read JitConfigPayload) → (handle_jitconfig crypto token jit).calls ≡ []
  unfolding handle_jitconfig
  jitconfig_calls token jit = ground arith

  serve-MayTerminate :
      (deps : BrokerDeps) (event : HookBrokerRequest) (id : Text) (p : Parsed)
      → parse_hook_request event ≡ p
      → In id (respond crypto deps p).calls
      → MayTerminate deps event id
  unfolding serve
  serve-MayTerminate deps event id (refused error) h m = absurd m
  serve-MayTerminate deps event id (parsed req) h m = elim (action_cases req.action) [
    | inl e ↦
        let k : In id (serve crypto deps jitconfig req.ref req.token).calls = rw e at m in
        absurd (rw (jitconfig_calls req.token (deps.get_jit_config_by_ref req.ref)) at k)
    | inr e ↦
        let k : In id (serve crypto deps terminate req.ref req.token).calls = rw e at m in
        let (row, read, matches, named) =
          terminate_calls deps.termination req.token (deps.get_jit_config_by_ref req.ref)
            (deps.get_run_fields_by_key (keys_from_ref req.ref).pk (keys_from_ref req.ref).run_sk)
            id k in
        owner req row h e read matches named
  ]

  -- A VM that the broker asks to terminate is named by the run row under the reference of the request,
  -- and the caller has presented the token whose hash that row stores.
  pub handle-MayTerminate :
      (deps : BrokerDeps) (event : HookBrokerRequest) (id : Text)
      → In id (handle crypto deps event).calls
      → MayTerminate deps event id
  unfolding handle
  handle-MayTerminate deps event id m =
      serve-MayTerminate deps event id (parse_hook_request event) refl m
