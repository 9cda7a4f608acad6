-- ===== src/Hook/Broker.antt =====
-- src/hook/handler.ts: the handler of the hook broker.
use lambda_ciactions.Common.{Bool, true, false, ◌&&◌, not, Option, none, some, List, [], ◌∷◌}
use lambda_ciactions.Common.Tests.{if◌then◌else◌}
use lambda_ciactions.Common.Text.{Text, codes, text_eq, is_nonempty}
use lambda_ciactions.Shared.Types.{RunStatus}
use lambda_ciactions.Shared.RunStore.{JitConfigPayload}
use lambda_ciactions.Hook.{
  HookAction, jitconfig, terminate, HookBrokerRequest, Parsed, parsed, refused, parse_hook_request,
  keys_from_ref,
}

-- What `getRunFieldsByKey` projects out of a row.
pub record RunFields : Type 0 where
  pub microvm_id : Option Text
  pub status : Option RunStatus
  pub hook_token_hash : Option Text

pub record HookBrokerResult : Type 0 where
  pub ok : Bool
  pub jit : Option JitConfigPayload
  pub terminated : Option Bool
  pub error : Option Text

-- A read of the store; `unread` is a read that throws.
pub data Read {ℓ} (A : Type ℓ) : Type ℓ where
  found : A → Read A
  missing unread : Read A

-- SHA-256 as hex text, and `Buffer.from(s, 'hex')`.
pub record Crypto : Type 0 where
  pub sha256_hex : Text → Text
  pub from_hex : Text → Text

-- `termination id` says whether the request to terminate succeeds.
pub record BrokerDeps : Type 0 where
  pub get_jit_config_by_ref : Text → Read JitConfigPayload
  pub get_run_fields_by_key : Text → Text → Read RunFields
  pub termination : Text → Bool

-- The answer (`none` where a read throws), and the VMs it asked to terminate.
pub record Handled : Type 0 where
  pub result : Option HookBrokerResult
  pub calls : List Text

abbrev pub failing : Text → HookBrokerResult
failing error = record { ok = false; jit = none; terminated = none; error = some error }

abbrev pub denied : HookBrokerResult
denied = failing (codes "unauthorized")

abbrev pub bad_request : HookBrokerResult
bad_request = failing (codes "bad request")

abbrev pub terminated_is : Bool → HookBrokerResult
terminated_is b = record { ok = true; jit = none; terminated = some b; error = none }

abbrev pub jit_answer : JitConfigPayload → HookBrokerResult
jit_answer item = record { ok = true; jit = some item; terminated = none; error = none }

abbrev pub quietly : Option HookBrokerResult → Handled
quietly result = record { result = result; calls = [] }

-- `if (!microvmId)`, and the call.
unfoldable pub terminate_vm : (Text → Bool) → Option Text → Handled
terminate_vm termination none = quietly (some (terminated_is false))
terminate_vm termination (some id) =
    if is_nonempty id
    then record { result = some (terminated_is (termination id)); calls = id ∷ [] }
    else quietly (some (terminated_is false))

-- `!row.hookTokenHash`
abbrev pub is_unstamped : Option Text → Bool
is_unstamped none = true
is_unstamped (some stored) = not (is_nonempty stored)

module _ (crypto : Crypto) where
  unfoldable pub hook_token_matches : Text → Option Text → Bool
  unfolding text_eq
  hook_token_matches token none = false
  hook_token_matches token (some stored) =
      is_nonempty stored
      && text_eq (crypto.from_hex (crypto.sha256_hex token)) (crypto.from_hex stored)

  -- The first action: the run's own JIT config.
  unfoldable pub handle_jitconfig : Text → Read JitConfigPayload → Handled
  unfolding hook_token_matches
  handle_jitconfig token unread = quietly none
  handle_jitconfig token missing = quietly (some denied)
  handle_jitconfig token (found item) =
      if hook_token_matches token item.hook_token_hash
      then quietly (some (jit_answer item))
      else quietly (some denied)

  -- A row that has no hash yet: the JIT config authorizes a retry.
  unfoldable pub handle_unstamped : Text → Read JitConfigPayload → Handled
  unfolding hook_token_matches
  handle_unstamped token unread = quietly none
  handle_unstamped token missing = quietly (some denied)
  handle_unstamped token (found item) =
      if hook_token_matches token item.hook_token_hash
      then quietly (some (terminated_is false))
      else quietly (some denied)

  unfoldable pub handle_terminate :
      (Text → Bool) → Text → Read JitConfigPayload → Read RunFields → Handled
  unfolding handle_unstamped terminate_vm hook_token_matches
  handle_terminate termination token jit unread = quietly none
  handle_terminate termination token jit missing = handle_unstamped token jit
  handle_terminate termination token jit (found row) =
      if is_unstamped row.hook_token_hash
      then handle_unstamped token jit
      else if hook_token_matches token row.hook_token_hash
      then terminate_vm termination row.microvm_id
      else quietly (some denied)

  -- The handler of a request that parses, by its action.
  unfoldable pub serve : BrokerDeps → HookAction → Text → Text → Handled
  unfolding keys_from_ref handle_jitconfig handle_terminate
  serve deps jitconfig ref token = handle_jitconfig token (deps.get_jit_config_by_ref ref)
  serve deps terminate ref token =
      let keys = keys_from_ref ref in
      handle_terminate deps.termination token (deps.get_jit_config_by_ref ref)
        (deps.get_run_fields_by_key keys.pk keys.run_sk)

  abbrev pub respond : BrokerDeps → Parsed → Handled
  respond deps (refused error) = quietly (some bad_request)
  respond deps (parsed req) = serve deps req.action req.ref req.token

  -- `createHandler(deps)`
  unfoldable pub handle : BrokerDeps → HookBrokerRequest → Handled
  unfolding parse_hook_request serve
  handle deps event = respond deps (parse_hook_request event)
