-- ===== src/Hook.antt =====
-- src/hook/broker-core.ts and handler.ts: the broker between an untrusted VM and the run store.
-- SHA-256, the decoding of hex, the reads of the store and the control API are parameters.
pub mod Broker
pub mod JitConfigs
pub mod Keys
pub mod Authority
pub mod Stranger
pub mod Secret
pub mod Isolation
pub mod Logged
use lambda_ciactions.Common.{
  ℕ, zero, suc, ◌+◌, ◌*◌, Bool, true, false, ◌&&◌, ◌||◌, not, Option, none, some, List, [], ◌∷◌,
  ◌++◌, map,
}
use lambda_ciactions.Common.Tests.{if◌then◌else◌, ltb, leb}
use lambda_ciactions.Common.Lists.{length}
use lambda_ciactions.Common.Text.{Text, codes, text_eq, starts_with, is_nonempty, is_digit}
use lambda_ciactions.Shared.Types.{RunStatus}
use lambda_ciactions.Shared.RunStore.{
  JitConfigPayload, hash, jitconfig_sk, run_sk, run_pk, jit_config_ref,
}

-- `HOOK_ACTIONS`
pub data HookAction : Type 0 where
  jitconfig terminate : HookAction

-- The parts of a request; an absent one, or one that is no string, is `none`.
pub record HookBrokerRequest : Type 0 where
  pub action : Option Text
  pub ref : Option Text
  pub token : Option Text

pub record ParsedHookRequest : Type 0 where
  pub action : HookAction
  pub ref : Text
  pub token : Text

-- The part of a text before the first occurrence of a separator: `s.split(separator)[0]`.
unfoldable pub before : Text → Text → Text
unfolding starts_with
before separator [] = []
before separator (c ∷ s) =
    let rest = before separator s in if starts_with (c ∷ s) separator then [] else c ∷ rest

abbrev pub jit_separator : Text
jit_separator = hash ++ jitconfig_sk

-- The keys of a run: the partition, the sort key of its JIT config and that of its row.
pub record RefKeys : Type 0 where
  pub pk : Text
  pub jit_sk : Text
  pub run_sk : Text

unfoldable pub keys_from_ref : Text → RefKeys
unfolding before
keys_from_ref ref = record { pk = before jit_separator ref; jit_sk = jitconfig_sk; run_sk = run_sk }

-- What follows a literal, where the text starts with it.
unfoldable pub after_literal : Text → Text → Option Text
after_literal [] s = some s
after_literal (c ∷ p) [] = none
after_literal (c ∷ p) (d ∷ s) = if leb c d && leb d c then after_literal p s else none

-- What follows the digits at the head of a text.
unfoldable pub drop_digits : Text → Text
drop_digits [] = []
drop_digits (c ∷ s) = let rest = drop_digits s in if is_digit c then rest else c ∷ s

-- `\d+`
unfoldable pub after_number : Text → Option Text
unfolding drop_digits
after_number [] = none
after_number (c ∷ s) = if is_digit c then some (drop_digits s) else none

abbrev pub and_then : Option Text → (Text → Option Text) → Option Text
and_then none next = none
and_then (some s) next = next s

-- `$`
abbrev pub at_end : Option Text → Bool
at_end none = false
at_end (some s) = not (is_nonempty s)

-- `#\d+`
unfoldable pub after_id : Text → Option Text
unfolding after_literal after_number
after_id s = and_then (after_literal hash s) after_number

-- `^RUN#\d+#\d+#\d+#JITCONFIG$`
unfoldable pub is_run_ref : Text → Bool
unfolding after_literal after_id
is_run_ref ref = at_end (
    and_then
      (and_then (and_then (and_then (after_literal (codes "RUN") ref) after_id) after_id) after_id)
      (after_literal jit_separator))

-- `^SMOKE#\d+#\d+#JITCONFIG$`
unfoldable pub is_smoke_ref : Text → Bool
unfolding after_literal after_id
is_smoke_ref ref = at_end (
    and_then (and_then (and_then (after_literal (codes "SMOKE") ref) after_id) after_id)
      (after_literal jit_separator))

unfoldable pub is_broker_ref : Text → Bool
unfolding is_run_ref is_smoke_ref
is_broker_ref ref = is_run_ref ref || is_smoke_ref ref

abbrev pub action_of : Text → Option HookAction
action_of s =
    if text_eq s (codes "jitconfig")
    then some jitconfig
    else if text_eq s (codes "terminate")
    then some terminate
    else none

-- Which of the errors `parseHookRequest` throws.
pub data HookError : Type 0 where
  unsupported_action : Option Text → HookError
  malformed_ref missing_token : HookError

pub data Parsed : Type 0 where
  parsed : ParsedHookRequest → Parsed
  refused : HookError → Parsed

abbrev pub parse_token : HookAction → Text → Option Text → Parsed
parse_token action ref none = refused missing_token
parse_token action ref (some token) =
    if ltb (length token) 16
    then refused missing_token
    else parsed (record { action = action; ref = ref; token = token })

abbrev pub parse_ref : HookAction → Option Text → Option Text → Parsed
parse_ref action none token = refused malformed_ref
parse_ref action (some ref) token =
    if is_broker_ref ref then parse_token action ref token else refused malformed_ref

unfoldable pub parse_hook_request : HookBrokerRequest → Parsed
unfolding is_broker_ref text_eq
parse_hook_request req = elim req.action [
  | none ↦ refused (unsupported_action none)
  | some name ↦ elim (action_of name) [
    | none ↦ refused (unsupported_action (some name))
    | some action ↦ parse_ref action req.ref req.token
  ]
]

-- `s.replace(/[^\x20-\x7e]/g, '.')`
abbrev pub printable : ℕ → ℕ
printable c = if leb 32 c && leb c 126 then c else b'.'

unfoldable pub take : ℕ → Text → Text
take zero s = []
take (suc n) [] = []
take (suc n) (c ∷ s) = c ∷ take n s

abbrev pub ellipsis : Text
ellipsis = 8230 ∷ []

-- The value as a text: a string itself, or else the name of its type.
unfoldable pub safe_for_log : Text → ℕ → Text
unfolding take
safe_for_log s max =
    let clean = map printable s in
    if ltb max (length clean) then take max clean ++ ellipsis else clean
