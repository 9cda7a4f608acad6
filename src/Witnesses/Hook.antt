-- ===== src/Witnesses/Hook.antt =====
-- The broker at a concrete run. The stand-in for SHA-256 puts a letter in front of the token.
use lambda_ciactions.Common.{ℕ, ◌≡◌, refl, true, false, inl, none, some, [], ◌∷◌}
use lambda_ciactions.Common.Tests.{if◌then◌else◌}
use lambda_ciactions.Common.Lists.{In}
use lambda_ciactions.Common.Text.{Text, codes, text_eq, text_ops}
use lambda_ciactions.Shared.RunStore.{JitConfigPayload, run_pk, jit_config_ref}
use lambda_ciactions.Hook.{
  HookAction, terminate, HookBrokerRequest, ParsedHookRequest, parsed, parse_hook_request,
  keys_from_ref, before, after_literal, drop_digits, after_number, after_id, is_run_ref,
  is_smoke_ref, is_broker_ref,
}
use lambda_ciactions.Hook.Broker.{
  Crypto, BrokerDeps, RunFields, found, missing, denied, quietly, hook_token_matches,
  handle_jitconfig, handle_unstamped, terminate_vm, handle_terminate, serve, handle,
}
use lambda_ciactions.Hook.Authority.{MayTerminate, handle-MayTerminate}
use lambda_ciactions.Hook.Stranger.{IsForeign, other, handle-denied}
use lambda_ciactions.Hook.Secret.{revealed, handle-revealed}
use lambda_ciactions.Hook.Isolation.{SameRun, handle-SameRun}

abbrev crypto : Crypto
crypto = record { sha256_hex = λ s. b'a' ∷ s; from_hex = λ s. s }

abbrev token : Text
token = codes "0123456789abcdef"

abbrev other_token : Text
other_token = codes "fedcba9876543210"

abbrev stored_hash : Text
stored_hash = b'a' ∷ token

abbrev item : JitConfigPayload
item = record {
  jit_config = codes "secret";
  run_id = 2;
  job_id = 3;
  repo_full_name = codes "o/r";
  labels = [];
  hook_token_hash = some stored_hash;
}

abbrev row : RunFields
row = record { microvm_id = some (codes "vm-1"); status = none; hook_token_hash = some stored_hash }

abbrev deps : BrokerDeps
deps = record {
  get_jit_config_by_ref =
      λ ref. if text_eq ref (codes "RUN#1#2#3#JITCONFIG") then found item else missing;
  get_run_fields_by_key = λ pk sk. if text_eq pk (codes "RUN#1#2#3") then found row else missing;
  termination = λ id. true;
}

-- The same world without any other run.
abbrev alone : BrokerDeps
alone = record {
  get_jit_config_by_ref = λ ref. found item;
  get_run_fields_by_key = λ pk sk. found row;
  termination = λ id. true;
}

abbrev request : Text → Text → HookBrokerRequest
request action t = record {
  action = some action;
  ref = some (codes "RUN#1#2#3#JITCONFIG");
  token = some t;
}

abbrev own : HookAction → Text → ParsedHookRequest
own action t = record { action = action; ref = codes "RUN#1#2#3#JITCONFIG"; token = t }

unfoldable hook_ops : Unit {0}
unfolding text_ops before keys_from_ref after_literal drop_digits after_number after_id is_run_ref
    is_smoke_ref is_broker_ref parse_hook_request hook_token_matches handle_jitconfig
    handle_unstamped terminate_vm handle_terminate serve handle revealed run_pk jit_config_ref
hook_ops = tt

terminate_calls : In (codes "vm-1") (handle crypto deps (request (codes "terminate") token)).calls
unfolding hook_ops
terminate_calls = inl refl

handle-MayTerminate_example :
    MayTerminate crypto deps (request (codes "terminate") token) (codes "vm-1")
handle-MayTerminate_example =
    handle-MayTerminate crypto deps (request (codes "terminate") token) (codes "vm-1")
      terminate_calls

jit_revealed : revealed (handle crypto deps (request (codes "jitconfig") token)) ≡ some item
unfolding hook_ops
jit_revealed = refl

handle-revealed_example :
    (req : ParsedHookRequest) × (parse_hook_request (request (codes "jitconfig") token)
      ≡ parsed req)
    × (deps.get_jit_config_by_ref req.ref ≡ found item)
    × (hook_token_matches crypto req.token item.hook_token_hash ≡ true)
handle-revealed_example =
    handle-revealed crypto deps (request (codes "jitconfig") token) item jit_revealed

parses_other :
    parse_hook_request (request (codes "terminate") other_token)
    ≡ parsed (own terminate other_token)
unfolding hook_ops
parses_other = refl

mismatch : hook_token_matches crypto other_token (some stored_hash) ≡ false
unfolding hook_ops
mismatch = refl

IsForeign-jit :
    IsForeign crypto other_token
      (λ (i : JitConfigPayload). i.hook_token_hash)
      (deps.get_jit_config_by_ref (codes "RUN#1#2#3#JITCONFIG"))
unfolding hook_ops
IsForeign-jit = other mismatch

IsForeign-row :
    IsForeign crypto other_token
      (λ (r : RunFields). r.hook_token_hash)
      (deps.get_run_fields_by_key
        (keys_from_ref (codes "RUN#1#2#3#JITCONFIG")).pk
        (keys_from_ref (codes "RUN#1#2#3#JITCONFIG")).run_sk)
unfolding hook_ops
IsForeign-row = other mismatch

handle-denied_example :
    handle crypto deps (request (codes "terminate") other_token) ≡ quietly (some denied)
handle-denied_example =
    handle-denied crypto deps (request (codes "terminate") other_token) (own terminate other_token)
      parses_other IsForeign-jit IsForeign-row

parses_own : parse_hook_request (request (codes "terminate") token) ≡ parsed (own terminate token)
unfolding hook_ops
parses_own = refl

ref_of_run : codes "RUN#1#2#3#JITCONFIG" ≡ jit_config_ref 1 2 3
unfolding hook_ops
ref_of_run = refl

same_run : SameRun deps alone 1 2 3
unfolding hook_ops
same_run = record { same_jit = refl; same_row = refl; same_control = refl }

handle-SameRun_example :
    handle crypto deps (request (codes "terminate") token)
    ≡ handle crypto alone (request (codes "terminate") token)
handle-SameRun_example =
    handle-SameRun crypto deps alone (request (codes "terminate") token) (own terminate token) 1 2 3
      parses_own ref_of_run same_run

abbrev repo_id : ℕ
repo_id = 12

abbrev run_id : ℕ
run_id = 0

abbrev job_id : ℕ
job_id = 345
