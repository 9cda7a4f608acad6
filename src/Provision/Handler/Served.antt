-- ===== src/Provision/Handler/Served.antt =====
-- What the broker answers to the VM that Provision launched.
use lambda_ciactions.Common.{
  ◌≡◌, ◌≢◌, refl, ap, ◌∙◌, List, true, false, Option, some, [], ◌∷◌, arith,
}
use lambda_ciactions.Common.Tests.{ltb}
use lambda_ciactions.Common.Lists.{length, All}
use lambda_ciactions.Common.Text.{Text, codes, text_eq, text_eq_refl, is_nonempty}
use lambda_ciactions.Shared.RunStore.{
  present, JitConfigItem, jitconfig_sk, run_pk, run_sk, jit_config_ref,
}
use lambda_ciactions.Shared.Redact.Masked.{IsToken}
use lambda_ciactions.Ingest.Filter.{ProvisionRequest}
use lambda_ciactions.Hook.{
  jitconfig, terminate, HookBrokerRequest, parsed, parse_hook_request, keys_from_ref,
}
use lambda_ciactions.Hook.Keys.{is_broker_ref-jit_config_ref, keys_from_ref-jit_config_ref}
use lambda_ciactions.Hook.Broker.{
  Crypto, BrokerDeps, RunFields, found, jit_answer, terminated_is, quietly, hook_token_matches,
  handle_jitconfig, handle_terminate, terminate_vm, is_unstamped, serve, handle,
}
use lambda_ciactions.Hook.JitConfigs.{
  Items, put_item, put_items, payload_read, get_jit_config_by_ref, put_items-own,
}
use lambda_ciactions.Provision.Handler.{Deps, jit_config_item, launch_params}

-- A request of the VM, with what it was given at its launch.
abbrev pub asks : Text → Deps → ProvisionRequest → Text → Text → HookBrokerRequest
asks action deps req broker image =
    let payload = (launch_params deps req broker image).payload in
    record { action = some action; ref = some payload.ref; token = some payload.token }

module _ (crypto : Crypto) (deps : Deps) (req : ProvisionRequest) (broker image : Text)
    (same_hash : deps.hash_hook_token ≡ crypto.sha256_hex) (token : IsToken deps.hook_token)
    (hashed : is_nonempty (crypto.sha256_hex deps.hook_token) ≡ true) where
  abbrev ref : Text
  ref = jit_config_ref req.repo_id req.run_id req.job_id

  long_enough : ltb (length deps.hook_token) 16 ≡ false
  long_enough = let long = token.long in ground arith

  parses_jitconfig :
      parse_hook_request (asks (codes "jitconfig") deps req broker image)
      ≡ parsed (record { action = jitconfig; ref = ref; token = deps.hook_token })
  unfolding parse_hook_request launch_params text_eq
  parses_jitconfig =
      rw (is_broker_ref-jit_config_ref req.repo_id req.run_id req.job_id, long_enough) refl

  parses_terminate :
      parse_hook_request (asks (codes "terminate") deps req broker image)
      ≡ parsed (record { action = terminate; ref = ref; token = deps.hook_token })
  unfolding parse_hook_request launch_params text_eq
  parses_terminate =
      rw (is_broker_ref-jit_config_ref req.repo_id req.run_id req.job_id, long_enough) refl

  hash_present :
      present (some (deps.hash_hook_token deps.hook_token))
      ≡ some (deps.hash_hook_token deps.hook_token)
  hash_present = rw (same_hash, hashed) refl

  own_hash_matches :
      (h : Option Text)
      → h ≡ some (deps.hash_hook_token deps.hook_token)
      → hook_token_matches crypto deps.hook_token h ≡ true
  unfolding hook_token_matches
  own_hash_matches h e =
      rw (e, same_hash, hashed, text_eq_refl (crypto.from_hex (crypto.sha256_hex deps.hook_token)))
        refl

  -- What is stored for the run is what its reference reads.
  read_back :
      (jit_config : Text) (rest : List JitConfigItem) (items : Items)
      → All (λ i. i.pk ≢ run_pk req.repo_id req.run_id req.job_id) rest
      → get_jit_config_by_ref
          (put_items rest (put_item (jit_config_item deps req jit_config) items))
          ref
        ≡ found (jit_config_item deps req jit_config).payload
  unfolding get_jit_config_by_ref jit_config_item keys_from_ref
  read_back jit_config rest items others =
      let item = jit_config_item deps req jit_config in
      let table = put_items rest (put_item item items) in
      ap (λ pk. payload_read (table pk jitconfig_sk))
        (keys_from_ref-jit_config_ref req.repo_id req.run_id req.job_id)
      ∙ ap payload_read (put_items-own item rest items others)

  -- The VM that was launched asks the broker with the reference and the token of its payload: over any
  -- table into which Provision put the item of its run, and then any items of other runs, the broker
  -- reads it by that reference and answers with exactly that configuration. The token must have the
  -- form of a fresh one, and its hash be computed alike on both sides and not be empty.
  pub handle-jit_config_item :
      (jit_config : Text) (rest : List JitConfigItem) (items : Items) (broker_deps : BrokerDeps)
      → All (λ i. i.pk ≢ run_pk req.repo_id req.run_id req.job_id) rest
      → handle crypto
          (record broker_deps {
            get_jit_config_by_ref =
                get_jit_config_by_ref
                  (put_items rest (put_item (jit_config_item deps req jit_config) items));
          })
          (asks (codes "jitconfig") deps req broker image)
        ≡ quietly (some (jit_answer (jit_config_item deps req jit_config).payload))
  unfolding handle serve handle_jitconfig jit_config_item text_eq
  handle-jit_config_item jit_config rest items broker_deps others =
      rw
        (
          parses_jitconfig,
          read_back jit_config rest items others,
          own_hash_matches (present (some (deps.hash_hook_token deps.hook_token))) hash_present,
        )
        refl

  -- And where the run row has the VM's id and the hash, as `provisionOne` leaves it, a request to
  -- terminate terminates that VM.
  pub handle-launched :
      (broker_deps : BrokerDeps) (row : RunFields) (id : Text)
      → broker_deps.get_run_fields_by_key (run_pk req.repo_id req.run_id req.job_id) run_sk
        ≡ found row
      → row.microvm_id ≡ some id
      → is_nonempty id ≡ true
      → row.hook_token_hash ≡ some (deps.hash_hook_token deps.hook_token)
      → handle crypto broker_deps (asks (codes "terminate") deps req broker image)
        ≡ record { result = some (terminated_is (broker_deps.termination id)); calls = id ∷ [] }
  unfolding handle serve handle_terminate terminate_vm keys_from_ref text_eq
  handle-launched broker_deps row id read vm named hash =
      let stamped_row : is_unstamped row.hook_token_hash ≡ false =
        rw (hash, same_hash, hashed) refl in
      rw (parses_terminate, keys_from_ref-jit_config_ref req.repo_id req.run_id req.job_id, read)
        (rw (stamped_row, own_hash_matches row.hook_token_hash hash, vm, named) refl)
