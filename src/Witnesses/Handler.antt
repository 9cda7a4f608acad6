-- ===== src/Witnesses/Handler.antt =====
-- The provision consumer at a concrete message, over a table in memory.
use lambda_ciactions.Common.{
  ◌≡◌, ◌≢◌, refl, Bool, true, false, arith, Option, none, some, [], ◌∷◌, inl, inr,
}
use lambda_ciactions.Common.Lists.{In}
use lambda_ciactions.Common.Text.{Text, codes, byte_length, json_string, json_units, text_ops}
use lambda_ciactions.Shared.Types.{provisioning}
use lambda_ciactions.Shared.FlavorCatalog.{catalog_ops}
use lambda_ciactions.Shared.RunStore.{
  RunRow, RunInput, run_pk, jit_config_ref, build_queued_item, build_transition_update,
  build_stamp_update, can_transition, same_status, is_terminal, status_rank, status_gsi_key,
  repo_gsi_key,
}
use lambda_ciactions.Shared.RunStore.Rows.{meets, assign, assign_all}
use lambda_ciactions.Shared.RunStore.Writes.{
  fault, settle, put_queued_run, transition_run, stamp_microvm_id,
}
use lambda_ciactions.Shared.RunStore.Guarded.{may_move}
use lambda_ciactions.Shared.RunStore.InMemory.{Rows, in_memory, conditional, with_row}
use lambda_ciactions.Shared.Quota.{AwsError, is_quota_error, mentions}
use lambda_ciactions.Shared.Redact.{
  redact_secret, mask_fields, mask_secret, field_lengths, spaces, unquoted, skip,
}
use lambda_ciactions.Shared.Redact.Masked.{IsToken}
use lambda_ciactions.Shared.Microvm.{
  RunMicrovm, answered, errored, launch_micro_vm, run_microvm_input, payload_bytes, payload_json,
  launch_result,
}
use lambda_ciactions.Ingest.Adopt.{adopt_ops}
use lambda_ciactions.Ingest.Filter.{ProvisionRequest}
use lambda_ciactions.Hook.JitConfigs.{Items, put_item, put_items, get_jit_config_by_ref}
use lambda_ciactions.Hook.Keys.{run_pk-injective}
use lambda_ciactions.Shared.RunStore.{JitConfigItem, run_pk}
use lambda_ciactions.Hook.Broker.{
  Crypto, BrokerDeps, RunFields, found, handle, jit_answer, terminated_is, quietly,
}
use lambda_ciactions.Provision.Flavor.{flavor_ops, needs_custom_flavors}
use lambda_ciactions.Provision.Labels.{label_ops, too_many_labels, classify_mint_failure, permanent}
use lambda_ciactions.Provision.Reasons.{refusal_message, failure_text, launch_text}
use lambda_ciactions.Provision.Reasons.Own.{classify_mint_failure-refusal}
use lambda_ciactions.Provision.Handler.{
  Deps, minted, Ending, throttled, launch_failed, launched_vm, skipped, run_microvm, move_to,
  jit_config_item, launch_params, provision_one, route, mint_runner, launch, mint_failure,
  mark_failed, record_vm, safe_lookup, lookup_resolve_options, needs_docker_of, resolve_image_arn,
}
use lambda_ciactions.Provision.Handler.Calls.{Behind, provision_one-run_microvm}
use lambda_ciactions.Provision.Handler.Retry.{Retryable, provision_one-Retryable}
use lambda_ciactions.Provision.Handler.Skip.{Reliable, provision_one-launch_failed}
use lambda_ciactions.Provision.Handler.Launch.{Stamped, provision_one-Stamped}
use lambda_ciactions.Provision.Handler.Token.{Clean, provision_one-Clean}
use lambda_ciactions.Provision.Handler.Served.{asks, handle-jit_config_item, handle-launched}

abbrev request : ProvisionRequest
request = record {
  installation_id = 1;
  repo_id = 7;
  repo_full_name = codes "o/r";
  owner = codes "o";
  repo = codes "r";
  run_id = 20;
  job_id = 300;
  labels = codes "lambda-ci" ∷ [];
  job_name = codes "build";
  workflow_name = none;
  claim_via = none;
}

abbrev fresh_token : Text
fresh_token = codes "AbCdEf0123456789-_"

abbrev throttled_error : AwsError
throttled_error = record {
  name = codes "ThrottlingException";
  message = codes "Rate exceeded";
  http_status = some 429;
}

abbrev deps : Deps
deps = record {
  broker_name = some (codes "broker");
  region = none;
  runner_role_arn = none;
  lca_env = none;
  app_id_param = codes "/id";
  app_pem_param = codes "/pem";
  image_arn_param_prefix = codes "/image-";
  get_param = λ name. some (codes "value");
  lookup_lost = false;
  get_repo = none;
  list_workflow_analyses = none;
  list_custom_flavors = none;
  get_custom_flavor = λ name. none;
  generate_jit_config = λ m. minted (codes "jit");
  hook_token = fresh_token;
  hash_hook_token = λ t. codes "ab";
  jit_config_stored = true;
  run_microvm = λ input. answered (some (codes "vm-1"));
  started_at = 2000;
  stored_at = 2500;
  ended_at = 3000;
  retention = 60;
}

abbrev queued : RunInput
queued = record {
  repo_id = 7;
  repo_full_name = codes "o/r";
  installation_id = 1;
  run_id = 20;
  job_id = 300;
  labels = codes "lambda-ci" ∷ [];
  workflow_name = none;
  job_name = none;
}

abbrev no_rows : Rows
no_rows k = none

abbrev key : Text
key = run_pk 7 20 300

abbrev stored : Rows
stored = (put_queued_run in_memory queued 1000 no_rows).0

unfoldable handler_ops : Unit {0}
unfolding flavor_ops label_ops text_ops adopt_ops catalog_ops provision_one put_queued_run
    transition_run settle conditional with_row build_queued_item run_pk build_transition_update
    meets assign assign_all can_transition same_status is_terminal status_rank route mint_runner
    launch mint_failure mark_failed record_vm safe_lookup lookup_resolve_options needs_docker_of
    resolve_image_arn launch_micro_vm run_microvm_input payload_bytes payload_json byte_length
    json_string json_units launch_result launch_params jit_config_item stamp_microvm_id
    build_stamp_update is_quota_error mentions redact_secret mask_fields mask_secret launch_text
    jit_config_ref status_gsi_key repo_gsi_key may_move needs_custom_flavors field_lengths spaces
    unquoted skip
handler_ops = tt

abbrev input : RunMicrovm
input = run_microvm_input (launch_params deps request (codes "broker") (codes "value"))

launched_input : In (run_microvm input) (provision_one in_memory deps request stored).calls
unfolding handler_ops
launched_input = inr (inr (inl refl))

provision_one-run_microvm_example :
    ((transition_run in_memory (move_to request provisioning none none) 2000 60 stored).1
      ≢ some false)
    × Behind deps request input (provision_one in_memory deps request stored).calls
provision_one-run_microvm_example =
    provision_one-run_microvm in_memory deps request stored input launched_input

-- The control plane throttles the launch, or refuses it with the payload in its message.
abbrev throttling : Deps
throttling = record deps { run_microvm = λ sent. errored throttled_error }

abbrev quoting : Deps
quoting = record deps {
  run_microvm = λ sent. errored (record {
    name = codes "ValidationException";
    message = codes "Value AbCdEf0123456789-_ failed to satisfy constraint";
    http_status = some 400;
  });
}

throttled_ending :
    (provision_one in_memory throttling request stored).ending ≡ Ending.threw throttled
unfolding handler_ops
throttled_ending = refl

passing_throttle : Retryable (provision_one in_memory throttling request stored).ending
passing_throttle = record {
  cause = throttled;
  thrown = throttled_ending;
  passing = λ e. ground arith;
}

open_run : may_move (move_to request provisioning none none) (stored key) ≡ true
unfolding handler_ops
open_run = refl

provision_one-Retryable_example :
    may_move
      (move_to request provisioning none none)
      ((provision_one in_memory throttling request stored).table key)
    ≡ true
provision_one-Retryable_example =
    provision_one-Retryable in_memory throttling request stored passing_throttle open_run

failed_ending : (provision_one in_memory quoting request stored).ending ≡ Ending.threw launch_failed
unfolding handler_ops
failed_ending = refl

conditional_answers :
    (ok : Bool) (k : Text) (r : Option RunRow) (t : Rows) → (conditional ok k r t).1 ≢ fault
unfolding conditional
conditional_answers true k r t e = ground arith
conditional_answers false k r t e = ground arith

in_memory-Reliable : Reliable in_memory
unfolding Reliable
in_memory-Reliable k u t e = conditional_answers _ k _ t e

provision_one-launch_failed_example :
    let again =
      provision_one in_memory deps request (provision_one in_memory quoting request stored).table in
    (again.ending ≡ skipped) × (again.calls ≡ [])
provision_one-launch_failed_example =
    provision_one-launch_failed in_memory request quoting deps stored (codes "broker")
      in_memory-Reliable failed_ending refl

present_run : stored key ≢ none
unfolding handler_ops
present_run e = ground arith

launched_ending : (provision_one in_memory deps request stored).ending ≡ launched_vm (codes "vm-1")
unfolding handler_ops
launched_ending = refl

provision_one-Stamped_example :
    Stamped (codes "vm-1") (codes "ab") ((provision_one in_memory deps request stored).table key)
provision_one-Stamped_example =
    provision_one-Stamped in_memory deps request in_memory-Reliable stored (codes "vm-1") refl
      present_run launched_ending

fresh_token-IsToken : IsToken fresh_token
fresh_token-IsToken = record { long = omega arith; units = ground arith }

provision_one-Clean_example :
    Clean fresh_token (stored key) ((provision_one in_memory quoting request stored).table key)
provision_one-Clean_example =
    provision_one-Clean in_memory quoting request fresh_token-IsToken stored failed_ending

abbrev crypto : Crypto
crypto = record { sha256_hex = λ t. codes "ab"; from_hex = λ s. s }

abbrev row : RunFields
row = record {
  microvm_id = some (codes "vm-1");
  status = none;
  hook_token_hash = some (codes "ab");
}

-- The broker over what Provision stored.
abbrev broker : BrokerDeps
broker = record {
  get_jit_config_by_ref = λ ref. found (jit_config_item deps request (codes "jit")).payload;
  get_run_fields_by_key = λ pk sk. found row;
  termination = λ id. true;
}

-- A table without items, and the item of another job of the run.
abbrev no_items : Items
no_items pk sk = none

abbrev next_job : JitConfigItem
next_job = jit_config_item deps (record request { job_id = 301 }) (codes "other")

next_job-other : next_job.pk ≢ run_pk request.repo_id request.run_id request.job_id
unfolding jit_config_item
next_job-other e =
    let (repo, run, job) =
      run_pk-injective request.repo_id request.run_id 301 request.repo_id request.run_id
        request.job_id e in
    ground arith

handle-jit_config_item_example :
    handle crypto
      (record broker {
        get_jit_config_by_ref = get_jit_config_by_ref (
            put_items
              (next_job ∷ [])
              (put_item (jit_config_item deps request (codes "jit")) no_items));
      })
      (asks (codes "jitconfig") deps request (codes "broker") (codes "value"))
    ≡ quietly (some (jit_answer (jit_config_item deps request (codes "jit")).payload))
handle-jit_config_item_example =
    handle-jit_config_item crypto deps request (codes "broker") (codes "value") refl
      fresh_token-IsToken refl (codes "jit") (next_job ∷ []) no_items broker (next_job-other, tt)

handle-launched_example :
    handle crypto broker (asks (codes "terminate") deps request (codes "broker") (codes "value"))
    ≡ record { result = some (terminated_is true); calls = codes "vm-1" ∷ [] }
handle-launched_example =
    handle-launched crypto deps request (codes "broker") (codes "value") refl fresh_token-IsToken
      refl broker row (codes "vm-1") refl refl refl refl

classify_mint_failure-refusal_example :
    ((classify_mint_failure (refusal_message (too_many_labels 21)) []).kind ≡ permanent)
    × (failure_text
          (refusal_message (too_many_labels 21))
          (classify_mint_failure (refusal_message (too_many_labels 21)) []).reason
        ≡ refusal_message (too_many_labels 21))
classify_mint_failure-refusal_example = classify_mint_failure-refusal (too_many_labels 21) []
