-- ===== src/Shared/Microvm.antt =====
-- src/shared/microvm.ts: the requests to the control plane of the microVMs. The SDK is a parameter.
pub mod Pages
use lambda_ciactions.Common.{
  ℕ, zero, suc, Bool, true, false, Option, none, some, List, [], ◌∷◌, ◌++◌,
}
use lambda_ciactions.Common.Tests.{if◌then◌else◌, ltb}
use lambda_ciactions.Common.Text.{
  Text, codes, text_eq, is_nonempty, is_member, decimal, json_string, byte_length,
}
use lambda_ciactions.Shared.Quota.{AwsError}

abbrev pub run_hook_payload_max : ℕ
run_hook_payload_max = 4096

pub record RunHookPayload : Type 0 where
  pub ref : Text
  pub region : Text
  pub broker : Text
  pub token : Text

-- `JSON.stringify(params.payload)`, the properties in the order of the literal that Provision builds.
unfoldable pub payload_json : RunHookPayload → Text
payload_json p =
    codes "{\"ref\":"
    ++ (json_string p.ref
        ++ (codes ",\"region\":"
            ++ (json_string p.region
                ++ (codes ",\"broker\":"
                    ++ (json_string p.broker
                        ++ (codes ",\"token\":" ++ (json_string p.token ++ codes "}")))))))

-- The parameters that Provision gives; the two optional limits are never set.
pub record LaunchParams : Type 0 where
  pub image_arn : Text
  pub run_id : ℕ
  pub job_id : ℕ
  pub payload : RunHookPayload
  pub execution_role_arn : Option Text
  pub log_group : Option Text

-- The input of `RunMicrovmCommand`.
pub record RunMicrovm : Type 0 where
  pub image_identifier : Text
  pub run_hook_payload : Text
  pub execution_role_arn : Option Text
  pub log_group : Option Text

-- What the service answers: an id that may be absent, or an error.
pub data Answer : Type 0 where
  answered : Option Text → Answer
  errored : AwsError → Answer

pub data Launched : Type 0 where
  launched : Text → Launched
  failed : AwsError → Launched

-- `new Error(message)`
abbrev pub plain_error : Text → AwsError
plain_error message = record { name = codes "Error"; message = message; http_status = none }

abbrev pub oversized : ℕ → AwsError
oversized bytes = plain_error (
    codes "run-hook payload "
    ++ (decimal bytes
        ++ (codes " bytes exceeds "
            ++ (decimal run_hook_payload_max ++ codes "-byte cap (ADR-016)"))))

-- `if (params.executionRoleArn)`
abbrev pub truthy : Option Text → Option Text
truthy none = none
truthy (some s) = if is_nonempty s then some s else none

unfoldable pub launch_result : Answer → Launched
launch_result (errored err) = failed err
launch_result (answered id) = elim (truthy id) [
  | some vm ↦ launched vm
  | none ↦ failed (plain_error (codes "RunMicrovm returned no microvmId"))
]

unfoldable pub run_microvm_input : LaunchParams → RunMicrovm
unfolding payload_json
run_microvm_input params = record {
  image_identifier = params.image_arn;
  run_hook_payload = payload_json params.payload;
  execution_role_arn = truthy params.execution_role_arn;
  log_group = truthy params.log_group;
}

unfoldable pub payload_bytes : LaunchParams → ℕ
unfolding payload_json byte_length
payload_bytes params = byte_length (payload_json params.payload)

-- The input that is sent, if any, and the result. `send` is the command pipeline of the SDK.
unfoldable pub launch_micro_vm : (RunMicrovm → Answer) → LaunchParams → Option RunMicrovm × Launched
unfolding payload_bytes launch_result run_microvm_input
launch_micro_vm send params =
    if ltb run_hook_payload_max (payload_bytes params)
    then (none, failed (oversized (payload_bytes params)))
    else (some (run_microvm_input params), launch_result (send (run_microvm_input params)))

-- One answer of `ListMicrovmsCommand`, its items normalized.
pub record Page (Vm : Type 0) : Type 0 where
  pub items : List Vm
  pub next_token : Option Text

module _ {Vm : Type 0} (list : Option Text → Option (Page Vm)) where
  -- The loop of `listMicroVMs` from a token, on fuel; the outer `none` is fuel that ran out, the
  -- inner one a request that throws.
  unfoldable pub list_from : ℕ → Option Text → List Vm → Option (Option (List Vm))
  list_from zero token out = none
  list_from (suc fuel) token out = elim (list token) [
    | none ↦ some none
    | some page ↦ elim (truthy page.next_token) [
      | none ↦ some (some (out ++ page.items))
      | some next ↦ list_from fuel (some next) (out ++ page.items)
    ]
  ]

  unfoldable pub list_micro_vms : ℕ → Option (Option (List Vm))
  unfolding list_from
  list_micro_vms fuel = list_from fuel none []

abbrev pub usable_image_states : List Text
usable_image_states = codes "CREATED" ∷ codes "UPDATED" ∷ []

pub record MicroVmImageState : Type 0 where
  pub usable : Bool
  pub state : Text
  pub error : Option Text

-- A command that the SDK has not (`unavailable`), an answer with a state or none, or an error.
pub data ImageAnswer : Type 0 where
  unavailable : Text → ImageAnswer
  described : Option Text → ImageAnswer
  refused : AwsError → ImageAnswer

abbrev pub or_unknown : Option Text → Text
or_unknown none = codes "UNKNOWN"
or_unknown (some s) = s

unfoldable pub get_micro_vm_image_state : ImageAnswer → MicroVmImageState
unfolding is_member text_eq
get_micro_vm_image_state (unavailable message) = record {
  usable = false;
  state = codes "UNKNOWN";
  error = some message;
}
get_micro_vm_image_state (described state) =
    let s = or_unknown state in
    record { usable = is_member s usable_image_states; state = s; error = none }
get_micro_vm_image_state (refused err) =
    if text_eq err.name (codes "ResourceNotFoundException")
    then record { usable = false; state = codes "ABSENT"; error = none }
    else record {
      usable = false;
      state =
          if text_eq err.name (codes "AccessDeniedException")
          then codes "FORBIDDEN"
          else codes "UNKNOWN";
      error = some err.message;
    }
