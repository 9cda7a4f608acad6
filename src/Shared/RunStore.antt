-- ===== src/Shared/RunStore.antt =====
-- src/shared/run-store.ts: the state machine of a run and the guarded writes that move its row.
-- Times are milliseconds since the epoch; an ISO text stands for its time.
pub mod Machine
pub mod Rows
pub mod Writes
pub mod Later
pub mod History
pub mod Guarded
pub mod Once
pub mod InMemory
use lambda_ciactions.Common.{
  ℕ, zero, suc, ◌+◌, ◌*◌, ◌/◌, ◌-◌, ◌≡◌, refl, Bool, true, false, ◌&&◌, not, Option, none, some,
  List, [], ◌∷◌, ◌++◌,
}
use lambda_ciactions.Common.Tests.{if◌then◌else◌, ltb, leb}
use lambda_ciactions.Common.Lists.{all, any, filter}
use lambda_ciactions.Common.Text.{Text, codes, decimal, is_nonempty, text_ops}
use lambda_ciactions.Shared.Types.{
  RunStatus, queued, provisioning, running, completed, failed, timed_out,
}

abbrev pub default_run_retention_days : ℕ
default_run_retention_days = 90

abbrev pub max_safe_integer : ℕ
max_safe_integer = 9007199254740991

-- The value of a text of decimal digits.
unfoldable pub number_from : ℕ → Text → ℕ
number_from acc [] = acc
number_from acc (c ∷ s) = number_from (acc * 10 + (c - b'0')) s

abbrev pub is_digits : Text → Bool
is_digits s = is_nonempty s && all (λ c. leb b'0' c && leb c b'9') s

-- The argument is `process.env.RUN_RETENTION_DAYS`.
unfoldable pub terminal_ttl_seconds : Option Text → ℕ
terminal_ttl_seconds none = default_run_retention_days * 24 * 60 * 60
terminal_ttl_seconds (some raw) =
    let days = number_from 0 raw in
    let effective =
      if is_digits raw && leb days max_safe_integer && ltb 0 days
      then days
      else default_run_retention_days in
    effective * 24 * 60 * 60

-- `STATUS_RANK`
unfoldable pub status_rank : RunStatus → ℕ
status_rank queued = 0
status_rank provisioning = 1
status_rank running = 2
status_rank completed = 3
status_rank failed = 3
status_rank timed_out = 3

-- Its keys, in order.
abbrev pub all_statuses : List RunStatus
all_statuses = queued ∷ provisioning ∷ running ∷ completed ∷ failed ∷ timed_out ∷ []

unfoldable pub is_terminal : RunStatus → Bool
is_terminal completed = true
is_terminal failed = true
is_terminal timed_out = true
is_terminal _ = false

-- `===` on statuses.
unfoldable pub same_status : RunStatus → RunStatus → Bool
same_status queued queued = true
same_status provisioning provisioning = true
same_status running running = true
same_status completed completed = true
same_status failed failed = true
same_status timed_out timed_out = true
same_status _ _ = false

unfoldable pub can_transition : RunStatus → RunStatus → Bool
unfolding same_status is_terminal status_rank
can_transition from to =
    if same_status from to
    then true
    else if is_terminal from
    then false
    else ltb (status_rank from) (status_rank to)

abbrev pub status_text : RunStatus → Text
status_text queued = codes "queued"
status_text provisioning = codes "provisioning"
status_text running = codes "running"
status_text completed = codes "completed"
status_text failed = codes "failed"
status_text timed_out = codes "timed_out"

abbrev pub hash : Text
hash = codes "#"

unfoldable pub run_pk : ℕ → ℕ → ℕ → Text
run_pk repo_id run_id job_id =
    codes "RUN#" ++ (decimal repo_id ++ (hash ++ (decimal run_id ++ (hash ++ decimal job_id))))

abbrev pub run_sk : Text
run_sk = codes "RUN"

abbrev pub jitconfig_sk : Text
jitconfig_sk = codes "JITCONFIG"

-- `statusGsiKeys(status, …).gsi1pk`; the sort key is the time itself.
unfoldable pub status_gsi_key : RunStatus → Text
status_gsi_key status = codes "RUNSTATUS#" ++ status_text status

-- `repoGsiKeys(repoId, …).gsi2pk`
unfoldable pub repo_gsi_key : ℕ → Text
repo_gsi_key repo_id = codes "REPORUNS#" ++ decimal repo_id

-- What a queued row is made from.
pub record RunInput : Type 0 where
  pub repo_id : ℕ
  pub repo_full_name : Text
  pub installation_id : ℕ
  pub run_id : ℕ
  pub job_id : ℕ
  pub labels : List Text
  pub workflow_name : Option Text
  pub job_name : Option Text

-- A run row. The attributes of `input` that a row keeps are those of `RunInput`.
pub record RunRow : Type 0 where
  pub input : RunInput
  pub status : RunStatus
  pub gsi1pk : Text
  pub gsi1sk : ℕ
  pub gsi2pk : Text
  pub gsi2sk : ℕ
  pub created_at : ℕ
  pub updated_at : ℕ
  pub provisioning_at : Option ℕ
  pub running_at : Option ℕ
  pub flavor : Option Text
  pub microvm_id : Option Text
  pub reason : Option Text
  pub hook_token_hash : Option Text
  pub ttl : Option ℕ

-- `...(name ? { name } : {})`: an empty name is left out too.
abbrev pub present : Option Text → Option Text
present none = none
present (some s) = if is_nonempty s then some s else none

unfoldable pub build_queued_item : RunInput → ℕ → RunRow
build_queued_item input now = record {
  input = record input {
    workflow_name = present input.workflow_name;
    job_name = present input.job_name;
  };
  status = queued;
  gsi1pk = status_gsi_key queued;
  gsi1sk = now;
  gsi2pk = repo_gsi_key input.repo_id;
  gsi2sk = now;
  created_at = now;
  updated_at = now;
  provisioning_at = none;
  running_at = none;
  flavor = none;
  microvm_id = none;
  reason = none;
  hook_token_hash = none;
  ttl = none;
}

pub record TransitionInput : Type 0 where
  pub repo_id : ℕ
  pub run_id : ℕ
  pub job_id : ℕ
  pub to : RunStatus
  pub flavor : Option Text
  pub microvm_id : Option Text
  pub reason : Option Text

-- The assignments of an update expression; `first_…` is `if_not_exists`.
pub data Assign : Type 0 where
  status : RunStatus → Assign
  updated_at gsi1sk first_provisioning_at first_running_at ttl : ℕ → Assign
  gsi1pk flavor microvm_id reason hook_token_hash : Text → Assign

-- `PHASE_WATERMARK`
abbrev pub phase_watermark : RunStatus → ℕ → List Assign
phase_watermark provisioning now = first_provisioning_at now ∷ []
phase_watermark running now = first_running_at now ∷ []
phase_watermark _ now = []

abbrev pub optional : (Text → Assign) → Option Text → List Assign
optional assign none = []
optional assign (some v) = assign v ∷ []

-- The row must exist, and its status be one of `allowed_from` where that is given.
pub record RunUpdate : Type 0 where
  pub assigns : List Assign
  pub allowed_from : Option (List RunStatus)

-- `retention` is the value of `terminalTtlSeconds()`.
unfoldable pub build_transition_update : TransitionInput → ℕ → ℕ → RunUpdate
unfolding is_terminal
build_transition_update input now retention = record {
  assigns =
      (status input.to ∷ updated_at now ∷ gsi1pk (status_gsi_key input.to) ∷ gsi1sk now ∷ [])
      ++ (phase_watermark input.to now
          ++ (optional flavor input.flavor
              ++ (optional microvm_id input.microvm_id
                  ++ (optional reason input.reason
                      ++ (if is_terminal input.to
                          then ttl (now / 1000 + retention) ∷ []
                          else [])))));
  allowed_from = some (filter (λ s. can_transition s input.to) all_statuses);
}

-- `if (hookTokenHash)`: an empty hash is left out too.
unfoldable pub build_stamp_update : Text → Option Text → RunUpdate
build_stamp_update id token_hash = record {
  assigns = microvm_id id ∷ optional hook_token_hash (present token_hash);
  allowed_from = none;
}

-- `jitConfigRef`
unfoldable pub jit_config_ref : ℕ → ℕ → ℕ → Text
jit_config_ref repo_id run_id job_id = run_pk repo_id run_id job_id ++ (hash ++ jitconfig_sk)

pub record JitConfigPayload : Type 0 where
  pub jit_config : Text
  pub run_id : ℕ
  pub job_id : ℕ
  pub repo_full_name : Text
  pub labels : List Text
  pub hook_token_hash : Option Text

-- The item that `putJitConfig` writes.
pub record JitConfigItem : Type 0 where
  pub pk : Text
  pub sk : Text
  pub payload : JitConfigPayload
  pub ttl : ℕ
