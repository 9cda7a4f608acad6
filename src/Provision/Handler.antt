-- ===== src/Provision/Handler.antt =====
-- src/provision/handler.ts: `provisionOne` and the batch handler. The parameter store, GitHub, the
-- random token, SHA-256, the reads of DynamoDB and the control plane are parameters (`Deps`); the run
-- rows are in a table of `Dynamo`.
pub mod Routes
pub mod Tried
pub mod Calls
pub mod Retry
pub mod Launch
pub mod Skip
pub mod Token
pub mod Served
pub mod Batch
use lambda_ciactions.Common.{
  ℕ, ◌+◌, ◌/◌, ◌*◌, Bool, true, false, not, Option, none, some, List, [], ◌∷◌, ◌++◌,
}
use lambda_ciactions.Common.Tests.{if◌then◌else◌}
use lambda_ciactions.Common.Text.{Text, codes, is_nonempty}
use lambda_ciactions.Shared.Types.{RepoMode, RepoRecord, RunStatus, provisioning, running, failed}
use lambda_ciactions.Shared.FlavorCatalog.{is_custom_flavor_name}
use lambda_ciactions.Shared.FlavorStore.{
  CustomFlavorRecord, FlavorValidationState, Loaded, load_routable_custom_flavors_result,
  is_routable_state,
}
use lambda_ciactions.Shared.RunStore.{
  TransitionInput, JitConfigItem, jitconfig_sk, run_pk, jit_config_ref, present,
}
use lambda_ciactions.Shared.RunStore.Writes.{Dynamo, transition_run, stamp_microvm_id}
use lambda_ciactions.Shared.Quota.{AwsError, is_quota_error}
use lambda_ciactions.Shared.Redact.{redact_secret}
use lambda_ciactions.Shared.Microvm.{
  RunHookPayload, LaunchParams, RunMicrovm, Answer, Launched, launched, launch_micro_vm,
}
use lambda_ciactions.Ingest.Adopt.{ClaimVia}
use lambda_ciactions.Ingest.Filter.{ProvisionRequest}
use lambda_ciactions.Ingest.JobMatch.{WorkflowAnalysisRecord, match_job_analysis}
use lambda_ciactions.Provision.Flavor.{
  ResolveOptions, label_only, resolve_flavor, needs_custom_flavors,
}
use lambda_ciactions.Provision.Labels.{
  MintLabels, mint, refuse, mint_labels, jit_runner_labels, MintFailureKind, permanent, transient,
  MintFailureClassification, classify_mint_failure,
}
use lambda_ciactions.Provision.Reasons.{refusal_message, failure_text, unroutable_text, launch_text}

-- `generateJitConfig`, with the parameters that the request does not hold.
pub record MintRequest : Type 0 where
  pub app_id : Text
  pub pem : Text
  pub labels : List Text

-- What GitHub answers: a configuration, or the message of the error.
pub data Minted : Type 0 where
  minted : Text → Minted
  unminted : Text → Minted

-- The environment of the function and what the services answer to one message; an outer `none` is a
-- call that throws. `lookup_lost` is an error of the lookup that none of its own handlers catches.
pub record Deps : Type 0 where
  pub broker_name : Option Text
  pub region : Option Text
  pub runner_role_arn : Option Text
  pub lca_env : Option Text
  pub app_id_param : Text
  pub app_pem_param : Text
  pub image_arn_param_prefix : Text
  pub get_param : Text → Option Text
  pub lookup_lost : Bool
  pub get_repo : Option (Option RepoRecord)
  pub list_workflow_analyses : Option (List (WorkflowAnalysisRecord Unit))
  pub list_custom_flavors : Option (List CustomFlavorRecord)
  pub get_custom_flavor : Text → Option (Option CustomFlavorRecord)
  pub generate_jit_config : MintRequest → Minted
  pub hook_token : Text
  pub hash_hook_token : Text → Text
  pub jit_config_stored : Bool
  pub run_microvm : RunMicrovm → Answer
  pub started_at : ℕ
  pub stored_at : ℕ
  pub ended_at : ℕ
  pub retention : ℕ

-- The calls that cannot be taken back, in order.
pub data Call : Type 0 where
  generate_jit_config : MintRequest → Call
  put_jit_config : JitConfigItem → Call
  run_microvm : RunMicrovm → Call

-- The errors that `provisionOne` throws, by the statement.
pub data Cause : Type 0 where
  no_broker_name lookup_degraded no_image no_app_parameter transient_mint jit_not_stored throttled
        launch_failed :
      Cause

-- How it ends: four of the endings consume the message.
pub data Ending : Type 0 where
  skipped unroutable mint_rejected : Ending
  launched_vm : Text → Ending
  threw : Cause → Ending

pub record Provisioned (Table : Type 0) : Type 0 where
  pub table : Table
  pub calls : List Call
  pub ending : Ending

pub record Lookup : Type 0 where
  pub opts : ResolveOptions
  pub custom_read_degraded : Bool

-- `getRepo(…).catch(() => undefined)`
abbrev pub repo_read : Option (Option RepoRecord) → Option RepoRecord
repo_read none = none
repo_read (some repo) = repo

abbrev pub adopted : Option ClaimVia → Option RepoMode
adopted (some ClaimVia.adopt) = some RepoMode.adopt
adopted _ = none

-- `repo?.mode ?? (req.claimVia === 'adopt' ? 'adopt' : undefined)`
abbrev pub mode_of : Option RepoRecord → Option ClaimVia → Option RepoMode
mode_of none via = adopted via
mode_of (some repo) via = elim repo.mode [ some mode ↦ some mode | none ↦ adopted via ]

abbrev pub analyses_read :
    Option (List (WorkflowAnalysisRecord Unit)) → List (WorkflowAnalysisRecord Unit)
analyses_read none = []
analyses_read (some analyses) = analyses

-- The signals of the job, where its name matches one analysis.
unfoldable pub needs_docker_of :
    Option (List (WorkflowAnalysisRecord Unit)) → ProvisionRequest → Bool
unfolding match_job_analysis
needs_docker_of analyses req = elim (is_nonempty req.job_name) [
  | false ↦ false
  | true ↦ elim (match_job_analysis (analyses_read analyses) req.workflow_name req.job_name) [
    | none ↦ false
    | some m ↦ m.job.needs_docker
  ]
]

abbrev pub repo_options : Option RepoRecord → ProvisionRequest → Bool → ResolveOptions
repo_options none req needs_docker = record label_only {
  needs_docker = needs_docker;
  mode = mode_of none req.claim_via;
}
repo_options (some repo) req needs_docker = record {
  flavor_map = repo.flavor_map;
  custom_flavors = none;
  default_flavor = present repo.default_flavor;
  needs_docker = needs_docker;
  mode = mode_of (some repo) req.claim_via;
}

abbrev pub with_loaded : ResolveOptions → Loaded → Lookup
with_loaded opts res = record {
  opts = record opts { custom_flavors = some res.flavors };
  custom_read_degraded = res.degraded;
}

unfoldable pub lookup_resolve_options : Deps → ProvisionRequest → Lookup
unfolding needs_docker_of needs_custom_flavors load_routable_custom_flavors_result
lookup_resolve_options deps req =
    let opts =
      repo_options (repo_read deps.get_repo) req
        (needs_docker_of deps.list_workflow_analyses req) in
    if needs_custom_flavors req.labels opts.flavor_map opts.default_flavor
    then with_loaded opts (load_routable_custom_flavors_result deps.list_custom_flavors)
    else record { opts = opts; custom_read_degraded = false }

-- The lookup with the `catch` around it.
unfoldable pub safe_lookup : Deps → ProvisionRequest → Lookup
unfolding lookup_resolve_options
safe_lookup deps req =
    if deps.lookup_lost
    then record { opts = label_only; custom_read_degraded = true }
    else lookup_resolve_options deps req

-- The argument is the row that was read back; `none` is the error that is thrown.
unfoldable pub launchable_custom_image_arn : Option CustomFlavorRecord → Option Text
unfolding is_routable_state
launchable_custom_image_arn none = none
launchable_custom_image_arn (some rec) =
    if is_routable_state rec.state
    then if is_nonempty rec.image_arn then some rec.image_arn else none
    else none

abbrev pub read_back : Option (Option CustomFlavorRecord) → Option Text
read_back none = none
read_back (some rec) = launchable_custom_image_arn rec

unfoldable pub resolve_image_arn : Deps → Text → Option Text
unfolding launchable_custom_image_arn is_custom_flavor_name
resolve_image_arn deps flavor =
    if is_custom_flavor_name (some flavor)
    then read_back (deps.get_custom_flavor flavor)
    else deps.get_param (deps.image_arn_param_prefix ++ flavor)

abbrev pub move_to : ProvisionRequest → RunStatus → Option Text → Option Text → TransitionInput
move_to req to flavor reason = record {
  repo_id = req.repo_id;
  run_id = req.run_id;
  job_id = req.job_id;
  to = to;
  flavor = flavor;
  microvm_id = none;
  reason = reason;
}

unfoldable pub jit_config_item : Deps → ProvisionRequest → Text → JitConfigItem
jit_config_item deps req jit_config = record {
  pk = run_pk req.repo_id req.run_id req.job_id;
  sk = jitconfig_sk;
  payload = record {
    jit_config = jit_config;
    run_id = req.run_id;
    job_id = req.job_id;
    repo_full_name = req.repo_full_name;
    labels = req.labels;
    hook_token_hash = present (some (deps.hash_hook_token deps.hook_token));
  };
  ttl = deps.stored_at / 1000 + 30 * 60;
}

abbrev pub or_else : Option Text → Text → Text
or_else none d = d
or_else (some v) d = v

unfoldable pub launch_params : Deps → ProvisionRequest → Text → Text → LaunchParams
launch_params deps req broker image = record {
  image_arn = image;
  run_id = req.run_id;
  job_id = req.job_id;
  payload = record {
    ref = jit_config_ref req.repo_id req.run_id req.job_id;
    region = or_else deps.region (codes "us-west-2");
    broker = broker;
    token = deps.hook_token;
  };
  execution_role_arn = deps.runner_role_arn;
  log_group = some (codes "/aws/lambda/microvms/runs/lca-" ++ or_else deps.lca_env (codes "dev"));
}

abbrev pub sent : Option RunMicrovm → List Call
sent none = []
sent (some input) = run_microvm input ∷ []

module _ (db : Dynamo) (deps : Deps) (req : ProvisionRequest) where
  abbrev pub ended : Ending → List Call → db.Table → Provisioned db.Table
  ended ending calls t = record { table = t; calls = calls; ending = ending }

  -- `transitionRun({ to: 'failed', … }).catch(() => {})`
  unfoldable pub mark_failed : Text → Text → db.Table → db.Table
  unfolding transition_run
  mark_failed flavor reason t =
      (transition_run db (move_to req failed (some flavor) (some reason)) deps.ended_at
        deps.retention t).0

  -- Steps 4 and 5: the stamp and the move to `running`, whose errors are logged only.
  unfoldable pub record_vm : Text → Text → db.Table → db.Table
  unfolding transition_run stamp_microvm_id
  record_vm flavor id t =
      let stamped =
        (stamp_microvm_id db req.repo_id req.run_id req.job_id id
          (some (deps.hash_hook_token deps.hook_token)) t).0 in
      (transition_run db (move_to req running (some flavor) none) deps.ended_at deps.retention
        stamped).0

  abbrev pub launch_failure : Text → List Call → AwsError → db.Table → Provisioned db.Table
  launch_failure flavor calls err t =
      if is_quota_error err
      then ended (threw throttled) calls t
      else ended (threw launch_failed) calls
          (mark_failed flavor (launch_text (redact_secret err.message deps.hook_token)) t)

  abbrev pub after_launch : Text → List Call → Launched → db.Table → Provisioned db.Table
  after_launch flavor calls (launched id) t = ended (launched_vm id) calls (record_vm flavor id t)
  after_launch flavor calls (Launched.failed err) t = launch_failure flavor calls err t

  -- Step 3: the configuration is stored, then the VM launched.
  unfoldable pub launch : Text → Text → Text → Text → List Call → db.Table → Provisioned db.Table
  unfolding launch_micro_vm jit_config_item launch_params mark_failed record_vm
  launch broker flavor image jit_config calls t =
      let calls' = calls ++ (put_jit_config (jit_config_item deps req jit_config) ∷ []) in
      let result = launch_micro_vm deps.run_microvm (launch_params deps req broker image) in
      if not deps.jit_config_stored
      then ended (threw jit_not_stored) calls' t
      else after_launch flavor (calls' ++ sent result.0) result.1 t

  abbrev pub classified :
      Text → List Call → Text → MintFailureClassification → db.Table → Provisioned db.Table
  classified flavor calls message c t = elim c.kind [
    | transient ↦ ended (threw transient_mint) calls t
    | permanent ↦ ended mint_rejected calls (mark_failed flavor (failure_text message c.reason) t)
  ]

  -- The `catch` of step 2.
  unfoldable pub mint_failure : Text → List Call → Text → db.Table → Provisioned db.Table
  unfolding mark_failed classify_mint_failure jit_runner_labels
  mint_failure flavor calls message t =
      classified flavor calls message (classify_mint_failure message (jit_runner_labels req.labels))
        t

  abbrev pub after_mint : Text → Text → Text → List Call → Minted → db.Table → Provisioned db.Table
  after_mint broker flavor image calls (unminted message) t = mint_failure flavor calls message t
  after_mint broker flavor image calls (minted jit_config) t =
      launch broker flavor image jit_config calls t

  abbrev pub mint_with : Text → Text → Text → MintRequest → db.Table → Provisioned db.Table
  mint_with broker flavor image m t =
      after_mint broker flavor image (Call.generate_jit_config m ∷ []) (deps.generate_jit_config m)
        t

  -- Step 2: the guards on the labels, then the mint.
  unfoldable pub mint_runner : Text → Text → Text → Text → Text → db.Table → Provisioned db.Table
  unfolding mint_labels mint_failure launch
  mint_runner broker flavor image app_id pem t = elim (mint_labels req.labels) [
    | refuse r ↦ mint_failure flavor [] (refusal_message r) t
    | mint labels ↦
        mint_with broker flavor image (record { app_id = app_id; pem = pem; labels = labels }) t
  ]

  abbrev pub with_parameters :
      Text → Text → Text → Option Text → Option Text → db.Table → Provisioned db.Table
  with_parameters broker flavor image none pem t = ended (threw no_app_parameter) [] t
  with_parameters broker flavor image (some app_id) none t = ended (threw no_app_parameter) [] t
  with_parameters broker flavor image (some app_id) (some pem) t =
      mint_runner broker flavor image app_id pem t

  abbrev pub with_image : Text → Text → Option Text → db.Table → Provisioned db.Table
  with_image broker flavor none t = ended (threw no_image) [] t
  with_image broker flavor (some image) t =
      with_parameters broker flavor image (deps.get_param deps.app_id_param)
        (deps.get_param deps.app_pem_param) t

  -- Step 1, behind the lookup: an unresolved custom flavor is refused.
  unfoldable pub route : Text → Lookup → db.Table → Provisioned db.Table
  unfolding resolve_flavor resolve_image_arn mint_runner mark_failed
  route broker lookup t =
      let resolution = resolve_flavor req.labels lookup.opts in
      elim resolution.unresolved_custom [
        | some name ↦
            if lookup.custom_read_degraded
            then ended (threw lookup_degraded) [] t
            else ended unroutable [] (mark_failed resolution.flavor (unroutable_text name) t)
        | none ↦ with_image broker resolution.flavor (resolve_image_arn deps resolution.flavor) t
      ]

  -- What the move to `provisioning` answered; an error of it is logged only.
  abbrev pub advanced : Text → Option Bool → db.Table → Provisioned db.Table
  advanced broker (some false) t = ended skipped [] t
  advanced broker _ t = route broker (safe_lookup deps req) t

  unfoldable pub provision_one : db.Table → Provisioned db.Table
  unfolding transition_run route safe_lookup
  provision_one t = elim (present deps.broker_name) [
    | none ↦ ended (threw no_broker_name) [] t
    | some broker ↦
        let answer =
          transition_run db (move_to req provisioning none none) deps.started_at deps.retention t in
        advanced broker answer.1 answer.0
  ]

pub record SqsRecord : Type 0 where
  pub message_id : Text
  pub body : Text

-- `handler`: the loop over the records, with the failures so far. `parse` is `JSON.parse`, and
-- `deps_of` what the services answer to a message.
module _ (db : Dynamo) (parse : Text → Option ProvisionRequest) (deps_of : Text → Deps) where
  abbrev pub is_thrown : Ending → Bool
  is_thrown (threw cause) = true
  is_thrown _ = false

  -- The table behind one record, and whether it failed.
  unfoldable pub handle_record : SqsRecord → db.Table → db.Table × Bool
  unfolding provision_one
  handle_record r t = elim (parse r.body) [
    | none ↦ (t, true)
    | some req ↦
        let p = provision_one db (deps_of r.message_id) req t in (p.table, is_thrown p.ending)
  ]

  unfoldable pub handle_batch : List SqsRecord → List Text → db.Table → db.Table × List Text
  unfolding handle_record
  handle_batch [] failures t = (t, failures)
  handle_batch (r ∷ rest) failures t =
      let step = handle_record r t in
      handle_batch rest (failures ++ (if step.1 then r.message_id ∷ [] else [])) step.0
