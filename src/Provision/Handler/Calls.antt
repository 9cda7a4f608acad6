-- ===== src/Provision/Handler/Calls.antt =====
-- Which calls a message leads to: a VM is launched only behind every guard, with the configuration
-- that was minted for its own labels.
use lambda_ciactions.Common.{
  ◌≡◌, ◌≢◌, ap, ◌∙◌, Bool, true, false, Option, none, some, List, [], ◌∷◌, ◌++◌, arith, inl, inr,
}
use lambda_ciactions.Common.Tests.{Bool-cases, Option-cases, ltb}
use lambda_ciactions.Common.Lists.{In}
use lambda_ciactions.Common.Text.{Text}
use lambda_ciactions.Shared.Types.{provisioning}
use lambda_ciactions.Shared.RunStore.{present}
use lambda_ciactions.Shared.RunStore.Writes.{Dynamo, transition_run}
use lambda_ciactions.Shared.Microvm.{
  RunMicrovm, launch_micro_vm, run_microvm_input, LaunchParams, run_hook_payload_max, payload_bytes,
}
use lambda_ciactions.Ingest.Filter.{ProvisionRequest}
use lambda_ciactions.Provision.Flavor.{resolve_flavor}
use lambda_ciactions.Provision.Labels.{mint, mint_labels}
use lambda_ciactions.Provision.Reasons.{refusal_message}
use lambda_ciactions.Provision.Handler.Routes.{
  Route, degraded, unresolved, imageless, parameterless, refused, failed_mint, launching,
  route-Route,
}
use lambda_ciactions.Provision.Handler.{
  Deps, Call, MintRequest, minted, generate_jit_config, put_jit_config, run_microvm,
  jit_config_item, launch_params, safe_lookup, resolve_image_arn, move_to, sent, launch,
  mint_failure, advanced, provision_one, Provisioned,
}

-- What a launch rests on.
pub record Behind (deps : Deps) (req : ProvisionRequest) (input : RunMicrovm) (calls : List Call)
    : Type 0 where
  pub broker : Text
  pub image : Text
  pub request : MintRequest
  pub jit_config : Text
  pub has_broker : present deps.broker_name ≡ some broker
  pub resolved : (resolve_flavor req.labels (safe_lookup deps req).opts).unresolved_custom ≡ none
  pub has_image :
      resolve_image_arn deps (resolve_flavor req.labels (safe_lookup deps req).opts).flavor
      ≡ some image
  pub advertised : mint_labels req.labels ≡ mint request.labels
  pub from_github : deps.generate_jit_config request ≡ minted jit_config
  pub stored : deps.jit_config_stored ≡ true
  pub own : input ≡ run_microvm_input (launch_params deps req broker image)
  pub order :
      calls
      ≡ generate_jit_config request
        ∷ put_jit_config (jit_config_item deps req jit_config)
        ∷ run_microvm input
        ∷ []

sent_by :
    (send : _) (params : LaunchParams) (input : RunMicrovm)
    → In (run_microvm input) (sent (launch_micro_vm send params).0)
    → (input ≡ run_microvm_input params)
      × (sent (launch_micro_vm send params).0 ≡ run_microvm input ∷ [])
unfolding launch_micro_vm
sent_by send params input m = elim (Bool-cases (ltb run_hook_payload_max (payload_bytes params))) [
  | inl large ↦ ground arith
  | inr small ↦ ground arith
]

module _ (db : Dynamo) (deps : Deps) (req : ProvisionRequest) where
  launch_stored :
      (broker flavor image jit_config : Text) (calls : List Call) (t : db.Table)
      → deps.jit_config_stored ≡ true
      → (launch db deps req broker flavor image jit_config calls t).calls
        ≡ (calls ++ (put_jit_config (jit_config_item deps req jit_config) ∷ []))
          ++ sent (launch_micro_vm deps.run_microvm (launch_params deps req broker image)).0
  unfolding launch
  launch_stored broker flavor image jit_config calls t h = ground arith

  launch_unstored :
      (broker flavor image jit_config : Text) (calls : List Call) (t : db.Table)
      → deps.jit_config_stored ≡ false
      → (launch db deps req broker flavor image jit_config calls t).calls
        ≡ calls ++ (put_jit_config (jit_config_item deps req jit_config) ∷ [])
  unfolding launch
  launch_unstored broker flavor image jit_config calls t h = ground arith

  mint_failure_calls :
      (flavor : Text) (calls : List Call) (message : Text) (t : db.Table)
      → (mint_failure db deps req flavor calls message t).calls ≡ calls
  unfolding mint_failure
  mint_failure_calls flavor calls message t = ground arith

  launch_step :
      (broker flavor image jit_config : Text) (m : MintRequest) (t : db.Table) (input : RunMicrovm)
      → let calls =
          (launch db deps req broker flavor image jit_config
            (generate_jit_config m ∷ [])
            t).calls in
        In (run_microvm input) calls
        → (deps.jit_config_stored ≡ true)
          × (input ≡ run_microvm_input (launch_params deps req broker image))
          × (calls
              ≡ generate_jit_config m
                ∷ put_jit_config (jit_config_item deps req jit_config)
                ∷ run_microvm input
                ∷ [])
  launch_step broker flavor image jit_config m t input i =
      elim (Bool-cases deps.jit_config_stored) [
        | inr unstored ↦
            let k =
              rw
                (launch_unstored broker flavor image jit_config (generate_jit_config m ∷ []) t
                  unstored)
                at i in
            elim k [ inl a ↦ ground arith | inr (inl a) ↦ ground arith | inr (inr a) ↦ absurd a ]
        | inl stored ↦
            let e =
              launch_stored broker flavor image jit_config (generate_jit_config m ∷ []) t stored in
            let k = rw e at i in
            elim k [
              | inl a ↦ ground arith
              | inr (inl a) ↦ ground arith
              | inr (inr a) ↦
                  let (same, only) =
                    sent_by deps.run_microvm (launch_params deps req broker image) input a in
                  (
                    stored,
                    same,
                    e
                        ∙ ap
                            (λ l.
                              generate_jit_config m
                              ∷ put_jit_config (jit_config_item deps req jit_config)
                              ∷ l)
                            only,
                  )
            ]
      ]

  mint_failure_step :
      (flavor message : Text) (calls : List Call) (t : db.Table) (input : RunMicrovm)
      → ¬ In (run_microvm input) calls
      → ¬ In (run_microvm input) (mint_failure db deps req flavor calls message t).calls
  mint_failure_step flavor message calls t input n i =
      n (rw (mint_failure_calls flavor calls message t) at i)

  route_step :
      (broker : Text) (t : db.Table) (p : Provisioned db.Table) (input : RunMicrovm)
      → present deps.broker_name ≡ some broker
      → Route db deps req broker t p
      → In (run_microvm input) p.calls
      → Behind deps req input p.calls
  route_step broker t p input h degraded i = absurd i
  route_step broker t p input h (unresolved flavor name read) i = absurd i
  route_step broker t p input h imageless i = absurd i
  route_step broker t p input h parameterless i = absurd i
  route_step broker t p input h (refused flavor r e) i =
      absurd (mint_failure_step flavor (refusal_message r) [] t input (λ m. m) i)
  route_step broker t p input h (failed_mint flavor message m e) i =
      absurd (
        mint_failure_step flavor message (generate_jit_config m ∷ []) t input (λ k. ground arith) i)
  route_step broker t p input h (launching flavor image jit_config m before e g) i =
      let (stored, own, order) = launch_step broker flavor image jit_config m t input i in
      record {
        broker = broker;
        image = image;
        request = m;
        jit_config = jit_config;
        has_broker = h;
        resolved = before.resolved;
        has_image = rw (← before.chosen) before.has_image;
        advertised = e;
        from_github = g;
        stored = stored;
        own = own;
        order = order;
      }

  advanced_step :
      (broker : Text) (answer : Option Bool) (t : db.Table) (input : RunMicrovm)
      → present deps.broker_name ≡ some broker
      → In (run_microvm input) (advanced db deps req broker answer t).calls
      → (answer ≢ some false) × Behind deps req input (advanced db deps req broker answer t).calls
  advanced_step broker (some false) t input h i = absurd i
  advanced_step broker (some true) t input h i =
      ((λ e. ground arith), route_step broker t _ input h (route-Route db deps req broker t) i)
  advanced_step broker none t input h i =
      ((λ e. ground arith), route_step broker t _ input h (route-Route db deps req broker t) i)

  -- A VM is launched only where the row was not refused the move to `provisioning`, the flavor is
  -- resolved with an image of its own, the labels passed every guard, and GitHub minted and the store
  -- took the configuration: one mint, one put, one launch, in this order, and the VM is handed the
  -- reference of its own run and the token whose hash stands beside the configuration.
  pub provision_one-run_microvm :
      (t : db.Table) (input : RunMicrovm)
      → In (run_microvm input) (provision_one db deps req t).calls
      → ((transition_run db (move_to req provisioning none none) deps.started_at deps.retention t).1
          ≢ some false)
        × Behind deps req input (provision_one db deps req t).calls
  unfolding provision_one
  provision_one-run_microvm t input i = elim (Option-cases (present deps.broker_name)) [
    | inl e ↦ absurd (rw (e, provision_one) at i)
    | inr (broker, e) ↦
        let answer =
          transition_run db (move_to req provisioning none none) deps.started_at deps.retention t in
        rw (e, provision_one)
          (advanced_step broker answer.1 answer.0 input e (rw (e, provision_one) at i))
  ]
