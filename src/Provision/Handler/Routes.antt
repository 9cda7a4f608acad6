-- ===== src/Provision/Handler/Routes.antt =====
-- The ways that a message can take behind the move to `provisioning`.
use lambda_ciactions.Common.{
  ◌≡◌, refl, ap, true, false, not, Option, none, some, List, [], ◌∷◌, ◌++◌, inl, inr, ◌⊎◌,
}
use lambda_ciactions.Common.Tests.{Bool-cases, Option-cases, if◌then◌else◌}
use lambda_ciactions.Common.Text.{Text}
use lambda_ciactions.Shared.RunStore.Writes.{Dynamo}
use lambda_ciactions.Shared.Microvm.{launch_micro_vm}
use lambda_ciactions.Ingest.Filter.{ProvisionRequest}
use lambda_ciactions.Provision.Flavor.{resolve_flavor}
use lambda_ciactions.Provision.Labels.{MintLabels, MintRefusal, mint, refuse, mint_labels}
use lambda_ciactions.Provision.Reasons.{refusal_message, unroutable_text}
use lambda_ciactions.Provision.Handler.{
  Deps, Call, MintRequest, Minted, minted, unminted, generate_jit_config, Provisioned, unroutable,
  threw, lookup_degraded, no_image, no_app_parameter, safe_lookup, resolve_image_arn, ended,
  jit_not_stored, put_jit_config, jit_config_item, launch_params, after_launch, sent, mark_failed,
  launch, mint_failure, mint_runner, with_parameters, route,
}

Minted-cases : (m : Minted) → ((s : Text) × (m ≡ minted s)) ⊎ ((s : Text) × (m ≡ unminted s))
Minted-cases (minted s) = inl (s, refl)
Minted-cases (unminted s) = inr (s, refl)

MintLabels-cases :
    (m : MintLabels) → ((ls : List Text) × (m ≡ mint ls)) ⊎ ((r : MintRefusal) × (m ≡ refuse r))
MintLabels-cases (mint ls) = inl (ls, refl)
MintLabels-cases (refuse r) = inr (r, refl)

module _ (db : Dynamo) (deps : Deps) (req : ProvisionRequest) where
  -- What stands in front of a mint.
  pub record Routed (flavor image : Text) : Type 0 where
    pub resolved : (resolve_flavor req.labels (safe_lookup deps req).opts).unresolved_custom ≡ none
    pub chosen : flavor ≡ (resolve_flavor req.labels (safe_lookup deps req).opts).flavor
    pub has_image : resolve_image_arn deps flavor ≡ some image

  pub data Route (broker : Text) (t : db.Table) : Provisioned db.Table → Type 0 where
    degraded : Route broker t (ended db deps req (threw lookup_degraded) [] t)
    unresolved :
        (flavor name : Text)
        → (safe_lookup deps req).custom_read_degraded ≡ false
        → Route broker t (
            ended db deps req unroutable []
              (mark_failed db deps req flavor (unroutable_text name) t))
    imageless : Route broker t (ended db deps req (threw no_image) [] t)
    parameterless : Route broker t (ended db deps req (threw no_app_parameter) [] t)
    refused :
        (flavor : Text) (r : MintRefusal)
        → mint_labels req.labels ≡ refuse r
        → Route broker t (mint_failure db deps req flavor [] (refusal_message r) t)
    failed_mint :
        (flavor message : Text) (m : MintRequest)
        → deps.generate_jit_config m ≡ unminted message
        → Route broker t (mint_failure db deps req flavor (generate_jit_config m ∷ []) message t)
    launching :
        (flavor image jit_config : Text) (m : MintRequest)
        → Routed flavor image
        → mint_labels req.labels ≡ mint m.labels
        → deps.generate_jit_config m ≡ minted jit_config
        → Route broker t
            (launch db deps req broker flavor image jit_config (generate_jit_config m ∷ []) t)

  module _ (broker : Text) (t : db.Table) where
    mint_runner-Route :
        (flavor image app_id pem : Text)
        → Routed flavor image
        → Route broker t (mint_runner db deps req broker flavor image app_id pem t)
    unfolding mint_runner
    mint_runner-Route flavor image app_id pem before =
        elim (MintLabels-cases (mint_labels req.labels)) [
          | inr (r, e) ↦ rw (e, mint_runner) (refused flavor r e)
          | inl (ls, e) ↦
              let m : MintRequest = record { app_id = app_id; pem = pem; labels = ls } in
              rw (e, mint_runner)
                (elim (Minted-cases (deps.generate_jit_config m)) [
                  | inr (message, g) ↦ rw g (failed_mint flavor message m g)
                  | inl (jit, g) ↦ rw g (launching flavor image jit m before e g)
                ])
        ]

    with_parameters-Route :
        (flavor image : Text) (app_id pem : Option Text)
        → Routed flavor image
        → Route broker t (with_parameters db deps req broker flavor image app_id pem t)
    with_parameters-Route flavor image none pem before = parameterless
    with_parameters-Route flavor image (some app_id) none before = parameterless
    with_parameters-Route flavor image (some app_id) (some pem) before =
        mint_runner-Route flavor image app_id pem before

    pub route-Route : Route broker t (route db deps req broker (safe_lookup deps req) t)
    unfolding route
    route-Route =
        let resolution = resolve_flavor req.labels (safe_lookup deps req).opts in
        elim (Option-cases resolution.unresolved_custom) [
          | inr (name, e) ↦
              rw (e, route)
                (elim (Bool-cases (safe_lookup deps req).custom_read_degraded) [
                  | inl lost ↦ rw lost degraded
                  | inr read ↦ rw read (unresolved resolution.flavor name read)
                ])
          | inl e ↦
              rw (e, route)
                (elim (Option-cases (resolve_image_arn deps resolution.flavor)) [
                  | inl missing ↦ rw missing imageless
                  | inr (image, i) ↦ rw i (
                      with_parameters-Route resolution.flavor image
                        (deps.get_param deps.app_id_param) (deps.get_param deps.app_pem_param)
                        (record { resolved = e; chosen = refl; has_image = i }))
                ])
        ]

  -- What happens behind a configuration that was stored.
  pub launch_stored :
      (broker flavor image jit_config : Text) (calls : List Call) (t : db.Table)
      → deps.jit_config_stored ≡ true
      → let result = launch_micro_vm deps.run_microvm (launch_params deps req broker image) in
        launch db deps req broker flavor image jit_config calls t
        ≡ after_launch db deps req flavor
            ((calls ++ (put_jit_config (jit_config_item deps req jit_config) ∷ []))
              ++ sent result.0)
            result.1
            t
  unfolding launch
  launch_stored broker flavor image jit_config calls t h =
      let result = launch_micro_vm deps.run_microvm (launch_params deps req broker image) in
      let calls' = calls ++ (put_jit_config (jit_config_item deps req jit_config) ∷ []) in
      ap
        (λ b.
          if not b
          then ended db deps req (threw jit_not_stored) calls' t
          else after_launch db deps req flavor (calls' ++ sent result.0) result.1 t)
        h
