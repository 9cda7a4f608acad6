-- ===== src/Witnesses/Provision.antt =====
-- Flavor resolution and the mint at concrete labels.
use lambda_ciactions.Common.{
  ℕ, ◌≤◌, ◌≡◌, refl, true, false, arith, ◌↔◌, ◌⊎◌, none, some, List, [], ◌∷◌, map,
}
use lambda_ciactions.Common.Lists.{In, Distinct, All, length}
use lambda_ciactions.Common.Text.{Text, codes, normalize, to_lower_case}
use lambda_ciactions.Shared.FlavorCatalog.{CatalogFlavor}
use lambda_ciactions.Ingest.Adopt.{decide_claim}
use lambda_ciactions.Provision.Labels.{
  jit_runner_labels, mint_labels, mint, max_jit_labels, classify_mint_failure, transient, label_ops,
}
use lambda_ciactions.Provision.Labels.Advertised.{IsLiteral, FromJob, jit_runner_labels_lem}
use lambda_ciactions.Provision.Labels.Failures.{IsRetried, classify_mint_failure_iff}
use lambda_ciactions.Provision.Labels.Wording.{IsOwnWording}
use lambda_ciactions.Provision.Labels.Status.{IsStatus, HasNoStatus}
use lambda_ciactions.Provision.Flavor.{
  LabelMatch, ResolveOptions, label_only, effective_flavors, explicit_label_match,
  needs_custom_flavors, resolve_flavor, flavor_ops,
}
use lambda_ciactions.Provision.Flavor.Valid.{Serves, resolve_flavor-Serves}
use lambda_ciactions.Provision.Flavor.Custom.{IsCustom}
use lambda_ciactions.Provision.Flavor.Gate.{resolve_flavor-needs_custom_flavors}
use lambda_ciactions.Provision.Flavor.{explicit_label}
use lambda_ciactions.Provision.Labels.{hosted_label, rate_limited}

abbrev labels : List Text
labels = codes "self-hosted" ∷ codes " Lambda-CI-Node " ∷ codes "lambda-ci-node" ∷ []

abbrev advertised : List Text
advertised = codes "self-hosted" ∷ codes "Lambda-CI-Node" ∷ []

jit_runner_labels_lem_example :
    Distinct (map to_lower_case (jit_runner_labels labels))
    × ((x : Text) → In x (jit_runner_labels labels) → FromJob labels x)
    × ((raw : Text)
        → In raw labels
        → IsLiteral raw
        → (x : Text) × In x (jit_runner_labels labels) × (normalize x ≡ normalize raw))
jit_runner_labels_lem_example = jit_runner_labels_lem labels

claims : (decide_claim labels (codes "lambda-ci-node" ∷ []) none).claim ≡ true
unfolding label_ops
claims = refl

self_hosted_IsLiteral : IsLiteral (codes "self-hosted")
unfolding label_ops
self_hosted_IsLiteral = (refl, refl)

few : length (jit_runner_labels labels) ≤ max_jit_labels
unfolding label_ops
few = omega arith

minted : mint_labels labels ≡ mint advertised
unfolding label_ops
minted = refl

abbrev message : Text
message = codes "HTTP 503: unavailable"

classify_mint_failure_iff_example : ((classify_mint_failure message labels).kind ≡ transient) ↔ (
    (¬ IsOwnWording message)
    × (HasNoStatus message ⊎ ((code : ℕ) × IsStatus message code × IsRetried message code)))
classify_mint_failure_iff_example = classify_mint_failure_iff message labels

abbrev gpu : CatalogFlavor
gpu = record {
  name = codes "custom-gpu";
  label = codes "lambda-ci-custom-gpu";
  vcpu = 4;
  memory_mb = 8192;
  capabilities = [];
  custom = true;
}

abbrev with_docker : ResolveOptions
with_docker = record label_only { needs_docker = true; custom_flavors = some (gpu ∷ []) }

resolve_flavor-Serves_example :
    Serves
      (effective_flavors with_docker.custom_flavors)
      true
      (resolve_flavor labels with_docker).flavor
resolve_flavor-Serves_example = resolve_flavor-Serves labels with_docker

ungated : needs_custom_flavors labels none none ≡ false
unfolding flavor_ops
ungated = refl

gpu-IsCustom : All IsCustom (gpu ∷ [])
unfolding flavor_ops
gpu-IsCustom = ((refl, refl), tt)

resolve_flavor-needs_custom_flavors_example :
    resolve_flavor labels (record label_only { custom_flavors = some (gpu ∷ []) })
    ≡ resolve_flavor labels (record label_only { custom_flavors = none })
resolve_flavor-needs_custom_flavors_example =
    resolve_flavor-needs_custom_flavors labels label_only (gpu ∷ []) ungated gpu-IsCustom

abbrev small : CatalogFlavor
small = record gpu { name = codes "base"; label = codes "lambda-ci" }

abbrev pair : List CatalogFlavor
pair = small ∷ gpu ∷ []

abbrev turned : List CatalogFlavor
turned = gpu ∷ small ∷ []

abbrev both : List Text
both = codes "lambda-ci" ∷ codes "lambda-ci-custom-gpu" ∷ []

abbrev chosen : LabelMatch
chosen = record { def = gpu; ambiguous_with = [] }

pair-chosen : explicit_label_match pair both ≡ some chosen
unfolding flavor_ops
pair-chosen = refl

turned-chosen : explicit_label_match turned both ≡ some chosen
unfolding flavor_ops
turned-chosen = refl

resolve_tests :
    ((resolve_flavor (codes "lambda-ci-python" ∷ codes "Lambda-CI-docker" ∷ []) label_only).flavor
      ≡ codes "docker")
    × ((resolve_flavor
          (codes "lambda-ci-node" ∷ [])
          (record label_only { needs_docker = true })).reason
        ≡ record {
          rule = explicit_label (codes "lambda-ci-node") [];
          upgrade = some (codes "docker", codes "node" ∷ []);
        })
    × ((resolve_flavor (codes "lambda-ci-custom-gpu" ∷ []) label_only).unresolved_custom
        ≡ some (codes "lambda-ci-custom-gpu"))
unfolding flavor_ops
resolve_tests = (refl, refl, refl)

mint_tests :
    (jit_runner_labels
        (codes "self-hosted" ∷ codes " Lambda-CI " ∷ codes "lambda-ci" ∷ codes "${{ m.os }}" ∷ [])
      ≡ codes "self-hosted" ∷ codes "Lambda-CI" ∷ [])
    × ((classify_mint_failure (codes "mint failed: HTTP 403: API Rate Limit exceeded") []).kind
        ≡ transient)
    × ((classify_mint_failure (codes "HTTP 422") (codes "ubuntu-latest" ∷ [])).reason
        ≡ hosted_label (codes "ubuntu-latest"))
    × ((classify_mint_failure (codes "HTTP 403: retry-after 60") []).reason ≡ rate_limited)
unfolding label_ops
mint_tests = (refl, refl, refl, refl)
