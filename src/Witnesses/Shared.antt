-- ===== src/Witnesses/Shared.antt =====
-- Readiness, allowlists and pages at concrete inputs.
use lambda_ciactions.Common.{
  ℕ, ◌≤◌, ◌≡◌, refl, true, false, ◌↔◌, ◌⊎◌, Option, none, some, List, [], ◌∷◌,
}
use lambda_ciactions.Common.Lists.{In, length}
use lambda_ciactions.Common.Text.{Text, codes, normalize_all, text_ops}
use lambda_ciactions.Ingest.Adopt.{decide_claim, adopt_ops}
use lambda_ciactions.Ingest.Adopt.Normal.{IsServable}
use lambda_ciactions.Shared.Readiness.{
  ReadinessFlavor, ControlPlaneSnapshot, FlavorReadinessState, ready, image_missing, unroutable,
  readiness_of, is_published,
}
use lambda_ciactions.Shared.Readiness.Gate.{readiness_of-decide_claim}
use lambda_ciactions.Shared.Allowlist.{set_of, allowlist_changed}
use lambda_ciactions.Shared.Allowlist.Changed.{allowlist_changed_iff}
use lambda_ciactions.Mgmt.Paging.{
  Page, is_exhausted, collect_visible, Walk, visible_rows, collect_visible_lem,
}
use lambda_ciactions.Shared.FlavorCatalog.{
  custom_flavor_base_name_error, not_alphanumeric, consecutive_hyphens, repeats_prefix, catalog_ops,
}

abbrev node : ReadinessFlavor
node = record { name = codes "node"; label = codes "lambda-ci-node" }

abbrev snapshot : ControlPlaneSnapshot
snapshot = record {
  allowlist = codes "Lambda-CI-Node " ∷ codes "ubuntu-latest" ∷ [];
  image_published = some (codes "node" ∷ []);
  live = true;
}

node_IsServable : IsServable (codes "lambda-ci-node")
unfolding adopt_ops
node_IsServable = (refl, refl)

readiness_of-decide_claim_example : ((readiness_of snapshot node).runnable ≡ true) ↔ (
    ((decide_claim (codes "lambda-ci-node" ∷ []) snapshot.allowlist none).claim ≡ true)
    × (is_published snapshot.image_published (codes "node") ≡ true))
readiness_of-decide_claim_example = readiness_of-decide_claim snapshot node node_IsServable

abbrev states : List FlavorReadinessState
states = image_missing ∷ unroutable ∷ ready ∷ []

abbrev before : List Text
before = codes "lambda-ci" ∷ codes "GPU" ∷ []

abbrev after : List Text
after = codes "gpu " ∷ codes "lambda-ci" ∷ codes "Lambda-CI" ∷ []

allowlist_changed_iff_example :
    (allowlist_changed before after true ≡ false)
    ↔ ((x : Text) → In x (normalize_all before) ↔ In x (normalize_all after))
allowlist_changed_iff_example = allowlist_changed_iff before after

unchanged : allowlist_changed before after true ≡ false
unfolding text_ops set_of allowlist_changed
unchanged = refl

-- An index of two pages.
abbrev two_pages : Option Text → Page ℕ
two_pages none = record { runs = 1 ∷ 2 ∷ []; next_cursor = some (codes "c") }
two_pages (some c) = record { runs = 3 ∷ []; next_cursor = none }

abbrev everything : List ℕ → List ℕ
everything rows = rows

collect_visible_lem_example :
    (pages : List (List ℕ)) × Walk two_pages everything none pages
      (collect_visible two_pages everything 3 none 5).next_cursor
    × ((collect_visible two_pages everything 3 none 5).runs
        ≡ visible_rows two_pages everything pages)
    × (length pages ≤ 5)
    × ((is_exhausted (collect_visible two_pages everything 3 none 5).next_cursor ≡ true)
        ⊎ ((3 ≤ length (collect_visible two_pages everything 3 none 5).runs) ⊎ (length pages ≡ 5)))
collect_visible_lem_example = collect_visible_lem two_pages everything 3 none 5

base_name_tests :
    (custom_flavor_base_name_error (some (codes "gpu-builder")) ≡ none)
    × (custom_flavor_base_name_error (some (codes "gpu-")) ≡ some not_alphanumeric)
    × (custom_flavor_base_name_error (some (codes "a--b")) ≡ some consecutive_hyphens)
    × (custom_flavor_base_name_error (some (codes "custom-a")) ≡ some repeats_prefix)
unfolding catalog_ops
base_name_tests = (refl, refl, refl, refl)
