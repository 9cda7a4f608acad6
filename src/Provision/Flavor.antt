-- ===== src/Provision/Flavor.antt =====
-- src/provision/flavor.ts: which flavor a job's `runs-on` labels select.
mod Options
pub mod Catalog
pub mod Valid
pub mod Explicit
pub mod Custom
pub mod Agree
pub mod Gate
unfoldable pub use Options.*
use lambda_ciactions.Common.{
  ℕ, ◌≡◌, refl, Bool, true, false, ◌&&◌, ◌||◌, not, Option, none, some, List, [], ◌∷◌, ◌++◌, map,
}
use lambda_ciactions.Common.Tests.{if◌then◌else◌, leb, ltb, ◌==◌}
use lambda_ciactions.Common.Lists.{any, all, find, filter, length, sort_by}
use lambda_ciactions.Common.Text.{
  Text, codes, text_eq, text_le, to_lower_case, is_member, is_nonempty, text_ops,
}
use lambda_ciactions.Shared.Types.{RepoMode}
use lambda_ciactions.Shared.FlavorCatalog.{
  CatalogFlavor, builtin_flavors, compose_catalog, is_custom_flavor_label, is_custom_flavor_name,
  catalog_ops,
}
use lambda_ciactions.Ingest.Adopt.{adopt_flavor_for_label, is_adopt, adopt_ops}

-- `b.label.length - a.label.length || a.name.localeCompare(b.name)`, for `a` not behind `b`. Flavor
-- names are compared by code units, the order of `localeCompare` on lower-case names.
unfoldable pub not_behind : CatalogFlavor → CatalogFlavor → Bool
not_behind a b =
    if length a.label == length b.label
    then text_le a.name b.name
    else ltb (length b.label) (length a.label)

pub record LabelMatch : Type 0 where
  pub def : CatalogFlavor
  pub ambiguous_with : List Text

unfoldable pub label_matches : List CatalogFlavor → List Text → List CatalogFlavor
label_matches catalog lower = filter (λ f. is_member (to_lower_case f.label) lower) catalog

abbrev pub best_match : List CatalogFlavor → Option LabelMatch
best_match [] = none
best_match (def ∷ others) = some (record {
  def = def;
  ambiguous_with = map (λ f. f.label) (filter (λ f. length f.label == length def.label) others);
})

unfoldable pub explicit_label_match : List CatalogFlavor → List Text → Option LabelMatch
explicit_label_match catalog lower = best_match (sort_by not_behind (label_matches catalog lower))

abbrev pub not_larger : CatalogFlavor → CatalogFlavor → Bool
not_larger a b = if a.vcpu == b.vcpu then leb a.memory_mb b.memory_mb else ltb a.vcpu b.vcpu

abbrev pub head? {ℓ} : {A : Type ℓ} → List A → Option A
head? [] = none
head? (x ∷ xs) = some x

unfoldable pub smallest_with_capability : Text → Option CatalogFlavor
smallest_with_capability cap =
    head? (sort_by not_larger (filter (λ f. is_member cap f.capabilities) builtin_flavors))

abbrev pub capabilities_of : Option CatalogFlavor → List Text
capabilities_of none = []
capabilities_of (some f) = f.capabilities

-- The replacement by an upgraded flavor.
abbrev pub replace : FlavorResolution → List Text → CatalogFlavor → FlavorResolution
replace current caps upgraded = record {
  flavor = upgraded.name;
  reason = record {
    rule = current.reason.rule;
    upgrade = some (upgraded.name, filter (λ c. not (is_member c upgraded.capabilities)) caps);
  };
  replaced = some current.flavor;
  unresolved_custom = none;
}

unfoldable pub apply_signal_upgrade :
    List CatalogFlavor → FlavorResolution → Bool → FlavorResolution
apply_signal_upgrade catalog current needs_docker =
    let caps = capabilities_of (by_name catalog current.flavor) in
    if not needs_docker
    then current
    else if is_member (codes "docker") caps
    then current
    else elim (smallest_with_capability (codes "docker")) [
      | none ↦ current
      | some upgraded ↦ replace current caps upgraded
    ]

abbrev pub plain : Text → Rule → FlavorResolution
plain flavor rule = record {
  flavor = flavor;
  reason = record { rule = rule; upgrade = none };
  replaced = none;
  unresolved_custom = none;
}

-- Step 1: the first label that the map sends to a flavor of the catalog.
unfoldable pub map_rule :
    List CatalogFlavor → Option FlavorMap → List Text → Option FlavorResolution
map_rule catalog flavor_map [] = none
map_rule catalog flavor_map (label ∷ rest) =
    let later = map_rule catalog flavor_map rest in
    elim (entry flavor_map label) [
      | some mapped ↦
          if is_in_catalog catalog (some mapped)
          then some (plain mapped (map_override label mapped))
          else later
      | none ↦ later
    ]

-- Step 2.
unfoldable pub explicit_rule : List CatalogFlavor → List Text → Option FlavorResolution
explicit_rule catalog lower = elim (explicit_label_match catalog lower) [
  | none ↦ none
  | some m ↦ some (plain m.def.name (explicit_label m.def.label m.ambiguous_with))
]

-- Step 3, in adopt mode only.
unfoldable pub adopt_rule :
    List CatalogFlavor → Option RepoMode → List Text → Option FlavorResolution
adopt_rule catalog mode [] = none
adopt_rule catalog mode (label ∷ rest) =
    let later = adopt_rule catalog mode rest in
    elim (adopt_flavor_for_label label) [
      | some mapped ↦
          if is_adopt mode && is_in_catalog catalog (some mapped)
          then some (plain mapped (adopt_label label mapped))
          else later
      | none ↦ later
    ]

abbrev pub or_else {ℓ} : {A : Type ℓ} → Option A → Option A → Option A
or_else none b = b
or_else (some a) b = some a

unfoldable pub matched_rule :
    List CatalogFlavor → List Text → ResolveOptions → Option FlavorResolution
matched_rule catalog lower opts =
    or_else (map_rule catalog opts.flavor_map lower)
      (or_else (explicit_rule catalog lower) (adopt_rule catalog opts.mode lower))

-- Step 5: `repoDefault`, and the custom default that is not in the catalog.
unfoldable pub fallback_rule : List CatalogFlavor → Option Text → FlavorResolution
fallback_rule catalog none = plain default_flavor_name base_fallback
fallback_rule catalog (some name) =
    if is_in_catalog catalog (some name)
    then plain name (repo_default name)
    else plain default_flavor_name base_fallback

unfoldable pub unresolved_default : List CatalogFlavor → Option Text → Option Text
unresolved_default catalog default_flavor =
    if not (is_in_catalog catalog default_flavor) && is_custom_flavor_name default_flavor
    then default_flavor
    else none

abbrev pub stamp : Option Text → FlavorResolution → FlavorResolution
stamp unresolved r = record r { unresolved_custom = unresolved }

unfoldable pub resolve_in : List CatalogFlavor → List Text → ResolveOptions → FlavorResolution
resolve_in catalog lower opts =
    let unresolved = unresolved_named_custom catalog opts.flavor_map lower in
    elim (matched_rule catalog lower opts) [
      | some r ↦ stamp unresolved (apply_signal_upgrade catalog r opts.needs_docker)
      | none ↦ stamp (or_else unresolved (unresolved_default catalog opts.default_flavor)) (
          apply_signal_upgrade catalog (fallback_rule catalog opts.default_flavor)
            opts.needs_docker)
    ]

unfoldable pub resolve_flavor : List Text → ResolveOptions → FlavorResolution
unfolding effective_flavors
resolve_flavor labels opts =
    resolve_in (effective_flavors opts.custom_flavors) (map to_lower_case labels) opts

unfoldable pub flavor_ops : Unit {0}
unfolding sort_by text_ops adopt_ops catalog_ops effective_flavors by_name map_get unresolved_label
    unresolved_value unresolved_named_custom not_behind label_matches explicit_label_match
    smallest_with_capability apply_signal_upgrade map_rule explicit_rule adopt_rule matched_rule
    fallback_rule unresolved_default resolve_in resolve_flavor needs_custom_flavors
flavor_ops = tt

abbrev pub label_only : ResolveOptions
label_only = record {
  flavor_map = none;
  custom_flavors = none;
  default_flavor = none;
  needs_docker = false;
  mode = none;
}
