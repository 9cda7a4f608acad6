-- ===== src/Provision/Flavor/Options.antt =====
-- src/provision/flavor.ts: the options of a resolution, what it yields, and the look-up of custom names.
use lambda_ciactions.Common.{
  Bool, true, false, ◌&&◌, ◌||◌, not, Option, none, some, List, [], ◌∷◌, map,
}
use lambda_ciactions.Common.Tests.{if◌then◌else◌}
use lambda_ciactions.Common.Lists.{any, all, find}
use lambda_ciactions.Common.Text.{Text, codes, text_eq, to_lower_case, is_member, is_nonempty}
use lambda_ciactions.Shared.Types.{RepoMode}
use lambda_ciactions.Shared.FlavorCatalog.{
  CatalogFlavor, compose_catalog, is_custom_flavor_label, is_custom_flavor_name,
}

abbrev pub default_flavor_name : Text
default_flavor_name = codes "base"

abbrev pub known_capabilities : List Text
known_capabilities =
    codes "docker" ∷ codes "node" ∷ codes "python" ∷ codes "java" ∷ codes "go" ∷ codes "rust" ∷ []

unfoldable pub are_capabilities_known : List Text → Bool
are_capabilities_known caps = all (λ c. is_member c known_capabilities) caps

unfoldable pub effective_flavors : Option (List CatalogFlavor) → List CatalogFlavor
effective_flavors custom_flavors = compose_catalog custom_flavors

-- `FlavorMap`, in the order of its entries.
abbrev pub FlavorMap : Type 0
FlavorMap = List (Text × Text)

-- Absent signals are `needs_docker = false`.
pub record ResolveOptions : Type 0 where
  pub flavor_map : Option FlavorMap
  pub custom_flavors : Option (List CatalogFlavor)
  pub default_flavor : Option Text
  pub needs_docker : Bool
  pub mode : Option RepoMode

-- The rule that matched, by the template of its reason.
pub data Rule : Type 0 where
  map_override adopt_label : Text → Text → Rule
  explicit_label : Text → List Text → Rule
  repo_default : Text → Rule
  base_fallback : Rule

-- The reason names a later upgrade, and the capabilities that it drops.
pub record FlavorReason : Type 0 where
  pub rule : Rule
  pub upgrade : Option (Text × List Text)

pub record FlavorResolution : Type 0 where
  pub flavor : Text
  pub reason : FlavorReason
  pub replaced : Option Text
  pub unresolved_custom : Option Text

unfoldable pub by_name : List CatalogFlavor → Text → Option CatalogFlavor
by_name catalog name = find (λ f. text_eq f.name name) catalog

-- `new Map(entries with lower-cased keys).get(key)`: the last entry of a key counts.
unfoldable pub map_get : Text → FlavorMap → Option Text
map_get key [] = none
map_get key ((k, v) ∷ rest) = elim (map_get key rest) [
  | some w ↦ some w
  | none ↦ if text_eq (to_lower_case k) key then some v else none
]

abbrev pub entry : Option FlavorMap → Text → Option Text
entry none label = none
entry (some m) label = map_get label m

-- `mapped && byName(catalog, mapped)`
abbrev pub is_in_catalog : List CatalogFlavor → Option Text → Bool
is_in_catalog catalog none = false
is_in_catalog catalog (some mapped) =
    is_nonempty mapped && elim (by_name catalog mapped) [ some f ↦ true | none ↦ false ]

-- `mapped !== undefined && byName(catalog, mapped) !== undefined`
abbrev pub is_remapped : List CatalogFlavor → Option Text → Bool
is_remapped catalog none = false
is_remapped catalog (some mapped) = elim (by_name catalog mapped) [ some f ↦ true | none ↦ false ]

-- The first loop of `unresolvedNamedCustom`: a custom label of the job itself.
unfoldable pub unresolved_label : List CatalogFlavor → Option FlavorMap → List Text → Option Text
unresolved_label catalog flavor_map lower =
    find
      (λ label.
        is_custom_flavor_label (some label)
        && not (any (λ f. text_eq (to_lower_case f.label) label) catalog)
        && not (is_remapped catalog (entry flavor_map label)))
      lower

-- Its second loop: a custom name that the map gives for a label of the job.
unfoldable pub unresolved_value : List CatalogFlavor → Option FlavorMap → List Text → Option Text
unresolved_value catalog flavor_map [] = none
unresolved_value catalog flavor_map (label ∷ rest) =
    let later = unresolved_value catalog flavor_map rest in
    let mapped = entry flavor_map label in
    if is_custom_flavor_name mapped && not (is_remapped catalog mapped) then mapped else later

unfoldable pub unresolved_named_custom :
    List CatalogFlavor → Option FlavorMap → List Text → Option Text
unfolding unresolved_label
unresolved_named_custom catalog flavor_map lower =
    elim (unresolved_label catalog flavor_map lower) [
      | some label ↦ some label
      | none ↦ unresolved_value catalog flavor_map lower
    ]

abbrev pub values : Option FlavorMap → List Text
values none = []
values (some m) = map (λ e. e.1) m

unfoldable pub needs_custom_flavors : List Text → Option FlavorMap → Option Text → Bool
needs_custom_flavors labels flavor_map default_flavor =
    any (λ l. is_custom_flavor_label (some l)) labels
    || any (λ v. is_custom_flavor_name (some v)) (values flavor_map)
    || is_custom_flavor_name default_flavor
