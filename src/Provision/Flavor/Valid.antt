-- ===== src/Provision/Flavor/Valid.antt =====
-- Every resolution names a flavor of the catalog, with docker if the job needs it.
use lambda_ciactions.Common.{
  ◌≡◌, refl, inl, inr, Bool, true, false, Option, none, some, List, [], ◌∷◌, map, arith,
}
use lambda_ciactions.Common.Tests.{Bool-cases, Option-cases}
use lambda_ciactions.Common.Lists.{In, In-filter, In-sort_by}
use lambda_ciactions.Common.Text.{Text, codes, is_member, to_lower_case}
use lambda_ciactions.Shared.Types.{RepoMode}
use lambda_ciactions.Shared.FlavorCatalog.{CatalogFlavor, builtin_flavors, compose_catalog}
use lambda_ciactions.Provision.Flavor.Catalog.{by_name_of_In, compose_catalog-builtin}
use lambda_ciactions.Provision.Flavor.{
  FlavorMap, FlavorResolution, ResolveOptions, LabelMatch, by_name, is_in_catalog,
  default_flavor_name, label_matches, best_match, not_behind, explicit_label_match,
  smallest_with_capability, apply_signal_upgrade, map_rule, explicit_rule, adopt_rule, matched_rule,
  fallback_rule, resolve_in, resolve_flavor, effective_flavors, flavor_ops,
}

-- The catalog holds a flavor under this name.
abbrev pub IsKnown : List CatalogFlavor → Text → Type 0
IsKnown catalog name = (f : CatalogFlavor) × (by_name catalog name ≡ some f)

in_catalog-IsKnown :
    (catalog : List CatalogFlavor) (name : Text)
    → is_in_catalog catalog (some name) ≡ true
    → IsKnown catalog name
in_catalog-IsKnown catalog name h = elim (Option-cases (by_name catalog name)) [
  | inl missing ↦ let no_flavor : false ≡ true = ground arith in cc no_flavor
  | inr found ↦ found
]

module _ (catalog : List CatalogFlavor) where
  map_rule-IsKnown :
      (m : Option FlavorMap) (ls : List Text) (r : FlavorResolution)
      → map_rule catalog m ls ≡ some r
      → IsKnown catalog r.flavor
  unfolding map_rule
  map_rule-IsKnown m [] r h = ground arith
  map_rule-IsKnown m (l ∷ ls) r h =
      ground (arith, map_rule-IsKnown m ls r, in_catalog-IsKnown catalog r.flavor)

  adopt_rule-IsKnown :
      (mode : Option RepoMode) (ls : List Text) (r : FlavorResolution)
      → adopt_rule catalog mode ls ≡ some r
      → IsKnown catalog r.flavor
  unfolding adopt_rule
  adopt_rule-IsKnown mode [] r h = ground arith
  adopt_rule-IsKnown mode (l ∷ ls) r h =
      ground (arith, adopt_rule-IsKnown mode ls r, in_catalog-IsKnown catalog r.flavor)

  match-In : (ms : List CatalogFlavor) (m : LabelMatch) → best_match ms ≡ some m → In m.def ms
  match-In [] m h = ground arith
  match-In (f ∷ fs) m h = inl (ground arith)

  pub explicit-In :
      (ls : List Text) (m : LabelMatch)
      → explicit_label_match catalog ls ≡ some m
      → In m.def catalog
  unfolding explicit_label_match label_matches
  explicit-In ls m h =
      (In-filter _ m.def catalog (In-sort_by not_behind m.def _ (match-In _ m h))).0

-- The upgrade's target: the smallest built-in flavor that has docker.
docker_flavor :
    (f : CatalogFlavor) × (smallest_with_capability (codes "docker") ≡ some f)
    × (is_member (codes "docker") f.capabilities ≡ true)
    × (by_name builtin_flavors f.name ≡ some f)
unfolding flavor_ops
docker_flavor = (_, refl, refl, refl)

base_known : (f : CatalogFlavor) × (by_name builtin_flavors default_flavor_name ≡ some f)
unfolding flavor_ops
base_known = (_, refl)

-- The flavor under this name, and docker among its capabilities if that is needed.
abbrev pub Serves : List CatalogFlavor → Bool → Text → Type 0
Serves catalog needs_docker name =
    (f : CatalogFlavor) × (by_name catalog name ≡ some f)
    × (needs_docker ≡ true → is_member (codes "docker") f.capabilities ≡ true)

upgrade-Serves :
    (custom : Option (List CatalogFlavor)) (r : FlavorResolution) (needs_docker : Bool)
    → IsKnown (compose_catalog custom) r.flavor
    → Serves
        (compose_catalog custom)
        needs_docker
        (apply_signal_upgrade (compose_catalog custom) r needs_docker).flavor
unfolding apply_signal_upgrade
upgrade-Serves custom r false (f, known) = (f, known, λ h. cc h)
upgrade-Serves custom r true (f, known) =
    let (d, chosen, able, builtin) = docker_flavor in
    elim (Bool-cases (is_member (codes "docker") f.capabilities)) [
      | inl has ↦ rw (known, has) (f, known, λ h. has)
      | inr lacks ↦
          rw (known, lacks, chosen) (d, compose_catalog-builtin custom d.name d builtin, λ h. able)
    ]

matched-IsKnown :
    (catalog : List CatalogFlavor) (ls : List Text) (opts : ResolveOptions) (r : FlavorResolution)
    → matched_rule catalog ls opts ≡ some r
    → IsKnown catalog r.flavor
unfolding matched_rule explicit_rule
matched-IsKnown catalog ls opts r h = elim (Option-cases (map_rule catalog opts.flavor_map ls)) [
  | inr (a, mapped) ↦
      let e : a ≡ r = ground arith in
      rw (← e) (map_rule-IsKnown catalog opts.flavor_map ls a mapped)
  | inl unmapped ↦ elim (Option-cases (explicit_label_match catalog ls)) [
    | inr (m, matched) ↦
        let e : m.def.name ≡ r.flavor = ground arith in
        rw (← e) (by_name_of_In m.def catalog (explicit-In catalog ls m matched))
    | inl unlabelled ↦ adopt_rule-IsKnown catalog opts.mode ls r (ground arith)
  ]
]

fallback-IsKnown :
    (custom : Option (List CatalogFlavor)) (d : Option Text)
    → IsKnown (compose_catalog custom) (fallback_rule (compose_catalog custom) d).flavor
unfolding fallback_rule
fallback-IsKnown custom none =
    let (f, h) = base_known in (f, compose_catalog-builtin custom default_flavor_name f h)
fallback-IsKnown custom (some name) =
    elim (Bool-cases (is_in_catalog (compose_catalog custom) (some name))) [
      | inl there ↦ rw there (in_catalog-IsKnown _ name there)
      | inr other ↦
          let (f, h) = base_known in
          rw other (f, compose_catalog-builtin custom default_flavor_name f h)
    ]

-- What the signal upgrade is applied to.
chosen : List CatalogFlavor → List Text → ResolveOptions → FlavorResolution
chosen catalog lower opts = elim (matched_rule catalog lower opts) [
  | some r ↦ r
  | none ↦ fallback_rule catalog opts.default_flavor
]

chosen-IsKnown :
    (custom : Option (List CatalogFlavor)) (ls : List Text) (opts : ResolveOptions)
    → IsKnown (compose_catalog custom) (chosen (compose_catalog custom) ls opts).flavor
unfolding chosen
chosen-IsKnown custom ls opts =
    elim (Option-cases (matched_rule (compose_catalog custom) ls opts)) [
      | inr (r, matched) ↦
          rw (matched, chosen) (matched-IsKnown (compose_catalog custom) ls opts r matched)
      | inl unmatched ↦ rw (unmatched, chosen) (fallback-IsKnown custom opts.default_flavor)
    ]

resolve_in-flavor :
    (catalog : List CatalogFlavor) (ls : List Text) (opts : ResolveOptions)
    → (resolve_in catalog ls opts).flavor
      ≡ (apply_signal_upgrade catalog (chosen catalog ls opts) opts.needs_docker).flavor
unfolding resolve_in chosen
resolve_in-flavor catalog ls opts = ground arith

-- Every job resolves to a flavor of the installation's catalog, and a job that needs docker to one
-- that has it.
pub resolve_flavor-Serves :
    (labels : List Text) (opts : ResolveOptions)
    → Serves
        (effective_flavors opts.custom_flavors)
        opts.needs_docker
        (resolve_flavor labels opts).flavor
unfolding resolve_flavor
resolve_flavor-Serves labels opts =
    rw (resolve_in-flavor (compose_catalog opts.custom_flavors) (map to_lower_case labels) opts) (
      upgrade-Serves opts.custom_flavors _ opts.needs_docker
        (chosen-IsKnown opts.custom_flavors (map to_lower_case labels) opts))
