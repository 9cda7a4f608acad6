-- ===== src/Provision/Flavor/Gate.antt =====
-- `needsCustomFlavors` skips a read of the store only where its rows could not matter.
use lambda_ciactions.Common.{
  ◌≡◌, refl, sym, ap, ◌∙◌, false, ◌||◌, Option, none, some, List, [], ◌∷◌, ◌++◌, map, arith,
}
use mathlib.Core.List.{append-nil}
use lambda_ciactions.Common.Tests.{or_false}
use lambda_ciactions.Common.Lists.{In, All, any, any-false, In-of_map}
use lambda_ciactions.Common.Text.{Text, to_lower_case}
use lambda_ciactions.Shared.FlavorCatalog.{
  CatalogFlavor, builtin_flavors, compose_catalog, is_custom_flavor_name, is_custom_flavor_label,
}
use lambda_ciactions.Provision.Flavor.{
  FlavorMap, ResolveOptions, by_name, entry, values, label_matches, plain, matched_rule,
  unresolved_named_custom, needs_custom_flavors, resolve_in, resolve_flavor,
}
use lambda_ciactions.Provision.Flavor.Custom.{
  IsCustom, Plain, PlainLabels, compose_from-IsCustom, find_custom, find-append_none,
  filter-append_none, matches_custom, unresolved_label-none, unresolved_value-none, map_get-In,
  adopt-Plain, explicit-Plain, plain_lower,
}
use lambda_ciactions.Provision.Flavor.Agree.{agree-matched, agree-resolve_in}

-- What the gate found of a job.
record Ungated (labels : List Text) (opts : ResolveOptions) : Type 0 where
  label_plain : (l : Text) → In l labels → is_custom_flavor_label (some l) ≡ false
  value_plain : (l v : Text) → entry opts.flavor_map l ≡ some v → Plain v
  default_plain : is_custom_flavor_name opts.default_flavor ≡ false

entry-In : (l v : Text) (m : Option FlavorMap) → entry m l ≡ some v → In v (values m)
entry-In l v none h = ground arith
entry-In l v (some m) h = map_get-In l v m h

ungated :
    (labels : List Text) (opts : ResolveOptions)
    → needs_custom_flavors labels opts.flavor_map opts.default_flavor ≡ false
    → Ungated labels opts
unfolding needs_custom_flavors
ungated labels opts h =
    let labels_test = any (λ l. is_custom_flavor_label (some l)) labels in
    let values_test = any (λ v. is_custom_flavor_name (some v)) (values opts.flavor_map) in
    let (first, c) = or_false (labels_test || values_test) _ h in
    let (a, b) = or_false labels_test values_test first in
    record {
      label_plain = λ l m. any-false _ l labels a m;
      value_plain = λ l v e. any-false _ v _ b (entry-In l v opts.flavor_map e);
      default_plain = c;
    }

-- The catalog is the built-in one and rows in the custom namespace.
compose_catalog-extra :
    (rows : List CatalogFlavor)
    → All IsCustom rows
    → (extra : List CatalogFlavor) × (compose_catalog (some rows) ≡ builtin_flavors ++ extra)
      × All IsCustom extra
unfolding compose_catalog
compose_catalog-extra [] h = ([], sym (append-nil builtin_flavors), tt)
compose_catalog-extra (f ∷ fs) h = (_, refl, compose_from-IsCustom _ _ (f ∷ fs) h)

resolve_in-extra :
    (labels : List Text) (opts : ResolveOptions) (extra : List CatalogFlavor)
    → Ungated labels opts
    → All IsCustom extra
    → resolve_in (builtin_flavors ++ extra) (map to_lower_case labels) opts
      ≡ resolve_in builtin_flavors (map to_lower_case labels) opts
unfolding by_name label_matches unresolved_named_custom
resolve_in-extra labels opts extra u custom =
    let lower = map to_lower_case labels in
    let agree : (name : Text)
        → Plain name
        → by_name (builtin_flavors ++ extra) name ≡ by_name builtin_flavors name =
      λ name p. find-append_none _ builtin_flavors extra (find_custom name extra p custom) in
    let plain_labels : PlainLabels lower = λ x m.
      let (l, k, e) = In-of_map to_lower_case x labels m in
      rw e (plain_lower l (u.label_plain l k)).0 in
    let no_custom_label : (x : Text) → In x lower → is_custom_flavor_label (some x) ≡ false = λ x m.
      let (l, k, e) = In-of_map to_lower_case x labels m in
      rw e (plain_lower l (u.label_plain l k)).1 in
    let matches : label_matches (builtin_flavors ++ extra) lower
        ≡ label_matches builtin_flavors lower =
      filter-append_none _ builtin_flavors extra (matches_custom lower extra plain_labels custom) in
    let (same, plain) =
      agree-matched (builtin_flavors ++ extra) builtin_flavors agree lower opts u.value_plain
        adopt-Plain matches (explicit-Plain lower) in
    agree-resolve_in (builtin_flavors ++ extra) builtin_flavors agree lower opts same plain
      u.default_plain
      (ground (
        arith,
        unresolved_label-none (builtin_flavors ++ extra) opts.flavor_map lower no_custom_label,
        unresolved_label-none builtin_flavors opts.flavor_map lower no_custom_label,
        unresolved_value-none (builtin_flavors ++ extra) opts.flavor_map lower u.value_plain,
        unresolved_value-none builtin_flavors opts.flavor_map lower u.value_plain,
      ))

-- If no label, map value or default names a custom flavor, the installation's rows do not change the
-- resolution: the read that `needsCustomFlavors` skips is not missed.
pub resolve_flavor-needs_custom_flavors :
    (labels : List Text) (opts : ResolveOptions) (rows : List CatalogFlavor)
    → needs_custom_flavors labels opts.flavor_map opts.default_flavor ≡ false
    → All IsCustom rows
    → resolve_flavor labels (record opts { custom_flavors = some rows })
      ≡ resolve_flavor labels (record opts { custom_flavors = none })
unfolding resolve_flavor resolve_in matched_rule compose_catalog
resolve_flavor-needs_custom_flavors labels opts rows h custom =
    let (extra, e, extra_custom) = compose_catalog-extra rows custom in
    ap (λ catalog. resolve_in catalog (map to_lower_case labels) opts) e
    ∙ resolve_in-extra labels opts extra (ungated labels opts h) extra_custom
