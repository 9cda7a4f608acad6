-- ===== src/Provision/Flavor/Catalog.antt =====
-- The composed catalog: the built-in entries keep their place and their names.
use lambda_ciactions.Common.{
  ◌≡◌, refl, ap, ◌∙◌, inl, inr, Bool, ◌||◌, Option, none, some, List, [], ◌∷◌, ◌++◌, arith,
}
use mathlib.Core.List.{map-append}
use lambda_ciactions.Common.Tests.{Bool-cases, or_false}
use lambda_ciactions.Common.Lists.{In, Distinct, Distinct-append, find}
use lambda_ciactions.Common.Text.{
  Text, text_eq, text_eq_refl, to_lower_case, is_member, is_member_iff, are_distinct,
  are_distinct_sound, text_ops,
}
use lambda_ciactions.Shared.FlavorCatalog.{
  CatalogFlavor, builtin_flavors, compose_from, compose_catalog, names_of, lower_labels_of,
}
use lambda_ciactions.Provision.Flavor.{by_name}

find-append {ℓ} :
    {A : Type ℓ} (p : A → Bool) (xs ys : List A) (a : A)
    → find p xs ≡ some a
    → find p (xs ++ ys) ≡ some a
find-append p [] ys a h = ground arith
find-append p (x ∷ xs) ys a h = ground (arith, find-append p xs ys a)

-- A flavor of the catalog is found under its name.
pub by_name_of_In :
    (f : CatalogFlavor) (catalog : List CatalogFlavor)
    → In f catalog
    → (g : CatalogFlavor) × (by_name catalog f.name ≡ some g)
unfolding by_name
by_name_of_In f (g ∷ fs) (inl e) =
    (g, rw (ap (λ (h : CatalogFlavor). text_eq g.name h.name) e ∙ text_eq_refl g.name) refl)
by_name_of_In f (g ∷ fs) (inr m) =
    let (h, found) = by_name_of_In f fs m in
    elim (Bool-cases (text_eq g.name f.name)) [
      | inl hit ↦ (g, rw hit refl)
      | inr miss ↦ (h, rw miss found)
    ]
by_name_of_In f [] m = absurd m

pub compose_catalog-builtin :
    (custom : Option (List CatalogFlavor)) (name : Text) (f : CatalogFlavor)
    → by_name builtin_flavors name ≡ some f
    → by_name (compose_catalog custom) name ≡ some f
unfolding compose_catalog by_name
compose_catalog-builtin none name f h = h
compose_catalog-builtin (some []) name f h = h
compose_catalog-builtin (some (g ∷ gs)) name f h = find-append _ builtin_flavors _ f h

compose_from-fresh :
    (names labels : List Text) (fs : List CatalogFlavor)
    → Distinct (names_of (compose_from names labels fs))
      × Distinct (lower_labels_of (compose_from names labels fs))
      × ((x : Text) → In x names → ¬ In x (names_of (compose_from names labels fs)))
      × ((x : Text) → In x labels → ¬ In x (lower_labels_of (compose_from names labels fs)))
unfolding compose_from
compose_from-fresh names labels [] = (tt, tt, λ x m n. n, λ x m n. n)
compose_from-fresh names labels (f ∷ fs) =
    elim (Bool-cases (is_member f.name names || is_member (to_lower_case f.label) labels)) [
      | inl taken ↦ rw taken (compose_from-fresh names labels fs)
      | inr free ↦
          let (d, e, apart, separate) =
            compose_from-fresh (f.name ∷ names) (to_lower_case f.label ∷ labels) fs in
          let (new_name, new_label) =
            or_false (is_member f.name names) (is_member (to_lower_case f.label) labels) free in
          rw free (
            (apart f.name (inl refl), d),
            (separate (to_lower_case f.label) (inl refl), e),
            λ x m n. elim n [
              | inl same ↦ cc (new_name, (is_member_iff f.name names).1 (rw same at m))
              | inr later ↦ apart x (inr m) later
            ],
            λ x m n. elim n [
              | inl same ↦
                  cc (new_label, (is_member_iff (to_lower_case f.label) labels).1 (rw same at m))
              | inr later ↦ separate x (inr m) later
            ],
          )
    ]

builtin-Distinct : Distinct (names_of builtin_flavors) × Distinct (lower_labels_of builtin_flavors)
unfolding builtin_flavors are_distinct text_ops
builtin-Distinct = (
  are_distinct_sound (names_of builtin_flavors) refl,
  are_distinct_sound (lower_labels_of builtin_flavors) refl,
)

-- Whatever rows an installation stores, no two flavors of its catalog share a name, and no two share a
-- label up to case.
pub compose_catalog-Distinct :
    (custom : Option (List CatalogFlavor))
    → Distinct (names_of (compose_catalog custom))
      × Distinct (lower_labels_of (compose_catalog custom))
unfolding compose_catalog
compose_catalog-Distinct none = builtin-Distinct
compose_catalog-Distinct (some []) = builtin-Distinct
compose_catalog-Distinct (some (f ∷ fs)) =
    let (d, e, apart, separate) =
      compose_from-fresh (names_of builtin_flavors) (lower_labels_of builtin_flavors) (f ∷ fs) in
    let (b, c) = builtin-Distinct in
    (
      rw map-append (Distinct-append _ _ b d apart),
      rw map-append (Distinct-append _ _ c e separate),
    )
