-- ===== src/Provision/Flavor/Custom.antt =====
-- Flavors of the custom namespace, and what a job without them looks up.
use lambda_ciactions.Common.{
  ◌≡◌, refl, inl, inr, Bool, true, false, ◌||◌, Option, none, some, List, [], ◌∷◌, ◌++◌, arith,
}
use lambda_ciactions.Common.Tests.{Bool-cases, Option-cases}
use lambda_ciactions.Common.Lists.{In, All, find, filter}
use lambda_ciactions.Common.Text.{
  Text, text_eq, text_eq_iff, starts_with, to_lower_case, is_member, is_member_iff, normalize,
  normalize-starts_with, normalize-to_lower_case, NoSpace,
}
use lambda_ciactions.Provision.Flavor.Valid.{explicit-In}
use lambda_ciactions.Shared.FlavorCatalog.{
  CatalogFlavor, builtin_flavors, compose_from, is_custom_flavor_name, is_custom_flavor_label,
  custom_label_prefix, catalog_ops,
}
use lambda_ciactions.Ingest.Adopt.{adopt_flavor_for_label, own_property, adopt_label_flavors}
use lambda_ciactions.Provision.Flavor.{
  FlavorMap, FlavorResolution, by_name, entry, map_get, values, label_matches, explicit_label_match,
  explicit_rule, unresolved_label, unresolved_value, default_flavor_name,
}

-- A row of the store: its name and its label stand in the custom namespace.
abbrev pub IsCustom : CatalogFlavor → Type 0
IsCustom f =
    (is_custom_flavor_name (some f.name) ≡ true)
    × (starts_with (to_lower_case f.label) custom_label_prefix ≡ true)

abbrev pub Plain : Text → Type 0
Plain name = is_custom_flavor_name (some name) ≡ false

pub compose_from-IsCustom :
    (names labels : List Text) (fs : List CatalogFlavor)
    → All IsCustom fs
    → All IsCustom (compose_from names labels fs)
unfolding compose_from
compose_from-IsCustom names labels [] h = tt
compose_from-IsCustom names labels (f ∷ fs) (c, h) =
    elim (Bool-cases (is_member f.name names || is_member (to_lower_case f.label) labels)) [
      | inl taken ↦ rw taken (compose_from-IsCustom names labels fs h)
      | inr free ↦
          rw free (c, compose_from-IsCustom (f.name ∷ names) (to_lower_case f.label ∷ labels) fs h)
    ]

-- A plain name is not looked up among the custom rows.
pub find_custom :
    (name : Text) (fs : List CatalogFlavor) → Plain name → All IsCustom fs → by_name fs name ≡ none
unfolding by_name
find_custom name [] p h = refl
find_custom name (f ∷ fs) p ((c, _), h) =
    ground (arith, text_eq_iff f.name name, find_custom name fs p h, name_differs f.name name c p)
  where
    name_differs :
        (a b : Text) → is_custom_flavor_name (some a) ≡ true → Plain b → text_eq a b ≡ false
    name_differs a b h k = elim (Bool-cases (text_eq a b)) [
      | inr e ↦ e
      | inl e ↦ absurd (let same = (text_eq_iff a b).0 e in cc (h, k, same))
    ]

pub find-append_none {ℓ} :
    {A : Type ℓ} (p : A → Bool) (xs ys : List A) → find p ys ≡ none → find p (xs ++ ys) ≡ find p xs
find-append_none p [] ys h = h
find-append_none p (x ∷ xs) ys h = ground (arith, find-append_none p xs ys h)

pub filter-append_none {ℓ} :
    {A : Type ℓ} (p : A → Bool) (xs ys : List A)
    → filter p ys ≡ []
    → filter p (xs ++ ys) ≡ filter p xs
filter-append_none p [] ys h = h
filter-append_none p (x ∷ xs) ys h = ground (arith, filter-append_none p xs ys h)

-- No label of the list asks for a custom flavor.
abbrev pub PlainLabels : List Text → Type 0
PlainLabels ls = (l : Text) → In l ls → starts_with l custom_label_prefix ≡ false

pub matches_custom :
    (lower : List Text) (fs : List CatalogFlavor)
    → PlainLabels lower
    → All IsCustom fs
    → label_matches fs lower ≡ []
unfolding label_matches
matches_custom lower [] p h = refl
matches_custom lower (f ∷ fs) p ((_, c), h) =
    elim (Bool-cases (is_member (to_lower_case f.label) lower)) [
      | inl carried ↦ cc (p (to_lower_case f.label) ((is_member_iff _ lower).0 carried), c)
      | inr other ↦ rw other (matches_custom lower fs p h)
    ]

pub base-Plain : Plain default_flavor_name
unfolding catalog_ops
base-Plain = refl

none_plain : is_custom_flavor_name none ≡ false
unfolding is_custom_flavor_name
none_plain = refl

pub unresolved_label-none :
    (c : List CatalogFlavor) (m : Option FlavorMap) (ls : List Text)
    → ((l : Text) → In l ls → is_custom_flavor_label (some l) ≡ false)
    → unresolved_label c m ls ≡ none
unfolding unresolved_label
unresolved_label-none c m [] h = refl
unresolved_label-none c m (l ∷ ls) h =
    ground (arith, h l (inl refl), unresolved_label-none c m ls (λ x k. h x (inr k)))

pub unresolved_value-none :
    (c : List CatalogFlavor) (m : Option FlavorMap) (ls : List Text)
    → ((l v : Text) → entry m l ≡ some v → Plain v)
    → unresolved_value c m ls ≡ none
unfolding unresolved_value
unresolved_value-none c m [] h = refl
unresolved_value-none c m (l ∷ ls) h = elim (Option-cases (entry m l)) [
  | inl missing ↦ ground (arith, unresolved_value-none c m ls h, none_plain)
  | inr (v, found) ↦ ground (arith, h l v found, unresolved_value-none c m ls h)
]

pub map_get-In : (l v : Text) (m : FlavorMap) → map_get l m ≡ some v → In v (values (some m))
unfolding map_get
map_get-In l v [] h = ground arith
map_get-In l v ((k, w) ∷ m) h = ground (arith, map_get-In l v m)

own_property-In :
    (l v : Text) (m : List (Text × Text)) → own_property l m ≡ some v → In v (values (some m))
unfolding own_property
own_property-In l v [] h = ground arith
own_property-In l v ((k, w) ∷ m) h = ground (arith, own_property-In l v m)

pub adopt-Plain : (l v : Text) → adopt_flavor_for_label l ≡ some v → Plain v
unfolding adopt_flavor_for_label
adopt-Plain l v h = elim (own_property-In (normalize l) v adopt_label_flavors h) [
  | inl a ↦ rw a base-Plain
  | inr (inl a) ↦ rw a base-Plain
  | inr (inr (inl a)) ↦ rw a base-Plain
  | inr (inr (inr (inl a))) ↦ rw a base-Plain
  | inr (inr (inr (inr nothing))) ↦ absurd nothing
]

builtin-Plain : All (λ f. Plain f.name) builtin_flavors
unfolding catalog_ops
builtin-Plain = ground arith

All-In : {A : Type 0} (P : A → Type 0) (x : A) (xs : List A) → All P xs → In x xs → P x
All-In P x [] h m = absurd m
All-In P x (y ∷ ys) (p, h) (inl e) = rw e p
All-In P x (y ∷ ys) (p, h) (inr m) = All-In P x ys h m

pub explicit-Plain :
    (ls : List Text) (r : FlavorResolution)
    → explicit_rule builtin_flavors ls ≡ some r
    → Plain r.flavor
unfolding explicit_rule
explicit-Plain ls r h = elim (Option-cases (explicit_label_match builtin_flavors ls)) [
  | inl missing ↦ ground arith
  | inr (m, found) ↦
      let p =
        All-In _ m.def builtin_flavors builtin-Plain (explicit-In builtin_flavors ls m found) in
      ground arith
]

prefix_NoSpace : NoSpace custom_label_prefix
prefix_NoSpace = ground arith

-- Lower-casing a label with no custom prefix gives none.
pub plain_lower :
    (l : Text)
    → is_custom_flavor_label (some l) ≡ false
    → (starts_with (to_lower_case l) custom_label_prefix ≡ false)
      × (is_custom_flavor_label (some (to_lower_case l)) ≡ false)
unfolding is_custom_flavor_label
plain_lower l h = (
  elim (Bool-cases (starts_with (to_lower_case l) custom_label_prefix)) [
    | inr out ↦ out
    | inl inside ↦ cc (normalize-starts_with l b'l' _ prefix_NoSpace inside, h)
  ],
  rw (normalize-to_lower_case l) h,
)
