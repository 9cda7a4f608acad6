-- ===== src/Shared/FlavorCatalog.antt =====
-- src/shared/flavor-catalog.ts and microvm/flavors.json: the built-in catalog and the catalog that an
-- installation sees. Of a flavor the fields that the modelled code reads are kept.
use lambda_ciactions.Common.{
  ℕ, Bool, true, false, ◌&&◌, ◌||◌, not, Option, none, some, List, [], ◌∷◌, ◌++◌, map,
}
use lambda_ciactions.Common.Tests.{if◌then◌else◌, leb, ltb, ◌==◌}
use lambda_ciactions.Common.Lists.{length}
use lambda_ciactions.Common.Text.{
  Text, codes, text_eq, starts_with, has_substring, to_lower_case, normalize, is_member,
  is_nonempty, text_ops,
}

pub record CatalogFlavor : Type 0 where
  pub name : Text
  pub label : Text
  pub vcpu : ℕ
  pub memory_mb : ℕ
  pub capabilities : List Text
  pub custom : Bool

abbrev builtin : Text → Text → ℕ → ℕ → List Text → CatalogFlavor
builtin name label vcpu memory_mb capabilities = record {
  name = name;
  label = label;
  vcpu = vcpu;
  memory_mb = memory_mb;
  capabilities = capabilities;
  custom = false;
}

-- The entries of microvm/flavors.json.
unfoldable pub builtin_flavors : List CatalogFlavor
builtin_flavors =
    builtin (codes "base") (codes "lambda-ci") 2 4096 []
    ∷ builtin (codes "node") (codes "lambda-ci-node") 2 4096 (codes "node" ∷ [])
    ∷ builtin (codes "python") (codes "lambda-ci-python") 2 4096 (codes "python" ∷ [])
    ∷ builtin (codes "java") (codes "lambda-ci-java") 2 8192 (codes "java" ∷ [])
    ∷ builtin (codes "go") (codes "lambda-ci-go") 2 4096 (codes "go" ∷ [])
    ∷ builtin (codes "rust") (codes "lambda-ci-rust") 4 8192 (codes "rust" ∷ [])
    ∷ builtin (codes "docker") (codes "lambda-ci-docker") 4 8192 (codes "docker" ∷ [])
    ∷ []

abbrev pub custom_flavor_prefix : Text
custom_flavor_prefix = codes "custom-"

abbrev pub custom_label_prefix : Text
custom_label_prefix = codes "lambda-ci-custom-"

abbrev pub max_custom_flavor_base_length : ℕ
max_custom_flavor_base_length = 32

unfoldable pub custom_flavor_name : Text → Text
custom_flavor_name base = custom_flavor_prefix ++ base

unfoldable pub custom_flavor_label : Text → Text
custom_flavor_label base = custom_label_prefix ++ base

unfoldable pub is_custom_flavor_name : Option Text → Bool
is_custom_flavor_name none = false
is_custom_flavor_name (some name) = starts_with name custom_flavor_prefix

unfoldable pub is_custom_flavor_label : Option Text → Bool
is_custom_flavor_label none = false
is_custom_flavor_label (some label) = starts_with (normalize label) custom_label_prefix

-- `[a-z0-9]` and `[a-z0-9-]`
abbrev pub is_alnum : ℕ → Bool
is_alnum c = (leb b'a' c && leb c b'z') || (leb b'0' c && leb c b'9')

abbrev pub is_name_unit : ℕ → Bool
is_name_unit c = is_alnum c || c == b'-'

-- The part of `/^[a-z0-9]([a-z0-9-]*[a-z0-9])?$/` behind the first unit.
unfoldable pub ends_alnum : Text → Bool
ends_alnum [] = true
ends_alnum (c ∷ []) = is_alnum c
ends_alnum (c ∷ d ∷ s) = is_name_unit c && ends_alnum (d ∷ s)

unfoldable pub matches_base_name : Text → Bool
matches_base_name [] = false
matches_base_name (c ∷ s) = is_alnum c && ends_alnum s

pub data BaseNameError : Type 0 where
  required too_long not_alphanumeric consecutive_hyphens repeats_prefix : BaseNameError

-- The argument is `none` where it is no string.
unfoldable pub custom_flavor_base_name_error : Option Text → Option BaseNameError
custom_flavor_base_name_error none = some required
custom_flavor_base_name_error (some base) =
    if not (is_nonempty base)
    then some required
    else if ltb max_custom_flavor_base_length (length base)
    then some too_long
    else if not (matches_base_name base)
    then some not_alphanumeric
    else if has_substring base (codes "--")
    then some consecutive_hyphens
    else if starts_with base custom_flavor_prefix
    then some repeats_prefix
    else none

pub data CollisionField : Type 0 where
  name label : CollisionField

unfoldable pub builtin_collision : Text → Text → List CatalogFlavor → Option (CollisionField × Text)
builtin_collision n l [] = none
builtin_collision n l (f ∷ fs) =
    if text_eq f.name n
    then some (CollisionField.name, f.name)
    else if text_eq (to_lower_case f.label) (normalize l)
    then some (CollisionField.label, f.name)
    else builtin_collision n l fs

-- The loop of `composeCatalog`; the two lists are its `seenNames` and `seenLabels`.
unfoldable pub compose_from : List Text → List Text → List CatalogFlavor → List CatalogFlavor
compose_from names labels [] = []
compose_from names labels (f ∷ fs) =
    let dropped = compose_from names labels fs in
    let kept =
      record f { custom = true }
      ∷ compose_from (f.name ∷ names) (to_lower_case f.label ∷ labels) fs in
    if is_member f.name names || is_member (to_lower_case f.label) labels then dropped else kept

abbrev pub names_of : List CatalogFlavor → List Text
names_of = map λ f. f.name

abbrev pub lower_labels_of : List CatalogFlavor → List Text
lower_labels_of = map λ f. to_lower_case f.label

unfoldable pub compose_catalog : Option (List CatalogFlavor) → List CatalogFlavor
compose_catalog none = builtin_flavors
compose_catalog (some []) = builtin_flavors
compose_catalog (some (f ∷ fs)) =
    builtin_flavors
    ++ compose_from (names_of builtin_flavors) (lower_labels_of builtin_flavors) (f ∷ fs)

unfoldable pub required_claim_labels : Option (List CatalogFlavor) → List Text
required_claim_labels custom = map (λ f. f.label) (compose_catalog custom)

-- All that a run on literals computes with.
unfoldable pub catalog_ops : Unit {0}
unfolding text_ops builtin_flavors is_custom_flavor_name is_custom_flavor_label ends_alnum
    matches_base_name custom_flavor_base_name_error builtin_collision compose_from compose_catalog
    custom_flavor_name custom_flavor_label
catalog_ops = tt
