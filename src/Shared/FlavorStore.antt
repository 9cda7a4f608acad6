-- ===== src/Shared/FlavorStore.antt =====
-- src/shared/flavor-store.ts: the rows of the custom flavors and their validation states. A row is
-- one DynamoDB item; what a conditional write does to it is written out.
pub mod Validated
pub mod Registered
use lambda_ciactions.Common.{
  ℕ, ◌-◌, Bool, true, false, ◌&&◌, ◌||◌, not, Option, none, some, List, [], ◌∷◌, ◌++◌, map,
}
use lambda_ciactions.Common.Tests.{if◌then◌else◌, leb}
use lambda_ciactions.Common.Lists.{any, filter, length, is_empty, take}
use lambda_ciactions.Common.Text.{Text, codes, is_nonempty}
use lambda_ciactions.Shared.FlavorCatalog.{
  CatalogFlavor, BaseNameError, CollisionField, builtin_flavors, custom_flavor_name,
  custom_flavor_label, custom_flavor_base_name_error, builtin_collision,
}

unfoldable pub flavor_sk : Text → Text
flavor_sk name = codes "FLAVOR#" ++ name

abbrev pub max_custom_flavors_per_installation : ℕ
max_custom_flavors_per_installation = 64

abbrev pub max_flavor_reason_length : ℕ
max_flavor_reason_length = 1024

unfoldable pub clamp_reason : Text → Text
clamp_reason reason =
    if leb (length reason) max_flavor_reason_length
    then reason
    else take (max_flavor_reason_length - 1) reason ++ (8230 ∷ [])

pub data FlavorValidationState : Type 0 where
  pending validating valid invalid : FlavorValidationState

abbrev pub flavor_validation_states : List FlavorValidationState
flavor_validation_states = pending ∷ validating ∷ valid ∷ invalid ∷ []

unfoldable pub can_transition_validation : FlavorValidationState → FlavorValidationState → Bool
can_transition_validation pending pending = true
can_transition_validation pending validating = true
can_transition_validation validating valid = true
can_transition_validation validating invalid = true
can_transition_validation validating pending = true
can_transition_validation valid pending = true
can_transition_validation invalid pending = true
can_transition_validation _ _ = false

unfoldable pub is_routable_state : Option FlavorValidationState → Bool
is_routable_state (some valid) = true
is_routable_state _ = false

-- The fields that this module's functions read or write; evidence is kept by the id of its VM.
pub record CustomFlavorRecord : Type 0 where
  pub installation_id : ℕ
  pub name : Text
  pub label : Text
  pub vcpu : ℕ
  pub memory_mb : ℕ
  pub capabilities : List Text
  pub image_arn : Text
  pub state : Option FlavorValidationState
  pub reason : Option Text
  pub evidence : Option Text
  pub updated_at : ℕ
  pub updated_by : Option Text

abbrev pub to_catalog_flavor : CustomFlavorRecord → CatalogFlavor
to_catalog_flavor rec = record {
  name = rec.name;
  label = rec.label;
  vcpu = rec.vcpu;
  memory_mb = rec.memory_mb;
  capabilities = rec.capabilities;
  custom = true;
}

unfoldable pub routable_custom_flavors : List CustomFlavorRecord → List CatalogFlavor
unfolding is_routable_state
routable_custom_flavors records =
    map to_catalog_flavor (filter (λ r. is_routable_state r.state) records)

pub record Loaded : Type 0 where
  pub flavors : List CatalogFlavor
  pub degraded : Bool

-- The argument is what `listCustomFlavors` reads, `none` where it throws.
unfoldable pub load_routable_custom_flavors_result : Option (List CustomFlavorRecord) → Loaded
unfolding routable_custom_flavors
load_routable_custom_flavors_result none = record { flavors = []; degraded = true }
load_routable_custom_flavors_result (some records) = record {
  flavors = routable_custom_flavors records;
  degraded = false;
}

pub record RegisterFlavorInput : Type 0 where
  pub installation_id : ℕ
  pub base : Text
  pub vcpu : ℕ
  pub memory_mb : ℕ
  pub capabilities : List Text
  pub image_arn : Text
  pub actor : Option Text

-- `InvalidFlavorError`, `TooManyFlavorsError`, `FlavorExistsError`, and an error of the service.
pub data RegisterError : Type 0 where
  bad_name : BaseNameError → RegisterError
  collides : CollisionField → Text → RegisterError
  too_many exists faulted : RegisterError

pub data Registration : Type 0 where
  registered : CustomFlavorRecord → Registration
  rejected : RegisterError → Registration

abbrev pub actor_of : Option Text → Option Text
actor_of none = none
actor_of (some a) = if is_nonempty a then some a else none

abbrev pub new_record : RegisterFlavorInput → ℕ → CustomFlavorRecord
new_record input now = record {
  installation_id = input.installation_id;
  name = custom_flavor_name input.base;
  label = custom_flavor_label input.base;
  vcpu = input.vcpu;
  memory_mb = input.memory_mb;
  capabilities = input.capabilities;
  image_arn = input.image_arn;
  state = some pending;
  reason = none;
  evidence = none;
  updated_at = now;
  updated_by = actor_of input.actor;
}

unfoldable pub build_flavor_record : RegisterFlavorInput → ℕ → Registration
build_flavor_record input now = elim (custom_flavor_base_name_error (some input.base)) [
  | some err ↦ rejected (bad_name err)
  | none ↦
      elim (builtin_collision (custom_flavor_name input.base) (custom_flavor_label input.base)
        builtin_flavors) [
          | some (field, other) ↦ rejected (collides field other)
          | none ↦ registered (new_record input now)
        ]
]

-- How a write ends: it takes effect or not as its condition says, or the answer is an error,
-- in front of the effect or behind it.
pub data Delivery : Type 0 where
  answered lost_before lost_after : Delivery

-- The put of a new row under the condition that there is none.
abbrev pub put_new :
    Delivery
    → CustomFlavorRecord
    → Option CustomFlavorRecord
    → Option CustomFlavorRecord × Registration
put_new lost_before rec old = (old, rejected faulted)
put_new answered rec none = (some rec, registered rec)
put_new answered rec (some r) = (some r, rejected exists)
put_new lost_after rec none = (some rec, rejected faulted)
put_new lost_after rec (some r) = (some r, rejected exists)

abbrev pub admit :
    Delivery
    → Option (List CustomFlavorRecord)
    → CustomFlavorRecord
    → Option CustomFlavorRecord
    → Option CustomFlavorRecord × Registration
admit how none rec old = (old, rejected faulted)
admit how (some existing) rec old =
    if leb max_custom_flavors_per_installation (length existing)
    then (old, rejected too_many)
    else put_new how rec old

-- `existing` is what `listCustomFlavors` reads; `old` is the row under the new name.
unfoldable pub register_custom_flavor :
    Delivery
    → Option (List CustomFlavorRecord)
    → RegisterFlavorInput
    → ℕ
    → Option CustomFlavorRecord
    → Option CustomFlavorRecord × Registration
unfolding build_flavor_record
register_custom_flavor how existing input now old = elim (build_flavor_record input now) [
  | rejected err ↦ (old, rejected err)
  | registered rec ↦ admit how existing rec old
]

pub record TransitionFlavor : Type 0 where
  pub to : FlavorValidationState
  pub reason : Option Text
  pub evidence : Option Text
  pub actor : Option Text

abbrev pub same_state : FlavorValidationState → FlavorValidationState → Bool
same_state pending pending = true
same_state validating validating = true
same_state valid valid = true
same_state invalid invalid = true
same_state _ _ = false

unfoldable pub allowed_from : FlavorValidationState → List FlavorValidationState
unfolding can_transition_validation
allowed_from to = filter (λ s. can_transition_validation s to) flavor_validation_states

-- The condition on the state: one of the list, or absent where the list has `pending`.
abbrev pub state_admits : List FlavorValidationState → Option FlavorValidationState → Bool
state_admits from none = any (same_state pending) from
state_admits from (some s) = any (same_state s) from

abbrev pub newer {ℓ} : {A : Type ℓ} → Option A → Option A → Option A
newer none old = old
newer (some v) old = some v

abbrev pub clamped : Option Text → Option Text
clamped none = none
clamped (some reason) = some (clamp_reason reason)

-- The update expression: an absent reason is removed, absent evidence is left alone.
abbrev pub revalidated : TransitionFlavor → ℕ → CustomFlavorRecord → CustomFlavorRecord
revalidated input now r = record r {
  state = some input.to;
  updated_at = now;
  reason = clamped input.reason;
  evidence = newer input.evidence r.evidence;
  updated_by = newer (actor_of input.actor) r.updated_by;
}

-- A conditional update of a row: what it leaves, and the Boolean returned, `none` where it throws.
abbrev pub conditional :
    Delivery
    → Bool
    → CustomFlavorRecord
    → CustomFlavorRecord
    → Option CustomFlavorRecord × Option Bool
conditional lost_before ok new r = (some r, none)
conditional answered ok new r = if ok then (some new, some true) else (some r, some false)
conditional lost_after ok new r = if ok then (some new, none) else (some r, some false)

unfoldable pub transition_flavor_validation :
    Delivery
    → TransitionFlavor
    → ℕ
    → Option CustomFlavorRecord
    → Option CustomFlavorRecord × Option Bool
unfolding allowed_from clamp_reason
transition_flavor_validation how input now none = elim (is_empty (allowed_from input.to)) [
  | true ↦ (none, some false)
  | false ↦ elim how [ lost_before ↦ (none, none) | _ ↦ (none, some false) ]
]
transition_flavor_validation how input now (some r) = elim (is_empty (allowed_from input.to)) [
  | true ↦ (some r, some false)
  | false ↦
      conditional how (state_admits (allowed_from input.to) r.state) (revalidated input now r) r
]

-- `changed` and the previous image; `none` where the call throws.
abbrev pub repointed : Text → Option Text → ℕ → CustomFlavorRecord → CustomFlavorRecord
repointed arn actor now r = record r {
  image_arn = arn;
  state = some pending;
  updated_at = now;
  updated_by = newer (actor_of actor) r.updated_by;
  reason = none;
  evidence = none;
}

unfoldable pub repoint_flavor_image :
    Delivery
    → Text
    → Option Text
    → ℕ
    → Option CustomFlavorRecord
    → Option CustomFlavorRecord × Option (Bool × Option Text)
repoint_flavor_image lost_before arn actor now old = (old, none)
repoint_flavor_image answered arn actor now none = (none, some (false, none))
repoint_flavor_image lost_after arn actor now none = (none, some (false, none))
repoint_flavor_image answered arn actor now (some r) =
    (some (repointed arn actor now r), some (true, some r.image_arn))
repoint_flavor_image lost_after arn actor now (some r) = (some (repointed arn actor now r), none)

unfoldable pub delete_custom_flavor :
    Delivery → Option CustomFlavorRecord → Option CustomFlavorRecord
delete_custom_flavor lost_before old = old
delete_custom_flavor answered old = none
delete_custom_flavor lost_after old = none
