-- ===== src/Shared/FlavorStore/Validated.antt =====
-- What any sequence of writes does to the row of a flavor.
use lambda_ciactions.Common.{
  ℕ, ◌≡◌, refl, ap, Option, none, some, List, [], ◌∷◌, ◌++◌, arith, ◌⊎◌, inl, inr,
}
use lambda_ciactions.Common.Text.{Text}
use lambda_ciactions.Shared.FlavorStore.{
  CustomFlavorRecord, FlavorValidationState, pending, validating, valid, RegisterFlavorInput,
  TransitionFlavor, Delivery, answered, lost_before, lost_after, register_custom_flavor,
  transition_flavor_validation, repoint_flavor_image, delete_custom_flavor, allowed_from,
  build_flavor_record, can_transition_validation,
}

-- A call of one of the four writes, with how it ends and when.
pub data Write : Type 0 where
  register : Delivery → Option (List CustomFlavorRecord) → RegisterFlavorInput → ℕ → Write
  transition : Delivery → TransitionFlavor → ℕ → Write
  repoint : Delivery → Text → Option Text → ℕ → Write
  delete : Delivery → Write

unfoldable pub write : Write → Option CustomFlavorRecord → Option CustomFlavorRecord
unfolding register_custom_flavor transition_flavor_validation repoint_flavor_image
    delete_custom_flavor
write (register how existing input now) o = (register_custom_flavor how existing input now o).0
write (transition how input now) o = (transition_flavor_validation how input now o).0
write (repoint how arn actor now) o = (repoint_flavor_image how arn actor now o).0
write (delete how) o = delete_custom_flavor how o

unfoldable pub write_all : List Write → Option CustomFlavorRecord → Option CustomFlavorRecord
unfolding write
write_all [] o = o
write_all (w ∷ ws) o = write_all ws (write w o)

-- A row without a state is pending.
abbrev pub state_or_pending : Option FlavorValidationState → FlavorValidationState
state_or_pending none = pending
state_or_pending (some s) = s

-- A row in a state, with an image.
unfoldable pub Holds : FlavorValidationState → Text → Option CustomFlavorRecord → Type 0
Holds state arn none = ⊥
Holds state arn (some r) = (state_or_pending r.state ≡ state) × (r.image_arn ≡ arn)

-- A transition to a state.
unfoldable pub Enters : FlavorValidationState → Write → Type 0
Enters state (transition how input now) = input.to ≡ state
Enters state _ = ⊥

-- Somewhere among the writes stands a transition from the one state to the other, of a row with the
-- image.
pub record Entry (from to : FlavorValidationState) (arn : Text) (ws : List Write)
    (o : Option CustomFlavorRecord) : Type 0 where
  pub earlier : List Write
  pub entering : Write
  pub later : List Write
  pub order : ws ≡ earlier ++ entering ∷ later
  pub enters : Enters to entering
  pub found : Holds from arn (write_all earlier o)
  pub lands : Holds to arn (write_all (earlier ++ entering ∷ []) o)

-- The moves by which alone a row gets into the later state.
pub data Leads : FlavorValidationState → FlavorValidationState → Type 0 where
  begin : Leads pending validating
  pass : Leads validating valid

register_step :
    {from to : FlavorValidationState} (l : Leads from to) (how : Delivery)
    (existing : Option (List CustomFlavorRecord)) (input : RegisterFlavorInput) (now : ℕ)
    (o : Option CustomFlavorRecord) (arn : Text)
    → Holds to arn (register_custom_flavor how existing input now o).0
    → Holds to arn o
unfolding Holds register_custom_flavor build_flavor_record
register_step begin how existing input now o arn h = ground arith
register_step pass how existing input now o arn h = ground arith

repoint_step :
    {from to : FlavorValidationState} (l : Leads from to) (how : Delivery) (image : Text)
    (actor : Option Text) (now : ℕ) (o : Option CustomFlavorRecord) (arn : Text)
    → Holds to arn (repoint_flavor_image how image actor now o).0
    → Holds to arn o
unfolding Holds repoint_flavor_image
repoint_step begin how image actor now o arn h = ground arith
repoint_step pass how image actor now o arn h = ground arith

transition_step :
    {from to : FlavorValidationState} (l : Leads from to) (how : Delivery)
    (input : TransitionFlavor) (now : ℕ) (o : Option CustomFlavorRecord) (arn : Text)
    → Holds to arn (transition_flavor_validation how input now o).0
    → Holds to arn o ⊎ ((input.to ≡ to) × Holds from arn o)
unfolding Holds transition_flavor_validation allowed_from can_transition_validation
transition_step begin how input now o arn h = ground arith
transition_step pass how input now o arn h = ground arith

-- A write brings a row into the state by such a transition only.
write_step :
    {from to : FlavorValidationState} (l : Leads from to) (w : Write)
    (o : Option CustomFlavorRecord) (arn : Text)
    → Holds to arn (write w o)
    → Holds to arn o ⊎ (Enters to w × Holds from arn o)
unfolding write Holds Enters delete_custom_flavor
write_step l (register how existing input now) o arn h =
    inl (register_step l how existing input now o arn h)
write_step l (repoint how image actor now) o arn h =
    inl (repoint_step l how image actor now o arn h)
write_step l (delete lost_before) o arn h = inl h
write_step l (delete answered) o arn h = absurd h
write_step l (delete lost_after) o arn h = absurd h
write_step l (transition how input now) o arn h = transition_step l how input now o arn h

write_all-Entry :
    {from to : FlavorValidationState} (l : Leads from to) (ws : List Write)
    (o : Option CustomFlavorRecord) (arn : Text)
    → Holds to arn (write_all ws o)
    → Holds to arn o ⊎ Entry from to arn ws o
unfolding write_all
write_all-Entry l [] o arn h = inl h
write_all-Entry l (w ∷ ws) o arn h = elim (write_all-Entry l ws (write w o) arn h) [
  | inr v ↦ inr (record {
    earlier = w ∷ v.earlier;
    entering = v.entering;
    later = v.later;
    order = ap (λ rest. w ∷ rest) v.order;
    enters = v.enters;
    found = v.found;
    lands = v.lands;
  })
  | inl there ↦ elim (write_step l w o arn there) [
    | inl old ↦ inl old
    | inr (enters, found) ↦ inr (record {
      earlier = [];
      entering = w;
      later = ws;
      order = refl;
      enters = enters;
      found = found;
      lands = there;
    })
  ]
]

-- The transition to `valid`, and before it the start of a validation of the same image.
pub record Validation (arn : Text) (ws : List Write) : Type 0 where
  pub verdict : Entry validating valid arn ws none
  pub start : Entry pending validating arn verdict.earlier none

from_nothing :
    {from to : FlavorValidationState} (l : Leads from to) (ws : List Write) (arn : Text)
    → Holds to arn (write_all ws none)
    → Entry from to arn ws none
unfolding Holds
from_nothing l ws arn h = elim (write_all-Entry l ws none arn h) [
  | inl old ↦ absurd old
  | inr entry ↦ entry
]

-- A flavor that did not exist and now is valid, after any sequence of registrations, transitions,
-- image changes and deletions, lost answers included, got that state by a transition to `valid` that
-- found the row in `validating` with the image that it now has; and before that a transition from
-- `pending` started a validation of a row with this image. Which validation run wrote the verdict the
-- row does not know: a run that began on an earlier image writes the same transition.
pub valid-Validation :
    (ws : List Write) (arn : Text) → Holds valid arn (write_all ws none) → Validation arn ws
valid-Validation ws arn h =
    let verdict = from_nothing pass ws arn h in
    record { verdict = verdict; start = from_nothing begin verdict.earlier arn verdict.found }
