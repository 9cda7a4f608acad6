-- ===== src/Shared/FlavorStore/Registered.antt =====
-- A registered flavor stands in the custom namespace and has not been validated.
use lambda_ciactions.Common.Tests.{Bool-cases, leb}
use lambda_ciactions.Common.Lists.{length}
use lambda_ciactions.Common.{
  ℕ, ◌<◌, ◌≡◌, inl, inr, ◌⊎◌, ◌∙◌, refl, false, Option, none, some, List, arith,
}
use lambda_ciactions.Shared.FlavorCatalog.{
  custom_flavor_name, custom_flavor_label, builtin_flavors, builtin_collision,
  custom_flavor_base_name_error, catalog_ops,
}
use lambda_ciactions.Shared.FlavorStore.{
  CustomFlavorRecord, RegisterFlavorInput, registered, rejected, Registration, RegisterError,
  Delivery, register_custom_flavor, build_flavor_record, to_catalog_flavor, new_record,
  is_routable_state, admit, put_new,
}
use lambda_ciactions.Provision.Flavor.Custom.{IsCustom}

-- What an accepted registration guarantees of the new row.
pub record Accepted (input : RegisterFlavorInput) (existing : Option (List CustomFlavorRecord))
    (old : Option CustomFlavorRecord) (rec : CustomFlavorRecord) : Type 0 where
  pub fresh : old ≡ none
  pub room : (rows : List CustomFlavorRecord) × (existing ≡ some rows) × (length rows < 64)
  pub custom : IsCustom (to_catalog_flavor rec)
  pub unused : builtin_collision rec.name rec.label builtin_flavors ≡ none
  pub named : custom_flavor_base_name_error (some input.base) ≡ none
  pub unproven : is_routable_state rec.state ≡ false
  pub image : rec.image_arn ≡ input.image_arn

new_record-IsCustom :
    (input : RegisterFlavorInput) (now : ℕ) → IsCustom (to_catalog_flavor (new_record input now))
unfolding catalog_ops
new_record-IsCustom input now = (refl, refl)

Registration-cases :
    (r : Registration)
    → ((rec : CustomFlavorRecord) × (r ≡ registered rec))
      ⊎ ((err : RegisterError) × (r ≡ rejected err))
Registration-cases (registered rec) = inl (rec, refl)
Registration-cases (rejected err) = inr (err, refl)

build_flavor_record-registered :
    (input : RegisterFlavorInput) (now : ℕ) (rec : CustomFlavorRecord)
    → build_flavor_record input now ≡ registered rec
    → (custom_flavor_base_name_error (some input.base) ≡ none)
      × (builtin_collision
            (custom_flavor_name input.base)
            (custom_flavor_label input.base)
            builtin_flavors
          ≡ none)
      × (new_record input now ≡ rec)
unfolding build_flavor_record
build_flavor_record-registered input now rec h = ground arith

put_new-registered :
    (how : Delivery) (r rec : CustomFlavorRecord) (old : Option CustomFlavorRecord)
    → (put_new how r old).1 ≡ registered rec
    → (r ≡ rec) × (old ≡ none) × ((put_new how r old).0 ≡ some rec)
put_new-registered how r rec old h = ground arith

admit-registered :
    (how : Delivery) (existing : Option (List CustomFlavorRecord)) (r rec : CustomFlavorRecord)
    (old : Option CustomFlavorRecord)
    → (admit how existing r old).1 ≡ registered rec
    → (r ≡ rec)
      × (old ≡ none)
      × ((admit how existing r old).0 ≡ some rec)
      × ((rows : List CustomFlavorRecord) × (existing ≡ some rows) × (length rows < 64))
admit-registered how none r rec old h = ground arith
admit-registered how (some rows) r rec old h = elim (Bool-cases (leb 64 (length rows))) [
  | inl full ↦ ground arith
  | inr room ↦
      let few : length rows < 64 = ground arith in
      let (same, fresh, stored) = put_new-registered how r rec old (rw room at h) in
      (same, fresh, rw room stored, (rows, refl, few))
]

-- A registration that answers with a row has stored it where there was none, after it had read a list
-- of fewer than 64 flavors (simultaneous registrations may exceed 64); its name and label stand in the
-- custom namespace, collide with no built-in flavor and come from a well-formed base name; and it is
-- not routable.
pub register_custom_flavor-registered :
    (how : Delivery) (existing : Option (List CustomFlavorRecord)) (input : RegisterFlavorInput)
    (now : ℕ) (old : Option CustomFlavorRecord) (rec : CustomFlavorRecord)
    → (register_custom_flavor how existing input now old).1 ≡ registered rec
    → Accepted input existing old rec
      × ((register_custom_flavor how existing input now old).0 ≡ some rec)
unfolding register_custom_flavor is_routable_state
register_custom_flavor-registered how existing input now old rec h =
    elim (Registration-cases (build_flavor_record input now)) [
      | inr (err, e) ↦
          let k : rejected err ≡ registered rec = rw (e, register_custom_flavor) at h in
          ground arith
      | inl (r, e) ↦
          let (named, unused, made) = build_flavor_record-registered input now r e in
          let k : (admit how existing r old).1 ≡ registered rec =
            rw (e, register_custom_flavor) at h in
          let (same, fresh, stored, room) = admit-registered how existing r rec old k in
          let made_rec : new_record input now ≡ rec = made ∙ same in
          (
            rw (← made_rec) (record {
              fresh = fresh;
              room = room;
              custom = new_record-IsCustom input now;
              unused = unused;
              named = named;
              unproven = refl;
              image = refl;
            }),
            rw (e, register_custom_flavor) stored,
          )
    ]
