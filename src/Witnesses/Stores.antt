-- ===== src/Witnesses/Stores.antt =====
-- The flavor store and the listing of microVMs at concrete inputs.
use lambda_ciactions.Common.{ℕ, ◌≡◌, refl, arith, Option, none, some, List, [], ◌∷◌}
use lambda_ciactions.Common.Text.{Text, codes}
use lambda_ciactions.Shared.FlavorCatalog.{catalog_ops}
use lambda_ciactions.Shared.Microvm.{Page, list_micro_vms}
use lambda_ciactions.Shared.Microvm.Pages.{Pages, last, more, list_micro_vms-Pages}
use lambda_ciactions.Shared.FlavorStore.{
  RegisterFlavorInput, TransitionFlavor, FlavorValidationState, validating, valid, answered,
  registered, register_custom_flavor, build_flavor_record, transition_flavor_validation,
  repoint_flavor_image, delete_custom_flavor, allowed_from, can_transition_validation, new_record,
}
use lambda_ciactions.Shared.FlavorStore.Registered.{Accepted, register_custom_flavor-registered}
use lambda_ciactions.Shared.FlavorStore.Validated.{
  Write, register, transition, write, write_all, Holds, Validation, valid-Validation,
}

abbrev second : Text
second = codes "t2"

abbrev list : Option Text → Option (Page ℕ)
list none = some (record { items = 1 ∷ 2 ∷ []; next_token = some second })
list (some token) = some (record { items = 3 ∷ []; next_token = none })

pages : Pages list none 2 (1 ∷ 2 ∷ 3 ∷ [])
pages = more _ second refl refl (last _ refl refl)

list_micro_vms-Pages_example : list_micro_vms list 10 ≡ some (some (1 ∷ 2 ∷ 3 ∷ []))
list_micro_vms-Pages_example = list_micro_vms-Pages list 2 10 (1 ∷ 2 ∷ 3 ∷ []) pages (omega arith)

abbrev input : RegisterFlavorInput
input = record {
  installation_id = 1;
  base = codes "gpu";
  vcpu = 4;
  memory_mb = 8192;
  capabilities = [];
  image_arn = codes "arn";
  actor = none;
}

unfoldable store_ops : Unit {0}
unfolding catalog_ops register_custom_flavor build_flavor_record transition_flavor_validation
    repoint_flavor_image delete_custom_flavor allowed_from can_transition_validation write write_all
    Holds
store_ops = tt

is_registered :
    (register_custom_flavor answered (some []) input 1000 none).1
    ≡ registered (new_record input 1000)
unfolding store_ops
is_registered = refl

register_custom_flavor-registered_example :
    Accepted input (some []) none (new_record input 1000)
    × ((register_custom_flavor answered (some []) input 1000 none).0 ≡ some (new_record input 1000))
register_custom_flavor-registered_example =
    register_custom_flavor-registered answered (some []) input 1000 none (new_record input 1000)
      is_registered

abbrev to_state : FlavorValidationState → TransitionFlavor
to_state s = record { to = s; reason = none; evidence = none; actor = none }

abbrev writes : List Write
writes =
    register answered (some []) input 1000
    ∷ transition answered (to_state validating) 2000
    ∷ transition answered (to_state valid) 3000
    ∷ []

is_valid : Holds valid (codes "arn") (write_all writes none)
unfolding store_ops
is_valid = (refl, refl)

valid-Validation_example : Validation (codes "arn") writes
valid-Validation_example = valid-Validation writes (codes "arn") is_valid
