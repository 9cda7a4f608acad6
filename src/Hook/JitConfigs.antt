-- ===== src/Hook/JitConfigs.antt =====
-- src/shared/run-store.ts: the JIT configs in the table, by their partition and sort keys: the put of
-- `putJitConfig`, which replaces an item, and `getJitConfigByRef`.
use lambda_ciactions.Common.{◌≡◌, ◌≢◌, refl, sym, inl, inr, ◌&&◌, Option, none, some, List, [], ◌∷◌}
use lambda_ciactions.Common.Tests.{if◌then◌else◌, Bool-cases}
use lambda_ciactions.Common.Lists.{All}
use lambda_ciactions.Common.Text.{Text, text_eq, text_eq_refl, text_eq_iff}
use lambda_ciactions.Shared.RunStore.{JitConfigPayload, JitConfigItem, jitconfig_sk}
use lambda_ciactions.Hook.{before, jit_separator}
use lambda_ciactions.Hook.Broker.{Read, found, missing}

abbrev pub Items : Type 0
Items = Text → Text → Option JitConfigItem

unfoldable pub put_item : JitConfigItem → Items → Items
unfolding text_eq
put_item item items pk sk =
    if text_eq pk item.pk && text_eq sk item.sk then some item else items pk sk

-- Several puts, in order.
abbrev pub put_items : List JitConfigItem → Items → Items
put_items [] items = items
put_items (item ∷ rest) items = put_items rest (put_item item items)

abbrev pub payload_read : Option JitConfigItem → Read JitConfigPayload
payload_read none = missing
payload_read (some item) = found item.payload

unfoldable pub get_jit_config_by_ref : Items → Text → Read JitConfigPayload
unfolding before
get_jit_config_by_ref items ref = payload_read (items (before jit_separator ref) jitconfig_sk)

put_item-own :
    (item : JitConfigItem) (items : Items) → put_item item items item.pk item.sk ≡ some item
unfolding put_item
put_item-own item items = rw (text_eq_refl item.pk, text_eq_refl item.sk) refl

-- Puts under other partitions leave an item as it is.
put_items-others :
    (rest : List JitConfigItem) (items : Items) (pk sk : Text) (o : Option JitConfigItem)
    → All (λ i. i.pk ≢ pk) rest
    → items pk sk ≡ o
    → put_items rest items pk sk ≡ o
unfolding put_item
put_items-others [] items pk sk o h e = e
put_items-others (i ∷ rest) items pk sk o (other, h) e =
    put_items-others rest (put_item i items) pk sk o h (elim (Bool-cases (text_eq pk i.pk)) [
      | inl same ↦ absurd (other (sym ((text_eq_iff pk i.pk).0 same)))
      | inr apart ↦ rw apart e
    ])

-- What was put is read, whatever is put under other partitions later.
pub put_items-own :
    (item : JitConfigItem) (rest : List JitConfigItem) (items : Items)
    → All (λ i. i.pk ≢ item.pk) rest
    → put_items rest (put_item item items) item.pk item.sk ≡ some item
put_items-own item rest items h =
    put_items-others rest (put_item item items) item.pk item.sk (some item) h
      (put_item-own item items)
