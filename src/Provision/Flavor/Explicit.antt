-- ===== src/Provision/Flavor/Explicit.antt =====
-- The explicit label match picks the most specific label, whatever the order of the catalog.
use lambda_ciactions.Common.{
  ◌<◌, ◌≡◌, ◌↔◌, sym, ◌∙◌, ◌⊎◌, inl, inr, true, false, some, List, [], ◌∷◌, arith,
}
use lambda_ciactions.Common.Lists.{In, filter, length, sort_by, filter-In, In-filter, In-sort_by}
use lambda_ciactions.Common.Sorting.{Leads, Leads-sort_by, LeadsAll-In, sort_by-In}
use lambda_ciactions.Common.Text.{
  Text, text_le, text_le_total, text_le_trans, text_le_antisymm, to_lower_case, is_member,
}
use lambda_ciactions.Shared.FlavorCatalog.{CatalogFlavor}
use lambda_ciactions.Provision.Flavor.{
  not_behind, LabelMatch, label_matches, best_match, explicit_label_match,
}

not_behind_trans :
    (a b c : CatalogFlavor) → not_behind a b ≡ true → not_behind b c ≡ true → not_behind a c ≡ true
unfolding not_behind
not_behind_trans a b c h k = ground (arith, text_le_trans a.name b.name c.name)

not_behind_total : (a b : CatalogFlavor) → not_behind a b ≡ false → not_behind b a ≡ true
unfolding not_behind
not_behind_total a b h = ground (arith, text_le_total a.name b.name)

not_behind_refl : (a : CatalogFlavor) → not_behind a a ≡ true
unfolding not_behind
not_behind_refl a = ground (arith, text_le_total a.name a.name)

sorted : (xs : List CatalogFlavor) → Leads not_behind (sort_by not_behind xs)
sorted xs = Leads-sort_by not_behind not_behind_trans not_behind_total xs

-- The head of a sorted list leads the whole list.
Leads-of :
    (xs : List CatalogFlavor) (m : LabelMatch)
    → best_match xs ≡ some m
    → Leads not_behind xs
    → In m.def xs × ((f : CatalogFlavor) → In f xs → not_behind m.def f ≡ true)
Leads-of [] m h l = ground arith
Leads-of (x ∷ xs) m h (leads, _) =
    let e : x ≡ m.def = ground arith in
    (
      inl (sym e),
      λ f k. elim k [
        | inl same ↦ rw (same ∙ e) (not_behind_refl m.def)
        | inr later ↦ rw (← e) (LeadsAll-In not_behind x f xs leads later)
      ],
    )

before_iff :
    (a f : CatalogFlavor)
    → not_behind a f ≡ true
    → (length f.label < length a.label)
      ⊎ ((length f.label ≡ length a.label) × (text_le a.name f.name ≡ true))
unfolding not_behind
before_iff a f h = ground arith

-- The match is a flavor of the catalog whose label the job carries, and no such flavor has a longer
-- label, or an equally long one and a smaller name.
pub explicit_label_match_best :
    (catalog : List CatalogFlavor) (lower : List Text) (m : LabelMatch)
    → explicit_label_match catalog lower ≡ some m
    → In m.def catalog
      × (is_member (to_lower_case m.def.label) lower ≡ true)
      × ((f : CatalogFlavor)
          → In f catalog
          → is_member (to_lower_case f.label) lower ≡ true
          → (length f.label < length m.def.label)
            ⊎ ((length f.label ≡ length m.def.label) × (text_le m.def.name f.name ≡ true)))
unfolding explicit_label_match label_matches
explicit_label_match_best catalog lower m h =
    let matches = filter (λ f. is_member (to_lower_case f.label) lower) catalog in
    let led = Leads-of (sort_by not_behind matches) m h (sorted matches) in
    let (inside, carried) =
      In-filter _ m.def catalog (In-sort_by not_behind m.def matches (led.0)) in
    (
      inside,
      carried,
      λ f k c.
          before_iff m.def f
            (led.1 f (sort_by-In not_behind f matches (filter-In _ f catalog k c))),
    )

-- Two catalogs with the same flavors, in any order, select a flavor of the same name.
pub explicit_label_match_order :
    (c d : List CatalogFlavor) (lower : List Text) (m n : LabelMatch)
    → ((f : CatalogFlavor) → In f c ↔ In f d)
    → explicit_label_match c lower ≡ some m
    → explicit_label_match d lower ≡ some n
    → m.def.name ≡ n.def.name
explicit_label_match_order c d lower m n same h k =
    let (m_in, m_carried, m_best) = explicit_label_match_best c lower m h in
    let (n_in, n_carried, n_best) = explicit_label_match_best d lower n k in
    ground (
      arith,
      m_best n.def ((same n.def).1 n_in) n_carried,
      n_best m.def ((same m.def).0 m_in) m_carried,
      text_le_antisymm m.def.name n.def.name,
    )
