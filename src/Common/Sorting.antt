-- ===== src/Common/Sorting.antt =====
-- The stable sort puts every item behind those that must come first, and keeps the items.
use mathlib.Core.Path.{◌≡◌}
use mathlib.Core.Logic.{◌⊎◌, inl, inr}
use mathlib.Core.Bool.{Bool, true, false}
use mathlib.Core.List.{List, [], ◌∷◌}
use lambda_ciactions.Common.Tests.{Bool-cases}
use lambda_ciactions.Common.Lists.{In, All, insert_by, sort_by}

module _ {A : Type 0} (le : A → A → Bool) where
  -- The head of a sorted list stands before every item.
  abbrev pub LeadsAll : A → List A → Type 0
  LeadsAll a xs = All (λ x. le a x ≡ true) xs

  abbrev pub Leads : List A → Type 0
  Leads [] = Unit
  Leads (x ∷ xs) = LeadsAll x xs × Leads xs

  sort_by-insert : (x y : A) (ys : List A) → (x ≡ y) ⊎ In x ys → In x (insert_by le y ys)
  unfolding insert_by
  sort_by-insert x y [] m = m
  sort_by-insert x y (z ∷ ys) m = elim (Bool-cases (le y z)) [
    | inl first ↦ rw first m
    | inr later ↦ rw later (elim m [
      | inl e ↦ inr (sort_by-insert x y ys (inl e))
      | inr (inl e) ↦ inl e
      | inr (inr k) ↦ inr (sort_by-insert x y ys (inr k))
    ])
  ]

  pub sort_by-In : (x : A) (xs : List A) → In x xs → In x (sort_by le xs)
  unfolding sort_by
  sort_by-In x [] m = m
  sort_by-In x (y ∷ xs) (inl e) = sort_by-insert x y _ (inl e)
  sort_by-In x (y ∷ xs) (inr m) = sort_by-insert x y _ (inr (sort_by-In x xs m))

  pub LeadsAll-In : (a x : A) (xs : List A) → LeadsAll a xs → In x xs → le a x ≡ true
  LeadsAll-In a x [] h m = absurd m
  LeadsAll-In a x (y ∷ ys) (h, hs) (inl e) = rw e h
  LeadsAll-In a x (y ∷ ys) (h, hs) (inr m) = LeadsAll-In a x ys hs m

module _ {A : Type 0} (le : A → A → Bool)
    (trans : (a b c : A) → le a b ≡ true → le b c ≡ true → le a c ≡ true)
    (total : (a b : A) → le a b ≡ false → le b a ≡ true) where
  LeadsAll-trans : (a b : A) (xs : List A) → le a b ≡ true → LeadsAll le b xs → LeadsAll le a xs
  LeadsAll-trans a b [] h k = tt
  LeadsAll-trans a b (x ∷ xs) h (k, ks) = (trans a b x h k, LeadsAll-trans a b xs h ks)

  LeadsAll-insert :
      (a x : A) (xs : List A) → le a x ≡ true → LeadsAll le a xs → LeadsAll le a (insert_by le x xs)
  unfolding insert_by
  LeadsAll-insert a x [] h k = (h, tt)
  LeadsAll-insert a x (y ∷ ys) h (k, ks) = elim (Bool-cases (le x y)) [
    | inl first ↦ rw first (h, (k, ks))
    | inr later ↦ rw later (k, LeadsAll-insert a x ys h ks)
  ]

  Leads-insert : (x : A) (xs : List A) → Leads le xs → Leads le (insert_by le x xs)
  unfolding insert_by
  Leads-insert x [] h = (tt, tt)
  Leads-insert x (y ∷ ys) (k, h) = elim (Bool-cases (le x y)) [
    | inl first ↦ rw first ((first, LeadsAll-trans x y ys first k), (k, h))
    | inr later ↦ rw later (LeadsAll-insert y x ys (total x y later) k, Leads-insert x ys h)
  ]

  pub Leads-sort_by : (xs : List A) → Leads le (sort_by le xs)
  unfolding sort_by
  Leads-sort_by [] = tt
  Leads-sort_by (x ∷ xs) = Leads-insert x (sort_by le xs) (Leads-sort_by xs)
