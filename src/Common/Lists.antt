-- ===== src/Common/Lists.antt =====
-- Lists searched and filtered by Boolean tests, and counted by native numbers.
use Prim.Native.Nat.{ℕ, zero, suc, ◌+◌}
use mathlib.Core.Path.{◌≡◌, refl, sym, ap, ◌∙◌}
use mathlib.Core.Logic.{◌↔◌, ◌⊎◌, inl, inr}
use mathlib.Core.Bool.{Bool, true, false, ◌&&◌, ◌||◌}
use mathlib.Core.Option.{Option, none, some}
use mathlib.Core.List.{List, [], ◌∷◌, ◌++◌, map}
use native.Mathlib.Omega.{arith}
use lambda_ciactions.Common.Tests.{if◌then◌else◌, Bool-cases, or_cases, or_left, or_right, or_false}

module _ {ℓ} {A : Type ℓ} where
  abbrev pub length : List A → ℕ
  length [] = 0
  length (x ∷ xs) = suc (length xs)

  -- `Array.prototype.some`, `every`, `filter` and `find`.
  abbrev pub any : (A → Bool) → List A → Bool
  any p [] = false
  any p (x ∷ xs) = p x || any p xs

  abbrev pub all : (A → Bool) → List A → Bool
  all p [] = true
  all p (x ∷ xs) = p x && all p xs

  abbrev pub filter : (A → Bool) → List A → List A
  filter p [] = []
  filter p (x ∷ xs) = if p x then x ∷ filter p xs else filter p xs

  abbrev pub find : (A → Bool) → List A → Option A
  find p [] = none
  find p (x ∷ xs) = if p x then some x else find p xs

  -- A stable sort, as `Array.prototype.sort` is; `le x y` holds unless `y` must come first.
  unfoldable pub insert_by : (A → A → Bool) → A → List A → List A
  insert_by le x [] = x ∷ []
  insert_by le x (y ∷ ys) = if le x y then x ∷ y ∷ ys else y ∷ insert_by le x ys

  unfoldable pub sort_by : (A → A → Bool) → List A → List A
  unfolding insert_by
  sort_by le [] = []
  sort_by le (x ∷ xs) = insert_by le x (sort_by le xs)

  -- `slice(0, n)`
  abbrev pub take : ℕ → List A → List A
  take zero xs = []
  take (suc n) [] = []
  take (suc n) (x ∷ xs) = x ∷ take n xs

  abbrev pub is_empty : List A → Bool
  is_empty [] = true
  is_empty (x ∷ xs) = false

-- Membership and a property of every item, by recursion, so that the tactics compute with them.
abbrev pub In : {A : Type 0} → A → List A → Type 0
In x [] = ⊥
In x (y ∷ ys) = (x ≡ y) ⊎ In x ys

abbrev pub All {ℓ κ} : {A : Type ℓ} → (A → Type κ) → List A → Type κ
All P [] = Unit
All P (x ∷ xs) = P x × All P xs

module _ {ℓ} {A : Type ℓ} where
  pub length-append : (xs ys : List A) → length (xs ++ ys) ≡ length xs + length ys
  length-append [] ys = omega arith
  length-append (x ∷ xs) ys = omega (arith, length-append xs ys)

module _ {A : Type 0} where
  pub In-append_left : (x : A) (xs ys : List A) → In x xs → In x (xs ++ ys)
  In-append_left x [] ys h = absurd h
  In-append_left x (y ∷ xs) ys (inl e) = inl e
  In-append_left x (y ∷ xs) ys (inr m) = inr (In-append_left x xs ys m)

  pub In-append_right : (x : A) (xs ys : List A) → In x ys → In x (xs ++ ys)
  In-append_right x [] ys h = h
  In-append_right x (y ∷ xs) ys h = inr (In-append_right x xs ys h)

  pub In-append : (x : A) (xs ys : List A) → In x (xs ++ ys) → In x xs ⊎ In x ys
  In-append x [] ys h = inr h
  In-append x (y ∷ xs) ys (inl e) = inl (inl e)
  In-append x (y ∷ xs) ys (inr m) = elim (In-append x xs ys m) [
    | inl a ↦ inl (inr a)
    | inr b ↦ inr b
  ]

  pub In-map : {B : Type 0} (f : A → B) (x : A) (xs : List A) → In x xs → In (f x) (map f xs)
  In-map f x [] h = absurd h
  In-map f x (y ∷ xs) (inl e) = inl (ap f e)
  In-map f x (y ∷ xs) (inr m) = inr (In-map f x xs m)

  pub In-of_map :
      {B : Type 0} (f : A → B) (y : B) (xs : List A)
      → In y (map f xs)
      → (x : A) × In x xs × (y ≡ f x)
  In-of_map f y [] h = absurd h
  In-of_map f y (x ∷ xs) (inl e) = (x, inl refl, e)
  In-of_map f y (x ∷ xs) (inr m) = let (z, k, e) = In-of_map f y xs m in (z, inr k, e)

module _ {A : Type 0} (p : A → Bool) where
  pub any-In : (x : A) (xs : List A) → In x xs → p x ≡ true → any p xs ≡ true
  any-In x [] h k = absurd h
  any-In x (y ∷ xs) (inl e) k = or_left (any p xs) (ap p (sym e) ∙ k)
  any-In x (y ∷ xs) (inr m) k = or_right (p y) (any-In x xs m k)

  pub In-any : (xs : List A) → any p xs ≡ true → (x : A) × In x xs × (p x ≡ true)
  In-any [] h = ground arith
  In-any (y ∷ xs) h = elim (or_cases (p y) (any p xs) h) [
    | inl here ↦ (y, inl refl, here)
    | inr later ↦ let (x, m, e) = In-any xs later in (x, inr m, e)
  ]

  pub any-false : (x : A) (xs : List A) → any p xs ≡ false → In x xs → p x ≡ false
  any-false x [] h m = absurd m
  any-false x (y ∷ xs) h (inl e) = ap p e ∙ (or_false (p y) (any p xs) h).0
  any-false x (y ∷ xs) h (inr m) = any-false x xs (or_false (p y) (any p xs) h).1 m

  pub any-eq-false : (xs : List A) → ((x : A) → In x xs → p x ≡ false) → any p xs ≡ false
  any-eq-false [] h = refl
  any-eq-false (y ∷ xs) h = rw (h y (inl refl)) (any-eq-false xs (λ x m. h x (inr m)))

  pub find-none_iff : (xs : List A) → (find p xs ≡ none) ↔ (any p xs ≡ false)
  find-none_iff [] = ground arith
  find-none_iff (x ∷ xs) = ground (arith, find-none_iff xs)

  pub find-some : (x : A) (xs : List A) → find p xs ≡ some x → In x xs × (p x ≡ true)
  find-some x [] h = ground arith
  find-some x (y ∷ xs) h = elim (Bool-cases (p y)) [
    | inl hit ↦ let e : y ≡ x = ground arith in (inl (sym e), ap p (sym e) ∙ hit)
    | inr miss ↦ let (m, k) = find-some x xs (ground arith) in (inr m, k)
  ]

  pub In-filter : (x : A) (xs : List A) → In x (filter p xs) → In x xs × (p x ≡ true)
  In-filter x [] h = absurd h
  In-filter x (y ∷ xs) h = elim (Bool-cases (p y)) [
    | inl hit ↦ elim (let k : (x ≡ y) ⊎ In x (filter p xs) = rw hit at h in k) [
      | inl e ↦ (inl e, ap p e ∙ hit)
      | inr m ↦ let (a, b) = In-filter x xs m in (inr a, b)
    ]
    | inr miss ↦ let (a, b) = In-filter x xs (rw miss at h) in (inr a, b)
  ]

  pub filter-In : (x : A) (xs : List A) → In x xs → p x ≡ true → In x (filter p xs)
  filter-In x [] h k = absurd h
  filter-In x (y ∷ xs) (inl e) k = rw (ap p (sym e) ∙ k) (inl e)
  filter-In x (y ∷ xs) (inr m) k = elim (Bool-cases (p y)) [
    | inl hit ↦ rw hit (inr (filter-In x xs m k))
    | inr miss ↦ rw miss (filter-In x xs m k)
  ]

-- No item stands twice.
abbrev pub Distinct : {A : Type 0} → List A → Type 0
Distinct [] = Unit
Distinct (x ∷ xs) = (¬ In x xs) × Distinct xs

pub Distinct-snoc :
    {A : Type 0} (xs : List A) (x : A) → Distinct xs → (¬ In x xs) → Distinct (xs ++ x ∷ [])
Distinct-snoc [] x d n = (λ m. m, tt)
Distinct-snoc (y ∷ xs) x (fresh, d) n = (
  λ m. elim (In-append y xs (x ∷ []) m) [
    | inl old ↦ fresh old
    | inr (inl e) ↦ n (inl (sym e))
    | inr (inr none_left) ↦ none_left
  ],
  Distinct-snoc xs x d (λ m. n (inr m)),
)

pub Distinct-append :
    {A : Type 0} (xs ys : List A)
    → Distinct xs
    → Distinct ys
    → ((x : A) → In x xs → ¬ In x ys)
    → Distinct (xs ++ ys)
Distinct-append [] ys d e apart = e
Distinct-append (x ∷ xs) ys (fresh, d) e apart = (
  λ m. elim (In-append x xs ys m) [ inl old ↦ fresh old | inr new ↦ apart x (inl refl) new ],
  Distinct-append xs ys d e (λ z m. apart z (inr m)),
)

module _ {A : Type 0} (le : A → A → Bool) where
  In-insert_by : (x y : A) (ys : List A) → In x (insert_by le y ys) → (x ≡ y) ⊎ In x ys
  unfolding insert_by
  In-insert_by x y [] m = m
  In-insert_by x y (z ∷ ys) m = elim (Bool-cases (le y z)) [
    | inl first ↦ rw first at m
    | inr later ↦ elim (let k : (x ≡ z) ⊎ In x (insert_by le y ys) = rw later at m in k) [
      | inl e ↦ inr (inl e)
      | inr k ↦ elim (In-insert_by x y ys k) [ inl e ↦ inl e | inr old ↦ inr (inr old) ]
    ]
  ]

  -- Sorting makes nothing up.
  pub In-sort_by : (x : A) (xs : List A) → In x (sort_by le xs) → In x xs
  unfolding sort_by
  In-sort_by x [] m = m
  In-sort_by x (y ∷ xs) m = elim (In-insert_by x y (sort_by le xs) m) [
    | inl e ↦ inl e
    | inr k ↦ inr (In-sort_by x xs k)
  ]
