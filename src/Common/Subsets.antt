-- ===== src/Common/Subsets.antt =====
-- Lists of texts as sets: counting what one contains of another.
use Prim.Native.Nat.{suc, ◌≤◌}
use mathlib.Core.Path.{refl, sym}
use mathlib.Core.Logic.{◌≢◌, inl, inr}
use mathlib.Core.Bool.{Bool, not}
use mathlib.Core.List.{List, [], ◌∷◌}
use native.Mathlib.Omega.{arith}
use lambda_ciactions.Common.Tests.{Bool-cases}
use lambda_ciactions.Common.Lists.{In, Distinct, filter, length, filter-In}
use lambda_ciactions.Common.Text.{Text, text_eq, text_eq_iff, text_eq_refl, text_cases}

-- The list without a text.
without : Text → List Text → List Text
without x = filter (λ y. not (text_eq x y))

without-In : (x y : Text) (ys : List Text) → In y ys → x ≢ y → In y (without x ys)
unfolding without
without-In x y ys m n =
    filter-In (λ y. not (text_eq x y)) y ys m
      (elim (Bool-cases (text_eq x y)) [
        | inl e ↦ absurd (n ((text_eq_iff x y).0 e))
        | inr e ↦ rw e refl
      ])

length-filter : (p : Text → Bool) (ys : List Text) → length (filter p ys) ≤ length ys
length-filter p [] = ground arith
length-filter p (y ∷ ys) = let ih = length-filter p ys in ground arith

length-without : (x : Text) (ys : List Text) → In x ys → suc (length (without x ys)) ≤ length ys
unfolding without
length-without x [] m = absurd m
length-without x (y ∷ ys) (inl e) =
    let k = length-filter (λ y. not (text_eq x y)) ys in rw (sym e, text_eq_refl x) (ground arith)
length-without x (y ∷ ys) (inr m) =
    let ih = length-without x ys m in
    let k = length-filter (λ y. not (text_eq x y)) ys in ground arith

rest_inside :
    (x : Text) (xs ys : List Text)
    → ¬ In x xs
    → ((z : Text) → In z (x ∷ xs) → In z ys)
    → (z : Text) → In z xs
    → In z (without x ys)
rest_inside x xs ys fresh sub z m = without-In x z ys (sub z (inr m)) (λ e. fresh (rw e m))

-- A list without repeats is no longer than one that contains it.
pub subset-length :
    (xs ys : List Text) → Distinct xs → ((z : Text) → In z xs → In z ys) → length xs ≤ length ys
subset-length [] ys d sub = ground arith
subset-length (x ∷ xs) ys (fresh, d) sub =
    let ih = subset-length xs (without x ys) d (rest_inside x xs ys fresh sub) in
    let k = length-without x ys (sub x (inl refl)) in ground arith

-- And if it is as long, it contains all of it.
pub subset_back :
    (xs ys : List Text)
    → Distinct xs
    → ((z : Text) → In z xs → In z ys)
    → length ys ≤ length xs
    → (z : Text) → In z ys
    → In z xs
subset_back [] [] d sub few z m = m
subset_back [] (y ∷ ys) d sub few z m = ground arith
subset_back (x ∷ xs) ys (fresh, d) sub few z m = elim (text_cases x z) [
  | inl e ↦ inl (sym e)
  | inr n ↦
      let k = length-without x ys (sub x (inl refl)) in
      inr (
        subset_back xs (without x ys) d (rest_inside x xs ys fresh sub) (ground arith) z
          (without-In x z ys m n))
]
