-- ===== src/Common/Text/Laws.antt =====
-- Equality of texts is decided, and normalising a text a second time changes nothing.
use Prim.Native.Nat.{ℕ}
use mathlib.Core.Path.{◌≡◌, refl, ap, sym, ◌∙◌}
use mathlib.Core.Logic.{◌≢◌, ◌↔◌, ◌⊎◌, inl, inr}
use mathlib.Core.Bool.{Bool, true, false, not, ◌&&◌}
use mathlib.Core.List.{List, [], ◌∷◌}
use native.Mathlib.Omega.{arith}
use lambda_ciactions.Common.Tests.{Bool-cases, ◌==◌, ==_iff, and_parts}
use lambda_ciactions.Common.Lists.{In, Distinct, any-In, In-any}
use lambda_ciactions.Common.Text.Defs.{
  starts_with, Text, text_eq, text_le, is_space, trim_start, keep_before, trim_end, trim,
  lower_unit, to_lower_case, is_member, normalize,
}

text_eq_sound : (s t : Text) → text_eq s t ≡ true → s ≡ t
unfolding text_eq
text_eq_sound [] [] h = refl
text_eq_sound (a ∷ s) (b ∷ t) h = ground (arith, text_eq_sound s t)
text_eq_sound s t h = cc

pub text_eq_refl : (s : Text) → text_eq s s ≡ true
unfolding text_eq
text_eq_refl [] = refl
text_eq_refl (a ∷ s) = ground (arith, text_eq_refl s)

pub text_eq_iff : (s t : Text) → (text_eq s t ≡ true) ↔ (s ≡ t)
text_eq_iff s t = (text_eq_sound s t, λ e. rw (← e) (text_eq_refl s))

pub is_member_iff : (l : Text) (ls : List Text) → (is_member l ls ≡ true) ↔ In l ls
unfolding is_member
is_member_iff l ls = (
  λ h. let (x, m, e) = In-any (text_eq l) ls h in rw ((text_eq_iff l x).0 e) m,
  λ m. any-In (text_eq l) l ls m (text_eq_refl l),
)

lower_unit_idem : (c : ℕ) → lower_unit (lower_unit c) ≡ lower_unit c
unfolding lower_unit
lower_unit_idem c = ground arith

to_lower_case_idem : (s : Text) → to_lower_case (to_lower_case s) ≡ to_lower_case s
unfolding to_lower_case
to_lower_case_idem [] = refl
to_lower_case_idem (c ∷ s) = cc (lower_unit_idem c, to_lower_case_idem s)

is_space-lower_unit : (c : ℕ) → is_space (lower_unit c) ≡ is_space c
unfolding lower_unit
is_space-lower_unit c = ground arith

trim_start-to_lower_case : (s : Text) → trim_start (to_lower_case s) ≡ to_lower_case (trim_start s)
unfolding trim_start to_lower_case
trim_start-to_lower_case [] = refl
trim_start-to_lower_case (c ∷ s) = ground (arith, is_space-lower_unit c, trim_start-to_lower_case s)

keep_before-to_lower_case :
    (c : ℕ) (s : Text)
    → keep_before (lower_unit c) (to_lower_case s) ≡ to_lower_case (keep_before c s)
unfolding to_lower_case
keep_before-to_lower_case c [] = ground (arith, is_space-lower_unit c)
keep_before-to_lower_case c (d ∷ s) = refl

trim_end-to_lower_case : (s : Text) → trim_end (to_lower_case s) ≡ to_lower_case (trim_end s)
unfolding trim_end to_lower_case
trim_end-to_lower_case [] = refl
trim_end-to_lower_case (c ∷ s) =
    ap (keep_before (lower_unit c)) (trim_end-to_lower_case s)
    ∙ keep_before-to_lower_case c (trim_end s)

trim_end-keep_before :
    (c : ℕ) (t : Text) → trim_end t ≡ t → trim_end (keep_before c t) ≡ keep_before c t
unfolding trim_end
trim_end-keep_before c [] h = ground arith
trim_end-keep_before c (d ∷ t) h = ap (keep_before c) h

trim_end_idem : (s : Text) → trim_end (trim_end s) ≡ trim_end s
unfolding trim_end
trim_end_idem [] = refl
trim_end_idem (c ∷ s) = trim_end-keep_before c (trim_end s) (trim_end_idem s)

trim_start-keep_before :
    (c : ℕ) (t : Text) → is_space c ≡ false → trim_start (keep_before c t) ≡ keep_before c t
unfolding trim_start
trim_start-keep_before c [] h = rw h (rw h refl)
trim_start-keep_before c (d ∷ t) h = rw h refl

trim_start-trim : (s : Text) → trim_start (trim_end (trim_start s)) ≡ trim_end (trim_start s)
unfolding trim_start trim_end
trim_start-trim [] = refl
trim_start-trim (c ∷ s) = elim (Bool-cases (is_space c)) [
  | inl space ↦ rw space (trim_start-trim s)
  | inr other ↦ rw other (trim_start-keep_before c (trim_end s) other)
]

-- Normalising a label a second time changes nothing.
pub normalize_idem : (s : Text) → normalize (normalize s) ≡ normalize s
unfolding normalize trim
normalize_idem s =
    ap to_lower_case (
      ap trim_end
        (trim_start-to_lower_case (trim_end (trim_start s)) ∙ ap to_lower_case (trim_start-trim s))
      ∙ trim_end-to_lower_case (trim_end (trim_start s))
      ∙ ap to_lower_case (trim_end_idem (trim_start s)))
    ∙ to_lower_case_idem (trim_end (trim_start s))

pub trim_idem : (s : Text) → trim (trim s) ≡ trim s
unfolding trim
trim_idem s = ap trim_end (trim_start-trim s) ∙ trim_end_idem (trim_start s)

pub normalize-trim : (s : Text) → normalize (trim s) ≡ normalize s
unfolding normalize
normalize-trim s = ap to_lower_case (trim_idem s)

-- Distinctness of literals, by evaluation.
unfoldable pub are_distinct : List Text → Bool
are_distinct [] = true
are_distinct (x ∷ xs) = not (is_member x xs) && are_distinct xs

pub are_distinct_sound : (xs : List Text) → are_distinct xs ≡ true → Distinct xs
unfolding are_distinct
are_distinct_sound [] h = tt
are_distinct_sound (x ∷ xs) h = (
  λ m. let yes_in = (is_member_iff x xs).1 m in ground arith,
  are_distinct_sound xs (ground arith),
)

-- The order of code units is a total order.
pub text_le_total : (s t : Text) → text_le s t ≡ false → text_le t s ≡ true
unfolding text_le
text_le_total [] t h = ground arith
text_le_total (a ∷ s) [] h = refl
text_le_total (a ∷ s) (b ∷ t) h = ground (arith, text_le_total s t)

pub text_le_trans : (s t u : Text) → text_le s t ≡ true → text_le t u ≡ true → text_le s u ≡ true
unfolding text_le
text_le_trans [] t u h k = refl
text_le_trans (a ∷ s) [] u h k = ground arith
text_le_trans (a ∷ s) (b ∷ t) [] h k = ground arith
text_le_trans (a ∷ s) (b ∷ t) (c ∷ u) h k = ground (arith, text_le_trans s t u)

pub text_le_antisymm : (s t : Text) → text_le s t ≡ true → text_le t s ≡ true → s ≡ t
unfolding text_le
text_le_antisymm [] [] h k = refl
text_le_antisymm [] (b ∷ t) h k = ground arith
text_le_antisymm (a ∷ s) [] h k = ground arith
text_le_antisymm (a ∷ s) (b ∷ t) h k = ground (arith, text_le_antisymm s t)

-- A prefix in lower case and without spaces survives `trim`.
abbrev pub NoSpace : Text → Type 0
NoSpace [] = Unit
NoSpace (c ∷ p) = (is_space c ≡ false) × NoSpace p

keep_before-starts_with :
    (c d : ℕ) (t p : Text)
    → is_space d ≡ false
    → (c == d) ≡ true
    → starts_with t p ≡ true
    → starts_with (keep_before c t) (d ∷ p) ≡ true
unfolding starts_with
keep_before-starts_with c d [] [] n e h = ground (arith, ==_iff c d)
keep_before-starts_with c d [] (x ∷ p) n e h = ground arith
keep_before-starts_with c d (x ∷ t) p n e h = rw e h

pub starts_with_nil : (s : Text) → starts_with s [] ≡ true
unfolding starts_with
starts_with_nil [] = refl
starts_with_nil (c ∷ s) = refl

trim_end-starts_with :
    (s p : Text) → NoSpace p → starts_with s p ≡ true → starts_with (trim_end s) p ≡ true
unfolding starts_with trim_end
trim_end-starts_with s [] n h = starts_with_nil (trim_end s)
trim_end-starts_with [] (d ∷ p) n h = h
trim_end-starts_with (c ∷ s) (d ∷ p) (n, ns) h =
    let (e, k) = and_parts (c == d) (starts_with s p) h in
    keep_before-starts_with c d (trim_end s) p n e (trim_end-starts_with s p ns k)

trim_start-starts_with :
    (s : Text) (d : ℕ) (p : Text)
    → is_space d ≡ false
    → starts_with s (d ∷ p) ≡ true
    → trim_start s ≡ s
unfolding starts_with trim_start
trim_start-starts_with [] d p n h = refl
trim_start-starts_with (c ∷ s) d p n h = ground (arith, ==_iff c d)

pub normalize-starts_with :
    (s : Text) (d : ℕ) (p : Text)
    → NoSpace (d ∷ p)
    → starts_with (to_lower_case s) (d ∷ p) ≡ true
    → starts_with (normalize s) (d ∷ p) ≡ true
unfolding normalize trim
normalize-starts_with s d p (n, ns) h =
    let e = trim_start-starts_with (to_lower_case s) d p n h in
    let f = sym (trim_start-to_lower_case s) ∙ e in
    rw (← trim_end-to_lower_case (trim_start s), f)
      (trim_end-starts_with (to_lower_case s) (d ∷ p) (n, ns) h)

pub normalize-to_lower_case : (s : Text) → normalize (to_lower_case s) ≡ normalize s
unfolding normalize trim
normalize-to_lower_case s =
    ap to_lower_case
      (ap trim_end (trim_start-to_lower_case s) ∙ trim_end-to_lower_case (trim_start s))
    ∙ to_lower_case_idem (trim_end (trim_start s))

pub text_cases : (s t : Text) → (s ≡ t) ⊎ (s ≢ t)
text_cases s t = elim (Bool-cases (text_eq s t)) [
  | inl e ↦ inl ((text_eq_iff s t).0 e)
  | inr e ↦ inr (λ h. let same = (text_eq_iff s t).1 h in ground arith)
]
