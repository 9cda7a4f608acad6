-- ===== src/Common/Text/Substrings.antt =====
-- `startsWith` and `includes` say where one text stands in another.
use mathlib.Core.Path.{◌≡◌, refl, ap, ◌∙◌}
use mathlib.Core.Logic.{◌↔◌, inl, inr}
use mathlib.Core.Bool.{true}
use mathlib.Core.List.{[], ◌∷◌, ◌++◌}
use native.Mathlib.Omega.{arith}
use lambda_ciactions.Common.Tests.{or_left, or_right, or_cases, and_parts, ◌==◌, ==_iff}
use lambda_ciactions.Common.Text.Defs.{Text, starts_with, has_substring}
use lambda_ciactions.Common.Text.Laws.{starts_with_nil}

pub starts_with-append : (p s : Text) → starts_with (p ++ s) p ≡ true
unfolding starts_with
starts_with-append [] s = starts_with_nil s
starts_with-append (c ∷ p) s = ground (arith, starts_with-append p s)

has_substring-start : (p s : Text) → has_substring (p ++ s) p ≡ true
unfolding has_substring
has_substring-start [] [] = starts_with_nil []
has_substring-start [] (c ∷ s) = or_left (has_substring s []) (starts_with_nil (c ∷ s))
has_substring-start (c ∷ p) s = or_left _ (starts_with-append (c ∷ p) s)

pub has_substring-append : (a p s : Text) → has_substring (a ++ (p ++ s)) p ≡ true
unfolding has_substring
has_substring-append [] p s = has_substring-start p s
has_substring-append (c ∷ a) p s = or_right _ (has_substring-append a p s)

pub starts_with-split : (s p : Text) → starts_with s p ≡ true → (t : Text) × (s ≡ p ++ t)
unfolding starts_with
starts_with-split s [] h = (s, refl)
starts_with-split [] (c ∷ p) h = ground arith
starts_with-split (d ∷ s) (c ∷ p) h =
    let (same, rest) = and_parts (d == c) (starts_with s p) h in
    let e : d ≡ c = (==_iff d c).0 same in let (t, k) = starts_with-split s p rest in (t, cc)

-- The second text stands somewhere in the first.
abbrev pub Holds : Text → Text → Type 0
Holds s p = (a : Text) × (b : Text) × (s ≡ a ++ (p ++ b))

has_substring-Holds : (s p : Text) → has_substring s p ≡ true → Holds s p
unfolding has_substring
has_substring-Holds [] p h = let (t, e) = starts_with-split [] p h in ([], t, e)
has_substring-Holds (c ∷ s) p h = elim (or_cases (starts_with (c ∷ s) p) (has_substring s p) h) [
  | inl first ↦ let (t, e) = starts_with-split (c ∷ s) p first in ([], t, e)
  | inr later ↦ let (a, b, e) = has_substring-Holds s p later in (c ∷ a, b, ap (λ x. c ∷ x) e)
]

pub has_substring_iff : (s p : Text) → (has_substring s p ≡ true) ↔ Holds s p
has_substring_iff s p = (
  has_substring-Holds s p,
  λ (a, b, e). ap (λ x. has_substring x p) e ∙ has_substring-append a p b,
)
