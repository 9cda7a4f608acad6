-- ===== src/Common/Text/Decimal.antt =====
-- Decimal numbers: a nonempty text of digits, another one for every number.
use mathlib.Core.Path.{◌≡◌, refl, ap, sym, ◌∙◌}
use mathlib.Core.Logic.{◌≢◌, inl, inr}
use mathlib.Core.Bool.{Bool, true, ◌&&◌}
use mathlib.Core.List.{[], ◌∷◌, ◌++◌, reverse, reverse-cons, reverse-reverse}
use Prim.Native.Nat.{ℕ, zero, suc, ◌+◌, ◌*◌, ◌/◌, ◌%◌, ◌<◌, ◌-◌}
use native.Mathlib.Omega.{arith}
use lambda_ciactions.Common.Tests.{Bool-cases, leb}
use lambda_ciactions.Common.Lists.{All}
use lambda_ciactions.Common.Text.Defs.{Text, digits_from, decimal}

abbrev pub is_digit : ℕ → Bool
is_digit c = leb b'0' c && leb c b'9'

abbrev pub IsDigits : Text → Type 0
IsDigits s = All (λ c. is_digit c ≡ true) s

digits_from-IsDigits : (f n : ℕ) → IsDigits (digits_from f n)
unfolding digits_from
digits_from-IsDigits zero n = tt
digits_from-IsDigits (suc f) n =
    let rest = digits_from-IsDigits f (n / 10) in
    elim (Bool-cases (leb n 9)) [
      | inl e ↦ rw e (ground arith, tt)
      | inr e ↦ rw e (ground arith, rest)
    ]

IsDigits-append : (s t : Text) → IsDigits s → IsDigits t → IsDigits (s ++ t)
IsDigits-append [] t h k = k
IsDigits-append (c ∷ s) t (h, hs) k = (h, IsDigits-append s t hs k)

IsDigits-reverse : (s : Text) → IsDigits s → IsDigits (reverse s)
IsDigits-reverse [] h = tt
IsDigits-reverse (c ∷ s) (h, hs) =
    rw (reverse-cons c s) (IsDigits-append (reverse s) (c ∷ []) (IsDigits-reverse s hs) (h, tt))

pub decimal-IsDigits : (n : ℕ) → IsDigits (decimal n)
unfolding decimal
decimal-IsDigits n = IsDigits-reverse (digits_from (suc n) n) (digits_from-IsDigits (suc n) n)

-- The number that digits stand for, the least significant first.
value : Text → ℕ
value [] = 0
value (c ∷ s) = (c - b'0') + 10 * value s

value-digits_from : (f n : ℕ) → n < f → value (digits_from f n) ≡ n
unfolding value digits_from
value-digits_from zero n h = ground arith
value-digits_from (suc f) n h = elim (Bool-cases (leb n 9)) [
  | inl e ↦ rw e (ground arith)
  | inr e ↦ let ih = value-digits_from f (n / 10) (ground arith) in rw (e, ih) (ground arith)
]

pub decimal-injective : (m n : ℕ) → decimal m ≡ decimal n → m ≡ n
unfolding decimal
decimal-injective m n h =
    let same : digits_from (suc m) m ≡ digits_from (suc n) n =
      sym (reverse-reverse (digits_from (suc m) m))
      ∙ ap reverse h
      ∙ reverse-reverse (digits_from (suc n) n) in
    sym (value-digits_from (suc m) m (ground arith))
    ∙ ap value same
    ∙ value-digits_from (suc n) n (ground arith)

some_digits : (f n : ℕ) → digits_from (suc f) n ≢ []
unfolding digits_from
some_digits f n h = elim (Bool-cases (leb n 9)) [
  | inl e ↦ let k : (n + b'0') ∷ [] ≡ [] = rw (e, digits_from) at h in ground arith
  | inr e ↦
      let k : (n % 10 + b'0') ∷ digits_from f (n / 10) ≡ [] = rw (e, digits_from) at h in
      ground arith
]

decimal≢nil : (n : ℕ) → decimal n ≢ []
unfolding decimal
decimal≢nil n h = some_digits n n (sym (reverse-reverse (digits_from (suc n) n)) ∙ ap reverse h)

parts_of :
    (n : ℕ) (t : Text)
    → decimal n ≡ t
    → IsDigits t
    → (c : ℕ) × (s : Text) × (decimal n ≡ c ∷ s) × (is_digit c ≡ true) × IsDigits s
parts_of n [] e h = absurd (decimal≢nil n e)
parts_of n (c ∷ s) e (h, hs) = (c, s, e, h, hs)

-- The first digit, and the others.
pub decimal_parts :
    (n : ℕ) → (c : ℕ) × (s : Text) × (decimal n ≡ c ∷ s) × (is_digit c ≡ true) × IsDigits s
decimal_parts n = parts_of n (decimal n) refl (decimal-IsDigits n)
