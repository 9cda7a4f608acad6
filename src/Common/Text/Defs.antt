-- ===== src/Common/Text/Defs.antt =====
-- Strings as lists of UTF-16 code units, and the methods of `String.prototype` that the sources
-- use. `toLowerCase` is written for ASCII letters; other code units are left as they are.
use Prim.Native.Nat.{ℕ, zero, suc, ◌+◌, ◌/◌, ◌%◌}
use Prim.Native.Char.{code}
use Prim.Native.String.{String}
use mathlib.Core.Bool.{Bool, true, false, ◌&&◌, ◌||◌}
use mathlib.Core.List.{List, [], ◌∷◌, map, reverse}
use lambda_ciactions.Common.Tests.{leb, ltb, ◌==◌, if◌then◌else◌}
use lambda_ciactions.Common.Lists.{any, filter}

abbrev pub Text : Type 0
Text = List ℕ

-- A literal, given by its code units.
abbrev pub codes : String → Text
codes String.[] = []
codes (String.◌∷◌ c s) = code c ∷ codes s

-- `===`
unfoldable pub text_eq : Text → Text → Bool
text_eq [] [] = true
text_eq (a ∷ s) (b ∷ t) = a == b && text_eq s t
text_eq _ _ = false

-- The order of code units.
unfoldable pub text_le : Text → Text → Bool
text_le [] t = true
text_le (a ∷ s) [] = false
text_le (a ∷ s) (b ∷ t) = if a == b then text_le s t else ltb a b

-- What `trim` removes: the white space and the line terminators of ECMAScript.
abbrev pub is_space : ℕ → Bool
is_space c =
    (leb 9 c && leb c 13)
    || c == 32
    || c == 160
    || c == 5760
    || (leb 8192 c && leb c 8202)
    || c == 8232
    || c == 8233
    || c == 8239
    || c == 8287
    || c == 12288
    || c == 65279

unfoldable pub trim_start : Text → Text
trim_start [] = []
trim_start (c ∷ s) = if is_space c then trim_start s else c ∷ s

-- The rest of a text whose tail is already trimmed.
abbrev pub keep_before : ℕ → Text → Text
keep_before c [] = if is_space c then [] else c ∷ []
keep_before c (d ∷ s) = c ∷ d ∷ s

unfoldable pub trim_end : Text → Text
trim_end [] = []
trim_end (c ∷ s) = keep_before c (trim_end s)

unfoldable pub trim : Text → Text
trim s = trim_end (trim_start s)

unfoldable pub lower_unit : ℕ → ℕ
lower_unit c = if leb b'A' c && leb c b'Z' then c + 32 else c

unfoldable pub to_lower_case : Text → Text
unfolding lower_unit
to_lower_case [] = []
to_lower_case (c ∷ s) = lower_unit c ∷ to_lower_case s

unfoldable pub starts_with : Text → Text → Bool
starts_with s [] = true
starts_with [] (c ∷ p) = false
starts_with (d ∷ s) (c ∷ p) = d == c && starts_with s p

-- `includes`
unfoldable pub has_substring : Text → Text → Bool
unfolding starts_with
has_substring [] p = starts_with [] p
has_substring (c ∷ s) p = starts_with (c ∷ s) p || has_substring s p

unfoldable pub is_member : Text → List Text → Bool
is_member l ls = any (text_eq l) ls

-- `l.trim().toLowerCase()`, the form in which labels are compared.
unfoldable pub normalize : Text → Text
normalize l = to_lower_case (trim l)

-- Not the empty text: the test of `filter(Boolean)`.
abbrev pub is_nonempty : Text → Bool
is_nonempty [] = false
is_nonempty (c ∷ s) = true

-- `labels.map((l) => l.trim().toLowerCase()).filter(Boolean)`
unfoldable pub normalize_all : List Text → List Text
normalize_all ls = filter is_nonempty (map normalize ls)

-- The decimal digits of a number, least significant first, on fuel; `String(n)` in base 10.
unfoldable pub digits_from : ℕ → ℕ → Text
digits_from zero n = []
digits_from (suc f) n =
    let rest = digits_from f (n / 10) in if leb n 9 then (n + b'0') ∷ [] else (n % 10 + b'0') ∷ rest

unfoldable pub decimal : ℕ → Text
decimal n = reverse (digits_from (suc n) n)

-- All that a run on literals computes with.
unfoldable pub text_ops : Unit {0}
unfolding text_eq text_le trim_start trim_end trim lower_unit to_lower_case starts_with
    has_substring is_member normalize normalize_all digits_from decimal
text_ops = tt
