-- ===== src/Common/Text/Json.antt =====
-- `JSON.stringify` on strings and on lists of strings, and the length of a text in UTF-8. The texts
-- have no lone surrogate.
use Prim.Native.Nat.{ℕ, ◌+◌, ◌/◌, ◌%◌}
use mathlib.Core.Bool.{◌&&◌}
use mathlib.Core.List.{List, [], ◌∷◌, ◌++◌}
use lambda_ciactions.Common.Tests.{leb, ltb, ◌==◌, if◌then◌else◌}
use lambda_ciactions.Common.Text.Defs.{Text, codes}

abbrev pub hex_digit : ℕ → ℕ
hex_digit n = if ltb n 10 then n + b'0' else n + 87

abbrev pub escaped : ℕ → Text
escaped c = b'\\' ∷ c ∷ []

abbrev pub json_unit : ℕ → Text
json_unit c =
    if c == b'"'
    then escaped c
    else if c == b'\\'
    then escaped c
    else if c == 8
    then escaped b'b'
    else if c == 9
    then escaped b't'
    else if c == 10
    then escaped b'n'
    else if c == 12
    then escaped b'f'
    else if c == 13
    then escaped b'r'
    else if ltb c 32
    then codes "\\u00" ++ (hex_digit (c / 16) ∷ hex_digit (c % 16) ∷ [])
    else c ∷ []

unfoldable pub json_units : Text → Text
json_units [] = []
json_units (c ∷ s) = json_unit c ++ json_units s

unfoldable pub json_string : Text → Text
json_string s = b'"' ∷ (json_units s ++ (b'"' ∷ []))

-- What follows the first item of a list.
unfoldable pub json_more : List Text → Text
json_more [] = codes "]"
json_more (x ∷ xs) = b',' ∷ (json_string x ++ json_more xs)

unfoldable pub json_strings : List Text → Text
json_strings [] = codes "[]"
json_strings (x ∷ xs) = b'[' ∷ (json_string x ++ json_more xs)

-- A half of a surrogate pair has two of the four bytes.
abbrev pub unit_bytes : ℕ → ℕ
unit_bytes c =
    if ltb c 128 then 1 else if ltb c 2048 then 2 else if leb 55296 c && leb c 57343 then 2 else 3

-- `Buffer.byteLength(s, 'utf8')`
unfoldable pub byte_length : Text → ℕ
byte_length [] = 0
byte_length (c ∷ s) = unit_bytes c + byte_length s
