-- ===== src/Shared/Redact.antt =====
-- src/shared/redact.ts: `redactSecret`, which masks the capability token in the text of an error.
pub mod Masked
use lambda_ciactions.Common.{
  ℕ, zero, suc, ◌+◌, ◌-◌, Bool, true, false, ◌&&◌, not, Option, none, some, List, [], ◌∷◌, ◌++◌,
}
use lambda_ciactions.Common.Tests.{if◌then◌else◌, leb, ◌==◌}
use lambda_ciactions.Common.Lists.{length, take}
use lambda_ciactions.Common.Text.{Text, codes, starts_with, is_space}

-- `MASK`
abbrev pub mask_inside : Text
mask_inside = codes "<redacted"

abbrev pub mask : Text
mask = mask_inside ++ codes ">"

-- How many units `\s*` takes.
unfoldable pub spaces : Text → ℕ
spaces [] = 0
spaces (c ∷ s) = let rest = spaces s in if is_space c then suc rest else 0

-- How many units `[^"]*` takes.
unfoldable pub unquoted : Text → ℕ
unquoted [] = 0
unquoted (c ∷ s) = let rest = unquoted s in if c == b'"' then 0 else suc rest

unfoldable pub skip : ℕ → Text → Text
skip zero s = s
skip (suc n) [] = []
skip (suc n) (c ∷ s) = skip n s

abbrev pub token_key : Text
token_key = codes "\"token\""

-- The lengths of the two groups of `("token"\s*:\s*")[^"]*(")` at the start of a text: that of the
-- first group, and that of what is masked.
unfoldable pub field_lengths : Text → Option (ℕ × ℕ)
unfolding starts_with spaces unquoted skip
field_lengths s =
    let colon_at = 7 + spaces (skip 7 s) in
    let quote_at = colon_at + 1 + spaces (skip (colon_at + 1) s) in
    let value = unquoted (skip (quote_at + 1) s) in
    if starts_with s token_key
      && starts_with (skip colon_at s) (codes ":")
      && starts_with (skip quote_at s) (codes "\"")
      && starts_with (skip (quote_at + 1 + value) s) (codes "\"")
    then some (quote_at + 1, value)
    else none

-- The first replacement; the first `n` units belong to a match and are already written.
unfoldable pub mask_fields : ℕ → Text → Text
unfolding field_lengths
mask_fields n [] = []
mask_fields (suc n) (c ∷ s) = mask_fields n s
mask_fields zero (c ∷ s) = elim (field_lengths (c ∷ s)) [
  | some (before, value) ↦ take before (c ∷ s) ++ (mask ++ (b'"' ∷ mask_fields (before + value) s))
  | none ↦ c ∷ mask_fields 0 s
]

-- `out.split(secret).join(MASK)`, with `n` units of a match still to leave out.
unfoldable pub mask_secret : Text → ℕ → Text → Text
unfolding starts_with
mask_secret secret n [] = []
mask_secret secret (suc n) (c ∷ s) = mask_secret secret n s
mask_secret secret zero (c ∷ s) = elim (starts_with (c ∷ s) secret) [
  | true ↦ mask ++ mask_secret secret (length secret - 1) s
  | false ↦ c ∷ mask_secret secret 0 s
]

unfoldable pub redact_secret : Text → Text → Text
unfolding mask_fields mask_secret
redact_secret text secret =
    let out = mask_fields 0 text in if leb 16 (length secret) then mask_secret secret 0 out else out
