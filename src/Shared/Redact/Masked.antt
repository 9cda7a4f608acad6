-- ===== src/Shared/Redact/Masked.antt =====
-- A masked text does not hold the secret.
use lambda_ciactions.Common.{
  ℕ, zero, suc, ◌-◌, ◌≤◌, ◌<◌, ◌≡◌, refl, ap, sym, ◌∙◌, Bool, true, false, ◌&&◌, ◌||◌, [], ◌∷◌,
  ◌++◌, arith, inl, inr,
}
use lambda_ciactions.Common.Tests.{Bool-cases, leb, ◌==◌, ==_iff}
use lambda_ciactions.Common.Lists.{All, length}
use lambda_ciactions.Common.Text.{Text, starts_with, has_substring, starts_with_nil}
use lambda_ciactions.Shared.Redact.{mask_inside, mask_fields, mask_secret, redact_secret}

-- The units of base64url.
abbrev pub is_token_unit : ℕ → Bool
is_token_unit c =
    (leb b'a' c && leb c b'z')
    || (leb b'A' c && leb c b'Z')
    || (leb b'0' c && leb c b'9')
    || c == b'-'
    || c == b'_'

-- A text of the alphabet of base64url, of 16 units at least: what `randomBytes(32)` gives has 43.
pub record IsToken (p : Text) : Type 0 where
  pub long : 16 ≤ length p
  pub units : All (λ c. is_token_unit c ≡ true) p

-- A unit that no token has.
abbrev Foreign : ℕ → Type 0
Foreign x = is_token_unit x ≡ false

-- A token that starts in front of a foreign unit ends in front of it.
short :
    (u v p : Text) (x : ℕ)
    → Foreign x
    → All (λ c. is_token_unit c ≡ true) p
    → length u < length p
    → starts_with (u ++ x ∷ v) p ≡ false
unfolding starts_with
short u v [] x n a l = absurd (omega arith)
short [] v (d ∷ p) x n (a, b) l = ground (arith, ==_iff x d)
short (c ∷ u) v (d ∷ p) x n (a, b) l = ground (arith, short u v p x n b)

has_substring_past :
    (u v p : Text) (x : ℕ)
    → Foreign x
    → IsToken p
    → length u < 16
    → has_substring v p ≡ false
    → has_substring (u ++ x ∷ v) p ≡ false
unfolding has_substring
has_substring_past [] v p x n t l h =
    let k = short [] v p x n t.units (let m = t.long in omega arith) in ground arith
has_substring_past (c ∷ u) v p x n t l h =
    let k = short (c ∷ u) v p x n t.units (let m = t.long in omega arith) in
    let r = has_substring_past u v p x n t (omega arith) h in ground arith

mask_secret-hit :
    (secret : Text) (c : ℕ) (s : Text)
    → starts_with (c ∷ s) secret ≡ true
    → mask_secret secret 0 (c ∷ s) ≡ mask_inside ++ b'>' ∷ mask_secret secret (length secret - 1) s
unfolding mask_secret
mask_secret-hit secret c s h = rw (h, mask_secret) refl

mask_secret-miss :
    (secret : Text) (c : ℕ) (s : Text)
    → starts_with (c ∷ s) secret ≡ false
    → mask_secret secret 0 (c ∷ s) ≡ c ∷ mask_secret secret 0 s
unfolding mask_secret
mask_secret-miss secret c s h = rw (h, mask_secret) refl

-- Where the masked text starts with a part of a token, the text did.
starts_with_back :
    (s secret p : Text)
    → All (λ c. is_token_unit c ≡ true) p
    → starts_with (mask_secret secret 0 s) p ≡ true
    → starts_with s p ≡ true
unfolding starts_with mask_secret
starts_with_back s secret [] a h = starts_with_nil s
starts_with_back [] secret (d ∷ p) a h = h
starts_with_back (c ∷ s) secret (d ∷ p) (a, b) h = elim (Bool-cases (starts_with (c ∷ s) secret)) [
  | inl hit ↦
      let k : starts_with (mask_inside ++ b'>' ∷ mask_secret secret (length secret - 1) s) (d ∷ p)
          ≡ true =
        ap (λ x. starts_with x (d ∷ p)) (sym (mask_secret-hit secret c s hit)) ∙ h in
      ground (arith, ==_iff b'<' d)
  | inr miss ↦
      let k : starts_with (c ∷ mask_secret secret 0 s) (d ∷ p) ≡ true =
        ap (λ x. starts_with x (d ∷ p)) (sym (mask_secret-miss secret c s miss)) ∙ h in
      ground (arith, starts_with_back s secret p b)
]

absent_nil : (p : Text) → 16 ≤ length p → has_substring [] p ≡ false
unfolding has_substring starts_with
absent_nil [] h = absurd (omega arith)
absent_nil (d ∷ p) h = refl

mask_secret-absent :
    (secret s : Text) (n : ℕ)
    → IsToken secret
    → has_substring (mask_secret secret n s) secret ≡ false
unfolding has_substring mask_secret
mask_secret-absent secret [] n t = absent_nil secret t.long
mask_secret-absent secret (c ∷ s) (suc n) t = mask_secret-absent secret s n t
mask_secret-absent secret (c ∷ s) zero t = elim (Bool-cases (starts_with (c ∷ s) secret)) [
  | inl hit ↦ rw (mask_secret-hit secret c s hit) (
      has_substring_past mask_inside _ secret b'>' refl t (omega arith)
        (mask_secret-absent secret s (length secret - 1) t))
  | inr miss ↦ rw (mask_secret-miss secret c s miss) (
      let rest = mask_secret-absent secret s 0 t in
      let back = starts_with_back (c ∷ s) secret secret t.units in
      let back_here : starts_with (c ∷ mask_secret secret 0 s) secret ≡ true
          → starts_with (c ∷ s) secret ≡ true =
        λ e. back (ap (λ x. starts_with x secret) (mask_secret-miss secret c s miss) ∙ e) in
      ground arith)
]

-- No text that `redactSecret` returns for a capability token holds the token.
pub redact_secret-IsToken :
    (text secret : Text) → IsToken secret → has_substring (redact_secret text secret) secret ≡ false
unfolding redact_secret
redact_secret-IsToken text secret t =
    let m = t.long in
    let long : leb 16 (length secret) ≡ true = ground arith in
    rw long (mask_secret-absent secret (mask_fields 0 text) 0 t)

-- Nor does the text with a word in front that is shorter than the token and ends on a blank.
pub has_substring-behind :
    (u v p : Text)
    → IsToken p
    → length u < 16
    → has_substring v p ≡ false
    → has_substring (u ++ b' ' ∷ v) p ≡ false
has_substring-behind u v p t l h = has_substring_past u v p b' ' refl t l h
