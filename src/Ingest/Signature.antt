-- ===== src/Ingest/Signature.antt =====
-- src/shared/hmac.ts and src/ingest/handler.ts: the check of a webhook's signature, across a rotation
-- of the secret. HMAC-SHA256 is a parameter; `lastSecretRecheck` is passed on.
pub mod Rotation
use lambda_ciactions.Common.{
  ℕ, ◌+◌, ◌-◌, Bool, true, false, ◌&&◌, not, Option, none, some, List, [], ◌∷◌, ◌++◌,
}
use lambda_ciactions.Common.Tests.{if◌then◌else◌, ltb}
use lambda_ciactions.Common.Text.{Text, codes, text_eq, starts_with, trim, is_nonempty}

abbrev pub secret_recheck_ms : ℕ
secret_recheck_ms = 30000

abbrev pub signature_prefix : Text
signature_prefix = codes "sha256="

-- `signature && signature.startsWith('sha256=')`
unfoldable pub is_shaped : Option Text → Bool
unfolding starts_with
is_shaped none = false
is_shaped (some signature) = starts_with signature signature_prefix

unfoldable pub looks_like_github_delivery : Option Text → Option Text → Bool
unfolding is_shaped trim
looks_like_github_delivery signature none = false
looks_like_github_delivery signature (some event) = is_shaped signature && is_nonempty (trim event)

-- A delivery: what `getParam` caches as the secret, what a fresh read gives, `none` where it throws,
-- and the time.
pub record Delivery : Type 0 where
  pub raw_body : Text
  pub signature : Option Text
  pub cached_secret : Text
  pub fresh_secret : Option Text
  pub now : ℕ

-- Whether the delivery is accepted, the time of the last re-read, and whether this was one.
pub record Verified : Type 0 where
  pub accepted : Bool
  pub last_recheck : ℕ
  pub has_read : Bool

-- The hexadecimal digest of a secret and a body.
module _ (hmac : Text → Text → Text) where
  unfoldable pub verify_signature : Text → Option Text → Text → Bool
  unfolding is_shaped text_eq
  verify_signature raw_body none secret = false
  verify_signature raw_body (some signature) secret =
      is_shaped (some signature) && text_eq signature (signature_prefix ++ hmac secret raw_body)

  abbrev pub verify_fresh : Delivery → Option Text → Bool
  verify_fresh d none = false
  verify_fresh d (some fresh) =
      if text_eq fresh d.cached_secret then false else verify_signature d.raw_body d.signature fresh

  unfoldable pub verify_with_rotation : Delivery → ℕ → Verified
  unfolding verify_signature is_shaped text_eq
  verify_with_rotation d last =
      if verify_signature d.raw_body d.signature d.cached_secret
      then record { accepted = true; last_recheck = last; has_read = false }
      else if not (is_shaped d.signature)
      then record { accepted = false; last_recheck = last; has_read = false }
      else if ltb d.now (last + secret_recheck_ms)
      then record { accepted = false; last_recheck = last; has_read = false }
      else record {
        accepted = verify_fresh d d.fresh_secret;
        last_recheck = d.now;
        has_read = true;
      }

  -- The times at which a sequence of deliveries reads the secret anew.
  unfoldable pub reads : List Delivery → ℕ → List ℕ
  unfolding verify_with_rotation
  reads [] last = []
  reads (d ∷ rest) last =
      let v = verify_with_rotation d last in
      let later = reads rest v.last_recheck in if v.has_read then d.now ∷ later else later
