-- ===== src/Ingest/Signature/Rotation.antt =====
-- A rotated secret is picked up, nothing else is accepted, and the re-reads are far apart.
use lambda_ciactions.Common.{
  ℕ, ◌+◌, ◌≤◌, ◌≡◌, refl, sym, ap, ◌∙◌, ◌↔◌, ◌⊎◌, inl, inr, true, false, Option, none, some, List,
  [], ◌∷◌, ◌++◌, arith,
}
use lambda_ciactions.Common.Tests.{Bool-cases, ltb, and_parts, and_intro}
use lambda_ciactions.Common.Text.{
  Text, codes, starts_with, text_eq, text_eq_iff, starts_with-append,
}
use lambda_ciactions.Ingest.Signature.{
  Delivery, is_shaped, verify_signature, verify_fresh, verify_with_rotation, reads,
}

module _ (hmac : Text → Text → Text) where
  -- The check passes for a secret.
  abbrev Verifies : Delivery → Text → Type 0
  Verifies d secret = verify_signature hmac d.raw_body d.signature secret ≡ true

  signed-is_shaped :
      (body : Text) (s : Option Text) (secret : Text)
      → verify_signature hmac body s secret ≡ true
      → is_shaped s ≡ true
  unfolding verify_signature
  signed-is_shaped body none secret h = ground arith
  signed-is_shaped body (some s) secret h = ground arith

  verify_fresh_iff :
      (d : Delivery) (o : Option Text)
      → verify_signature hmac d.raw_body d.signature d.cached_secret ≡ false
      → (verify_fresh hmac d o ≡ true) ↔ ((fresh : Text) × (o ≡ some fresh) × Verifies d fresh)
  verify_fresh_iff d none n = (λ h. ground arith, λ (f, e, s). ground arith)
  verify_fresh_iff d (some fresh) n = elim (Bool-cases (text_eq fresh d.cached_secret)) [
    | inl same ↦
        let e = (text_eq_iff fresh d.cached_secret).0 same in
        (
          λ h. ground arith,
          λ (f, k, s).
              let f_same : fresh ≡ f = ground arith in
              let again : Verifies d d.cached_secret =
                ap (λ x. verify_signature hmac d.raw_body d.signature x) (sym e ∙ f_same) ∙ s in
              ground arith,
        )
    | inr other ↦ (
      λ h. (fresh, refl, rw other at h),
      λ (f, k, s).
          let f_same : fresh ≡ f = ground arith in
          rw other (ap (λ x. verify_signature hmac d.raw_body d.signature x) f_same ∙ s),
    )
  ]

  -- When a re-read is allowed: the last one is 30 seconds back.
  abbrev pub IsOpen : Delivery → ℕ → Type 0
  IsOpen d last = last + 30000 ≤ d.now

  verify_with_rotation-Verifies :
      (d : Delivery) (last : ℕ)
      → ((verify_with_rotation hmac d last).accepted ≡ true) ↔ (
          Verifies d d.cached_secret
          ⊎ (IsOpen d last × ((fresh : Text) × (d.fresh_secret ≡ some fresh) × Verifies d fresh)))
  unfolding verify_with_rotation
  verify_with_rotation-Verifies d last =
      elim (Bool-cases (verify_signature hmac d.raw_body d.signature d.cached_secret)) [
        | inl good ↦ (λ h. inl good, λ h. rw (good, verify_with_rotation) refl)
        | inr bad ↦
            let fresh = verify_fresh_iff d d.fresh_secret bad in
            elim (Bool-cases (is_shaped d.signature)) [
              | inr junk ↦ (
                λ h. ground arith,
                λ h. elim h [
                  | inl cached ↦ ground arith
                  | inr (o, (f, e, s)) ↦
                      let shaped = signed-is_shaped d.raw_body d.signature f s in ground arith
                ],
              )
              | inl shaped ↦ elim (Bool-cases (ltb d.now (last + 30000))) [
                | inl soon ↦ (λ h. ground arith, λ h. ground arith)
                | inr late ↦
                    let e : (verify_with_rotation hmac d last).accepted
                        ≡ verify_fresh hmac d d.fresh_secret =
                      ground arith in
                    (
                      λ h. inr (ground arith, fresh.0 (sym e ∙ h)),
                      λ h. elim h [ inl cached ↦ ground arith | inr (o, f) ↦ e ∙ fresh.1 f ],
                    )
              ]
            ]
      ]

  -- The signature is `sha256=` with the digest of the body under a secret.
  abbrev pub Signs : Delivery → Text → Type 0
  Signs d secret = d.signature ≡ some (codes "sha256=" ++ hmac secret d.raw_body)

  -- `verifySignature` accepts that signature and no other.
  pub verify_signature_iff :
      (body secret : Text) (o : Option Text)
      → (verify_signature hmac body o secret ≡ true)
        ↔ (o ≡ some (codes "sha256=" ++ hmac secret body))
  unfolding verify_signature is_shaped
  verify_signature_iff body secret none = (λ h. ground arith, λ e. ground arith)
  verify_signature_iff body secret (some s) = (
    λ h. ap some (
        (text_eq_iff s (codes "sha256=" ++ hmac secret body)).0
          (and_parts (starts_with s (codes "sha256=")) _ h).1),
    λ e.
        let same : s ≡ codes "sha256=" ++ hmac secret body = cc in
        and_intro (rw same (starts_with-append (codes "sha256=") (hmac secret body)))
          ((text_eq_iff s (codes "sha256=" ++ hmac secret body)).1 same),
  )

  -- A delivery is accepted exactly where its signature is `sha256=` with the digest of its body under
  -- the cached secret or, where the last re-read is 30 seconds back, under the secret that a fresh
  -- read gives.
  pub verify_with_rotation_iff :
      (d : Delivery) (last : ℕ)
      → ((verify_with_rotation hmac d last).accepted ≡ true) ↔ (
          Signs d d.cached_secret
          ⊎ (IsOpen d last × ((fresh : Text) × (d.fresh_secret ≡ some fresh) × Signs d fresh)))
  verify_with_rotation_iff d last =
      let signs = λ (secret : Text). verify_signature_iff d.raw_body secret d.signature in
      let accepted = verify_with_rotation-Verifies d last in
      (
        λ h. elim (accepted.0 h) [
          | inl cached ↦ inl ((signs d.cached_secret).0 cached)
          | inr (o, (f, e, s)) ↦ inr (o, (f, e, (signs f).0 s))
        ],
        λ h. accepted.1 (elim h [
          | inl cached ↦ inl ((signs d.cached_secret).1 cached)
          | inr (o, (f, e, s)) ↦ inr (o, (f, e, (signs f).1 s))
        ]),
      )

  -- Each time is 30 seconds or more behind the one before.
  pub Spaced : ℕ → List ℕ → Type 0
  Spaced last [] = Unit {0}
  Spaced last (t ∷ ts) = (last + 30000 ≤ t) × Spaced t ts

  -- A read comes 30 seconds after the last one and sets the time, anything else leaves it.
  step :
      (d : Delivery) (last : ℕ)
      → let v = verify_with_rotation hmac d last in
        ((v.has_read ≡ true) × (v.last_recheck ≡ d.now) × IsOpen d last)
        ⊎ ((v.has_read ≡ false) × (v.last_recheck ≡ last))
  unfolding verify_with_rotation
  step d last = ground arith

  -- Whatever is delivered, the secret is read anew at most once in 30 seconds.
  pub reads-Spaced : (ds : List Delivery) (last : ℕ) → Spaced last (reads hmac ds last)
  unfolding reads Spaced
  reads-Spaced [] last = tt
  reads-Spaced (d ∷ ds) last = elim (step d last) [
    | inl (r, l, o) ↦ rw (r, l) (o, reads-Spaced ds d.now)
    | inr (r, l) ↦ rw (r, l) (reads-Spaced ds last)
  ]
