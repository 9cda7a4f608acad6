-- ===== src/Ingest/Adopt/Claim.antt =====
-- `decideClaim` against a description of the claims that its comment promises.
use lambda_ciactions.Common.{
  ◌≡◌, refl, ◌↔◌, ◌⊎◌, inl, inr, Bool, true, Option, none, some, List, [], ◌∷◌, arith,
}
use lambda_ciactions.Common.Lists.{In, any, find-none_iff, any-In, In-any}
use lambda_ciactions.Common.Text.{
  Text, normalize, normalize_all, is_nonempty, is_member, is_member_iff,
}
use lambda_ciactions.Shared.Types.{RepoMode}
use lambda_ciactions.Ingest.Adopt.{
  ClaimVia, incompatible_runner_label, in_adopt_labels, is_adopt, decide_standard,
  decide_normalized, decide_claim, adopt_ops, is_adopt_label,
}
use lambda_ciactions.Ingest.Adopt.Normal

normalized_iff :
    (ls cs : List Text) (mode : Option RepoMode)
    → ((decide_normalized ls cs mode).claim ≡ true) ↔ (
        (incompatible_runner_label ls ≡ none)
        × ((any (λ l. is_member l cs) ls ≡ true)
            ⊎ ((is_adopt mode ≡ true) × (any in_adopt_labels ls ≡ true))))
unfolding decide_normalized decide_standard
normalized_iff ls cs mode =
    ground (arith, find-none_iff (λ l. is_member l cs) ls, find-none_iff in_adopt_labels ls)

-- A label of the job that the allowlist carries, both normalised.
abbrev pub IsAllowlisted : List Text → Text → Type 0
IsAllowlisted claimed_labels l =
    (is_nonempty (normalize l) ≡ true) × In (normalize l) (normalize_all claimed_labels)

-- What `decideClaim` promises: every label can be served, and one of them is on the allowlist, or
-- the repo is in adopt mode and one of them is a standard hosted label.
abbrev pub IsClaimable : List Text → List Text → Option RepoMode → Type 0
IsClaimable job_labels claimed_labels mode =
    ((l : Text) → In l job_labels → Normal.IsServable l)
    × (((l : Text) × In l job_labels × IsAllowlisted claimed_labels l)
        ⊎ ((is_adopt mode ≡ true) × ((l : Text) × In l job_labels × (is_adopt_label l ≡ true))))

in_adopt_labels-is_nonempty : (l : Text) → in_adopt_labels l ≡ true → is_nonempty l ≡ true
unfolding adopt_ops
in_adopt_labels-is_nonempty [] h = ground arith
in_adopt_labels-is_nonempty (c ∷ l) h = refl

any-normalize_all :
    (p : Text → Bool) (ls : List Text)
    → any p (normalize_all ls) ≡ true
    → (l : Text) × In l ls × (is_nonempty (normalize l) ≡ true) × (p (normalize l) ≡ true)
any-normalize_all p ls h =
    let (x, m, px) = In-any p (normalize_all ls) h in
    let (l, k, e, full) = Normal.In-normalize_all x ls m in (l, k, rw e full, rw e px)

normalize_all-any :
    (p : Text → Bool) (l : Text) (ls : List Text)
    → In l ls
    → is_nonempty (normalize l) ≡ true
    → p (normalize l) ≡ true
    → any p (normalize_all ls) ≡ true
normalize_all-any p l ls m full h =
    any-In p (normalize l) (normalize_all ls) (Normal.normalize_all-In l ls m full) h

IsClaimable-of_claim :
    (job_labels claimed_labels : List Text) (mode : Option RepoMode)
    → (decide_claim job_labels claimed_labels mode).claim ≡ true
    → IsClaimable job_labels claimed_labels mode
unfolding decide_claim is_adopt_label
IsClaimable-of_claim job_labels claimed_labels mode h =
    let (clean, rule) = (normalized_iff _ _ mode).0 h in
    (
      Normal.IsServable-of_normalize_all job_labels clean,
      elim rule [
        | inl listed ↦
            let (l, m, full, k) = any-normalize_all _ job_labels listed in
            inl (l, m, (full, (is_member_iff (normalize l) (normalize_all claimed_labels)).0 k))
        | inr (adopts, standard) ↦
            let (l, m, _, k) = any-normalize_all _ job_labels standard in inr (adopts, (l, m, k))
      ],
    )

claim_of_claimable :
    (job_labels claimed_labels : List Text) (mode : Option RepoMode)
    → IsClaimable job_labels claimed_labels mode
    → (decide_claim job_labels claimed_labels mode).claim ≡ true
unfolding decide_claim is_adopt_label
claim_of_claimable job_labels claimed_labels mode (servable, rule) = (normalized_iff _ _ mode).1 (
  Normal.normalize_all-IsServable job_labels servable,
  elim rule [
    | inl (l, m, (full, k)) ↦
        inl (normalize_all-any _ l job_labels m full ((is_member_iff (normalize l) _).1 k))
    | inr (adopts, (l, m, k)) ↦
        inr (
          adopts,
          normalize_all-any _ l job_labels m (in_adopt_labels-is_nonempty (normalize l) k) k,
        )
  ],
)

-- A job is claimed exactly when none of its labels names another system or an x86 machine, and one
-- of them is on the allowlist or, in adopt mode only, is a standard hosted label.
pub decide_claim_iff :
    (job_labels claimed_labels : List Text) (mode : Option RepoMode)
    → ((decide_claim job_labels claimed_labels mode).claim ≡ true)
      ↔ IsClaimable job_labels claimed_labels mode
decide_claim_iff job_labels claimed_labels mode = (
  IsClaimable-of_claim job_labels claimed_labels mode,
  claim_of_claimable job_labels claimed_labels mode,
)

-- What is claimed stays claimed when labels are added to the allowlist.
pub decide_claim_mono :
    (job_labels claimed_labels more : List Text) (mode : Option RepoMode)
    → (decide_claim job_labels claimed_labels mode).claim ≡ true
    → ((x : Text) → In x claimed_labels → In x more)
    → (decide_claim job_labels more mode).claim ≡ true
decide_claim_mono job_labels claimed_labels more mode h sub =
    let (servable, rule) = IsClaimable-of_claim job_labels claimed_labels mode h in
    claim_of_claimable job_labels more mode (
      servable,
      elim rule [
        | inl (l, m, (full, k)) ↦
            let (x, inside, e, _) = Normal.In-normalize_all (normalize l) claimed_labels k in
            inl (l, m, (full, rw (← e) (Normal.normalize_all-In x more (sub x inside) (rw e full))))
        | inr adopted ↦ inr adopted
      ],
    )

-- A claim by adopt mode is made only in adopt mode, and only if no label is on the allowlist.
pub decide_claim_adopt :
    (job_labels claimed_labels : List Text) (mode : Option RepoMode)
    → (decide_claim job_labels claimed_labels mode).via ≡ some ClaimVia.adopt
    → (mode ≡ some RepoMode.adopt)
      × ((l : Text) → In l job_labels → ¬ IsAllowlisted claimed_labels l)
unfolding decide_claim decide_normalized decide_standard
decide_claim_adopt job_labels claimed_labels mode h = (
  ground arith,
  λ l m (full, k).
      let none_listed =
        (find-none_iff (λ l. is_member l (normalize_all claimed_labels))
          (normalize_all job_labels)) in
      let yes_listed =
        normalize_all-any (λ l. is_member l (normalize_all claimed_labels)) l job_labels m full
          ((is_member_iff (normalize l) _).1 k) in
      ground (arith, none_listed, yes_listed),
)
