-- ===== src/Shared/Readiness/Gate.antt =====
-- The readiness that the console shows against the claim gate, and the worst of several states.
use lambda_ciactions.Common.{
  ◌≤◌, ◌≡◌, refl, true, arith, ◌∙◌, inl, inr, ◌↔◌, ◌⊎◌, none, List, [], ◌∷◌,
}
use lambda_ciactions.Common.Tests.{if◌then◌else◌, ltb}
use lambda_ciactions.Common.Lists.{In}
use lambda_ciactions.Common.Text.{normalize, normalize_all, is_member, is_member_iff}
use lambda_ciactions.Ingest.Adopt.{decide_claim}
use lambda_ciactions.Ingest.Adopt.Normal
use lambda_ciactions.Ingest.Adopt.Claim.{decide_claim_iff}
use lambda_ciactions.Shared.Readiness.{
  ReadinessFlavor, ControlPlaneSnapshot, FlavorReadinessState, ready, readiness_of, is_published,
  state_rank, worst_from, worst_state,
}

-- A flavor with a label that Linux on arm64 can serve is shown as runnable exactly when the claim
-- gate takes a job with its label, in a repo that does not adopt, and its image is published.
pub readiness_of-decide_claim :
    (snapshot : ControlPlaneSnapshot) (f : ReadinessFlavor)
    → Normal.IsServable f.label
    → ((readiness_of snapshot f).runnable ≡ true) ↔ (
        ((decide_claim (f.label ∷ []) snapshot.allowlist none).claim ≡ true)
        × (is_published snapshot.image_published f.name ≡ true))
unfolding readiness_of
readiness_of-decide_claim snapshot f servable = (
  λ h.
      let k : is_member (normalize f.label) (normalize_all snapshot.allowlist) ≡ true =
        ground arith in
      let m = (is_member_iff (normalize f.label) (normalize_all snapshot.allowlist)).0 k in
      let (raw, inside, e, full) =
        Normal.In-normalize_all (normalize f.label) snapshot.allowlist m in
      (
        (decide_claim_iff (f.label ∷ []) snapshot.allowlist none).1 (
          λ l i. elim i [ inl same ↦ rw same servable | inr nothing ↦ absurd nothing ],
          inl (f.label, inl refl, (full, m)),
        ),
        ground arith,
      ),
  λ (claims, published).
      elim ((decide_claim_iff (f.label ∷ []) snapshot.allowlist none).0 claims).1 [
        | inl (l, inl same, (full, m)) ↦
            let k =
              (is_member_iff (normalize f.label) (normalize_all snapshot.allowlist)).1
                (rw same at m) in
            ground arith
        | inl (l, inr nothing, listed) ↦ absurd nothing
        | inr (adopts, rest) ↦ ground arith
      ],
)

next_lem :
    (worst x : FlavorReadinessState)
    → let next = if ltb (state_rank worst) (state_rank x) then x else worst in
      (state_rank worst ≤ state_rank next)
      × (state_rank x ≤ state_rank next)
      × ((next ≡ worst) ⊎ (next ≡ x))
next_lem worst x = ground arith

worst_from_lem :
    (worst : FlavorReadinessState) (states : List FlavorReadinessState)
    → (state_rank worst ≤ state_rank (worst_from worst states))
      × ((s : FlavorReadinessState)
          → In s states
          → state_rank s ≤ state_rank (worst_from worst states))
      × ((worst_from worst states ≡ worst) ⊎ In (worst_from worst states) states)
unfolding worst_from
worst_from_lem worst [] = (ground arith, λ s m. absurd m, inl refl)
worst_from_lem worst (x ∷ states) =
    let next = if ltb (state_rank worst) (state_rank x) then x else worst in
    let (from_worst, from_x, one) = next_lem worst x in
    let (grows, above, from) = worst_from_lem next states in
    (
      ground arith,
      λ s m. elim m [ inl same ↦ rw same (ground arith) | inr later ↦ above s later ],
      elim from [
        | inr later ↦ inr (inr later)
        | inl same ↦ elim one [ inl e ↦ inl (same ∙ e) | inr e ↦ inr (inl (same ∙ e)) ]
      ],
    )

-- The headline state is one of the states, or `ready`, and no state is worse.
pub worst_state_lem :
    (states : List FlavorReadinessState)
    → ((s : FlavorReadinessState) → In s states → state_rank s ≤ state_rank (worst_state states))
      × ((worst_state states ≡ ready) ⊎ In (worst_state states) states)
unfolding worst_state
worst_state_lem states = let (grows, above, from) = worst_from_lem ready states in (above, from)
