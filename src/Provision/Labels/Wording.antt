-- ===== src/Provision/Labels/Wording.antt =====
-- What the regular expressions and `includes` of `classifyMintFailure` look for, as texts that stand
-- in the message.
use lambda_ciactions.Common.{
  ◌≡◌, ◌↔◌, ◌⊎◌, refl, sym, ap, subst, ◌∙◌, inl, inr, not, true, false, [], ◌∷◌, ◌++◌, ℕ, arith,
}
use lambda_ciactions.Common.Tests.{or_left, or_right, or_cases, and_parts, and_intro}
use lambda_ciactions.Common.Text.{
  Text, codes, to_lower_case, starts_with, Holds, has_substring_iff, starts_with-split,
  starts_with-append,
}
use lambda_ciactions.Provision.Labels.{
  is_line_end, after_retry, after_gap, has_retry_after_here, has_retry_after, rate_limit_body,
  is_own_refusal,
}

-- `retryafter`, or with one unit between the words that ends no line.
abbrev pub IsRetryAfter : Text → Type 0
IsRetryAfter s =
    ((t : Text) × (s ≡ codes "retryafter" ++ t))
    ⊎ ((c : ℕ) × (t : Text) × (is_line_end c ≡ false)
        × (s ≡ codes "retry" ++ (c ∷ (codes "after" ++ t))))

abbrev pub HasRetryAfter : Text → Type 0
HasRetryAfter s = (a : Text) × (b : Text) × (s ≡ a ++ b) × IsRetryAfter b

-- The wording of a rate limit, in lower case.
abbrev pub IsLimitWording : Text → Type 0
IsLimitWording m =
    Holds m (codes "rate limit")
    ⊎ Holds m (codes "secondary rate")
    ⊎ Holds m (codes "abuse detection")
    ⊎ Holds m (codes "too many requests")
    ⊎ HasRetryAfter m

after_gap-split :
    (s : Text)
    → after_gap s ≡ true
    → (c : ℕ) × (t : Text) × (is_line_end c ≡ false) × (s ≡ c ∷ (codes "after" ++ t))
unfolding after_gap
after_gap-split [] h = ground arith
after_gap-split (c ∷ s) h =
    let (gap, word) = and_parts (not (is_line_end c)) (starts_with s (codes "after")) h in
    let (t, e) = starts_with-split s (codes "after") word in (c, t, ground arith, ap (λ x. c ∷ x) e)

after_retry-split :
    (s : Text) → after_gap (after_retry s) ≡ true → s ≡ codes "retry" ++ after_retry s
unfolding after_retry after_gap starts_with
after_retry-split (a ∷ b ∷ c ∷ d ∷ e ∷ s) h = ground arith
after_retry-split _ h = ground arith

has_retry_after_here_iff : (s : Text) → (has_retry_after_here s ≡ true) ↔ IsRetryAfter s
unfolding has_retry_after_here after_retry after_gap starts_with
has_retry_after_here_iff s = (
  λ h. elim (or_cases (starts_with s (codes "retryafter")) (after_gap (after_retry s)) h) [
    | inl joined ↦ inl (starts_with-split s (codes "retryafter") joined)
    | inr apart ↦
        let (c, t, gap, e) = after_gap-split (after_retry s) apart in
        inr (c, t, gap, after_retry-split s apart ∙ ap (λ x. codes "retry" ++ x) e)
  ],
  λ h. elim h [
    | inl (t, e) ↦
        or_left _ (
          ap (λ x. starts_with x (codes "retryafter")) e
          ∙ starts_with-append (codes "retryafter") t)
    | inr (c, t, gap, e) ↦ or_right _ (
        ap (λ x. after_gap (after_retry x)) e
        ∙ and_intro (ap not gap) (starts_with-append (codes "after") t))
  ],
)

IsRetryAfter-nonempty : IsRetryAfter [] → ⊥
IsRetryAfter-nonempty (inl (t, e)) = cc
IsRetryAfter-nonempty (inr (c, t, gap, e)) = cc

empty-HasRetryAfter : (a b : Text) → [] ≡ a ++ b → IsRetryAfter b → ⊥
empty-HasRetryAfter [] b e r = IsRetryAfter-nonempty (subst IsRetryAfter (sym e) r)
empty-HasRetryAfter (c ∷ a) b e r = cc

tail-HasRetryAfter :
    (c : ℕ) (s a b : Text)
    → c ∷ s ≡ a ++ b
    → IsRetryAfter b
    → IsRetryAfter (c ∷ s) ⊎ HasRetryAfter s
tail-HasRetryAfter c s [] b e r = inl (subst IsRetryAfter (sym e) r)
tail-HasRetryAfter c s (d ∷ a) b e r = inr (a, b, cc, r)

has_retry_after_iff : (s : Text) → (has_retry_after s ≡ true) ↔ HasRetryAfter s
unfolding has_retry_after
has_retry_after_iff [] = (λ h. ground arith, λ (a, b, e, r). absurd (empty-HasRetryAfter a b e r))
has_retry_after_iff (c ∷ s) =
    let ih = has_retry_after_iff s in
    (
      λ h. elim (or_cases (has_retry_after_here (c ∷ s)) (has_retry_after s) h) [
        | inl here ↦ ([], c ∷ s, refl, (has_retry_after_here_iff (c ∷ s)).0 here)
        | inr later ↦ let (a, b, e, r) = ih.0 later in (c ∷ a, b, ap (λ x. c ∷ x) e, r)
      ],
      λ (a, b, e, r). elim (tail-HasRetryAfter c s a b e r) [
        | inl here ↦ or_left _ ((has_retry_after_here_iff (c ∷ s)).1 here)
        | inr later ↦ or_right _ (ih.1 later)
      ],
    )

-- The expression for a rate limit finds exactly such wording, in any case.
pub rate_limit_body_iff :
    (message : Text) → (rate_limit_body message ≡ true) ↔ IsLimitWording (to_lower_case message)
unfolding rate_limit_body
rate_limit_body_iff message =
    let m = to_lower_case message in
    ground (
      arith,
      has_substring_iff m (codes "rate limit"),
      has_substring_iff m (codes "secondary rate"),
      has_substring_iff m (codes "abuse detection"),
      has_substring_iff m (codes "too many requests"),
      has_retry_after_iff m,
    )

-- A message of one of the three refusals that the control plane makes itself.
abbrev pub IsOwnWording : Text → Type 0
IsOwnWording message =
    Holds message (codes "runs-on resolves to no usable runner label")
    ⊎ Holds message (codes "runs-on carries more runner labels than we can register")
    ⊎ Holds message (codes "LambdaCIActions runs arm64 Linux")

pub is_own_refusal_iff : (message : Text) → (is_own_refusal message ≡ true) ↔ IsOwnWording message
unfolding is_own_refusal
is_own_refusal_iff message = ground (
  arith,
  has_substring_iff message (codes "runs-on resolves to no usable runner label"),
  has_substring_iff message (codes "runs-on carries more runner labels than we can register"),
  has_substring_iff message (codes "LambdaCIActions runs arm64 Linux"),
)
