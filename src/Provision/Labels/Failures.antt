-- ===== src/Provision/Labels/Failures.antt =====
-- When a failed mint is retried.
use lambda_ciactions.Common.{ℕ, ◌≤◌, ◌≡◌, ◌↔◌, ◌⊎◌, inl, inr, true, false, none, some, List, arith}
use lambda_ciactions.Common.Tests.{Bool-cases}
use lambda_ciactions.Common.Text.{Text, to_lower_case}
use lambda_ciactions.Provision.Labels.{
  http_status, is_own_refusal, rate_limit_body, classify_mint_failure, classify_permanent,
  transient,
}
use lambda_ciactions.Provision.Labels.Wording.{
  IsLimitWording, IsOwnWording, rate_limit_body_iff, is_own_refusal_iff,
}
use lambda_ciactions.Provision.Labels.Status.{
  IsStatus, HasNoStatus, http_status-none, http_status-some, http_status-IsStatus,
  http_status-HasNoStatus,
}

classify_mint_failure-transient :
    (message : Text) (labels : List Text)
    → ((classify_mint_failure message labels).kind ≡ transient) ↔ (
        (is_own_refusal message ≡ false)
        × ((http_status message ≡ none)
            ⊎ ((code : ℕ) × (http_status message ≡ some code)
                × ((500 ≤ code)
                    ⊎ ((code ≡ 429) ⊎ ((code ≡ 403) × (rate_limit_body message ≡ true)))))))
unfolding classify_mint_failure classify_permanent
classify_mint_failure-transient message labels = ground arith

-- The codes that are worth another attempt.
abbrev pub IsRetried : Text → ℕ → Type 0
IsRetried message code =
    (500 ≤ code) ⊎ ((code ≡ 429) ⊎ ((code ≡ 403) × IsLimitWording (to_lower_case message)))

own_wording : (message : Text) → (is_own_refusal message ≡ false) ↔ (¬ IsOwnWording message)
own_wording message = (
  λ h own. let k = (is_own_refusal_iff message).1 own in ground arith,
  λ h. elim (Bool-cases (is_own_refusal message)) [
    | inl own ↦ absurd (h ((is_own_refusal_iff message).0 own))
    | inr other ↦ other
  ],
)

IsRetried-iff :
    (message : Text) (code : ℕ)
    → ((500 ≤ code) ⊎ ((code ≡ 429) ⊎ ((code ≡ 403) × (rate_limit_body message ≡ true))))
      ↔ IsRetried message code
IsRetried-iff message code =
    let limit = rate_limit_body_iff message in
    (
      λ h. elim h [
        | inl server ↦ inl server
        | inr (inl many) ↦ inr (inl many)
        | inr (inr (e, body)) ↦ inr (inr (e, limit.0 body))
      ],
      λ h. elim h [
        | inl server ↦ inl server
        | inr (inl many) ↦ inr (inl many)
        | inr (inr (e, worded)) ↦ inr (inr (e, limit.1 worded))
      ],
    )

-- A failure is retried exactly when its message is worded like none of the control plane's own
-- refusals, and carries no HTTP status, or first a status of 500 or more, or 429, or 403 with the
-- wording of a rate limit in any case.
pub classify_mint_failure_iff :
    (message : Text) (labels : List Text)
    → ((classify_mint_failure message labels).kind ≡ transient) ↔ (
        (¬ IsOwnWording message)
        × (HasNoStatus message ⊎ ((code : ℕ) × IsStatus message code × IsRetried message code)))
classify_mint_failure_iff message labels = (
  λ h.
      let (other, code) = (classify_mint_failure-transient message labels).0 h in
      (
        (own_wording message).0 other,
        elim code [
          | inl quiet ↦ inl (http_status-none message quiet)
          | inr (n, e, again) ↦
              inr (n, http_status-some message n e, (IsRetried-iff message n).0 again)
        ],
      ),
  λ (other, code). (classify_mint_failure-transient message labels).1 (
    (own_wording message).1 other,
    elim code [
      | inl quiet ↦ inl (http_status-HasNoStatus message quiet)
      | inr (n, s, again) ↦
          inr (n, http_status-IsStatus message n s, (IsRetried-iff message n).1 again)
    ],
  ),
)
