-- ===== src/Provision/Labels.antt =====
-- src/provision/labels.ts: the labels that a runner advertises, and what a failed mint means. The
-- three refusals that `provisionOne` (src/provision/handler.ts) makes before a mint stand here too.
pub mod Advertised
pub mod Wording
pub mod Status
pub mod Failures
use lambda_ciactions.Common.{
  ℕ, ◌+◌, ◌-◌, ◌*◌, ◌≡◌, refl, Bool, true, false, ◌&&◌, ◌||◌, not, Option, none, some, List, [],
  ◌∷◌, ◌++◌,
}
use lambda_ciactions.Common.Tests.{if◌then◌else◌, leb, ltb, ◌==◌}
use lambda_ciactions.Common.Lists.{any, find, length, is_empty}
use lambda_ciactions.Common.Text.{
  Text, codes, text_eq, trim, to_lower_case, has_substring, starts_with, is_member, is_nonempty,
  text_ops,
}
use lambda_ciactions.Ingest.Adopt.{Why, incompatible_runner_label, adopt_ops}

abbrev pub max_jit_labels : ℕ
max_jit_labels = 20

-- The loop of `jitRunnerLabels`, with `seen` so far; what it yields is in the order of `out`.
unfoldable pub jit_labels_from : List Text → List Text → List Text
jit_labels_from seen [] = []
jit_labels_from seen (raw ∷ rest) =
    let label = trim raw in
    let skipped = jit_labels_from seen rest in
    let kept = label ∷ jit_labels_from (to_lower_case label ∷ seen) rest in
    if not (is_nonempty label)
    then skipped
    else if has_substring label (codes "${{")
    then skipped
    else if is_member (to_lower_case label) seen
    then skipped
    else kept

unfoldable pub jit_runner_labels : List Text → List Text
jit_runner_labels job_labels = jit_labels_from [] job_labels

-- `NoRunnerLabelsError`, `IncompatibleRunnerLabelError` and `TooManyRunnerLabelsError`.
pub data MintRefusal : Type 0 where
  no_runner_labels : List Text → MintRefusal
  incompatible_label : Text → Why → MintRefusal
  too_many_labels : ℕ → MintRefusal

pub data MintLabels : Type 0 where
  mint : List Text → MintLabels
  refuse : MintRefusal → MintLabels

-- The guards of `provisionOne` in front of `generateJitConfig`.
unfoldable pub mint_labels : List Text → MintLabels
mint_labels labels =
    let runner_labels = jit_runner_labels labels in
    if is_empty runner_labels
    then refuse (no_runner_labels labels)
    else elim (incompatible_runner_label runner_labels) [
      | some (l, why) ↦ refuse (incompatible_label l why)
      | none ↦
          if ltb max_jit_labels (length runner_labels)
          then refuse (too_many_labels (length runner_labels))
          else mint runner_labels
    ]

pub data MintFailureKind : Type 0 where
  permanent transient : MintFailureKind

-- The operator-facing reason, by its template.
pub data FailureReason : Type 0 where
  own_refusal rate_limited retrying rejected : FailureReason
  hosted_label : Text → FailureReason

pub record MintFailureClassification : Type 0 where
  pub kind : MintFailureKind
  pub reason : FailureReason

abbrev pub is_digit : ℕ → Bool
is_digit c = leb b'0' c && leb c b'9'

-- `/HTTP (\d{3})/` at the start of a text.
unfoldable pub status_here : Text → Option ℕ
status_here (a ∷ b ∷ c ∷ d ∷ e ∷ x ∷ y ∷ z ∷ s) =
    if starts_with (a ∷ b ∷ c ∷ d ∷ e ∷ []) (codes "HTTP ")
      && is_digit x
      && is_digit y
      && is_digit z
    then some ((x - b'0') * 100 + (y - b'0') * 10 + (z - b'0'))
    else none
status_here _ = none

-- The first match of that expression in a text.
unfoldable pub http_status : Text → Option ℕ
http_status [] = none
http_status (c ∷ s) = elim (status_here (c ∷ s)) [ some n ↦ some n | none ↦ http_status s ]

-- `retry.?after`: any unit but a line terminator may stand between the words.
abbrev pub is_line_end : ℕ → Bool
is_line_end c = c == 10 || c == 13 || c == 8232 || c == 8233

-- What stands behind the word `retry`, if the text starts with it.
unfoldable pub after_retry : Text → Text
after_retry (a ∷ b ∷ c ∷ d ∷ e ∷ rest) =
    if starts_with (a ∷ b ∷ c ∷ d ∷ e ∷ []) (codes "retry") then rest else []
after_retry _ = []

unfoldable pub after_gap : Text → Bool
after_gap [] = false
after_gap (c ∷ rest) = not (is_line_end c) && starts_with rest (codes "after")

unfoldable pub has_retry_after_here : Text → Bool
has_retry_after_here s = starts_with s (codes "retryafter") || after_gap (after_retry s)

unfoldable pub has_retry_after : Text → Bool
has_retry_after [] = false
has_retry_after (c ∷ s) = has_retry_after_here (c ∷ s) || has_retry_after s

-- `RATE_LIMIT_BODY`, which ignores case; `secondary rate` and the rest are its alternatives.
unfoldable pub rate_limit_body : Text → Bool
rate_limit_body message =
    let m = to_lower_case message in
    has_substring m (codes "rate limit")
    || has_substring m (codes "secondary rate")
    || has_substring m (codes "abuse detection")
    || has_substring m (codes "too many requests")
    || has_retry_after m

-- `/^(ubuntu|windows|macos)[-.]/i` on the trimmed label; `ubuntu-latest` alone is a case of it.
unfoldable pub is_hosted_shape : Text → Bool
is_hosted_shape label =
    let l = to_lower_case (trim label) in
    starts_with l (codes "ubuntu-")
    || starts_with l (codes "ubuntu.")
    || starts_with l (codes "windows-")
    || starts_with l (codes "windows.")
    || starts_with l (codes "macos-")
    || starts_with l (codes "macos.")
    || text_eq l (codes "ubuntu-latest")

unfoldable pub is_own_refusal : Text → Bool
is_own_refusal message =
    has_substring message (codes "runs-on resolves to no usable runner label")
    || has_substring message (codes "runs-on carries more runner labels than we can register")
    || has_substring message (codes "LambdaCIActions runs arm64 Linux")

abbrev pub is_code : Option ℕ → ℕ → Bool
is_code none n = false
is_code (some c) n = c == n

-- `code === undefined || rateLimited || code >= 500`
abbrev pub is_transient : Option ℕ → Bool → Bool
is_transient none limited = true
is_transient (some c) limited = limited || leb 500 c

-- The last part of `classifyMintFailure`.
unfoldable pub classify_permanent : Option ℕ → List Text → MintFailureClassification
classify_permanent code labels = elim (find is_hosted_shape labels) [
  | some l ↦
      if is_code code 422
      then record { kind = permanent; reason = hosted_label l }
      else record { kind = permanent; reason = rejected }
  | none ↦ record { kind = permanent; reason = rejected }
]

unfoldable pub classify_mint_failure : Text → List Text → MintFailureClassification
classify_mint_failure message labels =
    let code = http_status message in
    let limited =
      (is_code code 403 || is_code code 429) && (is_code code 429 || rate_limit_body message) in
    if is_own_refusal message
    then record { kind = permanent; reason = own_refusal }
    else if is_transient code limited
    then record { kind = transient; reason = if limited then rate_limited else retrying }
    else classify_permanent code labels

unfoldable pub label_ops : Unit {0}
unfolding text_ops adopt_ops jit_labels_from jit_runner_labels mint_labels status_here http_status
    after_retry after_gap has_retry_after_here has_retry_after rate_limit_body is_hosted_shape
    is_own_refusal classify_permanent classify_mint_failure
label_ops = tt
