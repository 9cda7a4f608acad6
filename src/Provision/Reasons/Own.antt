-- ===== src/Provision/Reasons/Own.antt =====
-- The control plane's own refusals of a mint are permanent.
use lambda_ciactions.Common.{◌≡◌, refl, true, List, ◌++◌}
use lambda_ciactions.Common.Tests.{or_left, or_right}
use lambda_ciactions.Common.Text.{Text, codes, has_substring-append}
use lambda_ciactions.Provision.Labels.{
  MintRefusal, no_runner_labels, incompatible_label, too_many_labels, is_own_refusal,
  classify_mint_failure, permanent,
}
use lambda_ciactions.Provision.Reasons.{refusal_message, failure_text, why_text}

message_own : (r : MintRefusal) → is_own_refusal (refusal_message r) ≡ true
unfolding is_own_refusal refusal_message
message_own (no_runner_labels labels) = or_left _ (
    or_left _ (
      has_substring-append (codes "this job's ")
        (codes "runs-on resolves to no usable runner label") _))
message_own (too_many_labels n) = or_left _ (
    or_right _ (
      has_substring-append (codes "this job's ")
        (codes "runs-on carries more runner labels than we can register") _))
message_own (incompatible_label label why) = or_right _ (
    has_substring-append
      (codes "this job's runs-on carries '"
        ++ (label ++ (codes "', which " ++ (why_text why ++ codes ": "))))
      (codes "LambdaCIActions runs arm64 Linux") _)

-- A refusal of a mint by the control plane itself is permanent whatever the labels: the message is
-- consumed, and the reason that the run shows is the message of the refusal.
pub classify_mint_failure-refusal :
    (r : MintRefusal) (labels : List Text)
    → ((classify_mint_failure (refusal_message r) labels).kind ≡ permanent)
      × (failure_text (refusal_message r) (classify_mint_failure (refusal_message r) labels).reason
          ≡ refusal_message r)
unfolding classify_mint_failure failure_text
classify_mint_failure-refusal r labels = rw (message_own r, classify_mint_failure) (refl, refl)
