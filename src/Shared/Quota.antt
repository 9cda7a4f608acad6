-- ===== src/Shared/Quota.antt =====
-- src/shared/metrics.ts: which error of AWS is a refusal for want of quota.
use lambda_ciactions.Common.{ℕ, Bool, false, ◌||◌, Option, none, some, List, [], ◌∷◌}
use lambda_ciactions.Common.Tests.{◌==◌}
use lambda_ciactions.Common.Lists.{any}
use lambda_ciactions.Common.Text.{Text, codes, to_lower_case, has_substring}

-- `name`, `message` and `$metadata.httpStatusCode`; an absent name is empty.
pub record AwsError : Type 0 where
  pub name : Text
  pub message : Text
  pub http_status : Option ℕ

-- `/Throttl|TooManyRequests|…/i` on the name, in lower case.
abbrev pub quota_names : List Text
quota_names =
    codes "throttl"
    ∷ codes "toomanyrequests"
    ∷ codes "limitexceeded"
    ∷ codes "quotaexceeded"
    ∷ codes "servicequota"
    ∷ []

abbrev pub quota_messages : List Text
quota_messages =
    codes "throttl" ∷ codes "quota" ∷ codes "too many requests" ∷ codes "limit exceeded" ∷ []

-- Whether a text has one of the parts, in any case.
unfoldable pub mentions : List Text → Text → Bool
mentions parts s = any (has_substring (to_lower_case s)) parts

abbrev pub is_429 : Option ℕ → Bool
is_429 none = false
is_429 (some code) = code == 429

unfoldable pub is_quota_error : AwsError → Bool
is_quota_error err =
    mentions quota_names err.name || mentions quota_messages err.message || is_429 err.http_status
