-- ===== src/Shared/Allowlist.antt =====
-- src/shared/allowlist.ts: whether the live allowlist differs from the one of a refusal.
pub mod Changed
use lambda_ciactions.Common.{Bool, true, false, not, List, [], ◌∷◌}
use lambda_ciactions.Common.Tests.{if◌then◌else◌, ◌==◌}
use lambda_ciactions.Common.Lists.{any, length}
use lambda_ciactions.Common.Text.{Text, normalize_all, is_member}

-- The members of `new Set(labels)`, each once; their order is never read.
unfoldable pub set_of : List Text → List Text
set_of [] = []
set_of (l ∷ labels) = let rest = set_of labels in if is_member l labels then rest else l ∷ rest

unfoldable pub allowlist_changed : List Text → List Text → Bool → Bool
unfolding set_of
allowlist_changed snapshot live known =
    let was = set_of (normalize_all snapshot) in
    let now = set_of (normalize_all live) in
    if not known
    then false
    else if not (length was == length now)
    then true
    else any (λ l. not (is_member l now)) was
