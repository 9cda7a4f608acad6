-- ===== src/Shared/Types.antt =====
-- src/shared/types.ts: the stored rows and their enumerations.
use lambda_ciactions.Common.{ℕ, Bool, Option, List}
use lambda_ciactions.Common.Text.{Text}

pub data RepoMode : Type 0 where
  label adopt off : RepoMode

-- `RepoRecord`: the fields that routing and the claim gate read. `flavorMap` is in entry order.
pub record RepoRecord : Type 0 where
  pub installation_id : ℕ
  pub repo_id : ℕ
  pub enabled : Bool
  pub mode : Option RepoMode
  pub default_flavor : Option Text
  pub flavor_map : Option (List (Text × Text))

pub data RunStatus : Type 0 where
  queued provisioning running completed failed timed_out : RunStatus
