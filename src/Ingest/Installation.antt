-- ===== src/Ingest/Installation.antt =====
-- src/ingest/install-filter.ts, src/discover/filter.ts and, of src/ingest/handler.ts, `handlePush` and
-- `handleInstallation`. The stores and the queue are parameters: whether a call throws.
pub mod Granted
use lambda_ciactions.Common.{
  ℕ, Bool, true, false, not, ◌||◌, Option, none, some, List, [], ◌∷◌, ◌++◌, map,
}
use lambda_ciactions.Common.Tests.{if◌then◌else◌, ◌==◌}
use lambda_ciactions.Common.Lists.{any, is_empty}
use lambda_ciactions.Common.Text.{Text, codes, starts_with, is_nonempty}

pub record RepoRef : Type 0 where
  pub id : ℕ
  pub full_name : Text

-- The actions that the plan tells apart.
pub data InstallationAction : Type 0 where
  created deleted suspend unsuspend added removed : InstallationAction
  other : Text → InstallationAction

-- `InstallationEvent`; an absent list is `none`.
pub record InstallationEvent : Type 0 where
  pub action : InstallationAction
  pub installation_id : ℕ
  pub account_login : Text
  pub account_id : ℕ
  pub repositories : Option (List RepoRef)
  pub repositories_added : Option (List RepoRef)
  pub repositories_removed : Option (List RepoRef)

-- The flags that are set, absent ones left alone.
pub record Flags : Type 0 where
  pub suspended : Option Bool
  pub deleted : Option Bool

-- `InstallIntent`; an upsert sets both flags to false.
pub record InstallIntent : Type 0 where
  pub upsert_installation : Bool
  pub set_flags : Option Flags
  pub enable_repos : List RepoRef
  pub disable_repo_ids : List ℕ

abbrev pub no_intent : InstallIntent
no_intent = record {
  upsert_installation = false;
  set_flags = none;
  enable_repos = [];
  disable_repo_ids = [];
}

abbrev pub or_none : Option (List RepoRef) → List RepoRef
or_none none = []
or_none (some repos) = repos

abbrev pub flags_of : Option Bool → Option Bool → InstallIntent
flags_of suspend_flag delete_flag = record no_intent {
  set_flags = some (record { suspended = suspend_flag; deleted = delete_flag });
}

abbrev pub plan_of : InstallationAction → InstallationEvent → InstallIntent
plan_of InstallationAction.created evt = record no_intent {
  upsert_installation = true;
  enable_repos = or_none evt.repositories;
}
plan_of InstallationAction.deleted evt = flags_of none (some true)
plan_of InstallationAction.suspend evt = flags_of (some true) none
plan_of InstallationAction.unsuspend evt = flags_of (some false) none
plan_of InstallationAction.added evt = record no_intent {
  enable_repos = or_none evt.repositories_added;
}
plan_of InstallationAction.removed evt = record no_intent {
  disable_repo_ids = map (λ r. r.id) (or_none evt.repositories_removed);
}
plan_of (InstallationAction.other name) evt = no_intent

unfoldable pub plan_installation : InstallationEvent → InstallIntent
plan_installation evt = plan_of evt.action evt

-- The part of a text in front of the first slash, and that between the first two.
unfoldable pub until_slash : Text → Text
until_slash [] = []
until_slash (c ∷ s) = let rest = until_slash s in if c == b'/' then [] else c ∷ rest

unfoldable pub after_slash : Text → Option Text
after_slash [] = none
after_slash (c ∷ s) = let rest = after_slash s in if c == b'/' then some s else rest

abbrev pub second_part : Option Text → Option Text
second_part none = none
second_part (some s) = some (until_slash s)

pub data DiscoveryReason : Type 0 where
  push installation : DiscoveryReason

-- `DiscoveryRequest`; the name of a repository without a slash has no second part.
pub record DiscoveryRequest : Type 0 where
  pub installation_id : ℕ
  pub repo_id : ℕ
  pub repo_full_name : Text
  pub owner : Text
  pub repo : Option Text
  pub reason : DiscoveryReason

unfoldable pub discovery_request : ℕ → ℕ → Text → DiscoveryReason → DiscoveryRequest
unfolding until_slash after_slash
discovery_request installation_id repo_id full_name reason = record {
  installation_id = installation_id;
  repo_id = repo_id;
  repo_full_name = full_name;
  owner = until_slash full_name;
  repo = second_part (after_slash full_name);
  reason = reason;
}

-- The repositories that an event grants.
abbrev pub granted_by : InstallationAction → InstallationEvent → List RepoRef
granted_by InstallationAction.created evt = or_none evt.repositories
granted_by InstallationAction.added evt = or_none evt.repositories_added
granted_by _ evt = []

unfoldable pub installation_to_discovery_requests : InstallationEvent → List DiscoveryRequest
unfolding discovery_request
installation_to_discovery_requests evt =
    map (λ r. discovery_request evt.installation_id r.id r.full_name installation)
      (granted_by evt.action evt)

-- The paths of a commit.
pub record Commit : Type 0 where
  pub added : Option (List Text)
  pub removed : Option (List Text)
  pub modified : Option (List Text)

-- `PushEvent`: the fields that are read.
pub record PushEvent : Type 0 where
  pub repo_id : ℕ
  pub full_name : Text
  pub installation_id : Option ℕ
  pub commits : Option (List Commit)
  pub head_commit : Option Commit

abbrev pub workflows_prefix : Text
workflows_prefix = codes ".github/workflows/"

abbrev pub head_only : Option Commit → List Commit
head_only none = []
head_only (some c) = c ∷ []

-- The commits that are looked at: those of the push, or else its head.
abbrev pub commits_of : PushEvent → List Commit
commits_of evt = elim evt.commits [ some (c ∷ cs) ↦ c ∷ cs | _ ↦ head_only evt.head_commit ]

abbrev pub touches : Option (List Text) → Bool
touches none = false
touches (some paths) = any (λ p. starts_with p workflows_prefix) paths

unfoldable pub push_touches_workflows : PushEvent → Bool
unfolding starts_with
push_touches_workflows evt =
    any (λ c. touches c.added || touches c.removed || touches c.modified) (commits_of evt)

unfoldable pub push_to_discovery_request : PushEvent → Option DiscoveryRequest
unfolding discovery_request
push_to_discovery_request evt = elim evt.installation_id [
  | none ↦ none
  | some id ↦ some (discovery_request id evt.repo_id evt.full_name push)
]

-- `DISCOVERY_QUEUE_URL` is set, and not empty.
abbrev pub is_wired : Option Text → Bool
is_wired none = false
is_wired (some url) = is_nonempty url

-- The messages that are sent for requests, in order: none where discovery is not wired. An error of
-- the queue is logged only.
unfoldable pub enqueue_discovery : Option Text → List DiscoveryRequest → List DiscoveryRequest
enqueue_discovery queue requests = if is_wired queue then requests else []

unfoldable pub handle_push : Option Text → PushEvent → List DiscoveryRequest
unfolding push_touches_workflows push_to_discovery_request enqueue_discovery
handle_push queue evt =
    if not (push_touches_workflows evt) then [] else elim (push_to_discovery_request evt) [
      | none ↦ []
      | some req ↦ enqueue_discovery queue (req ∷ [])
    ]

-- The calls of the installation store.
pub data StoreCall : Type 0 where
  upsert_installation : ℕ → Text → ℕ → StoreCall
  set_installation_flags : ℕ → Flags → StoreCall
  enable_repo : ℕ → RepoRef → StoreCall
  disable_repo : ℕ → ℕ → StoreCall

abbrev pub flag_calls : ℕ → Option Flags → List StoreCall
flag_calls id none = []
flag_calls id (some flags) = set_installation_flags id flags ∷ []

abbrev pub upsert_calls : InstallationEvent → Bool → List StoreCall
upsert_calls evt b =
    if b then upsert_installation evt.installation_id evt.account_login evt.account_id ∷ [] else []

-- The calls of `handleInstallation` for an intent, in order.
abbrev pub calls_for : InstallationEvent → InstallIntent → List StoreCall
calls_for evt intent =
    upsert_calls evt intent.upsert_installation
    ++ (flag_calls evt.installation_id intent.set_flags
        ++ (map (enable_repo evt.installation_id) intent.enable_repos
            ++ map (disable_repo evt.installation_id) intent.disable_repo_ids))

unfoldable pub store_calls : InstallationEvent → List StoreCall
unfolding plan_installation
store_calls evt = calls_for evt (plan_installation evt)

-- The calls that are made, up to and with the first one that throws.
unfoldable pub until_error : (StoreCall → Bool) → List StoreCall → List StoreCall
until_error throws [] = []
until_error throws (c ∷ cs) =
    let rest = until_error throws cs in if throws c then c ∷ [] else c ∷ rest

pub record Installed : Type 0 where
  pub calls : List StoreCall
  pub requests : List DiscoveryRequest

-- `queue` is the URL of the discovery queue, where it is configured.
unfoldable pub handle_installation :
    Option Text → (StoreCall → Bool) → InstallationEvent → Installed
unfolding store_calls until_error installation_to_discovery_requests enqueue_discovery
handle_installation queue throws evt = record {
  calls = until_error throws (store_calls evt);
  requests = enqueue_discovery queue (installation_to_discovery_requests evt);
}
