-- ===== src/Ingest/Installation/Granted.antt =====
-- src/ingest/install-filter.ts: the repositories that an event enables are those that it has scanned.
use lambda_ciactions.Common.{
  ℕ, ◌≡◌, refl, sym, Bool, true, false, Option, none, some, inl, inr, List, [], ◌∷◌, ◌++◌, map,
}
use lambda_ciactions.Common.Tests.{Bool-cases}
use lambda_ciactions.Common.Lists.{In, In-append, In-map}
use lambda_ciactions.Common.Text.{Text}
use lambda_ciactions.Ingest.Installation.{
  RepoRef, InstallationEvent, InstallationAction, Flags, plan_of, plan_installation, granted_by,
  StoreCall, flag_calls, upsert_calls, store_calls, until_error, DiscoveryReason, discovery_request,
  installation_to_discovery_requests, handle_installation, is_wired, enqueue_discovery,
}

until_error-In :
    (throws : StoreCall → Bool) (c : StoreCall) (cs : List StoreCall)
    → In c (until_error throws cs)
    → In c cs
unfolding until_error
until_error-In throws c [] h = h
until_error-In throws c (d ∷ ds) h = elim (Bool-cases (throws d)) [
  | inl e ↦ elim (rw (e, until_error) at h) [ inl same ↦ inl same | inr nothing ↦ absurd nothing ]
  | inr e ↦ elim (rw (e, until_error) at h) [
    | inl same ↦ inl same
    | inr later ↦ inr (until_error-In throws c ds later)
  ]
]

plan_of-granted :
    (a : InstallationAction) (evt : InstallationEvent)
    → (plan_of a evt).enable_repos ≡ granted_by a evt
plan_of-granted InstallationAction.created evt = refl
plan_of-granted InstallationAction.deleted evt = refl
plan_of-granted InstallationAction.suspend evt = refl
plan_of-granted InstallationAction.unsuspend evt = refl
plan_of-granted InstallationAction.added evt = refl
plan_of-granted InstallationAction.removed evt = refl
plan_of-granted (InstallationAction.other name) evt = refl

module _ (evt : InstallationEvent) (r : RepoRef) where
  -- The call that enables the repository.
  abbrev enabling : StoreCall
  enabling = StoreCall.enable_repo evt.installation_id r

  upsert_calls-In : (b : Bool) → In enabling (upsert_calls evt b) → ⊥
  upsert_calls-In true (inl e) = cc
  upsert_calls-In true (inr h) = h
  upsert_calls-In false h = h

  flag_calls-In : (flags : Option Flags) → In enabling (flag_calls evt.installation_id flags) → ⊥
  flag_calls-In none h = h
  flag_calls-In (some f) (inl e) = cc
  flag_calls-In (some f) (inr h) = h

  disable_repo-In :
      (ids : List ℕ) → In enabling (map (StoreCall.disable_repo evt.installation_id) ids) → ⊥
  disable_repo-In [] h = h
  disable_repo-In (id ∷ ids) (inl e) = cc
  disable_repo-In (id ∷ ids) (inr h) = disable_repo-In ids h

  enable_repo-In :
      (rs : List RepoRef)
      → In enabling (map (StoreCall.enable_repo evt.installation_id) rs)
      → In r rs
  enable_repo-In [] h = absurd h
  enable_repo-In (s ∷ rs) (inl e) = inl cc
  enable_repo-In (s ∷ rs) (inr h) = inr (enable_repo-In rs h)

  store_calls-In : In enabling (store_calls evt) → In r (granted_by evt.action evt)
  unfolding store_calls plan_installation
  store_calls-In h =
      let intent = plan_of evt.action evt in
      let enables = map (StoreCall.enable_repo evt.installation_id) intent.enable_repos in
      let disables = map (StoreCall.disable_repo evt.installation_id) intent.disable_repo_ids in
      let flags = flag_calls evt.installation_id intent.set_flags in
      elim (In-append enabling (upsert_calls evt intent.upsert_installation)
        (flags ++ (enables ++ disables)) h) [
          | inl m ↦ absurd (upsert_calls-In intent.upsert_installation m)
          | inr m ↦ elim (In-append enabling flags (enables ++ disables) m) [
            | inl k ↦ absurd (flag_calls-In intent.set_flags k)
            | inr k ↦ elim (In-append enabling enables disables k) [
              | inl e ↦
                  rw (sym (plan_of-granted evt.action evt)) (enable_repo-In intent.enable_repos e)
              | inr d ↦ absurd (disable_repo-In intent.disable_repo_ids d)
            ]
          ]
        ]

  -- Where the discovery queue is configured, and whichever calls of the store throw, for each
  -- repository that an installation event asks the store to enable, a scan of that repository is
  -- requested, by name and owner.
  pub handle_installation-scanned :
      (queue : Option Text) (throws : StoreCall → Bool)
      → is_wired queue ≡ true
      → In enabling (handle_installation queue throws evt).calls
      → In
          (discovery_request evt.installation_id r.id r.full_name DiscoveryReason.installation)
          (handle_installation queue throws evt).requests
  unfolding handle_installation enqueue_discovery installation_to_discovery_requests
  handle_installation-scanned queue throws wired h = rw wired (
      In-map
        (λ s. discovery_request evt.installation_id s.id s.full_name DiscoveryReason.installation) r
        (granted_by evt.action evt)
        (store_calls-In (until_error-In throws enabling (store_calls evt) h)))
