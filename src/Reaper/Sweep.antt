-- ===== src/Reaper/Sweep.antt =====
-- What a sweep of the reaper does to the table, and which VMs it asks to terminate.
use lambda_ciactions.Common.{
  ℕ, suc, ◌+◌, ◌<◌, ◌≡◌, refl, Bool, true, false, ◌&&◌, arith, ◌∙◌, inl, inr, ◌↔◌, ◌⊎◌, Option,
  none, some, List, [], ◌∷◌, ◌++◌, map,
}
use lambda_ciactions.Common.Tests.{Bool-cases, and_parts, Option-cases}
use lambda_ciactions.Common.Lists.{
  In, In-append, In-append_left, filter-In, In-map, In-of_map, In-filter, filter,
}
use lambda_ciactions.Common.Text.{Text, is_nonempty, is_member, is_member_iff}
use lambda_ciactions.Shared.Types.{
  RunStatus, queued, provisioning, running, completed, failed, timed_out,
}
use lambda_ciactions.Shared.RunStore.{RunRow}
use lambda_ciactions.Shared.RunStore.Writes.{Dynamo, transition_run}
use lambda_ciactions.Shared.RunStore.Later.{Kept}
use lambda_ciactions.Shared.RunStore.History.{Write, transition, write_all, Written, Written-Kept}
use lambda_ciactions.Reaper.{
  ReaperConfig, LiveMicroVm, RunDisposition, Swept, closing, after_write, close_all, sweep,
  leftover, over_cap, over_cap_vms, reconcile_runs,
}
use lambda_ciactions.Reaper.Ghosts.{Ghost, orphaned, reconcile_runs_iff, verdict}

after_write-table :
    {T : Type 0} (said : Option Bool) (ids : List Text) (t : T) (rest : Swept T)
    → ((after_write said ids t rest).table ≡ t) ⊎ ((after_write said ids t rest).table ≡ rest.table)
unfolding after_write
after_write-table none ids t rest = inl refl
after_write-table (some true) ids t rest = inr refl
after_write-table (some false) ids t rest = inr refl

after_write-calls :
    {T : Type 0} (said : Option Bool) (ids : List Text) (t : T) (rest : Swept T) (id : Text)
    → In id (after_write said ids t rest).calls
    → In id ids ⊎ In id rest.calls
unfolding after_write
after_write-calls none ids t rest id m = absurd m
after_write-calls (some true) ids t rest id m = In-append id ids rest.calls m
after_write-calls (some false) ids t rest id m = inr m

leftover-In :
    (o : Option Text) (live : List Text) (id : Text)
    → In id (leftover o live)
    → (o ≡ some id) × In id live
unfolding leftover
leftover-In none live id m = absurd m
leftover-In (some x) live id m = elim (Bool-cases (is_nonempty x && is_member x live)) [
  | inl e ↦ elim (rw (e, leftover) at m) [
    | inl same ↦ rw same (refl, (is_member_iff x live).0 ((and_parts (is_nonempty x) _ e).1))
    | inr nothing ↦ absurd nothing
  ]
  | inr e ↦ absurd (rw (e, leftover) at m)
]

module _ (db : Dynamo) (live : List Text) (retention : ℕ) where
  -- The writes of the loop are guarded transitions.
  close_all-write_all :
      (clock : ℕ → ℕ) (ds : List RunDisposition) (t : db.Table)
      → (ws : List Write) × ((close_all db live retention clock ds t).table ≡ write_all db ws t)
  unfolding close_all write_all
  close_all-write_all clock [] t = ([], refl)
  close_all-write_all clock (d ∷ ds) t =
      let moved = transition_run db (closing d) (clock 0) retention t in
      let w = transition (closing d) (clock 0) retention in
      let rest = close_all db live retention (λ i. clock (suc i)) ds moved.0 in
      let (ws, e) = close_all-write_all (λ i. clock (suc i)) ds moved.0 in
      elim (after_write-table moved.1 (leftover d.run.microvm_id live) moved.0 rest) [
        | inl stopped ↦ (w ∷ [], stopped)
        | inr went_on ↦ (w ∷ ws, went_on ∙ e)
      ]

  -- A VM that the loop terminates is live and belongs to a run that it closes.
  close_all-calls :
      (clock : ℕ → ℕ) (ds : List RunDisposition) (t : db.Table) (id : Text)
      → In id (close_all db live retention clock ds t).calls
      → (d : RunDisposition) × In d ds × (d.run.microvm_id ≡ some id) × In id live
  unfolding close_all
  close_all-calls clock [] t id m = absurd m
  close_all-calls clock (d ∷ ds) t id m =
      let moved = transition_run db (closing d) (clock 0) retention t in
      let rest = close_all db live retention (λ i. clock (suc i)) ds moved.0 in
      elim (after_write-calls moved.1 (leftover d.run.microvm_id live) moved.0 rest id m) [
        | inl here ↦ let (e, l) = leftover-In d.run.microvm_id live id here in (d, inl refl, e, l)
        | inr later ↦
            let (x, i, e, l) = close_all-calls (λ i. clock (suc i)) ds moved.0 id later in
            (x, inr i, e, l)
      ]

over_cap_iff :
    (cfg : ReaperConfig) (now : ℕ) (vm : LiveMicroVm)
    → (over_cap cfg now vm ≡ true)
      ↔ ((started : ℕ) × (vm.started_at ≡ some started) × (started + cfg.max_lifetime_ms < now))
unfolding over_cap
over_cap_iff cfg now vm = elim (Option-cases vm.started_at) [
  | inl e ↦ rw e (λ h. ground arith, λ (s, k, old). ground arith)
  | inr (s, e) ↦ (λ h. (s, e, ground arith), λ (s', k, old). ground arith)
]

-- A verdict on a run whose VM is live says that it never started.
stuck_of_live :
    (live : List Text) (cfg : ReaperConfig) (now : ℕ) (r : RunRow) (to : RunStatus) (id : Text)
    → Ghost live cfg now r to
    → (verdict r now to).run.microvm_id ≡ some id
    → In id live
    → Ghost live cfg now r failed × (r.microvm_id ≡ some id)
stuck_of_live live cfg now r timed_out id (orphaned s f old) e m = absurd (f id e m)
stuck_of_live live cfg now r failed id g e m = (g, e)
stuck_of_live live cfg now r queued id g e m = elim g [ ]
stuck_of_live live cfg now r provisioning id g e m = elim g [ ]
stuck_of_live live cfg now r running id g e m = elim g [ ]
stuck_of_live live cfg now r completed id g e m = elim g [ ]

module _ (db : Dynamo) (cfg : ReaperConfig) (now : ℕ) (clock : ℕ → ℕ) (retention : ℕ)
    (termination : Text → Bool) (vms : List LiveMicroVm) (listed : RunStatus → List RunRow)
    (t : db.Table) where
  pub sweep-Written : Written db t (sweep db cfg now clock retention termination vms listed t).table
  unfolding sweep
  sweep-Written =
      let active = listed running ++ (listed provisioning ++ listed queued) in
      let ds = reconcile_runs active (map (λ vm. vm.microvm_id) vms) cfg now in
      let (ws, e) = close_all-write_all db (map (λ vm. vm.microvm_id) vms) retention clock ds t in
      record { writes = ws; made = e }

  -- Whatever the lists say, and also where a write throws, a sweep loses no row and moves each only
  -- forward.
  pub sweep-Kept :
      (k : Text)
      → Kept
          (db.get k t)
          (db.get k (sweep db cfg now clock retention termination vms listed t).table)
  sweep-Kept k = Written-Kept db t _ sweep-Written k

  -- A VM that a sweep asks to terminate is past the lifetime cap, or belongs to a listed run that
  -- was never started: the sweep spares the VM of every other run.
  pub sweep-calls :
      (id : Text)
      → In id (sweep db cfg now clock retention termination vms listed t).calls
      → ((vm : LiveMicroVm) × In vm vms
          × (id ≡ vm.microvm_id)
          × ((started : ℕ) × (vm.started_at ≡ some started)
              × (started + cfg.max_lifetime_ms < now)))
        ⊎ ((r : RunRow) × In r (listed running ++ (listed provisioning ++ listed queued))
            × Ghost (map (λ vm. vm.microvm_id) vms) cfg now r failed
            × (r.microvm_id ≡ some id))
  unfolding sweep over_cap_vms
  sweep-calls id m =
      let live = map (λ vm. vm.microvm_id) vms in
      let active = listed running ++ (listed provisioning ++ listed queued) in
      let ds = reconcile_runs active live cfg now in
      elim (In-append id (map (λ vm. vm.microvm_id) (filter (over_cap cfg now) vms)) _ m) [
        | inl capped ↦
            let (vm, i, e) = In-of_map (λ vm. vm.microvm_id) id _ capped in
            let (j, old) = In-filter (over_cap cfg now) vm vms i in
            inl (vm, j, e, (over_cap_iff cfg now vm).0 old)
        | inr left ↦
            let (d, i, e, l) = close_all-calls db live retention clock ds t id left in
            let (r, to, j, g, same) = (reconcile_runs_iff live cfg now active d).0 i in
            let (never, owned) = stuck_of_live live cfg now r to id g (rw same at e) l in
            inr (r, j, never, owned)
      ]

  -- Every VM past the cap is asked to terminate.
  pub sweep-over_cap :
      (vm : LiveMicroVm) (started : ℕ)
      → In vm vms
      → vm.started_at ≡ some started
      → started + cfg.max_lifetime_ms < now
      → In vm.microvm_id (sweep db cfg now clock retention termination vms listed t).calls
  unfolding sweep over_cap_vms
  sweep-over_cap vm started i e old = In-append_left vm.microvm_id _ _ (
      In-map (λ vm. vm.microvm_id) vm _
        (filter-In (over_cap cfg now) vm vms i ((over_cap_iff cfg now vm).1 (started, e, old))))
