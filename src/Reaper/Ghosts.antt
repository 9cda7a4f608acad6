-- ===== src/Reaper/Ghosts.antt =====
-- Which runs the reaper closes, and as what.
use lambda_ciactions.Common.{
  ℕ, ◌+◌, ◌-◌, ◌<◌, ◌≡◌, refl, true, false, arith, sym, inl, inr, ◌↔◌, ◌⊎◌, Option, none, some,
  List, [], ◌∷◌,
}
use lambda_ciactions.Common.Tests.{Bool-cases, Option-cases}
use lambda_ciactions.Common.Lists.{In}
use lambda_ciactions.Common.Text.{Text, is_member, is_member_iff}
use lambda_ciactions.Shared.Types.{
  RunStatus, queued, provisioning, running, completed, failed, timed_out,
}
use lambda_ciactions.Shared.RunStore.{RunRow, can_transition, is_terminal}
use lambda_ciactions.Reaper.{
  ReaperConfig, RunDisposition, vm_live, disposition, reconcile_runs, orphan_reason, stuck_reason,
}

-- A run is a ghost, to be closed as `to`: it runs and its VM is not live now, or it has not started,
-- and its row was last updated longer ago than the time allowed. How long the VM has been gone is not
-- known.
pub data Ghost (live : List Text) (cfg : ReaperConfig) (now : ℕ) (r : RunRow)
    : RunStatus → Type 0 where
  orphaned :
      r.status ≡ running
      → ((id : Text) → r.microvm_id ≡ some id → In id live → ⊥)
      → r.updated_at + cfg.orphan_grace_ms < now
      → Ghost live cfg now r timed_out
  stuck :
      (r.status ≡ provisioning) ⊎ (r.status ≡ queued)
      → r.updated_at + cfg.stuck_provisioning_ms < now
      → Ghost live cfg now r failed

dead_iff :
    (o : Option Text) (live : List Text)
    → (vm_live o live ≡ false) ↔ ((id : Text) → o ≡ some id → In id live → ⊥)
unfolding vm_live
dead_iff none live = (λ h id e. ground arith, λ f. refl)
dead_iff (some id) live = (
  λ h other e m. let k = (is_member_iff other live).1 m in ground arith,
  λ f. elim (Bool-cases (is_member id live)) [
    | inl e ↦ absurd (f id refl ((is_member_iff id live).0 e))
    | inr e ↦ e
  ],
)

-- The decision that closes a run as `to`.
abbrev pub verdict : RunRow → ℕ → RunStatus → RunDisposition
verdict r now timed_out = record {
  run = r;
  to = timed_out;
  reason = orphan_reason r (now - r.updated_at);
}
verdict r now to = record { run = r; to = to; reason = stuck_reason r (now - r.updated_at) }

module _ (live : List Text) (cfg : ReaperConfig) (now : ℕ) (r : RunRow) where
  running-some :
      (d : RunDisposition)
      → r.status ≡ running
      → disposition r live cfg now ≡ some d
      → (d ≡ verdict r now timed_out)
        × (vm_live r.microvm_id live ≡ false)
        × (r.updated_at + cfg.orphan_grace_ms < now)
  unfolding disposition
  running-some d s h = ground arith

  waiting-some :
      (d : RunDisposition)
      → (r.status ≡ provisioning) ⊎ (r.status ≡ queued)
      → disposition r live cfg now ≡ some d
      → (d ≡ verdict r now failed) × (r.updated_at + cfg.stuck_provisioning_ms < now)
  unfolding disposition
  waiting-some d s h = ground arith

  terminal-none : is_terminal r.status ≡ true → disposition r live cfg now ≡ none
  unfolding disposition is_terminal
  terminal-none h = ground arith

  of_orphaned :
      r.status ≡ running
      → vm_live r.microvm_id live ≡ false
      → r.updated_at + cfg.orphan_grace_ms < now
      → disposition r live cfg now ≡ some (verdict r now timed_out)
  unfolding disposition
  of_orphaned s h k = ground arith

  of_stuck :
      (r.status ≡ provisioning) ⊎ (r.status ≡ queued)
      → r.updated_at + cfg.stuck_provisioning_ms < now
      → disposition r live cfg now ≡ some (verdict r now failed)
  unfolding disposition
  of_stuck s k = ground arith

  status_cases :
      (s : RunStatus) → (s ≡ running) ⊎ ((s ≡ provisioning) ⊎ (s ≡ queued)) ⊎ (is_terminal s ≡ true)
  unfolding is_terminal
  status_cases s = ground arith

  Ghost-of_disposition :
      (d : RunDisposition)
      → disposition r live cfg now ≡ some d
      → (to : RunStatus) × (d ≡ verdict r now to) × Ghost live cfg now r to
  Ghost-of_disposition d h = elim (status_cases r.status) [
    | inl s ↦
        let (e, dead, old) = running-some d s h in
        (timed_out, e, orphaned s ((dead_iff r.microvm_id live).0 dead) old)
    | inr (inl s) ↦ let (e, old) = waiting-some d s h in (failed, e, stuck s old)
    | inr (inr s) ↦ let e = terminal-none s in ground arith
  ]

  disposition-of_Ghost :
      (to : RunStatus)
      → Ghost live cfg now r to
      → disposition r live cfg now ≡ some (verdict r now to)
  disposition-of_Ghost timed_out (orphaned s f old) =
      of_orphaned s ((dead_iff r.microvm_id live).1 f) old
  disposition-of_Ghost failed (stuck s old) = of_stuck s old
  disposition-of_Ghost queued g = elim g [ ]
  disposition-of_Ghost provisioning g = elim g [ ]
  disposition-of_Ghost running g = elim g [ ]
  disposition-of_Ghost completed g = elim g [ ]

abbrev pub IsClosing : RunDisposition → Type 0
IsClosing d =
    (can_transition d.run.status d.to ≡ true)
    × (is_terminal d.run.status ≡ false)
    × (is_terminal d.to ≡ true)

running_closes :
    (s : RunStatus)
    → s ≡ running
    → (can_transition s timed_out ≡ true) × (is_terminal s ≡ false) × (is_terminal timed_out ≡ true)
unfolding can_transition is_terminal
running_closes s e = ground arith

waiting_closes :
    (s : RunStatus)
    → (s ≡ provisioning) ⊎ (s ≡ queued)
    → (can_transition s failed ≡ true) × (is_terminal s ≡ false) × (is_terminal failed ≡ true)
unfolding can_transition is_terminal
waiting_closes s e = ground arith

module _ (live : List Text) (cfg : ReaperConfig) (now : ℕ) where
  reconcile_cases :
      (runs : List RunRow) (d : RunDisposition)
      → In d (reconcile_runs runs live cfg now)
      → (r : RunRow) × In r runs × (disposition r live cfg now ≡ some d)
  unfolding reconcile_runs
  reconcile_cases [] d m = absurd m
  reconcile_cases (r ∷ runs) d m = elim (Option-cases (disposition r live cfg now)) [
    | inl e ↦ let (x, i, h) = reconcile_cases runs d (rw (e, reconcile_runs) at m) in (x, inr i, h)
    | inr (d', e) ↦ elim (rw (e, reconcile_runs) at m) [
      | inl same ↦ (r, inl refl, ground arith)
      | inr rest ↦ let (x, i, h) = reconcile_cases runs d rest in (x, inr i, h)
    ]
  ]

  of_disposition :
      (runs : List RunRow) (r : RunRow) (d : RunDisposition)
      → In r runs
      → disposition r live cfg now ≡ some d
      → In d (reconcile_runs runs live cfg now)
  unfolding reconcile_runs
  of_disposition [] r d m h = absurd m
  of_disposition (x ∷ runs) r d (inl e) h =
      let k : disposition x live cfg now ≡ some d = rw (sym e) h in
      rw (k, reconcile_runs) (inl refl)
  of_disposition (x ∷ runs) r d (inr m) h =
      let rest = of_disposition runs r d m h in
      elim (Option-cases (disposition x live cfg now)) [
        | inl e ↦ rw (e, reconcile_runs) rest
        | inr (d', e) ↦ rw (e, reconcile_runs) (inr rest)
      ]

  -- The runs to close are exactly the running ones whose VM is not live now and the queued and
  -- provisioning ones, where the row was last updated longer ago than the grace and the limit; each is
  -- closed with its status and reason.
  pub reconcile_runs_iff :
      (runs : List RunRow) (d : RunDisposition)
      → In d (reconcile_runs runs live cfg now) ↔ (
          (r : RunRow) × (to : RunStatus) × In r runs
          × Ghost live cfg now r to
          × (d ≡ verdict r now to))
  reconcile_runs_iff runs d = (
    λ m.
        let (r, i, h) = reconcile_cases runs d m in
        let (to, e, g) = Ghost-of_disposition live cfg now r d h in (r, to, i, g, e),
    λ (r, to, i, g, e).
        rw e
          (of_disposition runs r (verdict r now to) i (disposition-of_Ghost live cfg now r to g)),
  )

  Ghost-IsClosing :
      (r : RunRow) (to : RunStatus) → Ghost live cfg now r to → IsClosing (verdict r now to)
  Ghost-IsClosing r timed_out (orphaned s f old) = running_closes r.status s
  Ghost-IsClosing r failed (stuck s old) = waiting_closes r.status s
  Ghost-IsClosing r queued g = elim g [ ]
  Ghost-IsClosing r provisioning g = elim g [ ]
  Ghost-IsClosing r running g = elim g [ ]
  Ghost-IsClosing r completed g = elim g [ ]

  -- A decision always moves an open run to a terminal status by a legal transition.
  pub reconcile_runs-can_transition :
      (runs : List RunRow) (d : RunDisposition)
      → In d (reconcile_runs runs live cfg now)
      → (can_transition d.run.status d.to ≡ true)
        × (is_terminal d.run.status ≡ false)
        × (is_terminal d.to ≡ true)
  reconcile_runs-can_transition runs d m =
      let (r, to, i, g, e) = (reconcile_runs_iff runs d).0 m in rw e (Ghost-IsClosing r to g)
