-- ===== src/Witnesses/Reaper.antt =====
-- The reaper at a concrete table: one run without its VM, one that never started, one VM too old.
use lambda_ciactions.Common.{
  Bool, ℕ, ◌+◌, ◌<◌, ◌≡◌, refl, true, arith, inl, ◌↔◌, ◌⊎◌, none, some, List, [], ◌∷◌, ◌++◌,
}
use lambda_ciactions.Common.Lists.{In}
use lambda_ciactions.Common.Text.{Text, codes, text_ops}
use lambda_ciactions.Shared.Types.{RunStatus, queued, provisioning, running, failed, timed_out}
use lambda_ciactions.Shared.RunStore.{RunInput, RunRow, build_queued_item}
use lambda_ciactions.Shared.RunStore.InMemory.{Rows, in_memory}
use lambda_ciactions.Reaper.{
  default_reaper_config, LiveMicroVm, RunDisposition, Swept, reconcile_runs, disposition, vm_live,
  sweep,
}
use lambda_ciactions.Reaper.Ghosts.{Ghost, verdict, reconcile_runs_iff}
use lambda_ciactions.Reaper.Sweep.{sweep-calls, sweep-over_cap}

abbrev input : RunInput
input = record {
  repo_id = 7;
  repo_full_name = codes "o/r";
  installation_id = 1;
  run_id = 20;
  job_id = 300;
  labels = codes "lambda-ci" ∷ [];
  workflow_name = none;
  job_name = none;
}

abbrev lost : RunRow
lost = record (build_queued_item input 1000) { status = running; microvm_id = some (codes "vm-1") }

abbrev waiting : RunRow
waiting = record (build_queued_item (record input { job_id = 301 }) 1000) {
  microvm_id = some (codes "vm-2");
}

abbrev old_vm : LiveMicroVm
old_vm = record {
  microvm_id = codes "vm-2";
  state = codes "RUNNING";
  image_arn = none;
  started_at = some 1000;
}

abbrev now : ℕ
now = 9000000

abbrev clock : ℕ → ℕ
clock i = 9000000 + i

abbrev listed : RunStatus → List RunRow
listed running = lost ∷ []
listed queued = waiting ∷ []
listed _ = []

abbrev live : List Text
live = codes "vm-2" ∷ []

abbrev runs : List RunRow
runs = lost ∷ waiting ∷ []

abbrev closed : RunDisposition
closed = verdict lost now timed_out

reconcile_runs_iff_example : In closed (reconcile_runs runs live default_reaper_config now) ↔ (
    (r : RunRow) × (to : RunStatus) × In r runs
    × Ghost live default_reaper_config now r to
    × (closed ≡ verdict r now to))
reconcile_runs_iff_example = reconcile_runs_iff live default_reaper_config now runs closed

lost_closed : In closed (reconcile_runs runs live default_reaper_config now)
unfolding text_ops vm_live disposition reconcile_runs build_queued_item
lost_closed = inl refl

abbrev no_rows : Rows
no_rows k = none

abbrev succeeds : Text → Bool
succeeds id = true

abbrev swept : Swept Rows
swept = sweep in_memory default_reaper_config now clock 60 succeeds (old_vm ∷ []) listed no_rows

old_vm_called : In (codes "vm-2") swept.calls
old_vm_called =
    sweep-over_cap in_memory default_reaper_config now clock 60 succeeds (old_vm ∷ []) listed
      no_rows old_vm 1000 (inl refl) refl (omega arith)

sweep-calls_example :
    ((vm : LiveMicroVm) × In vm (old_vm ∷ [])
      × (codes "vm-2" ≡ vm.microvm_id)
      × ((started : ℕ) × (vm.started_at ≡ some started)
          × (started + default_reaper_config.max_lifetime_ms < now)))
    ⊎ ((r : RunRow) × In r (listed running ++ (listed provisioning ++ listed queued))
        × Ghost live default_reaper_config now r failed
        × (r.microvm_id ≡ some (codes "vm-2")))
sweep-calls_example =
    sweep-calls in_memory default_reaper_config now clock 60 succeeds (old_vm ∷ []) listed no_rows
      (codes "vm-2") old_vm_called
