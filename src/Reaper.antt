-- ===== src/Reaper.antt =====
-- src/reaper/reap.ts and handler.ts: the scheduled sweep over live VMs and active runs.
-- The region's VMs, the index and the control API are parameters of the sweep.
pub mod Ghosts
pub mod Sweep
use lambda_ciactions.Common.{
  ℕ, zero, suc, ◌+◌, ◌-◌, ◌*◌, ◌/◌, Bool, true, false, ◌&&◌, not, Option, none, some, List, [], ◌∷◌,
  ◌++◌, map,
}
use lambda_ciactions.Common.Tests.{if◌then◌else◌, ltb}
use lambda_ciactions.Common.Lists.{filter, length}
use lambda_ciactions.Common.Text.{Text, codes, decimal, is_member, is_nonempty}
use lambda_ciactions.Shared.Types.{
  RunStatus, queued, provisioning, running, completed, failed, timed_out,
}
use lambda_ciactions.Shared.RunStore.{RunRow, TransitionInput, status_text}
use lambda_ciactions.Shared.RunStore.Writes.{Dynamo, transition_run}

pub record ReaperConfig : Type 0 where
  pub max_lifetime_ms : ℕ
  pub stuck_provisioning_ms : ℕ
  pub orphan_grace_ms : ℕ

abbrev pub default_reaper_config : ReaperConfig
default_reaper_config = record {
  max_lifetime_ms = 2 * 60 * 60 * 1000;
  stuck_provisioning_ms = 15 * 60 * 1000;
  orphan_grace_ms = 5 * 60 * 1000;
}

pub record LiveMicroVm : Type 0 where
  pub microvm_id : Text
  pub state : Text
  pub image_arn : Option Text
  pub started_at : Option ℕ

-- `now - startedAt > maxLifetimeMs`, also for a start in the future.
unfoldable pub over_cap : ReaperConfig → ℕ → LiveMicroVm → Bool
over_cap cfg now vm = elim vm.started_at [
  | none ↦ false
  | some started ↦ ltb (started + cfg.max_lifetime_ms) now
]

unfoldable pub over_cap_vms : List LiveMicroVm → ReaperConfig → ℕ → List LiveMicroVm
unfolding over_cap
over_cap_vms vms cfg now = filter (over_cap cfg now) vms

pub record RunDisposition : Type 0 where
  pub run : RunRow
  pub to : RunStatus
  pub reason : Text

-- `Math.round(ageMs / 1000)`
abbrev pub rounded_seconds : ℕ → ℕ
rounded_seconds ms = (ms + 500) / 1000

abbrev pub orphan_detail : Option Text → Text
orphan_detail none = codes "no microVM id recorded"
orphan_detail (some id) =
    if is_nonempty id
    then codes "microVM " ++ (id ++ codes " no longer live")
    else codes "no microVM id recorded"

abbrev pub orphan_reason : RunRow → ℕ → Text
orphan_reason run age =
    codes "orphaned: "
    ++ (orphan_detail run.microvm_id
        ++ (codes " for run "
            ++ (decimal run.input.run_id
                ++ (codes " after " ++ (decimal (rounded_seconds age) ++ codes "s")))))

abbrev pub stuck_reason : RunRow → ℕ → Text
stuck_reason run age =
    codes "stuck in "
    ++ (status_text run.status
        ++ (codes " for "
            ++ (decimal (rounded_seconds age) ++ codes "s (possible microVM quota wall)")))

unfoldable pub vm_live : Option Text → List Text → Bool
vm_live none live = false
vm_live (some id) live = is_member id live

-- The decision on one run; `ageMs > limit` is written `updatedAt + limit < now`.
unfoldable pub disposition : RunRow → List Text → ReaperConfig → ℕ → Option RunDisposition
unfolding vm_live
disposition run live cfg now =
    let age = now - run.updated_at in
    let stuck =
      if ltb (run.updated_at + cfg.stuck_provisioning_ms) now
      then some (record { run = run; to = failed; reason = stuck_reason run age })
      else none in
    elim run.status [
      | queued ↦ stuck
      | provisioning ↦ stuck
      | running ↦
          if not (vm_live run.microvm_id live) && ltb (run.updated_at + cfg.orphan_grace_ms) now
          then some (record { run = run; to = timed_out; reason = orphan_reason run age })
          else none
      | completed ↦ none
      | failed ↦ none
      | timed_out ↦ none
    ]

unfoldable pub reconcile_runs : List RunRow → List Text → ReaperConfig → ℕ → List RunDisposition
unfolding disposition
reconcile_runs [] live cfg now = []
reconcile_runs (run ∷ runs) live cfg now =
    let out = reconcile_runs runs live cfg now in
    elim (disposition run live cfg now) [ none ↦ out | some d ↦ d ∷ out ]

abbrev pub closing : RunDisposition → TransitionInput
closing d = record {
  repo_id = d.run.input.repo_id;
  run_id = d.run.input.run_id;
  job_id = d.run.input.job_id;
  to = d.to;
  flavor = none;
  microvm_id = none;
  reason = some d.reason;
}

-- What a part of the sweep leaves: the table, the VMs it asked to terminate, the number of VMs past
-- the cap that it terminated and of rows that it closed, and whether a write threw.
pub record Swept (Table : Type 0) : Type 0 where
  pub table : Table
  pub calls : List Text
  pub terminated : ℕ
  pub reconciled : ℕ
  pub threw : Bool

-- The VM of a closed run, where it is live.
unfoldable pub leftover : Option Text → List Text → List Text
leftover none live = []
leftover (some id) live = if is_nonempty id && is_member id live then id ∷ [] else []

-- How the loop goes on after a write: what the write said, the VM to terminate, the table it left and
-- what the rest of the loop leaves. A write that throws ends the sweep.
unfoldable pub after_write :
    {Table : Type 0} → Option Bool → List Text → Table → Swept Table → Swept Table
after_write none ids t rest = record {
  table = t;
  calls = [];
  terminated = 0;
  reconciled = 0;
  threw = true;
}
after_write (some true) ids t rest = record rest {
  calls = ids ++ rest.calls;
  reconciled = suc rest.reconciled;
}
after_write (some false) ids t rest = rest

module _ (db : Dynamo) (live : List Text) (retention : ℕ) where
  -- The loop over the dispositions. `clock i` is the time of the `i`-th write.
  unfoldable pub close_all : (ℕ → ℕ) → List RunDisposition → db.Table → Swept db.Table
  unfolding leftover after_write
  close_all clock [] t = record {
    table = t;
    calls = [];
    terminated = 0;
    reconciled = 0;
    threw = false;
  }
  close_all clock (d ∷ ds) t =
      let moved = transition_run db (closing d) (clock 0) retention t in
      let rest = close_all (λ i. clock (suc i)) ds moved.0 in
      after_write moved.1 (leftover d.run.microvm_id live) moved.0 rest

-- The handler after its reads: `vms` is what `listMicroVMs` returns, `listed` what
-- `listRunsByStatus` returns for a status; `termination id` says whether a request to terminate that
-- VM succeeds, and one that fails is only logged.
unfoldable pub sweep :
    (db : Dynamo)
    → ReaperConfig
    → ℕ
    → (ℕ → ℕ)
    → ℕ
    → (Text → Bool)
    → List LiveMicroVm
    → (RunStatus → List RunRow)
    → db.Table
    → Swept db.Table
unfolding reconcile_runs over_cap_vms close_all
sweep db cfg now clock retention termination vms listed t =
    let live = map (λ vm. vm.microvm_id) vms in
    let active = listed running ++ (listed provisioning ++ listed queued) in
    let closed = close_all db live retention clock (reconcile_runs active live cfg now) t in
    let over = over_cap_vms vms cfg now in
    record closed {
      calls = map (λ vm. vm.microvm_id) over ++ closed.calls;
      terminated = length (filter (λ vm. termination vm.microvm_id) over);
    }
