-- ===== src/Witnesses/Rollup.antt =====
-- The rollup of runs at concrete rows.
use lambda_ciactions.Common.{◌≡◌, refl, true, false, ◌↔◌, none, some, List, [], ◌∷◌, map}
use lambda_ciactions.Common.Lists.{In, insert_by, sort_by}
use lambda_ciactions.Common.Text.{codes, text_le, text_ops}
use lambda_ciactions.Shared.Types.{RunStatus}
use lambda_ciactions.Shared.RunStore.{same_status}
use lambda_ciactions.Mgmt.RunRollup.{
  RunJobRow, no_seam, fold_run_status, count_flavor, count_flavors, rollup_flavor, run_durations,
  seam_after_hop, head_seam_intact, run_group_key,
}
use lambda_ciactions.Mgmt.RunRollup.Groups.{RunGroup, add_row, buckets_from, group_runs}
use lambda_ciactions.Mgmt.RunRollup.Partition.{group_runs-partition}

abbrev build : RunJobRow
build = record {
  repo_id = 7;
  repo_full_name = codes "octo/app";
  run_id = 17;
  job_id = 1;
  status = RunStatus.running;
  flavor = some (codes "node");
  created_at = 5000;
  updated_at = 9000;
  duration_seconds = 4;
}

abbrev lint : RunJobRow
lint = record build {
  job_id = 2;
  status = RunStatus.failed;
  flavor = some (codes "docker");
  created_at = 6000;
  updated_at = 12600;
  duration_seconds = 7;
}

abbrev deploy : RunJobRow
deploy = record build { run_id = 18; flavor = none; created_at = 20000; updated_at = 20000 }

abbrev window : List RunJobRow
window = build ∷ deploy ∷ lint ∷ []

group_runs_tests :
    (map (λ g. g.run_id) (group_runs text_le true window) ≡ 18 ∷ 17 ∷ [])
    × (map (λ g. g.status) (group_runs text_le true window)
        ≡ RunStatus.running ∷ RunStatus.failed ∷ [])
    × (map (λ g. g.durations.wall_clock_seconds) (group_runs text_le true window) ≡ 0 ∷ 8 ∷ [])
    × (map (λ g. g.durations.job_time_seconds) (group_runs text_le true window) ≡ 4 ∷ 11 ∷ [])
    × (map (λ g. g.flavor.label) (group_runs text_le true window)
        ≡ (8212 ∷ []) ∷ codes "docker +1" ∷ [])
    × (map (λ g. g.started_at) (group_runs text_le true window) ≡ 20000 ∷ 5000 ∷ [])
    × (map (λ g. map (λ j. j.job_id) g.jobs) (group_runs text_le true window)
        ≡ (1 ∷ []) ∷ (2 ∷ 1 ∷ []) ∷ [])
unfolding text_ops insert_by sort_by same_status fold_run_status count_flavor count_flavors
    rollup_flavor run_durations run_group_key add_row buckets_from group_runs
group_runs_tests = (refl, refl, refl, refl, refl, refl, refl)

seam_tests :
    (head_seam_intact no_seam [] ≡ true)
    × (head_seam_intact (seam_after_hop no_seam (some (codes "7-17-1"))) (codes "7-18-1" ∷ [])
        ≡ false)
    × (head_seam_intact (seam_after_hop no_seam none) (codes "7-18-1" ∷ []) ≡ false)
unfolding text_ops seam_after_hop head_seam_intact
seam_tests = (refl, refl, refl)

group_runs-partition_example :
    ((j : RunJobRow)
      → In j window
      → (g : RunGroup) × In g (group_runs text_le true window) × In j g.jobs)
    × ((g : RunGroup)
        → In g (group_runs text_le true window)
        → (j : RunJobRow)
        → In j g.jobs ↔ (In j window × (j.repo_id ≡ g.repo_id) × (j.run_id ≡ g.run_id)))
    × ((g h : RunGroup)
        → In g (group_runs text_le true window)
        → In h (group_runs text_le true window)
        → g.repo_id ≡ h.repo_id
        → g.run_id ≡ h.run_id
        → g ≡ h)
group_runs-partition_example = group_runs-partition text_le true window
