-- ===== src/Mgmt/RunRollup.antt =====
-- src/mgmt/run-rollup.ts. A timestamp is the milliseconds of its ISO text, as the run store writes it;
-- `localeCompare` is a parameter of the flavor fold.
pub mod Buckets
pub mod Groups
pub mod Partition
use lambda_ciactions.Common.{
  ℕ, ◌+◌, ◌-◌, ◌/◌, Bool, true, false, not, ◌&&◌, ◌||◌, Option, none, some, List, [], ◌∷◌, ◌++◌,
  map,
}
use lambda_ciactions.Common.Tests.{if◌then◌else◌, ◌==◌, ltb, leb}
use lambda_ciactions.Common.Lists.{any, length, sort_by}
use lambda_ciactions.Common.Text.{Text, codes, decimal, text_eq, is_member}
use lambda_ciactions.Shared.Types.{RunStatus}
use lambda_ciactions.Shared.RunStore.{same_status}

pub record RunJobRow : Type 0 where
  pub repo_id : ℕ
  pub repo_full_name : Text
  pub run_id : ℕ
  pub job_id : ℕ
  pub status : RunStatus
  pub flavor : Option Text
  pub created_at : ℕ
  pub updated_at : ℕ
  pub duration_seconds : ℕ

abbrev pub fold_order : List RunStatus
fold_order =
    RunStatus.failed ∷ RunStatus.timed_out ∷ RunStatus.running ∷ RunStatus.provisioning
    ∷ RunStatus.queued ∷ RunStatus.completed ∷ []

abbrev pub fold_from : List RunStatus → List RunStatus → RunStatus
fold_from statuses [] = RunStatus.queued
fold_from statuses (candidate ∷ rest) =
    if any (same_status candidate) statuses then candidate else fold_from statuses rest

unfoldable pub fold_run_status : List RunStatus → RunStatus
unfolding same_status
fold_run_status statuses = fold_from statuses fold_order

pub record FlavorRollup : Type 0 where
  pub label : Text
  pub distinct : List Text
  pub mixed : Bool

-- A name with the number of its jobs.
pub record Count : Type 0 where
  pub name : Text
  pub jobs : ℕ

unfoldable pub count_flavor : Text → List Count → List Count
count_flavor f [] = record { name = f; jobs = 1 } ∷ []
count_flavor f (c ∷ cs) =
    let rest = count_flavor f cs in
    if text_eq c.name f then record c { jobs = c.jobs + 1 } ∷ cs else c ∷ rest

-- The names in the order of their first job; an absent or empty name is skipped.
unfoldable pub count_flavors : List (Option Text) → List Count → List Count
unfolding count_flavor
count_flavors [] cs = cs
count_flavors (none ∷ fs) cs = count_flavors fs cs
count_flavors (some [] ∷ fs) cs = count_flavors fs cs
count_flavors (some (c ∷ f) ∷ fs) cs = count_flavors fs (count_flavor (c ∷ f) cs)

abbrev pub em_dash : Text
em_dash = 8212 ∷ []

abbrev pub flavor_rollup_of : List Text → FlavorRollup
flavor_rollup_of [] = record { label = em_dash; distinct = []; mixed = false }
flavor_rollup_of (f ∷ []) = record { label = f; distinct = f ∷ []; mixed = false }
flavor_rollup_of (f ∷ g ∷ fs) = record {
  label = f ++ (codes " +" ++ decimal (length (g ∷ fs)));
  distinct = f ∷ g ∷ fs;
  mixed = true;
}

abbrev pub more_jobs : (Text → Text → Bool) → Count → Count → Bool
more_jobs locale_le a b = ltb b.jobs a.jobs || (a.jobs == b.jobs && locale_le a.name b.name)

unfoldable pub rollup_flavor : (Text → Text → Bool) → List (Option Text) → FlavorRollup
unfolding count_flavors sort_by
rollup_flavor locale_le flavors =
    flavor_rollup_of (map (λ c. c.name) (sort_by (more_jobs locale_le) (count_flavors flavors [])))

abbrev pub earliest : ℕ → List RunJobRow → ℕ
earliest t [] = t
earliest t (j ∷ js) = earliest (if ltb j.created_at t then j.created_at else t) js

abbrev pub latest : ℕ → List RunJobRow → ℕ
latest t [] = t
latest t (j ∷ js) = latest (if ltb t j.updated_at then j.updated_at else t) js

abbrev pub job_time : List RunJobRow → ℕ
job_time [] = 0
job_time (j ∷ js) = j.duration_seconds + job_time js

pub record RunDurations : Type 0 where
  pub wall_clock_seconds : ℕ
  pub job_time_seconds : ℕ

-- `Math.round` of the milliseconds over a thousand; 0 where the end is not after the start.
abbrev pub span_seconds : List RunJobRow → ℕ
span_seconds [] = 0
span_seconds (j ∷ js) = (latest j.updated_at js - earliest j.created_at js + 500) / 1000

unfoldable pub run_durations : List RunJobRow → RunDurations
run_durations jobs = record {
  wall_clock_seconds = span_seconds jobs;
  job_time_seconds = job_time jobs;
}

pub record WindowShape : Type 0 where
  pub status_filtered : Bool
  pub next_cursor : Option Text
  pub seam_intact : Bool
  pub server_complete : Bool

unfoldable pub window_complete : WindowShape → Bool
window_complete w =
    not w.status_filtered
    && (elim w.next_cursor [ none ↦ true | some c ↦ false ] && (w.seam_intact && w.server_complete))

pub record SeamState : Type 0 where
  pub paged_past_head : Bool
  pub boundary_key : Option Text

abbrev pub no_seam : SeamState
no_seam = record { paged_past_head = false; boundary_key = none }

unfoldable pub seam_after_hop : SeamState → Option Text → SeamState
seam_after_hop prev tail =
    if prev.paged_past_head then prev else record { paged_past_head = true; boundary_key = tail }

-- An absent or empty boundary shows nothing.
abbrev pub holds_boundary : Option Text → List Text → Bool
holds_boundary none keys = false
holds_boundary (some []) keys = false
holds_boundary (some (c ∷ key)) keys = is_member (c ∷ key) keys

unfoldable pub head_seam_intact : SeamState → List Text → Bool
head_seam_intact seam head_keys =
    if not seam.paged_past_head then true else holds_boundary seam.boundary_key head_keys

unfoldable pub merged_response_complete : Bool → ℕ → ℕ → Bool
merged_response_complete any_index_truncated visible_rows returned_rows =
    not any_index_truncated && returned_rows == visible_rows

unfoldable pub run_group_key : ℕ → ℕ → Text
run_group_key repo_id run_id = decimal repo_id ++ (codes "-" ++ decimal run_id)
