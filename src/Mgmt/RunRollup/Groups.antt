-- ===== src/Mgmt/RunRollup/Groups.antt =====
-- src/mgmt/run-rollup.ts: `groupRuns`.
use lambda_ciactions.Common.{ℕ, Bool, not, ◌&&◌, ◌||◌, List, [], ◌∷◌, ◌++◌, map}
use lambda_ciactions.Common.Tests.{if◌then◌else◌, ◌==◌, ltb, leb}
use lambda_ciactions.Common.Lists.{length, sort_by}
use lambda_ciactions.Common.Text.{Text, text_eq}
use lambda_ciactions.Shared.Types.{RunStatus}
use lambda_ciactions.Mgmt.RunRollup.{
  RunJobRow, fold_run_status, FlavorRollup, rollup_flavor, RunDurations, run_durations,
  run_group_key,
}

pub record RunGroup : Type 0 where
  pub key : Text
  pub repo_id : ℕ
  pub repo_full_name : Text
  pub run_id : ℕ
  pub job_count : ℕ
  pub status : RunStatus
  pub flavor : FlavorRollup
  pub durations : RunDurations
  pub started_at : ℕ
  pub is_partial : Bool
  pub jobs : List RunJobRow

-- An entry of `byRun`; it is never empty, so that its first row stands apart.
pub record Bucket : Type 0 where
  pub key : Text
  pub first : RunJobRow
  pub more : List RunJobRow

abbrev pub key_of : RunJobRow → Text
key_of row = run_group_key row.repo_id row.run_id

abbrev pub rows_of : Bucket → List RunJobRow
rows_of b = b.first ∷ b.more

abbrev pub pushed : RunJobRow → Bucket → Bucket
pushed row b = record b { more = b.more ++ (row ∷ []) }

unfoldable pub add_row : RunJobRow → List Bucket → List Bucket
unfolding run_group_key
add_row row [] = record { key = key_of row; first = row; more = [] } ∷ []
add_row row (b ∷ bs) =
    let rest = add_row row bs in if text_eq b.key (key_of row) then pushed row b ∷ bs else b ∷ rest

unfoldable pub buckets_from : List RunJobRow → List Bucket → List Bucket
unfolding add_row
buckets_from [] bs = bs
buckets_from (row ∷ rows) bs = buckets_from rows (add_row row bs)

-- Newest first, then by job id.
abbrev pub job_before : RunJobRow → RunJobRow → Bool
job_before a b =
    ltb b.created_at a.created_at || (a.created_at == b.created_at && leb a.job_id b.job_id)

abbrev pub group_before : RunGroup → RunGroup → Bool
group_before a b =
    ltb b.started_at a.started_at || (a.started_at == b.started_at && leb b.run_id a.run_id)

abbrev pub first_or : RunJobRow → List RunJobRow → RunJobRow
first_or d [] = d
first_or d (j ∷ js) = j

abbrev pub last_or : RunJobRow → List RunJobRow → RunJobRow
last_or d [] = d
last_or d (j ∷ js) = last_or j js

module _ (locale_le : Text → Text → Bool) (complete : Bool) where
  abbrev pub group_of : Bucket → RunGroup
  group_of b =
      let sorted = sort_by job_before (rows_of b) in
      let head = first_or b.first sorted in
      record {
        key = b.key;
        repo_id = head.repo_id;
        repo_full_name = head.repo_full_name;
        run_id = head.run_id;
        job_count = length sorted;
        status = fold_run_status (map (λ j. j.status) sorted);
        flavor = rollup_flavor locale_le (map (λ j. j.flavor) sorted);
        durations = run_durations sorted;
        started_at = (last_or b.first sorted).created_at;
        is_partial = not complete;
        jobs = sorted;
      }

  unfoldable pub group_runs : List RunJobRow → List RunGroup
  unfolding buckets_from sort_by fold_run_status rollup_flavor run_durations
  group_runs rows = sort_by group_before (map group_of (buckets_from rows []))
