-- ===== src/Shared/RunStore/Writes.antt =====
-- src/shared/run-store.ts: the writes. DynamoDB is a parameter: one item for each partition key.
use lambda_ciactions.Common.{ℕ, ◌≡◌, ◌≢◌, Bool, true, false, Option, none, some}
use lambda_ciactions.Common.Text.{Text}
use lambda_ciactions.Shared.RunStore.{
  RunRow, RunInput, RunUpdate, TransitionInput, run_pk, build_queued_item, build_transition_update,
  build_stamp_update,
}
use lambda_ciactions.Shared.RunStore.Rows.{assign_all, meets}

-- How the service answers a conditional write. A `fault` is any other error: a timeout, throttling.
pub data Outcome : Type 0 where
  applied condition_failed fault : Outcome

-- What a conditional write may do to the item: `ok` is its condition, `written` the item it makes.
pub data Answers (ok : Bool) (old written : Option RunRow) : Outcome → Option RunRow → Type 0 where
  done : ok ≡ true → Answers ok old written applied written
  refused : ok ≡ false → Answers ok old written condition_failed old
  lost_before : Answers ok old written fault old
  lost_after : ok ≡ true → Answers ok old written fault written

abbrev pub is_absent : Option RunRow → Bool
is_absent none = true
is_absent (some r) = false

-- `attribute_exists(pk)` and the list of allowed statuses.
abbrev pub admits : RunUpdate → Option RunRow → Bool
admits u none = false
admits u (some r) = meets u r

abbrev pub updated : RunUpdate → Option RunRow → Option RunRow
updated u none = none
updated u (some r) = some (assign_all u.assigns r)

-- The documented behaviour of `PutCommand` with `attribute_not_exists(pk)` and of `UpdateCommand`
-- with a condition on the item.
pub record Dynamo : Type 1 where
  pub Table : Type 0
  pub get : Text → Table → Option RunRow
  pub put : Text → RunRow → Table → Table × Outcome
  pub update : Text → RunUpdate → Table → Table × Outcome
  pub put_answers :
      (k : Text) (r : RunRow) (t : Table)
      → Answers (is_absent (get k t)) (get k t) (some r) (put k r t).1 (get k (put k r t).0)
  pub put_other :
      (k other : Text) (r : RunRow) (t : Table) → other ≢ k → get other (put k r t).0 ≡ get other t
  pub update_answers :
      (k : Text) (u : RunUpdate) (t : Table)
      → Answers
          (admits u (get k t))
          (get k t)
          (updated u (get k t))
          (update k u t).1
          (get k (update k u t).0)
  pub update_other :
      (k other : Text) (u : RunUpdate) (t : Table)
      → other ≢ k
      → get other (update k u t).0 ≡ get other t

-- What the caller sees: a Boolean, or the error that is thrown on (`none`).
unfoldable pub settle : Outcome → Option Bool
settle applied = some true
settle condition_failed = some false
settle fault = none

module _ (db : Dynamo) where
  unfoldable pub put_queued_run : RunInput → ℕ → db.Table → db.Table × Option Bool
  put_queued_run input now t =
      let answer =
        db.put (run_pk input.repo_id input.run_id input.job_id) (build_queued_item input now) t in
      (answer.0, settle answer.1)

  unfoldable pub transition_run : TransitionInput → ℕ → ℕ → db.Table → db.Table × Option Bool
  transition_run input now retention t =
      let answer =
        db.update (run_pk input.repo_id input.run_id input.job_id)
          (build_transition_update input now retention) t in
      (answer.0, settle answer.1)

  -- The ids of the run, the id of the VM and the hash of its token.
  unfoldable pub stamp_microvm_id :
      ℕ → ℕ → ℕ → Text → Option Text → db.Table → db.Table × Option Bool
  stamp_microvm_id repo_id run_id job_id id token_hash t =
      let answer = db.update (run_pk repo_id run_id job_id) (build_stamp_update id token_hash) t in
      (answer.0, settle answer.1)
