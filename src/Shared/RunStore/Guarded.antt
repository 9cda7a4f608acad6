-- ===== src/Shared/RunStore/Guarded.antt =====
-- What the Boolean that a guarded write returns says of the row.
use lambda_ciactions.Common.{ℕ, ◌≡◌, refl, Bool, true, false, Option, none, some}
use lambda_ciactions.Shared.RunStore.{
  RunRow, TransitionInput, run_pk, build_transition_update, can_transition,
}
use lambda_ciactions.Shared.RunStore.Rows.{meets-transition, moved_row, assign_all-transition}
use lambda_ciactions.Shared.RunStore.Writes.{
  Dynamo, Outcome, Answers, done, refused, lost_before, lost_after, admits, updated, settle,
  transition_run,
}

-- A row that exists may take the status `to`.
unfoldable pub may_move : TransitionInput → Option RunRow → Bool
may_move input none = false
may_move input (some r) = can_transition r.status input.to

abbrev pub moved : TransitionInput → ℕ → ℕ → Option RunRow → Option RunRow
moved input now retention none = none
moved input now retention (some r) = some (moved_row input now retention r)

-- The item before the call, what the call returns, the item after it.
pub data Transitioned (input : TransitionInput) (now retention : ℕ) (old : Option RunRow)
    : Option Bool → Option RunRow → Type 0 where
  advanced :
      may_move input old ≡ true
      → Transitioned input now retention old (some true) (moved input now retention old)
  rejected : may_move input old ≡ false → Transitioned input now retention old (some false) old
  threw : Transitioned input now retention old none old
  threw_late :
      may_move input old ≡ true
      → Transitioned input now retention old none (moved input now retention old)

admits-may_move :
    (input : TransitionInput) (now retention : ℕ) (o : Option RunRow)
    → admits (build_transition_update input now retention) o ≡ may_move input o
unfolding may_move
admits-may_move input now retention none = refl
admits-may_move input now retention (some r) = meets-transition input now retention r

updated-moved :
    (input : TransitionInput) (now retention : ℕ) (o : Option RunRow)
    → updated (build_transition_update input now retention) o ≡ moved input now retention o
updated-moved input now retention none = refl
updated-moved input now retention (some r) = rw (assign_all-transition input now retention r) refl

of_answers :
    (input : TransitionInput) (now retention : ℕ) (old : Option RunRow) {o : Outcome}
    {new : Option RunRow}
    → Answers (may_move input old) old (moved input now retention old) o new
    → Transitioned input now retention old (settle o) new
unfolding settle
of_answers input now retention old (done h) = advanced h
of_answers input now retention old (refused h) = rejected h
of_answers input now retention old lost_before = threw
of_answers input now retention old (lost_after h) = threw_late h

module _ (db : Dynamo) where
  -- `transitionRun` returns true exactly where it moved the row forward by the whole of the update,
  -- false where the row is missing or the move is illegal, and leaves it as it was then; an error
  -- leaves the row as it was or moved.
  pub transition_run_lem :
      (input : TransitionInput) (now retention : ℕ) (t : db.Table)
      → let k = run_pk input.repo_id input.run_id input.job_id in
        Transitioned input now retention
          (db.get k t)
          (transition_run db input now retention t).1
          (db.get k (transition_run db input now retention t).0)
  unfolding transition_run
  transition_run_lem input now retention t =
      let k = run_pk input.repo_id input.run_id input.job_id in
      of_answers input now retention (db.get k t) (
        rw
          (
            ← admits-may_move input now retention (db.get k t),
            ← updated-moved input now retention (db.get k t),
          )
          (db.update_answers k (build_transition_update input now retention) t))
