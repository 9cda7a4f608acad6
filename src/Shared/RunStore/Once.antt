-- ===== src/Shared/RunStore/Once.antt =====
-- The deduplication of webhook deliveries by the first write of a run row.
use lambda_ciactions.Common.{ℕ, ◌≡◌, ◌≢◌, refl, Bool, true, false, arith, Option, none, some, List}
use lambda_ciactions.Shared.RunStore.{RunRow, RunInput, run_pk, build_queued_item}
use lambda_ciactions.Shared.RunStore.Writes.{
  Dynamo, Outcome, Answers, done, refused, lost_before, lost_after, is_absent, settle,
  put_queued_run,
}
use lambda_ciactions.Shared.RunStore.Later.{Kept}
use lambda_ciactions.Shared.RunStore.History.{Write, write_all, write_all-Kept}

present_after :
    {old new : Option RunRow} {r : RunRow} {o : Outcome}
    → Answers (is_absent old) old (some r) o new
    → settle o ≢ none
    → is_absent new ≡ false
unfolding settle
present_after (done h) f = refl
present_after (refused h) f = h
present_after lost_before f = absurd (f refl)
present_after (lost_after h) f = refl

present-Kept :
    (old new : Option RunRow) → Kept old new → is_absent old ≡ false → is_absent new ≡ false
unfolding Kept
present-Kept none new k h = ground arith
present-Kept (some r) none k h = absurd k
present-Kept (some r) (some r') k h = refl

not_again :
    {ok : Bool} {old written new : Option RunRow} {o : Outcome}
    → Answers ok old written o new
    → ok ≡ false
    → settle o ≢ some true
unfolding settle
not_again (done h) f = ground arith
not_again (refused h) f = ground arith
not_again lost_before f = ground arith
not_again (lost_after h) f = ground arith

module _ (db : Dynamo) where
  -- After a first write of a run that did not throw, no later write of the same run creates its row,
  -- whatever is written between them.
  pub put_queued_run_once :
      (input : RunInput) (now : ℕ) (again : RunInput) (later : ℕ) (ws : List Write) (t : db.Table)
      → run_pk again.repo_id again.run_id again.job_id
        ≡ run_pk input.repo_id input.run_id input.job_id
      → (put_queued_run db input now t).1 ≢ none
      → (put_queued_run db again later (write_all db ws (put_queued_run db input now t).0)).1
        ≢ some true
  unfolding put_queued_run
  put_queued_run_once input now again later ws t same settled =
      let k = run_pk input.repo_id input.run_id input.job_id in
      let t₁ = (put_queued_run db input now t).0 in
      not_again
        (db.put_answers (run_pk again.repo_id again.run_id again.job_id)
          (build_queued_item again later) (write_all db ws t₁))
        (rw same (
          present-Kept (db.get k t₁) (db.get k (write_all db ws t₁)) (write_all-Kept db ws k t₁)
            (present_after (db.put_answers k (build_queued_item input now) t) settled)))
