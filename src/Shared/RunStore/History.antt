-- ===== src/Shared/RunStore/History.antt =====
-- What any sequence of writes, faults included, does to a run row.
use lambda_ciactions.Common.{
  ℕ, ◌≡◌, refl, sym, ap, ◌∙◌, ◌++◌, true, Option, List, [], ◌∷◌, inl, inr,
}
use lambda_ciactions.Common.Text.{Text, text_cases}
use lambda_ciactions.Shared.RunStore.{RunInput, RunUpdate, TransitionInput, build_queued_item}
use lambda_ciactions.Shared.RunStore.Writes.{
  Dynamo, admits, updated, put_queued_run, transition_run, stamp_microvm_id,
}
use lambda_ciactions.Shared.RunStore.Later.{
  Kept, Kept-refl, Kept-trans, answers-Kept, queued-Kept, transition-Kept, stamp-Kept,
}

-- A call of one of the three writes, with the time it is made at.
pub data Write : Type 0 where
  put : RunInput → ℕ → Write
  transition : TransitionInput → ℕ → ℕ → Write
  stamp : ℕ → ℕ → ℕ → Text → Option Text → Write

module _ (db : Dynamo) where
  unfoldable pub write : Write → db.Table → db.Table
  unfolding put_queued_run transition_run stamp_microvm_id
  write (put input now) t = (put_queued_run db input now t).0
  write (transition input now retention) t = (transition_run db input now retention t).0
  write (stamp repo_id run_id job_id id token_hash) t =
      (stamp_microvm_id db repo_id run_id job_id id token_hash t).0

  unfoldable pub write_all : List Write → db.Table → db.Table
  unfolding write
  write_all [] t = t
  write_all (w ∷ ws) t = write_all ws (write w t)

  put_row-Kept :
      (k other : Text) (input : RunInput) (now : ℕ) (t : db.Table)
      → Kept (db.get other t) (db.get other (db.put k (build_queued_item input now) t).0)
  put_row-Kept k other input now t = elim (text_cases other k) [
    | inl e ↦ rw e (
        answers-Kept (db.put_answers k (build_queued_item input now) t)
          (queued-Kept input now (db.get k t)))
    | inr n ↦
        rw (db.put_other k other (build_queued_item input now) t n) (Kept-refl (db.get other t))
  ]

  update_row-Kept :
      (k other : Text) (u : RunUpdate) (t : db.Table)
      → (admits u (db.get k t) ≡ true → Kept (db.get k t) (updated u (db.get k t)))
      → Kept (db.get other t) (db.get other (db.update k u t).0)
  update_row-Kept k other u t f = elim (text_cases other k) [
    | inl e ↦ rw e (answers-Kept (db.update_answers k u t) f)
    | inr n ↦ rw (db.update_other k other u t n) (Kept-refl (db.get other t))
  ]

  write-Kept : (w : Write) (k : Text) (t : db.Table) → Kept (db.get k t) (db.get k (write w t))
  unfolding write
  write-Kept (put input now) k t = put_row-Kept _ k input now t
  write-Kept (transition input now retention) k t =
      update_row-Kept _ k _ t (transition-Kept input now retention (db.get _ t))
  write-Kept (stamp repo_id run_id job_id id token_hash) k t =
      update_row-Kept _ k _ t (λ h. stamp-Kept id token_hash (db.get _ t))

  -- Whatever the writes, their order and their faults: no row is lost, a row only moves forward, a
  -- new row is valid and a valid row stays valid.
  pub write_all-Kept :
      (ws : List Write) (k : Text) (t : db.Table) → Kept (db.get k t) (db.get k (write_all ws t))
  unfolding write_all
  write_all-Kept [] k t = Kept-refl (db.get k t)
  write_all-Kept (w ∷ ws) k t =
      Kept-trans _ _ _ (write-Kept w k t) (write_all-Kept ws k (write w t))

  -- The second table comes from the first by writes of the run store.
  pub record Written (before after : db.Table) : Type 0 where
    pub writes : List Write
    pub made : after ≡ write_all writes before

  pub unwritten : (t : db.Table) → Written t t
  unfolding write_all
  unwritten t = record { writes = []; made = refl }

  write_all-append :
      (xs ys : List Write) (t : db.Table) → write_all (xs ++ ys) t ≡ write_all ys (write_all xs t)
  unfolding write_all
  write_all-append [] ys t = refl
  write_all-append (x ∷ xs) ys t = write_all-append xs ys (write x t)

  pub then : (a b c : db.Table) → Written a b → Written b c → Written a c
  then a b c x y = record {
    writes = x.writes ++ y.writes;
    made = y.made ∙ ap (write_all y.writes) x.made ∙ sym (write_all-append x.writes y.writes a);
  }

  -- So does all that such writes make of a table.
  pub Written-Kept :
      (before after : db.Table)
      → Written before after
      → (k : Text) → Kept (db.get k before) (db.get k after)
  Written-Kept before after w k = rw w.made (write_all-Kept w.writes k before)
