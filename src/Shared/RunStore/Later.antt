-- ===== src/Shared/RunStore/Later.antt =====
-- What one write may make of a run row.
use lambda_ciactions.Common.{ℕ, ◌≡◌, refl, Bool, true, Option, none, some, arith, sym, ◌∙◌}
use lambda_ciactions.Common.Text.{Text}
use lambda_ciactions.Shared.Types.{
  RunStatus, queued, provisioning, running, completed, failed, timed_out,
}
use lambda_ciactions.Shared.RunStore.{
  RunRow, RunInput, TransitionInput, build_queued_item, build_transition_update, build_stamp_update,
  can_transition,
}
use lambda_ciactions.Shared.RunStore.Machine.{can_transition_refl, can_transition_trans}
use lambda_ciactions.Shared.RunStore.Rows.{
  assign_all, IsValid, build_queued_item-IsValid, meets-transition, moved_row, moved_row-IsValid,
  assign_all-transition, assign_all-stamp, watermark, first,
}
use lambda_ciactions.Shared.RunStore.Writes.{
  Outcome, Answers, done, refused, lost_before, lost_after, is_absent, admits, updated,
}

-- A row and what it has become: the status only moved forward, who and what the run is did not
-- change, a watermark that was set stayed, and a valid row stayed valid.
pub record Later (old new : RunRow) : Type 0 where
  pub forward : can_transition old.status new.status ≡ true
  pub same_input : new.input ≡ old.input
  pub same_creation : new.created_at ≡ old.created_at
  pub kept_provisioning : (t : ℕ) → old.provisioning_at ≡ some t → new.provisioning_at ≡ some t
  pub kept_running : (t : ℕ) → old.running_at ≡ some t → new.running_at ≡ some t
  pub still_valid : IsValid old → IsValid new

Later-refl : (r : RunRow) → Later r r
Later-refl r = record {
  forward = can_transition_refl r.status;
  same_input = refl;
  same_creation = refl;
  kept_provisioning = λ t e. e;
  kept_running = λ t e. e;
  still_valid = λ v. v;
}

Later-trans : (a b c : RunRow) → Later a b → Later b c → Later a c
Later-trans a b c x y = record {
  forward = can_transition_trans a.status b.status c.status x.forward y.forward;
  same_input = cc;
  same_creation = cc;
  kept_provisioning = λ t e. y.kept_provisioning t (x.kept_provisioning t e);
  kept_running = λ t e. y.kept_running t (x.kept_running t e);
  still_valid = λ v. y.still_valid (x.still_valid v);
}

-- An item before and after: a row is never lost, and a new one is valid.
unfoldable pub Kept : Option RunRow → Option RunRow → Type 0
Kept none none = Unit {0}
Kept none (some new) = IsValid new
Kept (some old) none = ⊥
Kept (some old) (some new) = Later old new

pub Kept-refl : (o : Option RunRow) → Kept o o
unfolding Kept
Kept-refl none = tt
Kept-refl (some r) = Later-refl r

pub Kept-trans : (a b c : Option RunRow) → Kept a b → Kept b c → Kept a c
unfolding Kept
Kept-trans none none c x y = y
Kept-trans none (some b) none x y = absurd y
Kept-trans none (some b) (some c) x y = y.still_valid x
Kept-trans (some a) none c x y = absurd x
Kept-trans (some a) (some b) none x y = absurd y
Kept-trans (some a) (some b) (some c) x y = Later-trans a b c x y

pub answers-Kept :
    {ok : Bool} {old written new : Option RunRow} {o : Outcome}
    → Answers ok old written o new
    → (ok ≡ true → Kept old written)
    → Kept old new
answers-Kept (done h) f = f h
answers-Kept {old} (refused h) f = Kept-refl old
answers-Kept {old} lost_before f = Kept-refl old
answers-Kept (lost_after h) f = f h

pub queued-Kept :
    (input : RunInput) (now : ℕ) (o : Option RunRow)
    → is_absent o ≡ true
    → Kept o (some (build_queued_item input now))
unfolding Kept
queued-Kept input now none h = build_queued_item-IsValid input now
queued-Kept input now (some r) h = ground arith

first_kept : (old : Option ℕ) (now t : ℕ) → old ≡ some t → first old now ≡ some t
first_kept none now t e = ground arith
first_kept (some v) now t e = e

provisioning_kept :
    (to : RunStatus) (old : Option ℕ) (now t : ℕ)
    → old ≡ some t
    → watermark provisioning to old now ≡ some t
provisioning_kept provisioning old now t e = first_kept old now t e
provisioning_kept queued old now t e = e
provisioning_kept running old now t e = e
provisioning_kept completed old now t e = e
provisioning_kept failed old now t e = e
provisioning_kept timed_out old now t e = e

running_kept :
    (to : RunStatus) (old : Option ℕ) (now t : ℕ)
    → old ≡ some t
    → watermark running to old now ≡ some t
running_kept running old now t e = first_kept old now t e
running_kept queued old now t e = e
running_kept provisioning old now t e = e
running_kept completed old now t e = e
running_kept failed old now t e = e
running_kept timed_out old now t e = e

moved-Later :
    (input : TransitionInput) (now retention : ℕ) (r : RunRow)
    → can_transition r.status input.to ≡ true
    → Later r (moved_row input now retention r)
moved-Later input now retention r legal = record {
  forward = legal;
  same_input = refl;
  same_creation = refl;
  kept_provisioning = provisioning_kept input.to r.provisioning_at now;
  kept_running = running_kept input.to r.running_at now;
  still_valid = moved_row-IsValid input now retention r legal;
}

stamped-Later :
    (id : Text) (token_hash : Option Text) (r : RunRow)
    → Later r (assign_all (build_stamp_update id token_hash).assigns r)
stamped-Later id token_hash r = rw (assign_all-stamp id token_hash r) record {
  forward = can_transition_refl r.status;
  same_input = refl;
  same_creation = refl;
  kept_provisioning = λ t e. e;
  kept_running = λ t e. e;
  still_valid = λ v. record {
    index_status = v.index_status;
    index_time = v.index_time;
    expires = v.expires;
    lives = v.lives;
    ran = v.ran;
    launched = v.launched;
  };
}

pub transition-Kept :
    (input : TransitionInput) (now retention : ℕ) (o : Option RunRow)
    → admits (build_transition_update input now retention) o ≡ true
    → Kept o (updated (build_transition_update input now retention) o)
unfolding Kept
transition-Kept input now retention none h = tt
transition-Kept input now retention (some r) h =
    rw (assign_all-transition input now retention r)
      (moved-Later input now retention r (sym (meets-transition input now retention r) ∙ h))

pub stamp-Kept :
    (id : Text) (token_hash : Option Text) (o : Option RunRow)
    → Kept o (updated (build_stamp_update id token_hash) o)
unfolding Kept
stamp-Kept id token_hash none = tt
stamp-Kept id token_hash (some r) = stamped-Later id token_hash r
