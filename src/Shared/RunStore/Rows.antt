-- ===== src/Shared/RunStore/Rows.antt =====
-- What an update expression does to a row, and what every stored row satisfies.
use lambda_ciactions.Common.{
  ℕ, ◌+◌, ◌/◌, ◌≡◌, ◌≢◌, refl, Bool, true, false, Option, none, some, List, [], ◌∷◌, ◌++◌, arith,
}
use lambda_ciactions.Common.Tests.{if◌then◌else◌}
use lambda_ciactions.Common.Lists.{any}
use lambda_ciactions.Common.Text.{Text}
use lambda_ciactions.Shared.Types.{
  RunStatus, queued, provisioning, running, completed, failed, timed_out,
}
use lambda_ciactions.Shared.RunStore.{
  RunRow, RunInput, RunUpdate, Assign, TransitionInput, status_gsi_key, is_terminal, can_transition,
  build_queued_item, build_transition_update, build_stamp_update, same_status, phase_watermark,
  optional, present,
}

-- `if_not_exists(attr, v)`
abbrev pub first : Option ℕ → ℕ → Option ℕ
first none v = some v
first (some old) v = some old

unfoldable pub assign : Assign → RunRow → RunRow
assign (Assign.status s) r = record r { status = s }
assign (Assign.updated_at t) r = record r { updated_at = t }
assign (Assign.gsi1sk t) r = record r { gsi1sk = t }
assign (Assign.gsi1pk k) r = record r { gsi1pk = k }
assign (Assign.first_provisioning_at t) r = record r { provisioning_at = first r.provisioning_at t }
assign (Assign.first_running_at t) r = record r { running_at = first r.running_at t }
assign (Assign.flavor v) r = record r { flavor = some v }
assign (Assign.microvm_id v) r = record r { microvm_id = some v }
assign (Assign.reason v) r = record r { reason = some v }
assign (Assign.hook_token_hash v) r = record r { hook_token_hash = some v }
assign (Assign.ttl t) r = record r { ttl = some t }

unfoldable pub assign_all : List Assign → RunRow → RunRow
unfolding assign
assign_all [] r = r
assign_all (a ∷ rest) r = assign_all rest (assign a r)

-- The condition of an update, on a row that exists.
unfoldable pub meets : RunUpdate → RunRow → Bool
meets u r = elim u.allowed_from [
  | none ↦ true
  | some statuses ↦ any (same_status r.status) statuses
]

-- The status index names the status and the last change, a finished row and no other expires, and a
-- row that runs or is provisioned has the watermark of its phase.
pub record IsValid (r : RunRow) : Type 0 where
  pub index_status : r.gsi1pk ≡ status_gsi_key r.status
  pub index_time : r.gsi1sk ≡ r.updated_at
  pub expires : is_terminal r.status ≡ true → r.ttl ≢ none
  pub lives : is_terminal r.status ≡ false → r.ttl ≡ none
  pub ran : r.status ≡ running → r.running_at ≢ none
  pub launched : r.status ≡ provisioning → r.provisioning_at ≢ none

pub build_queued_item-IsValid : (input : RunInput) (now : ℕ) → IsValid (build_queued_item input now)
unfolding build_queued_item is_terminal
build_queued_item-IsValid input now = ground arith

-- The condition of a transition holds exactly where `canTransition` allows it.
pub meets-transition :
    (input : TransitionInput) (now retention : ℕ) (r : RunRow)
    → meets (build_transition_update input now retention) r ≡ can_transition r.status input.to
unfolding meets build_transition_update can_transition
meets-transition input now retention r = ground arith

assign_all-append :
    (xs ys : List Assign) (r : RunRow) → assign_all (xs ++ ys) r ≡ assign_all ys (assign_all xs r)
unfolding assign_all
assign_all-append [] ys r = refl
assign_all-append (x ∷ xs) ys r = assign_all-append xs ys (assign x r)

-- The later of two optional values.
abbrev pub newer {ℓ} : {A : Type ℓ} → Option A → Option A → Option A
newer none old = old
newer (some v) old = some v

abbrev pub watermark : RunStatus → RunStatus → Option ℕ → ℕ → Option ℕ
watermark provisioning provisioning old now = first old now
watermark running running old now = first old now
watermark _ _ old now = old

-- The row that a transition leaves, attribute by attribute.
abbrev pub moved_row : TransitionInput → ℕ → ℕ → RunRow → RunRow
moved_row input now retention r = record r {
  status = input.to;
  updated_at = now;
  gsi1pk = status_gsi_key input.to;
  gsi1sk = now;
  provisioning_at = watermark provisioning input.to r.provisioning_at now;
  running_at = watermark running input.to r.running_at now;
  flavor = newer input.flavor r.flavor;
  microvm_id = newer input.microvm_id r.microvm_id;
  reason = newer input.reason r.reason;
  ttl = if is_terminal input.to then some (now / 1000 + retention) else r.ttl;
}

assign_phase :
    (to : RunStatus) (now : ℕ) (r : RunRow)
    → assign_all (phase_watermark to now) r ≡ record r {
      provisioning_at = watermark provisioning to r.provisioning_at now;
      running_at = watermark running to r.running_at now;
    }
unfolding assign_all
assign_phase queued now r = refl
assign_phase provisioning now r = refl
assign_phase running now r = refl
assign_phase completed now r = refl
assign_phase failed now r = refl
assign_phase timed_out now r = refl

assign_flavor :
    (o : Option Text) (r : RunRow)
    → assign_all (optional Assign.flavor o) r ≡ record r { flavor = newer o r.flavor }
unfolding assign_all
assign_flavor none r = refl
assign_flavor (some v) r = refl

assign_microvm_id :
    (o : Option Text) (r : RunRow)
    → assign_all (optional Assign.microvm_id o) r ≡ record r { microvm_id = newer o r.microvm_id }
unfolding assign_all
assign_microvm_id none r = refl
assign_microvm_id (some v) r = refl

assign_reason :
    (o : Option Text) (r : RunRow)
    → assign_all (optional Assign.reason o) r ≡ record r { reason = newer o r.reason }
unfolding assign_all
assign_reason none r = refl
assign_reason (some v) r = refl

assign_ttl :
    (b : Bool) (t : ℕ) (r : RunRow)
    → assign_all (if b then Assign.ttl t ∷ [] else []) r
      ≡ record r { ttl = if b then some t else r.ttl }
unfolding assign_all
assign_ttl true t r = refl
assign_ttl false t r = refl

-- What a transition leaves in the row.
pub assign_all-transition :
    (input : TransitionInput) (now retention : ℕ) (r : RunRow)
    → assign_all (build_transition_update input now retention).assigns r
      ≡ moved_row input now retention r
unfolding build_transition_update assign_all
assign_all-transition input now retention r =
    simp
      (assign_all-append, assign_phase, assign_flavor, assign_microvm_id, assign_reason, assign_ttl)

-- A transition keeps a row valid, also a rewrite of the status that the row has.
pub moved_row-IsValid :
    (input : TransitionInput) (now retention : ℕ) (r : RunRow)
    → can_transition r.status input.to ≡ true
    → IsValid r
    → IsValid (moved_row input now retention r)
unfolding can_transition
moved_row-IsValid input now retention r legal valid = record {
  index_status = refl;
  index_time = refl;
  expires = ground arith;
  lives = ground arith;
  ran = ground arith;
  launched = ground arith;
}

assign_hash :
    (o : Option Text) (r : RunRow)
    → assign_all (optional Assign.hook_token_hash o) r
      ≡ record r { hook_token_hash = newer o r.hook_token_hash }
unfolding assign_all
assign_hash none r = refl
assign_hash (some v) r = refl

pub assign_all-stamp :
    (id : Text) (token_hash : Option Text) (r : RunRow)
    → assign_all (build_stamp_update id token_hash).assigns r ≡ record r {
      microvm_id = some id;
      hook_token_hash = newer (present token_hash) r.hook_token_hash;
    }
unfolding build_stamp_update assign_all
assign_all-stamp id token_hash r =
    assign_hash (present token_hash) (record r { microvm_id = some id })
