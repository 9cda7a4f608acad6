-- ===== src/Shared/RunStore/Machine.antt =====
-- The transition rule against the diagram of statuses.
use lambda_ciactions.Common.{◌≡◌, ◌↔◌, refl, true, arith}
use lambda_ciactions.Shared.Types.{
  RunStatus, queued, provisioning, running, completed, failed, timed_out,
}
use lambda_ciactions.Shared.RunStore.{can_transition}

-- The arrows of the diagram in the module's header comment.
pub data Arrow : RunStatus → RunStatus → Type 0 where
  launch : Arrow queued provisioning
  start : Arrow provisioning running
  complete : Arrow running completed
  fail : Arrow running failed
  time_out : Arrow running timed_out

-- The statuses that the arrows lead to from a status, itself included.
pub data Ahead : RunStatus → RunStatus → Type 0 where
  stay : {s : RunStatus} → Ahead s s
  follow : {a b c : RunStatus} → Arrow a b → Ahead b c → Ahead a c

pub can_transition_refl : (s : RunStatus) → can_transition s s ≡ true
unfolding can_transition
can_transition_refl s = ground arith

pub can_transition_trans :
    (a b c : RunStatus)
    → can_transition a b ≡ true
    → can_transition b c ≡ true
    → can_transition a c ≡ true
unfolding can_transition
can_transition_trans a b c h k = ground arith

can_transition-of_Arrow : {from to : RunStatus} → Arrow from to → can_transition from to ≡ true
unfolding can_transition
can_transition-of_Arrow launch = refl
can_transition-of_Arrow start = refl
can_transition-of_Arrow complete = refl
can_transition-of_Arrow fail = refl
can_transition-of_Arrow time_out = refl

can_transition-of_Ahead : {from to : RunStatus} → Ahead from to → can_transition from to ≡ true
can_transition-of_Ahead (stay {s}) = can_transition_refl s
can_transition-of_Ahead (follow {a} {b} {c} arrow rest) =
    can_transition_trans a b c (can_transition-of_Arrow arrow) (can_transition-of_Ahead rest)

-- What can end a run.
Ahead-running : (to : RunStatus) → can_transition running to ≡ true → Ahead running to
unfolding can_transition
Ahead-running running h = stay
Ahead-running completed h = follow complete stay
Ahead-running failed h = follow fail stay
Ahead-running timed_out h = follow time_out stay
Ahead-running queued h = ground arith
Ahead-running provisioning h = ground arith

Ahead-provisioning :
    (to : RunStatus) → can_transition provisioning to ≡ true → Ahead provisioning to
unfolding can_transition
Ahead-provisioning provisioning h = stay
Ahead-provisioning queued h = ground arith
Ahead-provisioning running h = follow start stay
Ahead-provisioning completed h = follow start (Ahead-running completed refl)
Ahead-provisioning failed h = follow start (Ahead-running failed refl)
Ahead-provisioning timed_out h = follow start (Ahead-running timed_out refl)

Ahead-queued : (to : RunStatus) → can_transition queued to ≡ true → Ahead queued to
unfolding can_transition
Ahead-queued queued h = stay
Ahead-queued provisioning h = follow launch stay
Ahead-queued running h = follow launch (Ahead-provisioning running refl)
Ahead-queued completed h = follow launch (Ahead-provisioning completed refl)
Ahead-queued failed h = follow launch (Ahead-provisioning failed refl)
Ahead-queued timed_out h = follow launch (Ahead-provisioning timed_out refl)

Ahead-of_can_transition : (from to : RunStatus) → can_transition from to ≡ true → Ahead from to
unfolding can_transition
Ahead-of_can_transition queued to h = Ahead-queued to h
Ahead-of_can_transition provisioning to h = Ahead-provisioning to h
Ahead-of_can_transition running to h = Ahead-running to h
Ahead-of_can_transition completed completed h = stay
Ahead-of_can_transition failed failed h = stay
Ahead-of_can_transition timed_out timed_out h = stay
Ahead-of_can_transition _ _ h = ground arith

-- `canTransition` allows a move exactly where the documented diagram leads from the one status to the
-- other, in no, one or several arrows.
pub can_transition_iff : (from to : RunStatus) → (can_transition from to ≡ true) ↔ Ahead from to
can_transition_iff from to = (Ahead-of_can_transition from to, can_transition-of_Ahead)
