-- ===== src/Witnesses/RunStore.antt =====
-- The run store at a concrete run, over a table in memory.
use lambda_ciactions.Common.{◌≡◌, ◌≢◌, refl, true, arith, ◌↔◌, none, some, List, [], ◌∷◌}
use lambda_ciactions.Common.Text.{Text, codes}
use lambda_ciactions.Shared.Types.{provisioning, running, completed, failed}
use lambda_ciactions.Shared.RunStore.{RunInput, TransitionInput, run_pk, can_transition}
use lambda_ciactions.Shared.RunStore.Machine.{Ahead, can_transition_iff}
use lambda_ciactions.Shared.RunStore.Writes.{settle, put_queued_run, transition_run}
use lambda_ciactions.Shared.RunStore.Later.{Kept}
use lambda_ciactions.Shared.RunStore.History.{Write, put, transition, write_all, write_all-Kept}
use lambda_ciactions.Shared.RunStore.Guarded.{Transitioned, transition_run_lem}
use lambda_ciactions.Shared.RunStore.Once.{put_queued_run_once}
use lambda_ciactions.Shared.RunStore.InMemory.{Rows, conditional, in_memory}

can_transition_iff_example : (can_transition provisioning failed ≡ true) ↔ Ahead provisioning failed
can_transition_iff_example = can_transition_iff provisioning failed

abbrev input : RunInput
input = record {
  repo_id = 7;
  repo_full_name = codes "o/r";
  installation_id = 1;
  run_id = 20;
  job_id = 300;
  labels = codes "lambda-ci" ∷ [];
  workflow_name = none;
  job_name = none;
}

abbrev to_running : TransitionInput
to_running = record {
  repo_id = 7;
  run_id = 20;
  job_id = 300;
  to = running;
  flavor = some (codes "base");
  microvm_id = some (codes "vm-1");
  reason = none;
}

abbrev no_rows : Rows
no_rows k = none

abbrev key : Text
key = run_pk 7 20 300

-- A late `running` after the end of the job, and a second delivery of the first event.
abbrev late : List Write
late =
    put input 1000
    ∷ transition (record to_running { to = completed }) 2000 60
    ∷ transition to_running 3000 60
    ∷ put input 4000
    ∷ []

write_all-Kept_example : Kept (no_rows key) (write_all in_memory late no_rows key)
write_all-Kept_example = write_all-Kept in_memory late key no_rows

abbrev stored : Rows
stored = (put_queued_run in_memory input 1000 no_rows).0

transition_run_lem_example :
    Transitioned to_running 2000 60
      (stored key)
      (transition_run in_memory to_running 2000 60 stored).1
      ((transition_run in_memory to_running 2000 60 stored).0 key)
transition_run_lem_example = transition_run_lem in_memory to_running 2000 60 stored

put_settled : (put_queued_run in_memory input 1000 no_rows).1 ≢ none
unfolding put_queued_run settle conditional
put_settled h = ground arith

put_queued_run_once_example :
    (put_queued_run in_memory input 4000 (write_all in_memory late stored)).1 ≢ some true
put_queued_run_once_example =
    put_queued_run_once in_memory input 1000 input 4000 late no_rows refl put_settled
