-- ===== src/Tests/Runs.antt =====
-- The theorems on runs at concrete inputs.
use cs455_project.Prelude.{ℕ, ◌≡◌, refl, true, false, none, some, [], ◌∷◌, pos}
use cs455_project.Status.{can_transition, is_finished, queued, cancelled, last_stage}
use cs455_project.Roles.{debugger}
use cs455_project.Database.{Member, File, get_member, Db, Execution, Fields, api, execution_row}
use cs455_project.Execution.{moved, new_execution, no_fields, claim, change_status, insert_queued}
use cs455_project.Execution.Audit.{IsAudited, moved-IsAudited}
use cs455_project.Execution.Progress.{
  here, next, insert, claim_won, Reach-IsAudited, finished_is_final, claim_once,
}
use cs455_project.Worker.{Host, gives, raises, run_one}
use cs455_project.Worker.Underway.{IsUnderway}
use cs455_project.Worker.Ends.{run_one_finishes}
use cs455_project.Runs.{
  Request, Around, Prepared, payload_of, prepare_run, admit_run, require_runner, insert_run,
  prepare_debug,
}
use cs455_project.Runs.Delivery.{start_run, raised}
use cs455_project.Runs.Delivery.Compensation.{IsCleared, start_run-IsAudited, undelivered-IsCleared}
use cs455_project.Sweep.{sweep_once}
use cs455_project.Sweep.Selected.{HasSwept, sweep_once-HasSwept}
use cs455_project.Runs.Cancel.{cancel_loop, enough_rounds}
use cs455_project.Runs.Cancel.Total.{Ends, cancel_loop_total}
use cs455_project.Tests.{
  base, base-IsAudited, one_queued, one_queued-IsAudited, no_slots, payload, bob,
}

abbrev host : Host
host = record {
  worker_id = "host-1";
  now = 200;
  others = λ k db. db;
  published = λ k. gives tt;
  mounted = gives tt;
  written = gives tt;
  has_build = false;
  build = gives tt;
  run = gives (record { exit_code = pos 0; stdout = "1"; stderr = ""; timed_out = false });
  debug = raises "not a debug run";
  idle_text = "180";
  total_text = "600";
}

run_one_finishes_example :
    IsUnderway 10 last_stage (run_one host (payload 10) one_queued no_slots).1
unfolding claim insert_queued
run_one_finishes_example =
    run_one_finishes host (payload 10) one_queued no_slots (λ k db a. here) one_queued-IsAudited
      refl refl

-- The run claimed, and then another one inserted.
abbrev claimed : Db
claimed = (claim one_queued 10 7 8 "host-1" 200).1

claim_once_example :
    claim (insert_queued claimed 7 8 300) 10 7 8 "host-2" 400
    ≡ (false, insert_queued claimed 7 8 300)
unfolding claim insert_queued
claim_once_example =
    claim_once one_queued claimed (insert_queued claimed 7 8 300) 10 7 8 7 8 "host-1" "host-2" 200
      400 one_queued-IsAudited refl (next here (insert 7 8 300 refl))

Reach-IsAudited_example : IsAudited (insert_queued one_queued 7 8 300)
Reach-IsAudited_example = Reach-IsAudited one_queued-IsAudited (next here (insert 7 8 300 refl))

abbrev queued_run : Execution
queued_run = record {
  id = 10;
  project_id = 7;
  file_id = 8;
  status = queued;
  exit_code = none;
  stdout = "";
  stderr = "";
  queued_at = 100;
  started_at = none;
  finished_at = none;
  worker_id = none;
}

abbrev cancelled_run : Execution
cancelled_run = record queued_run { status = cancelled; finished_at = some 150 }

abbrev at_150 : Fields
at_150 = record no_fields { finished_at = some 150 }

abbrev one_cancelled : Db
one_cancelled = moved one_queued 10 queued cancelled api at_150 at_150

cancelled-IsAudited : IsAudited one_cancelled
unfolding change_status insert_queued can_transition new_execution
cancelled-IsAudited =
    moved-IsAudited one_queued 10 queued_run cancelled api at_150 at_150 refl refl
      one_queued-IsAudited

-- Another run is inserted, and a worker claims it.
abbrev busy_again : Db
busy_again = (claim (insert_queued one_cancelled 7 8 300) 11 7 8 "host-2" 400).1

finished_is_final_example : execution_row busy_again 10 ≡ some cancelled_run
unfolding claim change_status insert_queued can_transition new_execution is_finished moved
finished_is_final_example =
    finished_is_final one_cancelled busy_again 10 cancelled_run cancelled-IsAudited
      (next (next here (insert 7 8 300 refl)) (claim_won 11 7 8 "host-2" 400 refl)) refl refl

cancel_loop_total_example :
    Ends 10 (cancel_loop enough_rounds (λ k db. db) 150 0 one_queued queued_run)
unfolding insert_queued new_execution
cancel_loop_total_example =
    cancel_loop_total (λ k db. db) 150 one_queued queued_run (λ k db a. here) one_queued-IsAudited
      refl

abbrev request : Request
request = record { project_id = 7; user = bob; file_id = 8; stdin = none; debug = false }

abbrev around : Around
around = record {
  enable_debugger = true;
  online = true;
  slots = no_slots;
  later = no_slots;
  now = 100;
  hostname = "api";
  source_text = "print(1)";
}

abbrev bob_member : Member
bob_member = record { id = 4; project_id = 7; user_id = 2; role = debugger }

abbrev main_file : File
main_file = record {
  id = 8;
  project_id = 7;
  folder_id = none;
  path = "main.py";
  language = "python";
}

start_run-IsAudited_example :
    IsAudited (start_run around base [] request (raised false (λ db. db) 200 true true)).db
start_run-IsAudited_example =
    start_run-IsAudited around base [] request (raised false (λ db. db) 200 true true) (λ d a. a)
      base-IsAudited

abbrev prepared : Prepared
prepared = record {
  execution_id = 10;
  payload = payload_of around 10 request bob_member main_file none;
  db = one_queued;
  slots = no_slots;
}

undelivered-IsCleared_example :
    IsCleared 10 true (start_run around base [] request (raised true (λ db. db) 200 true true))
unfolding prepare_run admit_run get_member require_runner insert_run prepare_debug
undelivered-IsCleared_example =
    undelivered-IsCleared around base [] request true (λ db. db) 200 true true prepared refl

-- A worker took the run at 200 and was never seen again.
abbrev sweep_time : ℕ
sweep_time = 900000000

sweep_once-HasSwept_example :
    HasSwept 600 sweep_time claimed (sweep_once 600 sweep_time (10 ∷ []) claimed)
unfolding claim insert_queued moved
sweep_once-HasSwept_example = sweep_once-HasSwept 600 sweep_time (10 ∷ []) claimed (refl, tt)
