-- ===== src/Execution.antt =====
-- Checked status changes and the claim of a queued run: backend/app/services/execution_state.py,
-- and `_transition` and the claim in `_run_one` of worker/app/worker.py.
pub mod Cases
pub mod Audit
pub mod Progress
use cs455_project.Prelude.{
  ℕ, ◌+◌, Bool, true, false, ◌&&◌, Option, none, some, List, [], ◌∷◌, ◌++◌, String, ◌==◌, row,
  modify, if◌then◌else◌,
}
use cs455_project.Status.{ExecutionStatus, queued, starting, is_status, can_transition}
use cs455_project.Database.{
  Db, Execution, ExecutionEvent, Fields, Actor, api, worker, execution_row,
}

-- The keyword arguments that a call leaves out.
abbrev pub no_fields : Fields
no_fields = record {
  exit_code = none;
  stdout = none;
  stderr = none;
  started_at = none;
  finished_at = none;
  worker_id = none;
}

abbrev pub given {ℓ} : {A : Type ℓ} → Option A → A → A
given none old = old
given (some new) old = new

abbrev given_some {ℓ} : {A : Type ℓ} → Option A → Option A → Option A
given_some none old = old
given_some (some new) old = some new

-- `.values(status=target, **fields)`
unfoldable pub write_status : ExecutionStatus → Fields → Execution → Execution
write_status target fields e = record e {
  status = target;
  exit_code = given fields.exit_code e.exit_code;
  stdout = given fields.stdout e.stdout;
  stderr = given fields.stderr e.stderr;
  started_at = given_some fields.started_at e.started_at;
  finished_at = given_some fields.finished_at e.finished_at;
  worker_id = given_some fields.worker_id e.worker_id;
}

-- An actor that is not one of the three is a ValueError there, and no value of `Actor` here.
unfoldable pub record_status_event :
    Db → ℕ → Option ExecutionStatus → ExecutionStatus → Actor → Fields → Db
record_status_event db execution_id previous target by fields = record db {
  events =
      db.events
      ++ record {
        execution_id = execution_id;
        previous = previous;
        target = target;
        actor = by;
        fields = fields;
      }
        ∷ [];
}

-- The row that `start_run` adds, with its first event.
unfoldable pub new_execution : ℕ → ℕ → ℕ → ℕ → Execution
new_execution id project_id file_id now = record {
  id = id;
  project_id = project_id;
  file_id = file_id;
  status = queued;
  exit_code = none;
  stdout = "";
  stderr = "";
  queued_at = now;
  started_at = none;
  finished_at = none;
  worker_id = none;
}

unfoldable pub insert_queued : Db → ℕ → ℕ → ℕ → Db
unfolding record_status_event new_execution
insert_queued db project_id file_id now =
    record_status_event
      (record db {
        next_id = db.next_id + 1;
        executions = db.executions ++ new_execution db.next_id project_id file_id now ∷ [];
      })
      db.next_id none queued api no_fields

-- The row and its event, written in one transaction: the row gets `target` and the fields
-- `written`, the event says from where to where and carries the fields `logged`.
unfoldable pub moved :
    Db → ℕ → ExecutionStatus → ExecutionStatus → Actor → (logged written : Fields) → Db
unfolding write_status record_status_event
moved db i from target by logged written =
    record_status_event
      (record db { executions = modify (λ e. e.id) i (write_status target written) db.executions })
      i (some from) target by logged

-- The conditional write against the row as it stands, the refresh, and the event. The refresh of a
-- row that is gone raises: `none`.
compare_and_set :
    Db
    → Option Execution
    → Execution
    → ExecutionStatus
    → Actor
    → Fields
    → Option (Bool × Execution × Db)
compare_and_set db none execution target by fields = none
compare_and_set db (some stored) execution target by fields =
    if is_status stored.status execution.status
    then some (
      true,
      write_status target fields stored,
      moved db execution.id execution.status target by fields fields,
    )
    else some (false, stored, db)

-- `execution` is the caller's copy, which may be stale. The answer is whether the change was made,
-- the copy after the refresh, and the database.
unfoldable pub change_status :
    Db → Execution → ExecutionStatus → Actor → Fields → Option (Bool × Execution × Db)
unfolding compare_and_set
change_status db execution target by fields =
    if can_transition execution.status target
    then compare_and_set db (execution_row db execution.id) execution target by fields
    else some (false, execution, db)

-- The `where` of the claim in `_run_one`.
abbrev is_claimable : ℕ → ℕ → Execution → Bool
is_claimable project_id file_id e =
    e.project_id == project_id && e.file_id == file_id && is_status e.status queued

abbrev claim_fields : String → Fields
claim_fields worker_id = record no_fields { worker_id = some worker_id }

claim_row : Db → Option Execution → ℕ → ℕ → ℕ → String → ℕ → Bool × Db
claim_row db none execution_id project_id file_id worker_id now = (false, db)
claim_row db (some stored) execution_id project_id file_id worker_id now =
    if is_claimable project_id file_id stored
    then (
      true,
      moved db execution_id queued starting worker (claim_fields worker_id)
          (record (claim_fields worker_id) { started_at = some now }),
    )
    else (false, db)

-- The first transaction of `_run_one`: the worker takes a run only if it is still queued.
unfoldable pub claim : Db → ℕ → ℕ → ℕ → String → ℕ → Bool × Db
unfolding claim_row
claim db execution_id project_id file_id worker_id now =
    claim_row db (execution_row db execution_id) execution_id project_id file_id worker_id now

-- `_transition` of worker.py: load the row, change it as the worker, and commit only a success. Nothing is
-- committed by others between the load and the conditional write, and the database raises nothing.
unfoldable pub transition : Db → ℕ → ExecutionStatus → Fields → Bool × Db
transition db execution_id target fields = elim (execution_row db execution_id) [
  | none ↦ (false, db)
  | some e ↦ elim (change_status db e target worker fields) [
    | none ↦ (false, db)
    | some (done, e', db') ↦ if done then (true, db') else (false, db)
  ]
]
