-- ===== src/Runs/Delivery.antt =====
-- `start_run` after its commit: the delivery to the queue, and what compensates for a failed one.
pub mod Laws
pub mod Compensation
use cs455_project.Prelude.{
  ℕ, Bool, true, false, Option, none, some, List, String, ◌==◌, if◌then◌else◌, not, modify, Failure,
  http, Result, ok, err, found, map,
}
use cs455_project.Status.{queued, failed, is_status}
use cs455_project.Database.{Db, Execution, DebugSession, stopped, api, execution_row}
use cs455_project.Execution.{no_fields, change_status}
use cs455_project.Control.{Slots, clear_active}
use cs455_project.Queue.{Payload, enqueue_execution, remove_from_queue}
use cs455_project.Runs.{Around, Request, Prepared, prepare_run}

-- `where(DebugSession.execution_id == i).values(status=STOPPED, ended_at=now)`
abbrev pub stop_session : ℕ → ℕ → DebugSession → DebugSession
stop_session i now s = elim s.execution_id [
  | none ↦ s
  | some j ↦ if j == i then record s { status = stopped; ended_at = some now } else s
]

abbrev pub stop_sessions : ℕ → ℕ → Db → Db
stop_sessions i now db = record db { debug_sessions = map (stop_session i now) db.debug_sessions }

-- The part of `_fail_undelivered_run` that is committed, or the rollback. Nothing is committed by others
-- between the load and the conditional write.
unfoldable pub fail_undelivered_run : Db → ℕ → Bool → ℕ → Bool × Db
fail_undelivered_run db execution_id debug now = elim (execution_row db execution_id) [
  | none ↦ (false, db)
  | some e ↦
      if not (is_status e.status queued)
      then (false, db)
      else elim (change_status db e failed api (record no_fields {
        finished_at = some now;
        stderr = some "Execution queue delivery failed; please try again";
      })) [
        | none ↦ (false, db)
        | some (done, copy, db') ↦
            if done
            then (true, if debug then stop_sessions execution_id now db' else db')
            else (false, db)
      ]
]

-- Redis as this handler leaves it: the queue and the debug keys.
pub record Redis : Type 0 where
  pub waiting : List Payload
  pub slots : Slots

-- Redis after a compensation. `removed` and `cleared` are whether the two clean-ups got through.
unfoldable pub clean_up : (removed cleared : Bool) → ℕ → ℕ → Bool → Redis → Redis
clean_up removed cleared project_id execution_id debug r = record {
  waiting = if removed then (remove_from_queue execution_id r.waiting).1 else r.waiting;
  slots =
      if debug
      then (if cleared then clear_active project_id execution_id r.slots else r.slots)
      else r.slots;
}

-- How `enqueue_execution` went: it returned, or it raised a RedisError or an OSError. The payload
-- may have arrived before the error (`arrived`), and by the time of the handler other processes
-- have made of the database what `others` says.
pub data Delivery : Type 0 where
  delivered : Delivery
  raised : (arrived : Bool) (others : Db → Db) (now : ℕ) (removed cleared : Bool) → Delivery

-- What the client gets, the database and Redis.
pub record Started : Type 0 where
  pub answer : Result Execution
  pub db : Db
  pub redis : Redis

unfoldable pub settle : Delivery → Request → List Payload → Prepared → Started
unfolding fail_undelivered_run clean_up
settle delivered req waiting p = record {
  answer = found (execution_row p.db p.execution_id) 500;
  db = p.db;
  redis = record { waiting = enqueue_execution p.payload waiting; slots = p.slots };
}
settle (raised arrived others now removed cleared) req waiting p =
    let (compensated, db') = fail_undelivered_run (others p.db) p.execution_id req.debug now in
    let redis : Redis = record {
      waiting = if arrived then enqueue_execution p.payload waiting else waiting;
      slots = p.slots;
    } in
    if compensated
    then record {
      answer = err (http 503);
      db = db';
      redis = clean_up removed cleared req.project_id p.execution_id req.debug redis;
    }
    else record { answer = found (execution_row db' p.execution_id) 500; db = db'; redis = redis }

-- The whole of `start_run`: an exception before the commit leaves everything as it was.
unfoldable pub start_run : Around → Db → List Payload → Request → Delivery → Started
unfolding settle
start_run a db waiting req delivery = elim (prepare_run a db req) [
  | err e ↦ record {
    answer = err e;
    db = db;
    redis = record { waiting = waiting; slots = a.slots };
  }
  | ok p ↦ settle delivery req waiting p
]
