-- ===== src/Worker.antt =====
-- The worker's handling of one payload: `_run_one` and `_run_debug` of worker/app/worker.py.
pub mod Underway
pub mod Ends
use Prim.Native.String.{◌++◌ as ◌<>◌}
use cs455_project.Prelude.{
  ℕ, ◌+◌, Bool, true, false, ◌&&◌, ◌||◌, not, Option, none, some, String, ◌==◌, if◌then◌else◌, ℤ,
  pos, is_zero, Failure,
}
use text.Mathlib.Text.{◌==◌ as str_eq}
use cs455_project.Status.{
  ExecutionStatus, starting, compiling, running, completed, failed, timeout, cancelled, is_status,
}
use cs455_project.Database.{Db, Execution, Fields, File, execution_row, file_row}
use cs455_project.Execution.{no_fields, claim, transition}
use cs455_project.Control.{Slots, clear_active}
use cs455_project.Queue.{Payload}
use cs455_project.Runs.Delivery.{stop_sessions}

-- How a call into the sandbox, the debugger or Redis goes: a value, `ExecutionCancelled` or any
-- other exception with its text.
pub data Call {ℓ} (A : Type ℓ) : Type ℓ where
  gives : A → Call A
  interrupted : Call A
  raises : String → Call A

-- What the sandbox reports of a run (`SandboxResult`).
pub record Result : Type 0 where
  pub exit_code : ℤ
  pub stdout : String
  pub stderr : String
  pub timed_out : Bool

-- Why a debug session ended (`DebugOutcome.reason`); every other text is `exited`.
pub data Reason : Type 0 where
  stopped_by_user by_cancel out_of_time idle in_error exited : Reason

pub record Outcome : Type 0 where
  pub reason : Reason
  pub exit_code : Option ℤ
  pub stdout : String
  pub stderr : String
  pub error : Option String

-- What is around the worker while it has this payload. `others k` is what other processes commit
-- before its k-th transaction, `published k` how it goes where it tells the project of a change. The
-- two texts are the debugger's limits in seconds, as they are printed.
pub record Host : Type 0 where
  pub worker_id : String
  pub now : ℕ
  pub others : ℕ → Db → Db
  pub published : ℕ → Call {0} Unit
  pub mounted : Call {0} Unit
  pub written : Call {0} Unit
  pub has_build : Bool
  pub build : Call {0} Unit
  pub run : Call Result
  pub debug : Call Outcome
  pub idle_text : String
  pub total_text : String

-- How the `try` block is left.
pub data Ending : Type 0 where
  left : Ending
  cancelling : Ending
  broke : String → Ending

abbrev ending_of {ℓ} : {A : Type ℓ} → Call A → Ending
ending_of (gives x) = left
ending_of interrupted = cancelling
ending_of (raises text) = broke text

abbrev pub finish_fields : ℕ → Option ℤ → String → String → Fields
finish_fields now exit_code stdout stderr = record no_fields {
  exit_code = some exit_code;
  stdout = some stdout;
  stderr = some stderr;
  finished_at = some now;
}

abbrev pub target_of : Result → ExecutionStatus
target_of r = if r.timed_out then timeout else if is_zero r.exit_code then completed else failed

abbrev pub debug_target : Outcome → ExecutionStatus
debug_target o = elim o.reason [
  | stopped_by_user ↦ cancelled
  | by_cancel ↦ cancelled
  | out_of_time ↦ timeout
  | idle ↦ timeout
  | in_error ↦ failed
  | exited ↦ elim o.exit_code [
    | none ↦ failed
    | some code ↦ if is_zero code then completed else failed
  ]
]

-- The note that `_run_debug` adds to the program's own errors.
abbrev pub debug_stderr : (idle_text total_text : String) → Outcome → String
debug_stderr idle_text total_text o = elim o.error [
  | some text ↦ o.stderr <> "\n[debugger] " <> text <> "\n"
  | none ↦ elim o.reason [
    | idle ↦ o.stderr <> "\n[debugger] stopped: nobody stepped for " <> idle_text <> " s\n"
    | out_of_time ↦ o.stderr <> "\n[debugger] stopped after " <> total_text <> " s\n"
    | stopped_by_user ↦ o.stderr
    | by_cancel ↦ o.stderr
    | in_error ↦ o.stderr
    | exited ↦ o.stderr
  ]
]

-- The end of the `try` block for a plain run.
unfoldable pub plain_run : Host → ℕ → Db → Ending × Db
plain_run w i db = elim w.run [
  | interrupted ↦ (cancelling, db)
  | raises text ↦ (broke text, db)
  | gives r ↦
      let (done, db') =
        transition (w.others 4 db) i (target_of r)
          (finish_fields w.now (some r.exit_code) r.stdout r.stderr) in
      if done then (ending_of (w.published 3), db') else (left, db')
]

-- `_run_debug`: whether or not the change was made, the session's row is closed.
unfoldable pub run_debug : Host → ℕ → Db → Ending × Db
run_debug w i db = elim w.debug [
  | interrupted ↦ (cancelling, db)
  | raises text ↦ (broke text, db)
  | gives o ↦
      let (done, db') =
        transition (w.others 4 db) i (debug_target o)
          (finish_fields w.now o.exit_code o.stdout (debug_stderr w.idle_text w.total_text o)) in
      if done
      then (ending_of (w.published 3), stop_sessions i w.now (w.others 5 db'))
      else (left, stop_sessions i w.now (w.others 5 db'))
]

unfoldable pub start : Host → ℕ → Bool → Db → Ending × Db
start w i debug db =
    let (done, db') = transition (w.others 3 db) i running no_fields in
    if done
    then elim (w.published 2) [
      | interrupted ↦ (cancelling, db')
      | raises text ↦ (broke text, db')
      | gives u ↦ if debug then run_debug w i db' else plain_run w i db'
    ]
    else (cancelling, db')

unfoldable pub compile : Host → ℕ → Db → Ending × Db
compile w i db =
    let (done, db') = transition (w.others 2 db) i compiling no_fields in
    if done
    then elim (w.published 1) [
      | interrupted ↦ (cancelling, db')
      | raises text ↦ (broke text, db')
      | gives u ↦ (ending_of w.build, db')
    ]
    else (cancelling, db')

unfoldable pub build_and_start : Host → ℕ → Bool → Db → Ending × Db
build_and_start w i debug db =
    if w.has_build
    then (let (e, db') = compile w i db in
        elim e [
          | left ↦ start w i debug db'
          | cancelling ↦ (cancelling, db')
          | broke text ↦ (broke text, db')
        ])
    else start w i debug db

-- `file_obj`: the main file must still be a file of the project.
abbrev has_main : Db → ℕ → ℕ → Bool
has_main db project_id file_id = elim (file_row db file_id) [
  | none ↦ false
  | some f ↦ f.project_id == project_id
]

-- The workspace is filled before anything is built.
unfoldable pub prepare : Host → Payload → Bool → Db → Ending × Db
prepare w p debug db = elim w.mounted [
  | interrupted ↦ (cancelling, db)
  | raises text ↦ (broke text, db)
  | gives u ↦
      if has_main db p.project_id p.file_id
      then elim w.written [
        | interrupted ↦ (cancelling, db)
        | raises text ↦ (broke text, db)
        | gives v ↦ build_and_start w p.execution_id debug db
      ]
      else (broke "Main file not found in DB", db)
]

-- The `try` block. A cancel may have been persisted before the subscription to it opened.
unfoldable pub try_block : Host → Payload → Bool → Db → Ending × Db
try_block w p debug db = elim (execution_row db p.execution_id) [
  | none ↦ (cancelling, db)
  | some e ↦ if is_status e.status starting then prepare w p debug db else (cancelling, db)
]

-- The two `except` blocks. What they publish is not read, and comes after the commit.
unfoldable pub handle : Host → ℕ → Ending → Db → Db
handle w i left db = db
handle w i cancelling db =
    (transition (w.others 6 db) i cancelled (record no_fields { finished_at = some w.now })).1
handle w i (broke text) db =
    (transition (w.others 6 db) i failed
      (record no_fields { stderr = some text; finished_at = some w.now })).1

-- `_run_one`: whether the run was claimed, the database and the debug slots. A publication of
-- "starting" that raises is outside the `try`: it leaves the run to the sweeper.
unfoldable pub run_one : Host → Payload → Db → Slots → Bool × Db × Slots
run_one w p db slots =
    let (claimed, db') = claim db p.execution_id p.project_id p.file_id w.worker_id w.now in
    if claimed
    then elim (w.published 0) [
      | interrupted ↦ (true, db', slots)
      | raises text ↦ (true, db', slots)
      | gives u ↦
          let (e, last) = try_block w p p.debug (w.others 1 db') in
          (
            true,
            handle w p.execution_id e last,
            if p.debug then clear_active p.project_id p.execution_id slots else slots,
          )
    ]
    else (false, db', slots)
