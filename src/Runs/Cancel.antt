-- ===== src/Runs/Cancel.antt =====
-- Reading and cancelling a run.
pub mod Total
use cs455_project.Prelude.{
  ℕ, zero, suc, ◌+◌, Bool, true, false, ◌&&◌, Option, none, some, ◌==◌, if◌then◌else◌, Failure,
  http, Result, ok, err, ◌>>=◌, ◌>>◌, require, found,
}
use cs455_project.Status.{cancelled, is_finished}
use cs455_project.Database.{Db, Execution, Fields, api, get_member, execution_row}
use cs455_project.Execution.{no_fields, change_status}
use cs455_project.Runs.{may_run}

-- `if not execution or execution.project_id != project_id: 404`
abbrev pub run_of_project : Db → ℕ → ℕ → Result Execution
run_of_project db project_id execution_id = do
  execution ← found (execution_row db execution_id) 404
  require (execution.project_id == project_id) 404
  ok execution

unfoldable pub get_execution : Db → ℕ → ℕ → ℕ → Result Execution
get_execution db project_id execution_id user_id = do
  member ← get_member db project_id user_id
  run_of_project db project_id execution_id

-- How the loop of `cancel_execution` ends: this handler cancelled the run, it found the run
-- finished, its refresh found no row, or the fuel ran out, which the program does not do.
pub data Loop : Type 0 where
  done : Db → Loop
  already : Db → Execution → Loop
  gone : Db → Loop
  stuck : Loop

-- What a round does with the answer of `change_status`: `rest` is the next round, from the refreshed
-- copy.
after_write : Option (Bool × Execution × Db) → (Db → Execution → Loop) → Db → Loop
after_write none rest behind = gone behind
after_write (some (true, copy, db')) rest behind = done db'
after_write (some (false, copy, db')) rest behind = rest db' copy

abbrev pub cancel_fields : ℕ → Fields
cancel_fields now = record no_fields { finished_at = some now }

-- The loop, from the handler's copy of the row. `others k` is what other processes commit before
-- the conditional write of round `k`.
unfoldable pub cancel_loop : ℕ → (ℕ → Db → Db) → ℕ → ℕ → Db → Execution → Loop
unfolding after_write
cancel_loop zero others now k db e = stuck
cancel_loop (suc fuel) others now k db e = elim (is_finished e.status) [
  | true ↦ already db e
  | false ↦
      after_write (change_status (others k db) e cancelled api (cancel_fields now))
        (cancel_loop fuel others now (k + 1)) (others k db)
]

-- The rounds that are always enough: each lost round moves the run one stage on.
abbrev pub enough_rounds : ℕ
enough_rounds = 5

-- `cancel_execution` up to the signals on Redis.
unfoldable pub cancel_execution : Db → ℕ → ℕ → ℕ → (ℕ → Db → Db) → ℕ → Result Loop
cancel_execution db project_id execution_id user_id others now = do
  member ← get_member db project_id user_id
  require (may_run member.role) 403
  execution ← run_of_project db project_id execution_id
  ok (cancel_loop enough_rounds others now 0 db execution)
