-- ===== src/Sweep.antt =====
-- The sweeper of runs whose worker died: backend/app/realtime/orphan_sweep.py.
pub mod Selected
use cs455_project.Prelude.{
  add_id, ℕ, ◌+◌, ◌*◌, Bool, true, false, ◌&&◌, ◌||◌, not, Option, none, some, List, [], ◌∷◌, ◌++◌,
  String, map, foldr, ltb, ◌==◌, any, where_, length, if◌then◌else◌,
}
use cs455_project.Status.{starting, compiling, running, failed, is_status, is_finished}
use cs455_project.Database.{
  Db, Execution, Fields, DebugSession, DebugStatus, active, paused, stopped, sweeper, execution_row,
}
use cs455_project.Execution.{no_fields, change_status}

-- `ORPHAN_THRESHOLD`, in microseconds
abbrev pub orphan_threshold : ℕ
orphan_threshold = 300000000

-- `Execution.status.in_(ACTIVE_STATUSES)`
abbrev pub is_active : Execution → Bool
is_active e = any (is_status e.status) (starting ∷ compiling ∷ running ∷ [])

abbrev pub is_open : DebugStatus → Bool
is_open active = true
is_open paused = true
is_open stopped = false

-- The `active_debug` subquery: an open debug session of this run.
abbrev pub debugs : ℕ → DebugSession → Bool
debugs i s = elim s.execution_id [ none ↦ false | some j ↦ j == i && is_open s.status ]

-- `started_at < now - age`, which a run without a start never meets
abbrev pub is_older : Option ℕ → ℕ → ℕ → Bool
is_older none age now = false
is_older (some started) age now = ltb (started + age) now

-- The `where` of the sweep. `debug_seconds` is `sandbox_debug_timeout_seconds`.
unfoldable pub is_orphan : ℕ → ℕ → List DebugSession → Execution → Bool
is_orphan debug_seconds now sessions e =
    is_active e
    && is_older e.started_at orphan_threshold now
    && (not (any (debugs e.id) sessions)
        || is_older e.started_at (orphan_threshold + debug_seconds * 1000000) now)

abbrev pub orphan_fields : ℕ → Fields
orphan_fields now = record no_fields {
  finished_at = some now;
  stderr = some "Worker died mid-execution (orphan sweep)";
}

-- The loop over the runs that the query returned, which may be stale copies. A row that is gone
-- raises: `none`.
unfoldable pub fail_each : ℕ → List Execution → Db → Option (List ℕ × Db)
fail_each now [] db = some ([], db)
fail_each now (e ∷ rest) db = elim (change_status db e failed sweeper (orphan_fields now)) [
  | none ↦ none
  | some (done, copy, db') ↦
      let others = fail_each now rest db' in
      elim others [
        | none ↦ none
        | some (changed, last) ↦ some (if done then e.id ∷ changed else changed, last)
      ]
]

-- Whether the row of a surviving container says that its run is over.
abbrev pub is_over : Db → ℕ → Bool
is_over db i = elim (execution_row db i) [ none ↦ false | some e ↦ is_finished e.status ]

-- `cleanup_ids`, sorted: the runs just failed, and the finished runs whose containers survive.
unfoldable pub cleanup_ids : Db → List ℕ → List ℕ → List ℕ
cleanup_ids db changed containers =
    foldr add_id []
      (changed ++ where_ (λ i. not (any (λ j. j == i) changed) && is_over db i) containers)

-- What a sweep does: the database, the containers it removes and the cancels it signals.
pub record Swept : Type 0 where
  pub count : ℕ
  pub db : Db
  pub killed : List ℕ
  pub signalled : List ℕ

-- `containers` is what Docker lists, nothing where it fails.
unfoldable pub sweep_once : ℕ → ℕ → List ℕ → Db → Option Swept
sweep_once debug_seconds now containers db =
    elim (fail_each now (where_ (is_orphan debug_seconds now db.debug_sessions) db.executions) db) [
      | none ↦ none
      | some (changed, db') ↦ some (record {
        count = length changed;
        db = db';
        killed = cleanup_ids db' changed containers;
        signalled = changed;
      })
    ]
