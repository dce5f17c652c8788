-- ===== src/Execution/Audit.antt =====
-- The audit trail of a run: replaying its events from the start gives the status in its row.
use mathlib.Core.List.{foldl, foldl-append}
use cs455_project.Prelude.{
  ℕ, ◌≤◌, ◌≡◌, refl, Bool, true, ◌&&◌, Option, none, some, List, [], ◌∷◌, ◌++◌, String, arith, inl,
  inr, ◌==◌, row-modify, if◌then◌else◌,
}
use cs455_project.Status.{ExecutionStatus, queued, is_status, can_transition}
use cs455_project.Database.{Db, Execution, ExecutionEvent, Fields, Actor, execution_row}
use cs455_project.Execution.{write_status, moved, change_status, claim, transition}
use cs455_project.Execution.Cases.{Made, change_status_cases, claim_cases, transition_cases}

pub data Trail : Type 0 where
  unborn : Trail
  at : ExecutionStatus → Trail
  broken : Trail

-- One event continues a trail only if it starts where the trail stands and the table allows it.
abbrev pub link : Trail → Option ExecutionStatus → ExecutionStatus → Trail
link unborn none target = if is_status target queued then at target else broken
link (at s) (some previous) target =
    if is_status s previous && can_transition s target then at target else broken
link t previous target = broken

abbrev pub follow : ℕ → Trail → ExecutionEvent → Trail
follow i t e = if e.execution_id == i then link t e.previous e.target else t

abbrev pub replay : ℕ → List ExecutionEvent → Trail
replay i events = foldl (follow i) unborn events

abbrev pub recorded : Option Execution → Trail
recorded none = unborn
recorded (some e) = at e.status

-- The events of every run replay to the status in its row, and ids not yet given have no row.
pub record IsAudited (db : Db) : Type 0 where
  pub agrees : (i : ℕ) → replay i db.events ≡ recorded (execution_row db i)
  pub fresh : (i : ℕ) → db.next_id ≤ i → execution_row db i ≡ none

pub replay-snoc :
    (i : ℕ) (events : List ExecutionEvent) (e : ExecutionEvent)
    → replay i (events ++ e ∷ []) ≡ follow i (replay i events) e
replay-snoc i events e = foldl-append (follow i) unborn events (e ∷ [])

module _ (db : Db) (i : ℕ) (stored : Execution) (target : ExecutionStatus) (by : Actor)
    (logged written : Fields) (here : execution_row db i ≡ some stored)
    (legal : can_transition stored.status target ≡ true) where
  pub row-moved :
      (j : ℕ)
      → execution_row (moved db i stored.status target by logged written) j
        ≡ (if i == j then some (write_status target written stored) else execution_row db j)
  unfolding moved
  row-moved j = ground (
    arith,
    row-modify (λ (e : Execution). e.id) i j (write_status target written) db.executions
        (λ e. refl),
    here,
  )

  pub status-write : (write_status target written stored).status ≡ target
  unfolding write_status
  status-write = refl

  link-legal : link (at stored.status) (some stored.status) target ≡ at target
  link-legal = ground arith

  agrees-moved :
      (j : ℕ)
      → replay j db.events ≡ recorded (execution_row db j)
      → replay j (moved db i stored.status target by logged written).events
        ≡ recorded (execution_row (moved db i stored.status target by logged written) j)
  unfolding moved
  agrees-moved j old =
      rw replay-snoc (ground (arith, row-moved j, status-write, link-legal, here, old))

  pub moved-IsAudited : IsAudited db → IsAudited (moved db i stored.status target by logged written)
  unfolding moved
  moved-IsAudited a = record {
    agrees = λ j. agrees-moved j (a.agrees j);
    fresh = λ j old. ground (arith, row-moved j, a.fresh j, here);
  }

pub Made-IsAudited :
    {db db' : Db} {i : ℕ} {from target : ExecutionStatus} {by : Actor} {logged written : Fields}
    → Made db i from target by logged written db'
    → IsAudited db
    → IsAudited db'
Made-IsAudited {db} {i = i} {target = target} {by = by} {logged = logged} {written = written} m a =
    rw m.wrote (moved-IsAudited db i m.stored target by logged written m.here m.legal a)

-- If the trails are in step, a status change that does not raise keeps them so, whatever copy of the
-- row the caller holds.
pub change_status-IsAudited :
    (db : Db) (execution : Execution) (target : ExecutionStatus) (by : Actor) (fields : Fields)
    (done : Bool) (copy : Execution) (db' : Db)
    → change_status db execution target by fields ≡ some (done, copy, db')
    → IsAudited db
    → IsAudited db'
change_status-IsAudited db e target by fields done copy db' h a =
    elim (change_status_cases db e target by fields done copy db' h) [
      | inl (_, same) ↦ rw same a
      | inr (_, made) ↦ Made-IsAudited made a
    ]

-- So does the worker's claim of a queued run.
pub claim-IsAudited :
    (db : Db) (i project_id file_id : ℕ) (worker_id : String) (now : ℕ)
    → IsAudited db
    → IsAudited (claim db i project_id file_id worker_id now).1
claim-IsAudited db i project_id file_id worker_id now a =
    elim (claim_cases db i project_id file_id worker_id now _ _ refl) [
      | inl (_, same) ↦ rw same a
      | inr (_, made) ↦ Made-IsAudited made a
    ]

pub transition-IsAudited :
    (db : Db) (i : ℕ) (target : ExecutionStatus) (fields : Fields)
    → IsAudited db
    → IsAudited (transition db i target fields).1
transition-IsAudited db i target fields a = elim (transition_cases db i target fields _ _ refl) [
  | inl (_, same) ↦ rw same a
  | inr (_, (e, here, made)) ↦ Made-IsAudited made a
]

-- The invariant reads nothing but the events, the runs and the next id.
pub IsAudited-frame :
    {db db' : Db}
    → db'.events ≡ db.events
    → db'.executions ≡ db.executions
    → db.next_id ≤ db'.next_id
    → IsAudited db
    → IsAudited db'
IsAudited-frame {db} {db'} e x n a = record {
  agrees = λ i. rw (e, x) (a.agrees i);
  fresh = λ i h. rw x (a.fresh i (omega arith));
}
