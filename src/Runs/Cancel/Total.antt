-- ===== src/Runs/Cancel/Total.antt =====
-- Cancelling always ends, and leaves the run finished.
use mathlib.Core.Bool.{false≢true}
use cs455_project.Prelude.{
  ℕ, zero, suc, ◌+◌, ◌≤◌, ◌<◌, ◌≡◌, refl, sym, inl, inr, true, false, some, arith, Bool-cases,
  Option-cases, key-row,
}
use cs455_project.Status.{
  queued, cancelled, is_finished, stage, is_status, can_transition-cancelled, ExecutionStatus,
}
use cs455_project.Database.{Db, Execution, api, execution_row, Fields}
use cs455_project.Execution.{write_status, change_status}
use cs455_project.Execution.Audit.{IsAudited}
use cs455_project.Execution.Cases.{change_status_cases, row-change_status_raised}
use cs455_project.Execution.Progress.{Reach, Later, Reach-IsAudited, Reach-Later, row-Made}
use cs455_project.Runs.Cancel.{
  Loop, done, already, gone, stuck, cancel_loop, cancel_fields, enough_rounds,
}

-- The run is finished in the database that the loop leaves; where this handler did not cancel it
-- itself, the copy that it answers is the row. The loop is never stuck, and the row never vanishes.
abbrev pub Ends : ℕ → Loop → Type 0
Ends i (done db) = (e : Execution) × (execution_row db i ≡ some e) × (e.status ≡ cancelled)
Ends i (already db e) = (execution_row db i ≡ some e) × (is_finished e.status ≡ true)
Ends i (gone db) = ⊥
Ends i stuck = ⊥

stage-injective :
    (a b : ExecutionStatus)
    → is_finished a ≡ false
    → is_status b a ≡ false
    → stage a ≤ stage b
    → stage a < stage b
unfolding is_finished
stage-injective queued b h = ground arith
stage-injective a b h = ground arith

stage-le : (s : ExecutionStatus) → stage s ≤ 4
stage-le s = ground arith

-- A lost round: the row had moved, so the refreshed copy is further on.
lost_round :
    (db : Db) (e stored copy : Execution) (fields : Fields) (db' : Db)
    → execution_row db e.id ≡ some stored
    → Later e stored
    → is_finished e.status ≡ false
    → change_status db e cancelled api fields ≡ some (false, copy, db')
    → (copy ≡ stored) × (db' ≡ db) × (stage e.status < stage copy.status)
unfolding change_status
lost_round db e stored copy fields db' at_e l active h =
    let legal = can_transition-cancelled e.status active in
    elim (Bool-cases (is_status stored.status e.status)) [
      | inl same ↦ absurd (ground arith)
      | inr moved_on ↦ (
        ground arith,
        ground arith,
        ground (arith, stage-injective e.status stored.status active moved_on l.onward),
      )
    ]

won_round :
    (db db' : Db) (e copy : Execution) (now i : ℕ)
    → e.id ≡ i
    → change_status db e cancelled api (cancel_fields now) ≡ some (true, copy, db')
    → Ends i (done db')
unfolding write_status
won_round db db' e copy now i id h =
    elim (change_status_cases db e cancelled api (cancel_fields now) true copy db' h) [
      | inl (no_change, _) ↦ absurd (false≢true (sym no_change))
      | inr (_, made) ↦
          (write_status cancelled (cancel_fields now) made.stored, rw (← id) (row-Made made), refl)
    ]

module _ (others : ℕ → Db → Db) (now i : ℕ)
    (honest : (k : ℕ) (db : Db) → IsAudited db → Reach db (others k db)) where
  cancel_loop-Ends :
      (fuel k : ℕ) (db : Db) (e : Execution)
      → IsAudited db
      → execution_row db i ≡ some e
      → e.id ≡ i
      → 4 < fuel + stage e.status
      → Ends i (cancel_loop fuel others now k db e)
  unfolding cancel_loop
  cancel_loop-Ends zero k db e a at_i id room = absurd (omega (arith, stage-le e.status))
  cancel_loop-Ends (suc fuel) k db e a at_i id room = elim (Bool-cases (is_finished e.status)) [
    | inl finished ↦ rw (finished, cancel_loop) (at_i, finished)
    | inr active ↦
        let (stored, at', l) = Reach-Later i e a (honest k db a) at_i in
        let a' = Reach-IsAudited a (honest k db a) in
        elim (Option-cases (change_status (others k db) e cancelled api (cancel_fields now))) [
          | inl raised ↦ absurd (
              ground (
                arith,
                row-change_status_raised (others k db) e cancelled api (cancel_fields now) raised,
                id,
              ))
          | inr ((true, copy, db'), h) ↦
              rw (active, h, cancel_loop) (won_round (others k db) db' e copy now i id h)
          | inr ((false, copy, db'), h) ↦
              rw (active, h, cancel_loop)
                (let (same, unmoved, further) =
                    lost_round (others k db) e stored copy (cancel_fields now) db' (rw id at') l
                      active h in
                  cancel_loop-Ends fuel (k + 1) db' copy (rw unmoved a') (rw (same, unmoved) at')
                    (key-row (λ (x : Execution). x.id) i (others k db).executions copy
                      (rw same at'))
                    (omega arith))
        ]
  ]

-- From the row as it stands, with the trails in step, and whatever insertions, status changes, claims and
-- transitions of runs other processes commit between its rounds, the loop of `cancel_execution` ends within five rounds, and
-- leaves the run finished: cancelled by this handler, or as the others finished it.
pub cancel_loop_total :
    (others : ℕ → Db → Db) (now : ℕ) (db : Db) (e : Execution)
    → ((k : ℕ) (db : Db) → IsAudited db → Reach db (others k db))
    → IsAudited db
    → execution_row db e.id ≡ some e
    → Ends e.id (cancel_loop enough_rounds others now 0 db e)
cancel_loop_total others now db e honest a at_e =
    cancel_loop-Ends others now e.id honest 5 0 db e a at_e refl (omega arith)
