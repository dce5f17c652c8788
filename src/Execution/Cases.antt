-- ===== src/Execution/Cases.antt =====
-- Every way in which a status change, a claim or a worker's transition can end.
use mathlib.Core.Path.{subst}
use cs455_project.Prelude.{
  key-row, sym, ℕ, ◌≡◌, refl, ◌⊎◌, Bool, true, false, none, some, String, arith, inl, inr,
  Bool-cases, Option-cases,
}
use cs455_project.Status.{
  ExecutionStatus, queued, starting, is_status, can_transition, is_status-eq, is_status_refl,
}
use cs455_project.Database.{Db, Execution, Fields, Actor, worker, execution_row}
use cs455_project.Execution.{
  write_status, moved, change_status, is_claimable, claim_fields, claim, transition,
}

-- The change was made: the row was at the status that the caller saw, and the table allows the step.
pub record Made (db : Db) (i : ℕ) (from target : ExecutionStatus) (by : Actor)
    (logged written : Fields) (db' : Db) : Type 0 where
  pub stored : Execution
  pub here : execution_row db i ≡ some stored
  pub at_from : stored.status ≡ from
  pub legal : can_transition stored.status target ≡ true
  pub wrote : db' ≡ moved db i stored.status target by logged written

pub change_status_cases :
    (db : Db) (e : Execution) (target : ExecutionStatus) (by : Actor) (fields : Fields)
    (done : Bool) (copy : Execution) (db' : Db)
    → change_status db e target by fields ≡ some (done, copy, db')
    → (done ≡ false) × (db' ≡ db)
      ⊎ (done ≡ true) × Made db e.id e.status target by fields fields db'
unfolding change_status
change_status_cases db e target by fields done copy db' h =
    elim (Bool-cases (can_transition e.status target)) [
      | inl ok ↦ elim (Option-cases (execution_row db e.id)) [
        | inl gone ↦ absurd (ground arith)
        | inr (stored, here) ↦ elim (Bool-cases (is_status stored.status e.status)) [
          | inl same ↦ inr (
            ground arith,
            record {
              stored = stored;
              here = here;
              at_from = is_status-eq _ _ same;
              legal = ground (arith, is_status-eq stored.status e.status same);
              wrote = ground (arith, is_status-eq stored.status e.status same);
            },
          )
          | inr stale ↦ inl (ground arith, ground arith)
        ]
      ]
      | inr refused ↦ inl (ground arith, ground arith)
    ]

pub claim_cases :
    (db : Db) (i project_id file_id : ℕ) (worker_id : String) (now : ℕ) (done : Bool) (db' : Db)
    → claim db i project_id file_id worker_id now ≡ (done, db')
    → (done ≡ false) × (db' ≡ db)
      ⊎ (done ≡ true)
        × Made db i queued starting worker
            (claim_fields worker_id)
            (record (claim_fields worker_id) { started_at = some now })
            db'
unfolding claim
claim_cases db i project_id file_id worker_id now done db' h =
    elim (Option-cases (execution_row db i)) [
      | inl gone ↦ inl (ground arith, ground arith)
      | inr (stored, here) ↦ elim (Bool-cases (is_claimable project_id file_id stored)) [
        | inl free ↦
            let from_queued : stored.status ≡ queued =
              is_status-eq stored.status queued (ground arith) in
            inr (
              ground arith,
              record {
                stored = stored;
                here = here;
                at_from = from_queued;
                legal = rw from_queued (unfold can_transition in refl);
                wrote = ground (arith, from_queued);
              },
            )
        | inr taken ↦ inl (ground arith, ground arith)
      ]
    ]

pub transition_cases :
    (db : Db) (i : ℕ) (target : ExecutionStatus) (fields : Fields) (done : Bool) (db' : Db)
    → transition db i target fields ≡ (done, db')
    → (done ≡ false) × (db' ≡ db)
      ⊎ (done ≡ true)
        × ((e : Execution) × (execution_row db i ≡ some e)
            × Made db e.id e.status target worker fields fields db')
unfolding transition
transition_cases db i target fields done db' h = elim (Option-cases (execution_row db i)) [
  | inl gone ↦ inl (ground arith, ground arith)
  | inr (e, here) ↦ elim (Option-cases (change_status db e target worker fields)) [
    | inl raised ↦ inl (ground arith, ground arith)
    | inr ((d, copy, db''), r) ↦
        elim (change_status_cases db e target worker fields d copy db'' r) [
          | inl (no_change, same) ↦ inl (ground arith, ground arith)
          | inr (change, made) ↦
              let same : db' ≡ db'' = ground arith in inr (ground arith, (e, here, rw same made))
        ]
  ]
]

-- The refresh raises only where the row is gone.
pub row-change_status_raised :
    (db : Db) (e : Execution) (target : ExecutionStatus) (by : Actor) (fields : Fields)
    → change_status db e target by fields ≡ none
    → execution_row db e.id ≡ none
unfolding change_status
row-change_status_raised db e target by fields h = ground arith

-- A change of the row as it stands is refused by nothing but the table.
pub change_current :
    (db : Db) (e : Execution) (target : ExecutionStatus) (by : Actor) (fields : Fields)
    → execution_row db e.id ≡ some e
    → can_transition e.status target ≡ true
    → change_status db e target by fields
      ≡ some (true, write_status target fields e, moved db e.id e.status target by fields fields)
unfolding change_status
change_current db e target by fields h legal = ground (arith, is_status_refl e.status)

-- Nor is a transition.
pub transition_works :
    (db : Db) (i : ℕ) (e : Execution) (target : ExecutionStatus) (fields : Fields)
    → execution_row db i ≡ some e
    → can_transition e.status target ≡ true
    → (transition db i target fields).0 ≡ true
unfolding transition
transition_works db i e target fields at_i legal =
    let at_id : e.id ≡ i = key-row (λ (x : Execution). x.id) i db.executions e at_i in
    let same : execution_row db e.id ≡ some e =
      subst (λ j. execution_row db j ≡ some e) (sym at_id) at_i in
    ground (arith, change_current db e target worker fields same legal)
