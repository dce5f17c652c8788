-- ===== src/Execution/Progress.antt =====
-- What any interleaving of the transactions on runs can do to one run.
use mathlib.Core.Bool.{false≢true}
use mathlib.Core.List.{foldl}
use cs455_project.Prelude.{
  length, where_, suc, ◌≢◌, sym, Bool-cases, ℕ, ◌+◌, ◌≤◌, ◌≡◌, refl, ap, ◌∙◌, ◌⊎◌, Bool, true,
  false, Option, none, some, List, [], ◌∷◌, String, arith, inl, inr, ◌==◌, row-append,
  if◌then◌else◌,
}
use cs455_project.Status.{
  ExecutionStatus, queued, starting, is_status-eq, last_stage, is_finished, can_transition, stage,
  stage-can_transition, can_transition-finished,
}
use cs455_project.Database.{Db, Execution, ExecutionEvent, Fields, Actor, worker, execution_row}
use cs455_project.Execution.{
  write_status, change_status, claim, claim_fields, transition, insert_queued, new_execution,
}
use cs455_project.Execution.Cases.{Made, change_status_cases, claim_cases, transition_cases}
use cs455_project.Execution.Audit.{
  IsAudited, Made-IsAudited, row-moved, status-write, replay-snoc, link, follow, recorded, Trail,
  unborn, at, broken,
}

-- One committed transaction on the runs: a new run, a status change that `change_status` made from a
-- copy of the row, stale or not, a worker's claim, or a worker's transition.
pub data Step (db db' : Db) : Type 0 where
  insert :
      (project_id file_id now : ℕ) → db' ≡ insert_queued db project_id file_id now → Step db db'
  status_changed :
      (seen copy : Execution) (target : ExecutionStatus) (by : Actor) (fields : Fields)
      → change_status db seen target by fields ≡ some (true, copy, db')
      → Step db db'
  claim_won :
      (i project_id file_id : ℕ) (worker_id : String) (now : ℕ)
      → claim db i project_id file_id worker_id now ≡ (true, db')
      → Step db db'
  transition_made :
      (i : ℕ) (target : ExecutionStatus) (fields : Fields)
      → transition db i target fields ≡ (true, db')
      → Step db db'

pub data Reach (db : Db) : Db → Type 0 where
  here : Reach db db
  next : {mid last : Db} → Reach db mid → Step mid last → Reach db last

-- The change of a step that adds no run.
record Moved (db db' : Db) : Type 0 where
  i : ℕ
  from : ExecutionStatus
  target : ExecutionStatus
  by : Actor
  logged : Fields
  written : Fields
  made : Made db i from target by logged written db'

Made-Moved :
    {db db' : Db} {i : ℕ} {from target : ExecutionStatus} {by : Actor} {logged written : Fields}
    → Made db i from target by logged written db'
    → Moved db db'
Made-Moved m = record { i = _; from = _; target = _; by = _; logged = _; written = _; made = m }

step_cases :
    {db db' : Db}
    → Step db db'
    → ((project_id : ℕ) × (file_id : ℕ) × (now : ℕ) × (db'
          ≡ insert_queued db project_id file_id now))
      ⊎ Moved db db'
step_cases (insert p f now w) = inl (p, f, now, w)
step_cases {db} {db'} (status_changed seen copy target by fields h) =
    elim (change_status_cases db seen target by fields true copy db' h) [
      | inl (refused, _) ↦ absurd (false≢true (sym refused))
      | inr (_, m) ↦ inr (Made-Moved m)
    ]
step_cases {db} {db'} (claim_won i p f w now h) = elim (claim_cases db i p f w now true db' h) [
  | inl (refused, _) ↦ absurd (false≢true (sym refused))
  | inr (_, m) ↦ inr (Made-Moved m)
]
step_cases {db} {db'} (transition_made i target fields h) =
    elim (transition_cases db i target fields true db' h) [
      | inl (refused, _) ↦ absurd (false≢true (sym refused))
      | inr (_, (e, _, m)) ↦ inr (Made-Moved m)
    ]

module _ (db : Db) (project_id file_id now : ℕ) (a : IsAudited db) where
  row-insert :
      (j : ℕ)
      → execution_row (insert_queued db project_id file_id now) j ≡ (
          if db.next_id == j
          then some (new_execution db.next_id project_id file_id now)
          else execution_row db j)
  unfolding insert_queued new_execution
  row-insert j = ground (
    arith,
    row-append (λ (e : Execution). e.id) j db.executions
        (new_execution db.next_id project_id file_id now),
    a.fresh j,
  )

  -- A new run starts its trail, and its id had no event before.
  pub insert_queued-IsAudited : IsAudited (insert_queued db project_id file_id now)
  unfolding insert_queued
  insert_queued-IsAudited = record {
    agrees = λ j.
        rw replay-snoc
          (unfold new_execution in ground (arith, row-insert j, a.agrees j, a.fresh j));
    fresh = λ j old. ground (arith, row-insert j, a.fresh j);
  }

-- How a row can look later on: it has not gone back, and a finished one is as it was.
pub record Later (e e' : Execution) : Type 0 where
  pub onward : stage e.status ≤ stage e'.status
  pub kept : is_finished e.status ≡ true → e' ≡ e

Later-trans : (e e' e'' : Execution) → Later e e' → Later e' e'' → Later e e''
Later-trans e e' e'' p q = record {
  onward = omega arith;
  kept = λ done. q.kept (rw (p.kept done) done) ∙ p.kept done;
}

Later-write :
    (e : Execution) (target : ExecutionStatus) (written : Fields)
    → can_transition e.status target ≡ true
    → Later e (write_status target written e)
unfolding write_status
Later-write e target written legal = record {
  onward = omega (arith, stage-can_transition e.status target legal);
  kept = λ done. absurd (false≢true (sym (can_transition-finished e.status target done) ∙ legal));
}

Made-Later :
    {db db' : Db} {i : ℕ} {from target : ExecutionStatus} {by : Actor} {logged written : Fields}
    → Made db i from target by logged written db'
    → (j : ℕ) (e : Execution) → execution_row db j ≡ some e
    → (e' : Execution) × (execution_row db' j ≡ some e') × Later e e'
Made-Later {db} {i = i} {target = target} {by = by} {logged = logged} {written = written} m j e
      at_j =
    rw m.wrote (elim (Bool-cases (i == j)) [
      | inl same ↦
          let is_stored : e ≡ m.stored = ground (arith, m.here) in
          let changed = write_status target written m.stored in
          (
            changed,
            ground (arith, row-moved db i m.stored target by logged written m.here m.legal j),
            rw is_stored (Later-write m.stored target written m.legal),
          )
      | inr other ↦ (
        e,
        ground (arith, row-moved db i m.stored target by logged written m.here m.legal j),
        record { onward = omega arith; kept = λ _. refl },
      )
    ])

pub Step-Later :
    {db db' : Db} (i : ℕ) (e : Execution)
    → IsAudited db
    → Step db db'
    → execution_row db i ≡ some e
    → (e' : Execution) × (execution_row db' i ≡ some e') × Later e e'
Step-Later i e a st at_i = elim (step_cases st) [
  | inl (p, f, now, w) ↦ (
    e,
    rw w (ground (arith, row-insert _ p f now a i, a.fresh i)),
    record { onward = omega arith; kept = λ _. refl },
  )
  | inr change ↦ Made-Later change.made i e at_i
]

pub Step-IsAudited : {db db' : Db} → IsAudited db → Step db db' → IsAudited db'
Step-IsAudited {db} a st = elim (step_cases st) [
  | inl (p, f, now, w) ↦ rw w (insert_queued-IsAudited db p f now a)
  | inr change ↦ Made-IsAudited change.made a
]

-- However insertions, status changes, claims and transitions of runs interleave, trails that were in step
-- stay in step.
pub Reach-IsAudited : {db db' : Db} → IsAudited db → Reach db db' → IsAudited db'
Reach-IsAudited a here = a
Reach-IsAudited a (next r st) = Step-IsAudited (Reach-IsAudited a r) st

pub Reach-Later :
    {db db' : Db} (i : ℕ) (e : Execution)
    → IsAudited db
    → Reach db db'
    → execution_row db i ≡ some e
    → (e' : Execution) × (execution_row db' i ≡ some e') × Later e e'
Reach-Later i e a here at_i = (e, at_i, record { onward = omega arith; kept = λ _. refl })
Reach-Later i e a (next r st) at_i =
    let (e', at', l) = Reach-Later i e a r at_i in
    let (e'', at'', l') = Step-Later i e' (Reach-IsAudited a r) st at' in
    (e'', at'', Later-trans e e' e'' l l')

-- With the trails in step, a finished run is never touched again by insertions, status changes from copies
-- that may be stale, claims and transitions: its row stays as it is, outputs and exit code included.
pub finished_is_final :
    (db db' : Db) (i : ℕ) (e : Execution)
    → IsAudited db
    → Reach db db'
    → execution_row db i ≡ some e
    → is_finished e.status ≡ true
    → execution_row db' i ≡ some e
finished_is_final db db' i e a r at_i done =
    let (e', at', l) = Reach-Later i e a r at_i in rw at' (ap some (l.kept done))

pub row-Made :
    {db db' : Db} {i : ℕ} {from target : ExecutionStatus} {by : Actor} {logged written : Fields}
    (m : Made db i from target by logged written db')
    → execution_row db' i ≡ some (write_status target written m.stored)
row-Made {db} {i = i} {target = target} {by = by} {logged = logged} {written = written} m =
    rw m.wrote (ground (arith, row-moved db i m.stored target by logged written m.here m.legal i))

claim_started :
    (db : Db) (i p f : ℕ) (w : String) (now : ℕ) (e : Execution)
    → execution_row db i ≡ some e
    → 1 ≤ stage e.status
    → claim db i p f w now ≡ (false, db)
unfolding claim
claim_started db i p f w now e at_i started = ground arith

-- With the trails in step, a run that one worker has claimed cannot be claimed again, by that worker or
-- another, whatever insertions, status changes, claims and transitions come in between.
pub claim_once :
    (db claimed later : Db) (i p f p' f' : ℕ) (w w' : String) (now now' : ℕ)
    → IsAudited db
    → claim db i p f w now ≡ (true, claimed)
    → Reach claimed later
    → claim later i p' f' w' now' ≡ (false, later)
claim_once db claimed later i p f p' f' w w' now now' a first r =
    elim (claim_cases db i p f w now true claimed first) [
      | inl (no_claim, _) ↦ absurd (false≢true (sym no_claim))
      | inr (_, made) ↦
          let (e', at', l) = Reach-Later i _ (Made-IsAudited made a) r (row-Made made) in
          claim_started later i p' f' w' now' e' at' (
            omega (
              arith,
              l.onward,
              ap stage (
                  status-write db i made.stored starting worker (claim_fields w) _ made.here
                    made.legal),
            ))
    ]

abbrev spent : Trail → ℕ
spent unborn = 0
spent (at s) = suc (stage s)
spent broken = 0

abbrev pub of_run : ℕ → ExecutionEvent → Bool
of_run i e = e.execution_id == i

replay-broken : (i : ℕ) (events : List ExecutionEvent) → foldl (follow i) broken events ≡ broken
replay-broken i [] = refl
replay-broken i (e ∷ events) = ground (arith, replay-broken i events)

link-broken_or_spent :
    (t : Trail) (previous : Option ExecutionStatus) (target : ExecutionStatus)
    → (link t previous target ≡ broken) ⊎ (suc (spent t) ≤ spent (link t previous target))
link-broken_or_spent unborn none target = ground (arith, is_status-eq target queued)
link-broken_or_spent (at s) (some p) target = ground (arith, stage-can_transition s target)
link-broken_or_spent unborn (some p) target = inl refl
link-broken_or_spent (at s) none target = inl refl
link-broken_or_spent broken p target = inl refl

trail_bound :
    (i : ℕ) (t : Trail) (events : List ExecutionEvent)
    → foldl (follow i) t events ≢ broken
    → length (where_ (of_run i) events) + spent t ≤ spent (foldl (follow i) t events)
trail_bound i t [] whole = omega arith
trail_bound i t (e ∷ events) whole = elim (Bool-cases (of_run i e)) [
  | inl mine ↦ elim (link-broken_or_spent t e.previous e.target) [
    | inl cut ↦ absurd (whole (rw (mine, cut, replay-broken i events)))
    | inr more ↦
        rw mine
          (omega (arith, trail_bound i (link t e.previous e.target) events (rw mine at whole)))
  ]
  | inr other ↦ rw other (trail_bound i t events (rw other at whole))
]

spent-recorded :
    (o : Option Execution) → (recorded o ≢ broken) × (spent (recorded o) ≤ last_stage + 1)
spent-recorded o = ground arith

-- With the trails in step, no run has more than five events.
pub length-trail :
    (db : Db) (i : ℕ) → IsAudited db → length (where_ (of_run i) db.events) ≤ last_stage + 1
length-trail db i a =
    let (whole, bound) = spent-recorded (execution_row db i) in
    omega (
      arith,
      ap spent (a.agrees i),
      trail_bound i unborn db.events (λ e. whole (sym (a.agrees i) ∙ e)),
    )
