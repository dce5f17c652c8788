-- ===== src/Worker/Ends.antt =====
-- Whatever happens around the worker, a run that it has claimed and announced ends up finished.
use cs455_project.Prelude.{
  ◌≢◌, ◌⊎◌, String, ℕ, ◌≤◌, ◌≡◌, refl, Bool, true, false, arith, inl, inr, Bool-cases,
  if◌then◌else◌,
}
use cs455_project.Status.{
  can_transition-cancelled, can_transition-failed, ExecutionStatus, starting, compiling, running,
  completed, failed, timeout, cancelled, queued, is_status, is_finished, stage, last_stage,
  can_transition,
}
use cs455_project.Database.{Db, Fields}
use cs455_project.Execution.{no_fields, claim, transition, write_status}
use cs455_project.Execution.Audit.{IsAudited, claim-IsAudited}
use cs455_project.Execution.Cases.{claim_cases}
use cs455_project.Execution.Progress.{row-Made}
use cs455_project.Queue.{Payload}
use cs455_project.Control.{Slots}
use cs455_project.Worker.{
  debug_stderr, has_main, Host, Call, gives, interrupted, raises, Ending, left, cancelling, broke,
  finish_fields, ending_of, Result, Outcome, target_of, debug_target, plain_run, run_debug, start,
  compile, build_and_start, prepare, try_block, handle, run_one,
}
use cs455_project.Worker.Underway.{
  IsUnderway, IsHonest, Reach-IsUnderway, weaker, stop_sessions-IsUnderway, transition-IsUnderway,
  transition_done, transition_finishes,
}

-- How a part of the `try` block may be left: only a finished run is left without an exception.
record IsWell (i : ℕ) (x : Ending × Db) : Type 0 where
  at_work : IsUnderway i 1 x.1
  over : x.0 ≡ left → IsUnderway i last_stage x.1

exceptional : {db : Db} (i : ℕ) (e : Ending) → e ≢ left → IsUnderway i 1 db → IsWell i (e, db)
exceptional i e out u = record { at_work = u; over = λ h. absurd (out h) }

at_end : {db : Db} (i : ℕ) (e : Ending) → IsUnderway i last_stage db → IsWell i (e, db)
at_end i e u = record { at_work = weaker i last_stage 1 (omega arith) u; over = λ h. u }

if-IsWell :
    {i : ℕ} (b : Bool) {x y : Ending × Db} → IsWell i x → IsWell i y → IsWell i (if b then x else y)
if-IsWell true p q = p
if-IsWell false p q = q

from_running :
    (s : ExecutionStatus) (target : ExecutionStatus)
    → stage target ≡ last_stage
    → 3 ≤ stage s
    → is_finished s ≡ false
    → can_transition s target ≡ true
unfolding is_finished can_transition
from_running running target h far unfinished = ground arith
from_running queued target h far unfinished = ground arith
from_running starting target h far unfinished = ground arith
from_running compiling target h far unfinished = ground arith
from_running completed target h far unfinished = ground arith
from_running failed target h far unfinished = ground arith
from_running timeout target h far unfinished = ground arith
from_running cancelled target h far unfinished = ground arith

target_of-final : (r : Result) → stage (target_of r) ≡ last_stage
target_of-final r = ground arith

debug_target-final : (o : Outcome) → stage (debug_target o) ≡ last_stage
debug_target-final o = ground arith

Call-cases {ℓ} :
    {A : Type ℓ} (c : Call A)
    → (c ≡ interrupted) ⊎ ((text : String) × (c ≡ raises text)) ⊎ ((x : A) × (c ≡ gives x))
Call-cases interrupted = inl refl
Call-cases (raises text) = inr (inl (text, refl))
Call-cases (gives x) = inr (inr (x, refl))

module _ (w : Host) (i : ℕ) (honest : IsHonest w) where
  others-IsUnderway : {db : Db} (k n : ℕ) → IsUnderway i n db → IsUnderway i n (w.others k db)
  others-IsUnderway {db} k n u = Reach-IsUnderway i n (honest k db u.audited) u

  -- The last change of a run, refused or not, leaves it finished.
  finishes :
      (target : ExecutionStatus) (fields : Fields)
      → stage target ≡ last_stage
      → (db : Db) → IsUnderway i 3 db
      → IsUnderway i last_stage (transition (w.others 4 db) i target fields).1
  finishes target fields final db u =
      transition_finishes (w.others 4 db) i target fields 3 (others-IsUnderway 4 3 u) final
        (λ s far unfinished. from_running s target final far unfinished)

  finish :
      (target : ExecutionStatus) (fields : Fields)
      → stage target ≡ last_stage
      → (e : Ending) (db : Db) → IsUnderway i 3 db
      → IsWell i (
          if (transition (w.others 4 db) i target fields).0
          then (e, (transition (w.others 4 db) i target fields).1)
          else (left, (transition (w.others 4 db) i target fields).1))
  finish target fields final e db u =
      let over = finishes target fields final db u in
      if-IsWell (transition (w.others 4 db) i target fields).0 (at_end i e over)
        (at_end i left over)

  plain_run-IsWell : (db : Db) → IsUnderway i 3 db → IsWell i (plain_run w i db)
  unfolding plain_run
  plain_run-IsWell db u = elim (Call-cases w.run) [
    | inl e ↦ rw e (exceptional i cancelling (ground arith) (weaker i 3 1 (omega arith) u))
    | inr (inl (text, e)) ↦
        rw e (exceptional i (broke text) (ground arith) (weaker i 3 1 (omega arith) u))
    | inr (inr (r, e)) ↦
        rw e (finish (target_of r) _ (target_of-final r) (ending_of (w.published 3)) db u)
  ]

  run_debug-IsWell : (db : Db) → IsUnderway i 3 db → IsWell i (run_debug w i db)
  unfolding run_debug
  run_debug-IsWell db u = elim (Call-cases w.debug) [
    | inl e ↦ rw e (exceptional i cancelling (ground arith) (weaker i 3 1 (omega arith) u))
    | inr (inl (text, e)) ↦
        rw e (exceptional i (broke text) (ground arith) (weaker i 3 1 (omega arith) u))
    | inr (inr (o, e)) ↦
        let closed = stop_sessions-IsUnderway i last_stage w.now (
          others-IsUnderway 5 last_stage (
            finishes (debug_target o)
              (finish_fields w.now o.exit_code o.stdout (debug_stderr w.idle_text w.total_text o))
              (debug_target-final o) db u)) in
        rw e (if-IsWell _ (at_end i (ending_of (w.published 3)) closed) (at_end i left closed))
  ]

  start-IsWell : (debug : Bool) (db : Db) → IsUnderway i 1 db → IsWell i (start w i debug db)
  unfolding start
  start-IsWell debug db u =
      let u' = others-IsUnderway 3 1 u in
      let same = transition-IsUnderway (w.others 3 db) i running no_fields 1 u' in
      elim (Bool-cases (transition (w.others 3 db) i running no_fields).0) [
        | inr refused ↦ rw refused (exceptional i cancelling (ground arith) same)
        | inl done ↦
            let u'' = transition_done (w.others 3 db) i running no_fields 1 u' done in
            rw done (elim (Call-cases (w.published 2)) [
              | inl e ↦ rw e (exceptional i cancelling (ground arith) same)
              | inr (inl (text, e)) ↦ rw e (exceptional i (broke text) (ground arith) same)
              | inr (inr (x, e)) ↦
                  rw e (if-IsWell debug (run_debug-IsWell _ u'') (plain_run-IsWell _ u''))
            ])
      ]

  compile-IsUnderway : (db : Db) → IsUnderway i 1 db → IsUnderway i 1 (compile w i db).1
  unfolding compile
  compile-IsUnderway db u =
      let same =
        transition-IsUnderway (w.others 2 db) i compiling no_fields 1 (others-IsUnderway 2 1 u) in
      elim (Bool-cases (transition (w.others 2 db) i compiling no_fields).0) [
        | inr refused ↦ rw refused same
        | inl done ↦ rw done (elim (Call-cases (w.published 1)) [
          | inl e ↦ rw e same
          | inr (inl (text, e)) ↦ rw e same
          | inr (inr (x, e)) ↦ rw e same
        ])
      ]

  after_compile :
      (debug : Bool) (x : Ending × Db)
      → IsUnderway i 1 x.1
      → IsWell i (elim x.0 [
        | left ↦ start w i debug x.1
        | cancelling ↦ (cancelling, x.1)
        | broke text ↦ (broke text, x.1)
      ])
  after_compile debug (left, db') u' = start-IsWell debug db' u'
  after_compile debug (cancelling, db') u' = exceptional i cancelling (ground arith) u'
  after_compile debug (broke text, db') u' = exceptional i (broke text) (ground arith) u'

  build_and_start-IsWell :
      (debug : Bool) (db : Db) → IsUnderway i 1 db → IsWell i (build_and_start w i debug db)
  unfolding build_and_start
  build_and_start-IsWell debug db u =
      if-IsWell w.has_build (after_compile debug (compile w i db) (compile-IsUnderway db u))
        (start-IsWell debug db u)

  handle-finished :
      (e : Ending) (db : Db) → IsWell i (e, db) → IsUnderway i last_stage (handle w i e db)
  unfolding handle
  handle-finished left db h = h.over refl
  handle-finished cancelling db h =
      transition_finishes (w.others 6 db) i cancelled _ 1 (others-IsUnderway 6 1 h.at_work) refl
        (λ s far unfinished. can_transition-cancelled s unfinished)
  handle-finished (broke text) db h =
      transition_finishes (w.others 6 db) i failed _ 1 (others-IsUnderway 6 1 h.at_work) refl
        (λ s far unfinished. can_transition-failed s unfinished)

module _ (w : Host) (p : Payload) (honest : IsHonest w) where
  prepare-IsWell :
      (debug : Bool) (db : Db)
      → IsUnderway p.execution_id 1 db
      → IsWell p.execution_id (prepare w p debug db)
  unfolding prepare build_and_start compile start run_debug plain_run
  prepare-IsWell debug db u = elim (Call-cases w.mounted) [
    | inl e ↦ rw e (exceptional p.execution_id cancelling (ground arith) u)
    | inr (inl (text, e)) ↦ rw e (exceptional p.execution_id (broke text) (ground arith) u)
    | inr (inr (x, e)) ↦ rw e (
        if-IsWell (has_main db p.project_id p.file_id)
          (elim (Call-cases w.written) [
            | inl e' ↦ rw e' (exceptional p.execution_id cancelling (ground arith) u)
            | inr (inl (text, e')) ↦
                rw e' (exceptional p.execution_id (broke text) (ground arith) u)
            | inr (inr (x', e')) ↦ rw e' (build_and_start-IsWell w p.execution_id honest debug db u)
          ])
          (exceptional p.execution_id (broke "Main file not found in DB") (ground arith) u))
  ]

  try_block-IsWell :
      (debug : Bool) (db : Db)
      → IsUnderway p.execution_id 1 db
      → IsWell p.execution_id (try_block w p debug db)
  unfolding try_block
  try_block-IsWell debug db u =
      rw (u.there, try_block)
        (if-IsWell (is_status u.execution.status starting) (prepare-IsWell debug db u)
          (exceptional p.execution_id cancelling (ground arith) u))

-- If the other processes commit only transactions on runs, the trails are in step, the claim wins and
-- its announcement does not raise, then the run is finished when the worker is through with it,
-- however the sandbox, the debugger and Redis behave: no way out of `_run_one` leaves it starting,
-- compiling or running. The trails are in step at the end too.
pub run_one_finishes :
    (w : Host) (p : Payload) (db : Db) (slots : Slots)
    → IsHonest w
    → IsAudited db
    → (claim db p.execution_id p.project_id p.file_id w.worker_id w.now).0 ≡ true
    → w.published 0 ≡ gives tt
    → IsUnderway p.execution_id last_stage (run_one w p db slots).1
unfolding run_one
run_one_finishes w p db slots honest a claimed said =
    elim (claim_cases db p.execution_id p.project_id p.file_id w.worker_id w.now _ _ refl) [
      | inl (not_claimed, _) ↦ absurd (ground arith)
      | inr (_, made) ↦
          let u : IsUnderway p.execution_id 1
              (claim db p.execution_id p.project_id p.file_id w.worker_id w.now).1 =
            record {
              audited =
                  claim-IsAudited db p.execution_id p.project_id p.file_id w.worker_id w.now a;
              execution = _;
              there = row-Made made;
              far = unfold write_status in (omega arith);
            } in
          let well =
            try_block-IsWell w p honest p.debug _
              (others-IsUnderway w p.execution_id honest 1 1 u) in
          rw (claimed, said) (handle-finished w p.execution_id honest _ _ well)
    ]
