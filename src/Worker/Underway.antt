-- ===== src/Worker/Underway.antt =====
-- How far a run has come, under the transactions of others and of the worker.
use mathlib.Core.Path.{subst}
use cs455_project.Prelude.{
  ℕ, ◌≤◌, ◌≡◌, refl, ap, Bool, true, false, some, arith, inl, inr, Bool-cases, key-row,
}
use cs455_project.Status.{ExecutionStatus, is_finished, stage, last_stage, can_transition}
use cs455_project.Database.{Db, Execution, Fields, execution_row}
use cs455_project.Execution.{transition, write_status}
use cs455_project.Execution.Audit.{IsAudited, IsAudited-frame, transition-IsAudited}
use cs455_project.Execution.Cases.{transition_works, transition_cases}
use cs455_project.Execution.Progress.{
  Reach, here, next, transition_made, Reach-IsAudited, Reach-Later, row-Made,
}
use cs455_project.Worker.{Host}
use cs455_project.Runs.Delivery.{stop_sessions}

-- The run has come at least as far as `n`, and the trails are in step.
pub record IsUnderway (i n : ℕ) (db : Db) : Type 0 where
  pub audited : IsAudited db
  pub execution : Execution
  pub there : execution_row db i ≡ some execution
  pub far : n ≤ stage execution.status

-- What other processes commit are transactions on runs.
abbrev pub IsHonest : Host → Type 0
IsHonest w = (k : ℕ) (db : Db) → IsAudited db → Reach db (w.others k db)

pub Reach-IsUnderway :
    {db db' : Db} (i n : ℕ) → Reach db db' → IsUnderway i n db → IsUnderway i n db'
Reach-IsUnderway i n r u =
    let (e', at', l) = Reach-Later i u.execution u.audited r u.there in
    record {
      audited = Reach-IsAudited u.audited r;
      execution = e';
      there = at';
      far = omega (arith, l.onward, u.far);
    }

pub weaker : {db : Db} (i n m : ℕ) → m ≤ n → IsUnderway i n db → IsUnderway i m db
weaker i n m h u = record {
  audited = u.audited;
  execution = u.execution;
  there = u.there;
  far = omega (arith, u.far);
}

pub stop_sessions-IsUnderway :
    {db : Db} (i n now : ℕ) → IsUnderway i n db → IsUnderway i n (stop_sessions i now db)
stop_sessions-IsUnderway i n now u = record {
  audited = IsAudited-frame refl refl (omega arith) u.audited;
  execution = u.execution;
  there = u.there;
  far = u.far;
}

finished_last : (s : ExecutionStatus) → is_finished s ≡ true → last_stage ≤ stage s
unfolding is_finished
finished_last s h = ground arith

module _ (db : Db) (i : ℕ) (target : ExecutionStatus) (fields : Fields) (n : ℕ)
    (u : IsUnderway i n db) where
  transition-Reach : Reach db (transition db i target fields).1
  transition-Reach = elim (transition_cases db i target fields _ _ refl) [
    | inl (_, same) ↦ rw same here
    | inr (done, _) ↦
        let after = (transition db i target fields).1 in
        next here (transition_made i target fields (ap (λ (b : Bool). (b, after)) done))
  ]

  pub transition-IsUnderway : IsUnderway i n (transition db i target fields).1
  transition-IsUnderway = Reach-IsUnderway i n transition-Reach u

  pub transition_done :
      (transition db i target fields).0 ≡ true
      → IsUnderway i (stage target) (transition db i target fields).1
  transition_done done = elim (transition_cases db i target fields _ _ refl) [
    | inl (not_done, _) ↦ absurd (ground arith)
    | inr (_, (e, at_i, made)) ↦ record {
      audited = transition-IsAudited db i target fields u.audited;
      execution = write_status target fields made.stored;
      there =
          subst
            (λ j.
              execution_row (transition db i target fields).1 j
              ≡ some (write_status target fields made.stored))
            (key-row (λ (x : Execution). x.id) i db.executions e at_i) (row-Made made);
      far = unfold write_status in (omega arith);
    }
  ]

  -- A change to a final status that the table allows from wherever the run can be finishes it.
  pub transition_finishes :
      stage target ≡ last_stage
      → ((s : ExecutionStatus)
          → n ≤ stage s
          → is_finished s ≡ false
          → can_transition s target ≡ true)
      → IsUnderway i last_stage (transition db i target fields).1
  transition_finishes final legal = elim (Bool-cases (is_finished u.execution.status)) [
    | inl over ↦ Reach-IsUnderway i last_stage transition-Reach (record {
      audited = u.audited;
      execution = u.execution;
      there = u.there;
      far = finished_last u.execution.status over;
    })
    | inr unfinished ↦
        let done =
          transition_works db i u.execution target fields u.there
            (legal u.execution.status u.far unfinished) in
        weaker i (stage target) last_stage (omega arith) (transition_done done)
  ]
