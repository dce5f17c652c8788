-- ===== src/Sweep/Selected.antt =====
-- What a sweep changes: exactly the orphans.
use mathlib.Core.Option
use cs455_project.Prelude.{
  ℕ, ◌≡◌, refl, ap, Bool, true, false, Option, none, some, List, [], ◌∷◌, arith, inl, inr,
  Bool-cases, Option-cases, row, where_, if◌then◌else◌, ◌==◌, ==-refl, eq_of_==, length, any, ◌++◌,
  any-append, any-sorted, ◌&&◌, not,
}
use cs455_project.Status.{is_finished, failed, can_transition}
use cs455_project.Database.{Db, Execution, sweeper, execution_row}
use cs455_project.Execution.{write_status, moved}
use cs455_project.Execution.Cases.{change_current}
use cs455_project.Execution.Audit.{row-moved}
use cs455_project.Sweep.{
  cleanup_ids, is_over, is_active, is_orphan, orphan_fields, fail_each, sweep_once, Swept,
}

-- Primary keys: no id stands in two rows.
abbrev pub Unique : List Execution → Type 0
Unique [] = Unit
Unique (e ∷ rest) = (row (λ (x : Execution). x.id) e.id rest ≡ none) × Unique rest

abbrev of_id : ℕ → List Execution → Option Execution
of_id = row (λ (x : Execution). x.id)

-- The copies are the rows as they stand, of runs that are under way.
record AreCurrent (es : List Execution) (db : Db) : Type 0 where
  current : (j : ℕ) (e : Execution) → of_id j es ≡ some e → execution_row db j ≡ some e
  active : (j : ℕ) (e : Execution) → of_id j es ≡ some e → is_active e ≡ true

active-failed : (e : Execution) → is_active e ≡ true → can_transition e.status failed ≡ true
unfolding can_transition
active-failed e h = ground arith

abbrev given_up : ℕ → Execution → Execution
given_up now e = write_status failed (orphan_fields now) e

of_id_head : (e : Execution) (rest : List Execution) → of_id e.id (e ∷ rest) ≡ some e
of_id_head e rest = ground (arith, ==-refl e.id)

of_id_tail :
    (e : Execution) (rest : List Execution) (j : ℕ) (x : Execution)
    → of_id e.id rest ≡ none
    → of_id j rest ≡ some x
    → e.id == j ≡ false
of_id_tail e rest j x fresh h = elim (Bool-cases (e.id == j)) [
  | inr other ↦ other
  | inl same ↦ absurd (ground (arith, ap (λ k. of_id k rest) (eq_of_== e.id j same)))
]

abbrev is_some {ℓ} : {A : Type ℓ} → Option A → Bool
is_some none = false
is_some (some x) = true

-- Each copy is failed in its row; nothing else changes.
record HasFailed (now : ℕ) (es : List Execution) (db : Db) : Type 0 where
  changed : List ℕ
  last : Db
  ran : fail_each now es db ≡ some (changed, last)
  rows :
      (j : ℕ)
      → execution_row last j
        ≡ elim (of_id j es) [ none ↦ execution_row db j | some e ↦ some (given_up now e) ]
  all_of_them : length changed ≡ length es
  ids : (j : ℕ) → any (λ k. k == j) changed ≡ is_some (of_id j es)

fail_each-HasFailed :
    (now : ℕ) (es : List Execution) (db : Db) → Unique es → AreCurrent es db → HasFailed now es db
unfolding fail_each
fail_each-HasFailed now [] db u c = record {
  changed = [];
  last = db;
  ran = refl;
  rows = λ j. refl;
  all_of_them = refl;
  ids = λ j. refl;
}
fail_each-HasFailed now (e ∷ rest) db (fresh, u) c =
    let at_id = of_id_head e rest in
    let here = c.current e.id e at_id in
    let legal = active-failed e (c.active e.id e at_id) in
    let works = change_current db e failed sweeper (orphan_fields now) here legal in
    let step =
      row-moved db e.id e failed sweeper (orphan_fields now) (orphan_fields now) here legal in
    let c' : AreCurrent rest
        (moved db e.id e.status failed sweeper (orphan_fields now) (orphan_fields now)) =
      record {
        current = λ j x h. ground (arith, step j, of_id_tail e rest j x fresh h, c.current j x);
        active = λ j x h. ground (arith, of_id_tail e rest j x fresh h, c.active j x);
      } in
    let after = fail_each-HasFailed now rest _ u c' in
    record {
      changed = e.id ∷ after.changed;
      last = after.last;
      ran = ground (arith, works, after.ran);
      rows = λ j. elim (Bool-cases (e.id == j)) [
        | inl same ↦ ground (
          arith,
          same,
          after.rows j,
          step j,
          fresh,
          ap (λ k. of_id k rest) (eq_of_== e.id j same),
        )
        | inr other ↦ ground (arith, other, after.rows j, step j)
      ];
      all_of_them = ground (arith, after.all_of_them);
      ids = λ j. ground (arith, after.ids j);
    }

-- The query keeps keys unique, and finds a row by its id where that row passes the test.
of_id-where_none :
    (p : Execution → Bool) (es : List Execution) (j : ℕ)
    → of_id j es ≡ none
    → of_id j (where_ p es) ≡ none
of_id-where_none p [] j h = refl
of_id-where_none p (e ∷ rest) j h = ground (arith, of_id-where_none p rest j)

where_-Unique : (p : Execution → Bool) (es : List Execution) → Unique es → Unique (where_ p es)
where_-Unique p [] u = tt
where_-Unique p (e ∷ rest) (fresh, u) = elim (Bool-cases (p e)) [
  | inl kept ↦ rw kept (of_id-where_none p rest e.id fresh, where_-Unique p rest u)
  | inr out ↦ rw out (where_-Unique p rest u)
]

abbrev selected : (Execution → Bool) → Option Execution → Option Execution
selected p none = none
selected p (some e) = if p e then some e else none

of_id-where_ :
    (p : Execution → Bool) (es : List Execution) (j : ℕ)
    → Unique es
    → of_id j (where_ p es) ≡ selected p (of_id j es)
of_id-where_ p [] j u = refl
of_id-where_ p (e ∷ rest) j (fresh, u) = elim (Bool-cases (e.id == j)) [
  | inl same ↦ ground (
    arith,
    same,
    of_id-where_none p rest e.id fresh,
    ap (λ k. of_id k (where_ p rest)) (eq_of_== e.id j same),
  )
  | inr other ↦ ground (arith, other, of_id-where_ p rest j u)
]

abbrev orphan_test : ℕ → ℕ → Db → Execution → Bool
orphan_test debug_seconds now db = is_orphan debug_seconds now db.debug_sessions

is_orphan-active :
    (d now : ℕ) (db : Db) (e : Execution) → orphan_test d now db e ≡ true → is_active e ≡ true
unfolding is_orphan
is_orphan-active d now db e h = ground arith

abbrev swept_row : ℕ → ℕ → Db → Execution → Execution
swept_row d now db e = if orphan_test d now db e then given_up now e else e

where_-passed :
    (f : ℕ → Bool) (j : ℕ) (ids : List ℕ) → any (λ k. k == j) (where_ f ids) ≡ true → f j ≡ true
where_-passed f j [] h = ground arith
where_-passed f j (i ∷ rest) h = elim (Bool-cases (i == j)) [
  | inl same ↦ ground (arith, where_-passed f j rest, ap f (eq_of_== i j same))
  | inr other ↦ ground (arith, where_-passed f j rest)
]

given_up-over : (now : ℕ) (e : Execution) → is_finished (given_up now e).status ≡ true
unfolding write_status is_finished
given_up-over now e = refl

killed_over :
    (now : ℕ) (es : List Execution) (db : Db) (f : HasFailed now es db) (containers : List ℕ)
    (j : ℕ)
    → any (λ k. k == j) (cleanup_ids f.last f.changed containers) ≡ true
    → is_over f.last j ≡ true
unfolding cleanup_ids
killed_over now es db f containers j h =
    let survivors =
      where_ (λ i. not (any (λ k. k == i) f.changed) && is_over f.last i) containers in
    elim (Option-cases (of_id j es)) [
      | inr (e, at_j) ↦ ground (arith, f.rows j, at_j, given_up-over now e)
      | inl out ↦
          let there : any (λ k. k == j) survivors ≡ true = ground (
            arith,
            any-sorted j (f.changed ++ survivors),
            any-append (λ k. k == j) f.changed survivors,
            f.ids j,
            h,
            out,
          ) in
          ground (
            arith,
            where_-passed (λ i. not (any (λ k. k == i) f.changed) && is_over f.last i) j containers
                there,
          )
    ]

orphans-AreCurrent :
    (d now : ℕ) (db : Db)
    → Unique db.executions
    → AreCurrent (where_ (orphan_test d now db) db.executions) db
orphans-AreCurrent d now db u = record {
  current = λ j e h. ground (arith, of_id-where_ (orphan_test d now db) db.executions j u, h);
  active = λ j e h. ground (
    arith,
    of_id-where_ (orphan_test d now db) db.executions j u,
    h,
    is_orphan-active d now db e,
  );
}

-- How a sweep should end.
pub record HasSwept (debug_seconds now : ℕ) (db : Db) (result : Option Swept) : Type 0 where
  pub swept : Swept
  pub ran : result ≡ some swept
  pub rows :
      (j : ℕ)
      → execution_row swept.db j ≡ Option.map (swept_row debug_seconds now db) (execution_row db j)
  pub counted : swept.count ≡ length (where_ (orphan_test debug_seconds now db) db.executions)
  pub safe : (j : ℕ) → any (λ k. k == j) swept.killed ≡ true → is_over swept.db j ≡ true

HasFailed-HasSwept :
    (d now : ℕ) (containers : List ℕ) (db : Db)
    → Unique db.executions
    → HasFailed now (where_ (orphan_test d now db) db.executions) db
    → HasSwept d now db (sweep_once d now containers db)
unfolding sweep_once
HasFailed-HasSwept d now containers db u f = record {
  swept = record {
    count = length f.changed;
    db = f.last;
    killed = cleanup_ids f.last f.changed containers;
    signalled = f.changed;
  };
  ran = ground (arith, f.ran);
  rows = λ j. ground (arith, f.rows j, of_id-where_ (orphan_test d now db) db.executions j u);
  counted = f.all_of_them;
  safe = killed_over now (where_ (orphan_test d now db) db.executions) db f containers;
}

-- If no two runs share an id and nobody interferes, a sweep does not raise and changes exactly the
-- orphans: the row of each is failed with the sweeper's message, every other run's row is as it
-- was, the count is the number of orphans, and only containers of runs that are over are removed.
pub sweep_once-HasSwept :
    (debug_seconds now : ℕ) (containers : List ℕ) (db : Db)
    → Unique db.executions
    → HasSwept debug_seconds now db (sweep_once debug_seconds now containers db)
sweep_once-HasSwept d now containers db u = HasFailed-HasSwept d now containers db u (
    fail_each-HasFailed now _ db (where_-Unique (orphan_test d now db) db.executions u)
      (orphans-AreCurrent d now db u))
