-- ===== src/Queue/HandOut.antt =====
-- Every interleaving of enqueues, cancels and dequeues hands a run out at most once.
use cs455_project.Prelude.{
  ℕ, ◌≡◌, refl, sym, ap, ◌∙◌, true, false, some, List, [], ◌∷◌, ◌++◌, arith, ◌==◌, any, any-append,
  Among, inl, inr, Bool-cases, Option-cases,
}
use cs455_project.Queue.{
  Payload, Settings, Attempt, has_id, hdel, enqueue_execution, remove_from_queue, select_from,
  select_highest_priority, pop_highest_priority,
}
use cs455_project.Queue.Select.{select-IsMax}
use cs455_project.Queue.Pop.{any-hdel, after_others, pop-Won}

-- The hash, and the ids of the runs that workers have got from it so far.
pub record Shop : Type 0 where
  pub waiting : List Payload
  pub taken : List ℕ

-- Ids come from the database, so a run is enqueued under an id that was never used before. A worker
-- attempts to take a run: it selects from a view of the hash, which may be as old as it likes, and its
-- HDEL meets the hash as it stands.
pub data Step (s t : Shop) : Type 0 where
  enqueue :
      (p : Payload)
      → any (λ i. i == p.execution_id) s.taken ≡ false
      → t ≡ record { waiting = enqueue_execution p s.waiting; taken = s.taken }
      → Step s t
  take :
      (settings : Settings) (now : ℕ) (view : List Payload) (p : Payload) (after : List Payload)
      → pop_highest_priority settings (record { now = now; meanwhile = λ _. s.waiting } ∷ []) view
        ≡ (some p, after)
      → t ≡ record { waiting = after; taken = p.execution_id ∷ s.taken }
      → Step s t
  cancel :
      (i : ℕ)
      → t ≡ record { waiting = (remove_from_queue i s.waiting).1; taken = s.taken }
      → Step s t

pub data Reach (s : Shop) : Shop → Type 0 where
  here : Reach s s
  next : {t u : Shop} → Reach s t → Step t u → Reach s u

any-has_id :
    (p : Payload) (waiting : List Payload)
    → Among p waiting
    → any (has_id p.execution_id) waiting ≡ true
any-has_id p [] m = absurd m
any-has_id p (q ∷ rest) (inl e) = ground (arith, e)
any-has_id p (q ∷ rest) (inr m) = ground (arith, any-has_id p rest m)

-- One attempt that answers a payload found its field in the hash as it stood, and removed it.
attempt_took :
    (s : Settings) (now : ℕ) (view : List Payload) (p : Payload) (after waiting : List Payload)
    → pop_highest_priority s (record { now = now; meanwhile = λ _. waiting } ∷ []) view
      ≡ (some p, after)
    → (any (has_id p.execution_id) waiting ≡ true) × (after ≡ hdel p.execution_id waiting)
unfolding pop_highest_priority
attempt_took s now view p after waiting e =
    elim (Option-cases (select_highest_priority s now view)) [
      | inl empty ↦ absurd (ground arith)
      | inr (best, picked) ↦ elim (Bool-cases (any (has_id best.execution_id) waiting)) [
        | inl there ↦ (ground (arith, there), ground arith)
        | inr gone ↦ absurd (ground arith)
      ]
    ]

abbrev pub Distinct : List ℕ → Type 0
Distinct [] = Unit
Distinct (i ∷ is) = (any (λ j. j == i) is ≡ false) × Distinct is

pub record IsFair (s : Shop) : Type 0 where
  pub once : Distinct s.taken
  pub apart : (i : ℕ) → any (λ j. j == i) s.taken ≡ true → any (has_id i) s.waiting ≡ false

pub Step-IsFair : {s t : Shop} → Step s t → IsFair s → IsFair t
unfolding enqueue_execution remove_from_queue
Step-IsFair {s} (enqueue p new e) f = rw e (record {
  once = f.once;
  apart = λ i h. rw any-append (ground (arith, any-hdel p.execution_id i s.waiting, f.apart i h));
})
Step-IsFair {s} (take settings now view p after popped e) f =
    let (there, removed) = attempt_took settings now view p after s.waiting popped in
    rw (e, removed)
      (record {
        once = (ground (arith, f.apart p.execution_id, there), f.once);
        apart = λ j h. ground (arith, any-hdel p.execution_id j s.waiting, f.apart j);
      })
Step-IsFair {s} (cancel i e) f =
    rw e
      (record { once = f.once; apart = λ j h. ground (arith, any-hdel i j s.waiting, f.apart j h) })

Reach-IsFair : {s t : Shop} → IsFair s → Reach s t → IsFair t
Reach-IsFair f here = f
Reach-IsFair f (next r st) = Step-IsFair st (Reach-IsFair f r)

abbrev pub empty_shop : Shop
empty_shop = record { waiting = []; taken = [] }

-- Whatever enqueues, cancels and attempts to dequeue interleave from an empty queue, each attempt on
-- any view of the hash, if a run is enqueued only under an id that was not handed out before, then no
-- run is handed out twice, and none that was handed out waits.
pub handed_out_once : (t : Shop) → Reach empty_shop t → IsFair t
handed_out_once t r = Reach-IsFair (record { once = tt; apart = λ i h. refl }) r

-- An attempt on a view whose selected payload stands in the hash takes it.
attempt_works :
    (s : Settings) (now : ℕ) (view : List Payload) (p : Payload) (waiting : List Payload)
    → select_highest_priority s now view ≡ some p
    → any (has_id p.execution_id) waiting ≡ true
    → pop_highest_priority s (record { now = now; meanwhile = λ _. waiting } ∷ []) view
      ≡ (some p, hdel p.execution_id waiting)
unfolding pop_highest_priority
attempt_works s now view p waiting picked there = ground (arith, picked, there)

-- A dequeue over several attempts that answers a payload won with one of them: the field was in the
-- hash that the others had left by then, and the dequeue is one `take` from that hash.
pub pop-take :
    (s : Settings) (attempts : List Attempt) (waiting : List Payload) (p : Payload)
    (after : List Payload) (taken : List ℕ)
    → pop_highest_priority s attempts waiting ≡ (some p, after)
    → (lost : List Attempt) × (winner : Attempt) × (unused : List Attempt) × (attempts
        ≡ lost ++ winner ∷ unused)
      × (any (has_id p.execution_id) (winner.meanwhile (after_others lost waiting)) ≡ true)
      × Step
          (record { waiting = winner.meanwhile (after_others lost waiting); taken = taken })
          (record { waiting = after; taken = p.execution_id ∷ taken })
pop-take s attempts waiting p after taken e =
    let won = pop-Won s attempts waiting p after e in
    let view = after_others won.lost waiting in
    (
      won.lost,
      won.winner,
      won.unused,
      won.split,
      won.there,
      take s won.winner.now view p after
          (attempt_works s won.winner.now view p (won.winner.meanwhile view) won.selected won.there
            ∙ ap (λ (l : List Payload). (some p, l)) (sym won.removed))
          refl,
    )

-- Alone at a queue that is not empty, a worker gets the selected run at its first attempt.
pub pop_alone :
    (s : Settings) (now : ℕ) (rest : List Attempt) (p : Payload) (waiting : List Payload)
    → (best : Payload) × (select_highest_priority s now (p ∷ waiting) ≡ some best)
      × (pop_highest_priority s (record { now = now; meanwhile = λ w. w } ∷ rest) (p ∷ waiting)
          ≡ (some best, hdel best.execution_id (p ∷ waiting)))
unfolding pop_highest_priority select_highest_priority
pop_alone s now rest p waiting =
    let best = select_from s now p waiting in
    (
      best,
      refl,
      ground (
        arith,
        any-has_id best (p ∷ waiting)
            (select-IsMax s now (p ∷ waiting) best (unfold select_highest_priority in refl)).0,
      ),
    )
