-- ===== src/Queue/Pop.antt =====
-- What one worker's dequeue does to the hash, with other workers at it too.
use cs455_project.Prelude.{
  ℕ, ◌≡◌, refl, ap, true, false, some, List, [], ◌∷◌, ◌++◌, arith, ◌==◌, any, Bool-cases,
  Option-cases, inl, inr, if◌then◌else◌,
}
use cs455_project.Queue.{
  Payload, Settings, Attempt, has_id, hdel, select_highest_priority, pop_highest_priority,
}

pub any-hdel :
    (i j : ℕ) (waiting : List Payload)
    → any (has_id j) (hdel i waiting) ≡ (if i == j then false else any (has_id j) waiting)
any-hdel i j [] = ground arith
any-hdel i j (p ∷ rest) = ground (arith, any-hdel i j rest)

pub hdel_gone : (i : ℕ) (waiting : List Payload) → any (has_id i) (hdel i waiting) ≡ false
hdel_gone i waiting = ground (arith, any-hdel i i waiting)

-- The hash after what the others did during these attempts.
abbrev pub after_others : List Attempt → List Payload → List Payload
after_others [] waiting = waiting
after_others (a ∷ rest) waiting = after_others rest (a.meanwhile waiting)

-- The attempt whose HDEL won: the attempts before it lost, it selected the payload in the hash as it
-- read it, and the payload's field was still there when it was removed.
pub record Won (s : Settings) (attempts : List Attempt) (waiting : List Payload) (p : Payload)
    (after : List Payload) : Type 0 where
  pub lost : List Attempt
  pub winner : Attempt
  pub unused : List Attempt
  pub split : attempts ≡ lost ++ winner ∷ unused
  pub selected : select_highest_priority s winner.now (after_others lost waiting) ≡ some p
  pub there : any (has_id p.execution_id) (winner.meanwhile (after_others lost waiting)) ≡ true
  pub removed : after ≡ hdel p.execution_id (winner.meanwhile (after_others lost waiting))

-- A worker that gets a payload has itself removed the field of that run, which was still there.
pub pop-Won :
    (s : Settings) (attempts : List Attempt) (waiting : List Payload) (p : Payload)
    (after : List Payload)
    → pop_highest_priority s attempts waiting ≡ (some p, after)
    → Won s attempts waiting p after
unfolding pop_highest_priority
pop-Won s [] waiting p after e = absurd (ground arith)
pop-Won s (a ∷ rest) waiting p after e =
    elim (Option-cases (select_highest_priority s a.now waiting)) [
      | inl empty ↦ absurd (ground arith)
      | inr (best, picked) ↦
          elim (Bool-cases (any (has_id best.execution_id) (a.meanwhile waiting))) [
            | inl there ↦ record {
              lost = [];
              winner = a;
              unused = rest;
              split = refl;
              selected = ground (arith, there);
              there = ground (arith, there);
              removed = ground arith;
            }
            | inr gone ↦
                let won = pop-Won s rest (a.meanwhile waiting) p after (ground arith) in
                record {
                  lost = a ∷ won.lost;
                  winner = won.winner;
                  unused = won.unused;
                  split = ap (λ l. a ∷ l) won.split;
                  selected = won.selected;
                  there = won.there;
                  removed = won.removed;
                }
          ]
    ]
