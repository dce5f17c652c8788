-- ===== src/Tests/Queue.antt =====
-- The theorems on the queue at concrete inputs.
use cs455_project.Prelude.{
  ◌≡◌, ◌<◌, ◌-◌, refl, true, false, any, List, [], ◌∷◌, ◌++◌, All, Among, inl, inr, arith,
}
use cs455_project.Roles.{viewer, owner}
use cs455_project.Queue.{
  Payload, Attempt, has_id, default_settings, score_of, exceeds, compute_priority,
  select_highest_priority, pop_highest_priority, enqueue_execution,
}
use cs455_project.Queue.Ageing.{aged_outscores}
use cs455_project.Queue.Select.{select-IsMax, selected_waited}
use cs455_project.Queue.Pop.{after_others}
use cs455_project.Queue.HandOut.{
  Shop, Step, here, next, enqueue, take, IsFair, handed_out_once, pop-take,
}
use cs455_project.Tests.{payload}

-- Two runs wait: an owner's that has just come, and a viewer's that has waited for 40 seconds.
abbrev fresh_run : Payload
fresh_run = record (payload 11) { enqueued_at = 40000000 }

abbrev old_run : Payload
old_run = record (payload 12) { role = viewer; enqueued_at = 0 }

abbrev two_waiting : List Payload
two_waiting = fresh_run ∷ old_run ∷ []

aged_outscores_example :
    exceeds
      (compute_priority default_settings viewer false "cpp" 0 40000000)
      (compute_priority default_settings owner true "python" 40000000 40000000)
    ≡ true
aged_outscores_example =
    aged_outscores default_settings 0 40000000 viewer owner false true "cpp" "python" 0 40000000
      (omega arith) (omega arith) (omega arith)

select-IsMax_example :
    Among old_run two_waiting
    × All
        (λ q.
          exceeds
            (score_of default_settings 40000000 q)
            (score_of default_settings 40000000 old_run)
          ≡ false)
        two_waiting
unfolding select_highest_priority compute_priority
select-IsMax_example = select-IsMax default_settings 40000000 two_waiting old_run refl

selected_waited_example : 0 < 40000000 - old_run.enqueued_at
unfolding select_highest_priority compute_priority
selected_waited_example =
    selected_waited default_settings 0 40000000 two_waiting old_run old_run (omega arith) refl
      (inr (inl refl)) (omega arith)

-- Nobody else is at the hash.
abbrev steady : Attempt
steady = record { now = 40000000; meanwhile = λ w. w }

pop-take_example :
    (lost : List Attempt) × (winner : Attempt) × (unused : List Attempt) × (steady ∷ []
      ≡ lost ++ winner ∷ unused)
    × (any (has_id 12) (winner.meanwhile (after_others lost two_waiting)) ≡ true)
    × Step
        (record { waiting = winner.meanwhile (after_others lost two_waiting); taken = [] })
        (record { waiting = fresh_run ∷ []; taken = 12 ∷ [] })
unfolding pop_highest_priority select_highest_priority compute_priority
pop-take_example =
    pop-take default_settings (steady ∷ []) two_waiting old_run (fresh_run ∷ []) [] refl

abbrev served : Shop
served = record { waiting = []; taken = 11 ∷ [] }

handed_out_once_example : IsFair served
unfolding enqueue_execution pop_highest_priority select_highest_priority
handed_out_once_example = handed_out_once served (
    next (next here (enqueue fresh_run refl refl))
      (take default_settings 0 (fresh_run ∷ []) fresh_run [] refl refl))
