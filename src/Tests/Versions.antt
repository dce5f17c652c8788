-- ===== src/Tests/Versions.antt =====
-- The theorem on dropped versions at a concrete history.
use cs455_project.Prelude.{◌≡◌, refl, none, some, List, [], ◌∷◌, map, All, arith}
use cs455_project.Checkpoint.{Version, prune_from, versions_to_prune}
use cs455_project.Checkpoint.Spare.{IsSpare, versions_to_prune-IsSpare}

-- Two autosaves of one slot, then a Save, two hours later read.
abbrev history : List Version
history =
    record { id = 31; version_number = 1; created_at = 0; saved_by = none }
    ∷ record { id = 32; version_number = 2; created_at = 1000000; saved_by = none }
    ∷ record { id = 33; version_number = 3; created_at = 900000000; saved_by = some 1 }
    ∷ []

pruned_history : versions_to_prune 7200000000 history ≡ 31 ∷ []
unfolding versions_to_prune prune_from
pruned_history = refl

versions_to_prune-IsSpare_example :
    (spare : List Version) × (versions_to_prune 7200000000 history
      ≡ map (λ (r : Version). r.id) spare)
    × All (IsSpare 7200000000 history) spare
versions_to_prune-IsSpare_example =
    versions_to_prune-IsSpare 7200000000 history 10 (refl, (refl, (refl, tt)))
      (omega arith, (omega arith, (omega arith, tt)))
