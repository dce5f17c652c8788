-- ===== src/Checkpoint.antt =====
-- Which stored versions of a file are dropped: `versions_to_prune` of
-- backend/app/realtime/checkpoint.py.
pub mod Spare
pub mod Save
use cs455_project.Prelude.{
  ℕ, ◌+◌, ◌-◌, ◌*◌, ◌/◌, Bool, true, false, ◌&&◌, ◌||◌, not, Option, none, some, List, [], ◌∷◌, map,
  foldr, ltb, leb, ◌==◌, any, if◌then◌else◌,
}

-- One autosave or Save; `created_at` is in microseconds.
pub record Version : Type 0 where
  pub id : ℕ
  pub version_number : ℕ
  pub created_at : ℕ
  pub saved_by : Option ℕ

abbrev pub hour : ℕ
hour = 3600000000

abbrev pub day : ℕ
day = 86400000000

-- `now - created_at`; a version from the future is younger than an hour in either case.
abbrev pub age : ℕ → Version → ℕ
age now r = now - r.created_at

-- `("10m", ts // 600)` or `("day", ts // 86400)`
pub record Slot : Type 0 where
  pub daily : Bool
  pub number : ℕ

abbrev pub slot_of : ℕ → Version → Slot
slot_of now r =
    if ltb (age now r) day
    then record { daily = false; number = r.created_at / 1000000 / 600 }
    else record { daily = true; number = r.created_at / 1000000 / 86400 }

abbrev pub same_bool : Bool → Bool → Bool
same_bool true b = b
same_bool false b = not b

abbrev pub same_slot : Slot → Slot → Bool
same_slot a b = same_bool a.daily b.daily && a.number == b.number

abbrev pub is_save : Version → Bool
is_save r = elim r.saved_by [ none ↦ false | some user ↦ true ]

-- The loop over the versions, newest first; `first` is `i == 0`.
unfoldable pub prune_from : ℕ → Bool → List Slot → List Version → List Version
prune_from now first seen [] = []
prune_from now first seen (r ∷ rest) =
    let slot = slot_of now r in
    let unseen = prune_from now false (slot ∷ seen) rest in
    let as_before = prune_from now false seen rest in
    if ltb (age now r) hour
    then as_before
    else if first || is_save r
    then unseen
    else if any (same_slot slot) seen
    then r ∷ as_before
    else unseen

-- `sorted(rows, key=version_number, reverse=True)`, which keeps the order of equals.
abbrev pub insert_version : Version → List Version → List Version
insert_version r [] = r ∷ []
insert_version r (q ∷ rest) =
    let later = insert_version r rest in
    if leb q.version_number r.version_number then r ∷ q ∷ rest else q ∷ later

abbrev pub newest_first : List Version → List Version
newest_first rows = foldr insert_version [] rows

unfoldable pub versions_to_prune : ℕ → List Version → List ℕ
versions_to_prune now rows =
    map (λ (r : Version). r.id) (prune_from now true [] (newest_first rows))
