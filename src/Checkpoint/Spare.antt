-- ===== src/Checkpoint/Spare.antt =====
-- Only versions that a newer one stands for are dropped.
use mathlib.Core.Path.{subst}
use cs455_project.Prelude.{
  ℕ, ◌≤◌, ◌<◌, ◌≡◌, refl, Bool, true, false, ◌||◌, List, [], ◌∷◌, map, ltb, leb, ◌==◌, any, arith,
  All, Among, inl, inr, Bool-cases,
}
use cs455_project.Checkpoint.{
  Version, hour, age, Slot, slot_of, same_slot, is_save, prune_from, insert_version, newest_first,
  versions_to_prune,
}

-- The version numbers fall, from below `high` on.
abbrev IsFalling : ℕ → List Version → Type 0
IsFalling high [] = Unit
IsFalling high (r ∷ rest) = (r.version_number < high) × IsFalling r.version_number rest

abbrev numbered : ℕ → Version → Bool
numbered n q = q.version_number == n

-- No two of the versions have the same number.
abbrev pub AreNumbered : List Version → Type 0
AreNumbered [] = Unit
AreNumbered (r ∷ rest) = (any (numbered r.version_number) rest ≡ false) × AreNumbered rest

insert_version-IsFalling :
    (high : ℕ) (r : Version) (rows : List Version)
    → r.version_number < high
    → any (numbered r.version_number) rows ≡ false
    → IsFalling high rows
    → IsFalling high (insert_version r rows)
insert_version-IsFalling high r [] below new f = (below, tt)
insert_version-IsFalling high r (q ∷ rest) below new (first, later) =
    ground (arith, insert_version-IsFalling q.version_number r rest)

any-insert_version :
    (n : ℕ) (r : Version) (rows : List Version)
    → any (numbered n) (insert_version r rows) ≡ (numbered n r || any (numbered n) rows)
any-insert_version n r [] = refl
any-insert_version n r (q ∷ rest) = ground (arith, any-insert_version n r rest)

any-newest_first :
    (n : ℕ) (rows : List Version) → any (numbered n) (newest_first rows) ≡ any (numbered n) rows
any-newest_first n [] = refl
any-newest_first n (r ∷ rows) =
    ground (arith, any-insert_version n r (newest_first rows), any-newest_first n rows)

-- What the loop may drop: a row that is an autosave at least an hour old, where a version with a higher number that
-- is as old stands in the same slot.
pub record IsSpare (now : ℕ) (rows : List Version) (r : Version) : Type 0 where
  pub row : Among r rows
  pub old : hour ≤ age now r
  pub unsaved : is_save r ≡ false
  pub stand_in : Version
  pub among : Among stand_in rows
  pub newer : r.version_number < stand_in.version_number
  pub same : same_slot (slot_of now r) (slot_of now stand_in) ≡ true

-- Each slot seen belongs to a version with a higher number than those to come.
abbrev IsSeen : ℕ → List Version → ℕ → List Slot → Type 0
IsSeen now rows high [] = Unit
IsSeen now rows high (s ∷ seen) =
    ((q : Version) × Among q rows × (high ≤ q.version_number) × (s ≡ slot_of now q))
    × IsSeen now rows high seen

IsSeen-lower :
    (now : ℕ) (rows : List Version) (high low : ℕ) (seen : List Slot)
    → low ≤ high
    → IsSeen now rows high seen
    → IsSeen now rows low seen
IsSeen-lower now rows high low [] h s = tt
IsSeen-lower now rows high low (x ∷ seen) h ((q, among, above, at), rest) =
    ((q, among, omega arith, at), IsSeen-lower now rows high low seen h rest)

find_seen :
    (now : ℕ) (rows : List Version) (high : ℕ) (seen : List Slot) (s : Slot)
    → IsSeen now rows high seen
    → any (same_slot s) seen ≡ true
    → (q : Version) × Among q rows
      × (high ≤ q.version_number)
      × (same_slot s (slot_of now q) ≡ true)
find_seen now rows high [] s i h = absurd (ground arith)
find_seen now rows high (x ∷ seen) s ((q, among, above, at), rest) h =
    elim (Bool-cases (same_slot s x)) [
      | inl here ↦ (q, among, above, subst (λ y. same_slot s y ≡ true) at here)
      | inr elsewhere ↦ find_seen now rows high seen s rest (ground arith)
    ]

prune_from-IsSpare :
    (now : ℕ) (all : List Version) (first : Bool) (high : ℕ) (seen : List Slot)
    (rows : List Version)
    → ((q : Version) → Among q rows → Among q all)
    → IsFalling high rows
    → IsSeen now all high seen
    → All (IsSpare now all) (prune_from now first seen rows)
unfolding prune_from
prune_from-IsSpare now all first high seen [] sub f i = tt
prune_from-IsSpare now all first high seen (r ∷ rest) sub (below, f) i =
    let s : IsSeen now all r.version_number seen =
      IsSeen-lower now all high r.version_number seen (omega arith) i in
    let as_before =
      prune_from-IsSpare now all false r.version_number seen rest (λ q m. sub q (inr m)) f s in
    let unseen =
      prune_from-IsSpare now all false r.version_number (slot_of now r ∷ seen) rest
        (λ q m. sub q (inr m)) f ((r, sub r (inl refl), omega arith, refl), s) in
    elim (Bool-cases (ltb (age now r) hour)) [
      | inl young ↦ rw young as_before
      | inr old ↦ elim (Bool-cases (first || is_save r)) [
        | inl keep ↦ rw (old, keep) unseen
        | inr spare ↦ elim (Bool-cases (any (same_slot (slot_of now r)) seen)) [
          | inr new ↦ rw (old, spare, new) unseen
          | inl stands ↦
              let (q, among, above, same) = find_seen now all high seen (slot_of now r) i stands in
              rw (old, spare, stands)
                (
                  record {
                    row = sub r (inl refl);
                    old = ground arith;
                    unsaved = ground arith;
                    stand_in = q;
                    among = among;
                    newer = omega arith;
                    same = same;
                  },
                  as_before,
                )
        ]
      ]
    ]

Among-insert_version :
    (q r : Version) (rows : List Version) → Among q (insert_version r rows) → Among q (r ∷ rows)
Among-insert_version q r [] m = m
Among-insert_version q r (x ∷ rest) m = elim (Bool-cases (leb x.version_number r.version_number)) [
  | inl e ↦ rw e at m
  | inr e ↦ elim (rw e at m) [
    | inl here ↦ inr (inl here)
    | inr later ↦ elim (Among-insert_version q r rest later) [
      | inl same ↦ inl same
      | inr deeper ↦ inr (inr deeper)
    ]
  ]
]

Among-newest_first :
    (q : Version) (rows : List Version) → Among q (newest_first rows) → Among q rows
Among-newest_first q [] m = m
Among-newest_first q (r ∷ rows) m = elim (Among-insert_version q r (newest_first rows) m) [
  | inl here ↦ inl here
  | inr later ↦ inr (Among-newest_first q rows later)
]

newest_first-IsFalling :
    (rows : List Version)
    → AreNumbered rows
    → (high : ℕ) → All (λ (r : Version). r.version_number < high) rows
    → IsFalling high (newest_first rows)
newest_first-IsFalling [] n high h = tt
newest_first-IsFalling (r ∷ rows) (new, n) high (first, rest) =
    insert_version-IsFalling high r (newest_first rows) first
      (ground (arith, any-newest_first r.version_number rows))
      (newest_first-IsFalling rows n high rest)

-- Of versions with distinct numbers, all below `high`, the ids that are dropped are those of rows
-- that are autosaves at least an hour old, for each of which a row with a higher number is in its slot
-- of ten minutes or a day.
pub versions_to_prune-IsSpare :
    (now : ℕ) (rows : List Version) (high : ℕ)
    → AreNumbered rows
    → All (λ (r : Version). r.version_number < high) rows
    → (spare : List Version) × (versions_to_prune now rows ≡ map (λ (r : Version). r.id) spare)
      × All (IsSpare now rows) spare
unfolding versions_to_prune
versions_to_prune-IsSpare now rows high n h = (
  prune_from now true [] (newest_first rows),
  refl,
  prune_from-IsSpare now rows true high [] (newest_first rows) (λ q m. Among-newest_first q rows m)
      (newest_first-IsFalling rows n high h) tt,
)
