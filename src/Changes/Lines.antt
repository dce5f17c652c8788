-- ===== src/Changes/Lines.antt =====
-- What `line_stats` counts against the lengths of the two texts, for a `difflib` that gives a script.
use cs455_project.Prelude.{
  ℕ, ◌+◌, ◌-◌, ◌≤◌, if◌then◌else◌, true, List, [], ◌∷◌, eq_of_==, ◌≡◌, refl, inl, inr, Bool-cases,
  length, arith,
}
use cs455_project.Changes.{
  Tag, equal, inserting, deleting, replacing, Opcode, brings, takes_away, count_lines, same_text,
  Differ, splitlines, line_stats,
}

-- What an opcode's tag says of its ranges.
abbrev pub Fits : Tag → (i1 i2 j1 j2 : ℕ) → Type 0
Fits equal i1 i2 j1 j2 = i2 + j1 ≡ j2 + i1
Fits inserting i1 i2 j1 j2 = i1 ≡ i2
Fits deleting i1 i2 j1 j2 = j1 ≡ j2
Fits replacing i1 i2 j1 j2 = Unit

-- The opcodes describe both texts from `i` and `j` to the ends `n` and `m` without a gap.
abbrev pub IsScript : (i j n m : ℕ) → List Opcode → Type 0
IsScript i j n m [] = (i ≡ n) × (j ≡ m)
IsScript i j n m (op ∷ ops) =
    (op.i1 ≡ i)
    × (op.j1 ≡ j)
    × (op.i1 ≤ op.i2)
    × (op.j1 ≤ op.j2)
    × Fits op.tag op.i1 op.i2 op.j1 op.j2
    × IsScript op.i2 op.j2 n m ops

-- As `difflib` documents it.
abbrev pub IsDiffer : Differ → Type 0
IsDiffer differ = (a b : List (List ℕ)) → IsScript 0 0 (length a) (length b) (differ a b)

counted :
    (t : Tag) (i1 i2 j1 j2 added removed : ℕ)
    → i1 ≤ i2
    → j1 ≤ j2
    → Fits t i1 i2 j1 j2
    → i2 + (if brings t then added + (j2 - j1) else added) + j1 + removed
      ≡ i1 + added + j2 + (if takes_away t then removed + (i2 - i1) else removed)
counted equal i1 i2 j1 j2 added removed c d fits = omega arith
counted inserting i1 i2 j1 j2 added removed c d fits = omega arith
counted deleting i1 i2 j1 j2 added removed c d fits = omega arith
counted replacing i1 i2 j1 j2 added removed c d fits = omega arith

balanced :
    (i j n m added removed : ℕ) (ops : List Opcode)
    → IsScript i j n m ops
    → n + j + (count_lines ops added removed).0 + removed
      ≡ m + i + added + (count_lines ops added removed).1
balanced i j n m added removed [] (at_i, at_j) = omega arith
balanced i j n m added removed (op ∷ ops) (a, b, c, d, fits, more) =
    let added' = if brings op.tag then added + (op.j2 - op.j1) else added in
    let removed' = if takes_away op.tag then removed + (op.i2 - op.i1) else removed in
    omega (
      arith,
      counted op.tag op.i1 op.i2 op.j1 op.j2 added removed c d fits,
      balanced op.i2 op.j2 n m added' removed' ops more,
    )

pub eq_of_same_text : (s t : List ℕ) → same_text s t ≡ true → s ≡ t
eq_of_same_text [] [] h = refl
eq_of_same_text [] (d ∷ ds) h = ground arith
eq_of_same_text (c ∷ cs) [] h = ground arith
eq_of_same_text (c ∷ cs) (d ∷ ds) h = ground (arith, eq_of_same_text cs ds, eq_of_== c d)

pub same_text_refl : (s : List ℕ) → same_text s s ≡ true
same_text_refl [] = refl
same_text_refl (c ∷ cs) = ground (arith, same_text_refl cs)

-- With a `difflib` as documented, the lines of the old text with the added ones are as many as the
-- lines of the new text with the removed ones.
pub line_stats_balanced :
    (differ : Differ) (old new : List ℕ)
    → IsDiffer differ
    → length (splitlines old) + (line_stats differ old new).0
      ≡ length (splitlines new) + (line_stats differ old new).1
unfolding line_stats
line_stats_balanced differ old new differs =
    let a = splitlines old in
    let b = splitlines new in
    let script = balanced 0 0 (length a) (length b) 0 0 (differ a b) (differs a b) in
    elim (Bool-cases (same_text old new)) [
      | inl e ↦ rw (e, eq_of_same_text old new e) refl
      | inr e ↦ rw e (omega (arith, script))
    ]
