-- ===== src/Changes.antt =====
-- How many lines an edit changes and who is credited with them: backend/app/realtime/changes.py. A
-- text is a list of characters. `difflib` is an argument, and a share is an exact number over the
-- sum of the weights where the program uses a float.
pub mod Lines
pub mod Totals
use cs455_project.Prelude.{
  ℕ, zero, suc, ◌+◌, ◌-◌, ◌*◌, ◌/◌, ◌%◌, Bool, true, false, ◌&&◌, ◌||◌, List, [], ◌∷◌, ◌++◌, ◌==◌,
  leb, take, map, foldr, sum_of, if◌then◌else◌,
}

-- The end of a line for `str.splitlines`: \n, \v, \f, \r, the separators 28 to 30, \x85 and U+2028 and U+2029.
abbrev pub is_line_end : ℕ → Bool
is_line_end c =
    (leb 10 c && leb c 13) || (leb 28 c && leb c 30) || c == 133 || c == 8232 || c == 8233

abbrev pub put_char : ℕ → List (List ℕ) → List (List ℕ)
put_char c [] = (c ∷ []) ∷ []
put_char c (line ∷ later) = (c ∷ line) ∷ later

-- `text.splitlines()`, where \r\n is one end
unfoldable pub splitlines : List ℕ → List (List ℕ)
splitlines [] = []
splitlines (c ∷ []) = if is_line_end c then [] ∷ [] else (c ∷ []) ∷ []
splitlines (c ∷ d ∷ rest) =
    let after_one = splitlines (d ∷ rest) in
    let after_two = splitlines rest in
    if c == 13 && d == 10
    then [] ∷ after_two
    else if is_line_end c
    then [] ∷ after_one
    else put_char c after_one

abbrev pub same_text : List ℕ → List ℕ → Bool
same_text [] [] = true
same_text [] (d ∷ ds) = false
same_text (c ∷ cs) [] = false
same_text (c ∷ cs) (d ∷ ds) = c == d && same_text cs ds

pub data Tag : Type 0 where
  equal : Tag
  inserting : Tag
  deleting : Tag
  replacing : Tag

-- One of `get_opcodes()`: `a[i1:i2]` becomes `b[j1:j2]`.
pub record Opcode : Type 0 where
  pub tag : Tag
  pub i1 : ℕ
  pub i2 : ℕ
  pub j1 : ℕ
  pub j2 : ℕ

abbrev pub takes_away : Tag → Bool
takes_away deleting = true
takes_away replacing = true
takes_away _ = false

abbrev pub brings : Tag → Bool
brings inserting = true
brings replacing = true
brings _ = false

-- The loop of `line_stats`.
abbrev pub count_lines : List Opcode → (added removed : ℕ) → ℕ × ℕ
count_lines [] added removed = (added, removed)
count_lines (op ∷ ops) added removed =
    count_lines ops (if brings op.tag then added + (op.j2 - op.j1) else added)
      (if takes_away op.tag then removed + (op.i2 - op.i1) else removed)

-- `SequenceMatcher(None, a, b, autojunk=False).get_opcodes()`
abbrev pub Differ : Type 0
Differ = List (List ℕ) → List (List ℕ) → List Opcode

unfoldable pub line_stats : Differ → (old new : List ℕ) → ℕ × ℕ
line_stats differ old new =
    if same_text old new then (0, 0) else count_lines (differ (splitlines old) (splitlines new)) 0 0

-- What each author typed, or is credited with.
abbrev pub Weights : Type 0
Weights = List (ℕ × ℕ)

-- `sum(weights.values())`
abbrev pub total_of : Weights → ℕ
total_of weights = sum_of (λ (w : ℕ × ℕ). w.1) weights

-- `sum(weights.values()) or 1`
abbrev pub whole_of : Weights → ℕ
whole_of weights = if total_of weights == 0 then 1 else total_of weights

-- `shares`, and the fractions `exact[uid] - shares[uid]` times the whole
abbrev pub floors : (total whole : ℕ) → Weights → Weights
floors total whole weights = map (λ (w : ℕ × ℕ). (w.0, total * w.1 / whole)) weights

abbrev pub fractions : (total whole : ℕ) → Weights → Weights
fractions total whole weights = map (λ (w : ℕ × ℕ). (w.0, total * w.1 % whole)) weights

-- `sorted(exact, key=..., reverse=True)`, which keeps the order of equals.
abbrev pub insert_fraction : ℕ × ℕ → Weights → Weights
insert_fraction f [] = f ∷ []
insert_fraction f (g ∷ rest) =
    let later = insert_fraction f rest in if leb g.1 f.1 then f ∷ g ∷ rest else g ∷ later

abbrev pub largest_first : Weights → Weights
largest_first fs = foldr insert_fraction [] fs

-- `shares[uid] += 1`
abbrev pub bump : ℕ → Weights → Weights
bump uid [] = []
bump uid ((k, v) ∷ rest) =
    let later = bump uid rest in if k == uid then (k, suc v) ∷ rest else (k, v) ∷ later

abbrev pub bump_each : Weights → Weights → Weights
bump_each [] shares = shares
bump_each (f ∷ fs) shares = bump_each fs (bump f.0 shares)

unfoldable pub largest_remainder : Weights → ℕ → Weights
largest_remainder weights total =
    let whole = whole_of weights in
    let shares = floors total whole weights in
    let leftover = total - total_of shares in
    bump_each (take leftover (largest_first (fractions total whole weights))) shares

-- `zip(..., strict=True)` of two dicts with the same keys
abbrev pub zip_shares : Weights → Weights → List (ℕ × (ℕ × ℕ))
zip_shares ((uid, a) ∷ more) ((_, r) ∷ others) = (uid, (a, r)) ∷ zip_shares more others
zip_shares _ _ = []

unfoldable pub split_stats : Weights → (added removed : ℕ) → List (ℕ × (ℕ × ℕ))
split_stats [] added removed = []
split_stats ((uid, w) ∷ []) added removed = (uid, (added, removed)) ∷ []
split_stats weights added removed =
    zip_shares (largest_remainder weights added) (largest_remainder weights removed)
