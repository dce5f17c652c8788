-- ===== src/Crdt.antt =====
-- The helpers of backend/app/realtime/crdt.py over the document type of `pycrdt`, which is an argument.
-- Bytes and characters are numbers.
pub mod Laws
use cs455_project.Prelude.{ℕ, ◌+◌, Bool, true, false, Option, none, some, List, [], ◌∷◌, length}

-- One entry of an event's delta. `embedded` is an insert that is not a text.
pub data Op : Type 0 where
  inserted : List ℕ → Op
  embedded : Op
  deleted : ℕ → Op
  retained : ℕ → Op

-- What the program calls of `pycrdt`, for the one text field that it uses.
pub record Pycrdt (D : Type 0) : Type 0 where
  -- `Doc()`
  pub blank : D
  -- `str(text)`, `text.insert(at, s)` and `del text[start:stop]`
  pub text : D → List ℕ
  pub insert : ℕ → List ℕ → D → D
  pub delete : (start stop : ℕ) → D → D
  -- `doc.get_state()`, `doc.get_update()` and `doc.get_update(state)`
  pub get_state : D → List ℕ
  pub get_update : D → List ℕ
  pub get_update_since : List ℕ → D → List ℕ
  -- `doc.apply_update(update)`, `none` where it raises, and the delta that observers of the text see
  pub apply_update : List ℕ → D → Option D
  pub delta : List ℕ → D → List Op

module _ {D : Type 0} (lib : Pycrdt D) where
  unfoldable pub new_doc : List ℕ → D
  new_doc [] = lib.blank
  new_doc (c ∷ cs) = lib.insert 0 (c ∷ cs) lib.blank

  unfoldable pub doc_from_bytes : List ℕ → Option D
  doc_from_bytes [] = some lib.blank
  doc_from_bytes (b ∷ bs) = lib.apply_update (b ∷ bs) lib.blank

  abbrev pub doc_to_bytes : D → List ℕ
  doc_to_bytes doc = lib.get_update doc

  abbrev pub doc_to_text : D → List ℕ
  doc_to_text doc = lib.text doc

  -- The nested `count`.
  abbrev pub count : List Op → ℕ
  count [] = 0
  count (inserted s ∷ ops) = length s + count ops
  count (embedded ∷ ops) = count ops
  count (deleted n ∷ ops) = n + count ops
  count (retained n ∷ ops) = count ops

  unfoldable pub apply_update_counting : D → List ℕ → Option (D × ℕ)
  apply_update_counting doc update = elim (lib.apply_update update doc) [
    | none ↦ none
    | some changed ↦ some (changed, count (lib.delta update doc))
  ]

  abbrev pub state_vector : D → List ℕ
  state_vector doc = lib.get_state doc

  abbrev pub diff_update : D → List ℕ → List ℕ
  diff_update doc [] = lib.get_update doc
  diff_update doc (b ∷ bs) = lib.get_update_since (b ∷ bs) doc
