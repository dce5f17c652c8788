-- ===== src/Rooms/Edit.antt =====
-- Replacing a room's text as one edit: `text_edit_update` and `replace_text` of
-- backend/app/realtime/rooms.py.
use cs455_project.Prelude.{
  ℕ, zero, suc, ◌-◌, Bool, true, false, ◌&&◌, Option, none, some, List, [], ◌∷◌, ◌==◌, ltb, length,
  take, drop, get_elem?, if◌then◌else◌, value_error, Result, ok, err,
}
use cs455_project.Changes.{Differ, same_text}
use cs455_project.Crdt.{Pycrdt, doc_to_text, doc_to_bytes, doc_from_bytes}
use cs455_project.Rooms.{Room, Outboxes, binary, broadcast, apply_edit}

-- The first loop: how far the two texts agree.
abbrev pub start_of : List ℕ → List ℕ → ℕ
start_of [] new = 0
start_of (c ∷ cs) [] = 0
start_of (c ∷ cs) (d ∷ ds) = let more = start_of cs ds in if c == d then suc more else 0

abbrev pub same_char : Option ℕ → Option ℕ → Bool
same_char (some c) (some d) = c == d
same_char _ _ = false

-- The second loop, from `end_old` and `end_new` down.
abbrev pub ends_of : (start : ℕ) (old new : List ℕ) (end_old end_new : ℕ) → ℕ × ℕ
ends_of start old new zero end_new = (0, end_new)
ends_of start old new (suc m) zero = (suc m, 0)
ends_of start old new (suc m) (suc n) =
    let more = ends_of start old new m n in
    if ltb start (suc m) && ltb start (suc n) && same_char (get_elem? m old) (get_elem? n new)
    then more
    else (suc m, suc n)

module _ {D : Type 0} (lib : Pycrdt D) where
  -- The transaction on the scratch document.
  abbrev pub edit_text : (start end_old end_new : ℕ) → List ℕ → D → D
  edit_text start end_old end_new new_text scratch =
      let cut = if ltb start end_old then lib.delete start end_old scratch else scratch in
      if ltb start end_new
      then lib.insert start (take (end_new - start) (drop start new_text)) cut
      else cut

  -- What the scratch document becomes.
  abbrev pub edited_scratch : (old new_text : List ℕ) → D → D
  edited_scratch old new_text scratch =
      let start = start_of old new_text in
      let (end_old, end_new) = ends_of start old new_text (length old) (length new_text) in
      edit_text start end_old end_new new_text scratch

  unfoldable pub text_edit_update : Room D → List ℕ → Result (Option (List ℕ))
  text_edit_update room new_text =
      let old = doc_to_text lib room.doc in
      if same_text old new_text
      then ok none
      else elim (doc_from_bytes lib (doc_to_bytes lib room.doc)) [
        | none ↦ err value_error
        | some scratch ↦ ok (
            some
              (lib.get_update_since (lib.get_state scratch) (edited_scratch old new_text scratch)))
      ]

module _ {D : Type 0} (lib : Pycrdt D) (differ : Differ) where
  -- Whether the text changed, and the room and the queues, also where an exception is raised.
  unfoldable pub replace_text :
      (now : ℕ) → Room D → List ℕ → (user_id : ℕ) → Outboxes → Result Bool × Room D × Outboxes
  replace_text now room new_text user_id boxes = elim (text_edit_update lib room new_text) [
    | err e ↦ (err e, room, boxes)
    | ok none ↦ (ok false, room, boxes)
    | ok (some update) ↦
        let edited = apply_edit lib differ now user_id update room in
        if edited.0
        then (ok true, edited.1, broadcast edited.1 (binary update) none boxes)
        else (err value_error, edited.1, boxes)
  ]
