-- ===== src/Crdt/Laws.antt =====
-- What the program relies on of `pycrdt`, as its documentation has it.
use cs455_project.Prelude.{ℕ, ◌≤◌, some, List, [], ◌++◌, length, take, drop, ◌≡◌, ◌≢◌}
use cs455_project.Crdt.{Pycrdt, doc_from_bytes, doc_to_bytes, apply_update_counting}

module _ {D : Type 0} (lib : Pycrdt D) where
  -- `later` comes from `doc` by edits of the text.
  pub data IsEdited : D → D → Type 0 where
    unedited : {doc : D} → IsEdited doc doc
    with_insert :
        {doc later : D}
        → (at : ℕ) (s : List ℕ) → IsEdited doc later
        → IsEdited doc (lib.insert at s later)
    with_delete :
        {doc later : D}
        → (start stop : ℕ) → IsEdited doc later
        → IsEdited doc (lib.delete start stop later)

  pub record IsPycrdt : Type 0 where
    -- An edit of the text is that of a string.
    pub text-insert :
        (doc : D) (at : ℕ) (s : List ℕ)
        → at ≤ length (lib.text doc)
        → lib.text (lib.insert at s doc) ≡ take at (lib.text doc) ++ (s ++ drop at (lib.text doc))
    pub text-delete :
        (doc : D) (start stop : ℕ)
        → start ≤ stop
        → stop ≤ length (lib.text doc)
        → lib.text (lib.delete start stop doc)
          ≡ take start (lib.text doc) ++ drop stop (lib.text doc)
    -- A full state makes a copy with the same text.
    pub copies :
        (doc : D)
        → (copy : D) × (doc_from_bytes lib (doc_to_bytes lib doc) ≡ some copy)
          × (lib.text copy ≡ lib.text doc)
    -- Replicas converge: what a copy's edits add to it brings the original to the copy's text.
    pub converges :
        (doc copy later : D)
        → doc_from_bytes lib (doc_to_bytes lib doc) ≡ some copy
        → IsEdited copy later
        → (merged : D) × (lib.apply_update (lib.get_update_since (lib.get_state copy) later) doc
            ≡ some merged)
          × (lib.text merged ≡ lib.text later)
    -- An update whose events insert and delete no character leaves the text as it is.
    pub quiet :
        (doc merged : D) (update : List ℕ)
        → apply_update_counting lib doc update ≡ some (merged, 0)
        → lib.text merged ≡ lib.text doc
    -- An encoded state is never the empty byte string.
    pub nonempty : (doc : D) → doc_to_bytes lib doc ≢ []
