-- ===== src/Rooms/Balance.antt =====
-- An edit and the end of a window keep the balance of the credited lines with the text.
use cs455_project.Prelude.{
  ℕ, zero, suc, ◌+◌, ◌<◌, true, false, some, List, [], ◌∷◌, ◌++◌, ◌≡◌, refl, inl, inr, Bool-cases,
  Option-cases, length, lookup, store, where_, if◌then◌else◌, arith,
}
use cs455_project.Changes.{Differ, Weights, splitlines, line_stats, split_stats, total_of}
use cs455_project.Changes.Lines.{IsDiffer, line_stats_balanced}
use cs455_project.Changes.Totals.{added_of, removed_of, split_stats-IsSplit}
use cs455_project.Crdt.{Pycrdt, apply_update_counting}
use cs455_project.Crdt.Laws.{IsPycrdt}
use cs455_project.Rooms.{
  Room, Credits, is_empty, or_else, credit_each, is_credited, close_window, is_new_turn,
  open_window, record_edit, apply_edit,
}

added-store :
    (uid a r : ℕ) (items : Credits)
    → let (x, y) = or_else (lookup uid items) (0, 0) in
      (added_of (store uid (x + a, y + r) items) ≡ a + added_of items)
      × (removed_of (store uid (x + a, y + r) items) ≡ r + removed_of items)
added-store uid a r [] = (omega arith, omega arith)
added-store uid a r ((k, (x, y)) ∷ items) = ground (arith, added-store uid a r items)

added-credit_each :
    (shares pending : Credits)
    → (added_of (credit_each shares pending) ≡ added_of shares + added_of pending)
      × (removed_of (credit_each shares pending) ≡ removed_of shares + removed_of pending)
added-credit_each [] pending = (omega arith, omega arith)
added-credit_each ((uid, (a, r)) ∷ shares) pending =
    let (x, y) = or_else (lookup uid pending) (0, 0) in
    let rest = added-credit_each shares (store uid (x + a, y + r) pending) in
    let this = added-store uid a r pending in
    (omega (arith, rest.0, this.0), omega (arith, rest.1, this.1))

pub added-append :
    (xs ys : Credits)
    → (added_of (xs ++ ys) ≡ added_of xs + added_of ys)
      × (removed_of (xs ++ ys) ≡ removed_of xs + removed_of ys)
added-append [] ys = (omega arith, omega arith)
added-append (x ∷ xs) ys =
    (omega (arith, (added-append xs ys).0), omega (arith, (added-append xs ys).1))

pub added-where_ :
    (items : Credits)
    → (added_of (where_ is_credited items) ≡ added_of items)
      × (removed_of (where_ is_credited items) ≡ removed_of items)
added-where_ [] = (refl, refl)
added-where_ ((uid, (a, r)) ∷ items) = ground (arith, added-where_ items)

abbrev pub lines : List ℕ → ℕ
lines text = length (splitlines text)

module _ {D : Type 0} (lib : Pycrdt D) (differ : Differ) where
  -- The text before the edits that are not yet credited.
  abbrev pub text_before : Room D → List ℕ
  text_before room =
      if is_empty room.window_authors then lib.text room.doc else or_else room.window_text []

  -- From a text with `start` lines, with what was taken out of the room before.
  abbrev pub Balances : (start added removed : ℕ) → Room D → Type 0
  Balances start added removed room =
      start + added + added_of room.pending
      ≡ lines (text_before room) + removed + removed_of room.pending

  -- Whoever is in the window has typed something.
  abbrev pub Typed : Room D → Type 0
  Typed room = is_empty room.window_authors ≡ false → 0 < total_of room.window_authors

  close_window-Balances :
      (start added removed : ℕ) (room : Room D)
      → IsDiffer differ
      → Typed room
      → Balances start added removed room
      → Balances start added removed (close_window lib differ room)
  unfolding close_window
  close_window-Balances start added removed room differs typed h =
      elim (Bool-cases (is_empty room.window_authors)) [
        | inl e ↦ ground (arith, e)
        | inr e ↦
            let old = or_else room.window_text [] in
            let stats = line_stats differ old (lib.text room.doc) in
            let shares = split_stats room.window_authors stats.0 stats.1 in
            let (same, a, r) = split_stats-IsSplit room.window_authors stats.0 stats.1 (typed e) in
            ground (
              arith,
              line_stats_balanced differ old (lib.text room.doc) differs,
              added-credit_each shares room.pending,
              a,
              r,
            )
      ]

  pub text_before-close_window :
      (room : Room D)
      → text_before (close_window lib differ room) ≡ lib.text (close_window lib differ room).doc
  unfolding close_window
  text_before-close_window room = refl

  close_window-Typed : (room : Room D) → Typed (close_window lib differ room)
  unfolding close_window
  close_window-Typed room e = ground arith

  total-store :
      (user_id changed n : ℕ) (weights : Weights)
      → changed ≡ suc n
      → 0 < total_of (store user_id (or_else (lookup user_id weights) 0 + changed) weights)
  total-store user_id changed n [] e = omega (arith, e)
  total-store user_id changed n ((k, w) ∷ weights) e =
      ground (arith, e, total-store user_id changed n weights)

  is_empty-store : (user_id w : ℕ) (weights : Weights) → is_empty (store user_id w weights) ≡ false
  is_empty-store user_id w [] = refl
  is_empty-store user_id w ((k, v) ∷ weights) = ground arith

  -- What `apply_edit` needs of the room when it applies the update.
  abbrev Opened : Room D → Type 0
  Opened room = is_empty room.window_authors ≡ true → room.window_text ≡ some (lib.text room.doc)

  record_edit-keeps :
      (start added removed now user_id changed : ℕ) (update : List ℕ) (doc : D) (room : Room D)
      → IsPycrdt lib
      → apply_update_counting lib room.doc update ≡ some (doc, changed)
      → Opened room
      → Typed room
      → Balances start added removed room
      → Typed (record_edit now user_id changed doc room)
        × Balances start added removed (record_edit now user_id changed doc room)
  record_edit-keeps start added removed now user_id zero update doc room laws e opened typed h =
      let same : lib.text doc ≡ lib.text room.doc = laws.quiet room.doc doc update e in
      elim (Bool-cases (is_empty room.window_authors)) [
        | inl b ↦ (typed, ground (arith, same, b))
        | inr b ↦ (typed, ground (arith, b))
      ]
  record_edit-keeps start added removed now user_id (suc n) update doc room laws e opened typed h =
      let credited = or_else (lookup user_id room.window_authors) 0 + suc n in
      let filled = is_empty-store user_id credited room.window_authors in
      let positive = total-store user_id (suc n) n room.window_authors refl in
      elim (Bool-cases (is_empty room.window_authors)) [
        | inl b ↦ (λ c. ground (arith, positive), ground (arith, b, filled, opened b))
        | inr b ↦ (λ c. ground (arith, positive), ground (arith, b, filled))
      ]

  open_window-keeps :
      (start added removed : ℕ) (room : Room D)
      → Typed room
      → Balances start added removed room
      → Opened (open_window lib room)
        × Typed (open_window lib room)
        × Balances start added removed (open_window lib room)
  open_window-keeps start added removed room typed h =
      elim (Bool-cases (is_empty room.window_authors)) [
        | inl e ↦ ground (arith, e)
        | inr e ↦ ground (arith, e)
      ]

  abbrev pub IsSettled : (start added removed : ℕ) → Room D → Type 0
  IsSettled start added removed room = Typed room × Balances start added removed room

  pub close_window-IsSettled :
      (start added removed : ℕ) (room : Room D)
      → IsDiffer differ
      → IsSettled start added removed room
      → IsSettled start added removed (close_window lib differ room)
  close_window-IsSettled start added removed room differs (typed, h) =
      (close_window-Typed room, close_window-Balances start added removed room differs typed h)

  pub apply_edit-IsSettled :
      (start added removed now user_id : ℕ) (update : List ℕ) (room : Room D)
      → IsPycrdt lib
      → IsDiffer differ
      → IsSettled start added removed room
      → IsSettled start added removed (apply_edit lib differ now user_id update room).1
  unfolding apply_edit
  apply_edit-IsSettled start added removed now user_id update room laws differs h =
      let turned = if is_new_turn now user_id room then close_window lib differ room else room in
      let h1 : IsSettled start added removed turned =
        elim (Bool-cases (is_new_turn now user_id room)) [
          | inl e ↦ rw e (close_window-IsSettled start added removed room differs h)
          | inr e ↦ rw e h
        ] in
      let opened = open_window lib turned in
      let (ready, typed, balance) = open_window-keeps start added removed turned h1.0 h1.1 in
      elim (Option-cases (apply_update_counting lib opened.doc update)) [
        | inl e ↦ rw (e, apply_edit) (typed, balance)
        | inr (taken, e) ↦
            rw (e, apply_edit)
              (record_edit-keeps start added removed now user_id taken.1 update taken.0 opened laws
                e ready typed balance)
      ]
