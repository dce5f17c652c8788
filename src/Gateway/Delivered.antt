-- ===== src/Gateway/Delivered.antt =====
-- Who gets an update that an editor sends.
use mathlib.Core.Path.{subst}
use cs455_project.Prelude.{
  ◌<◌, ℕ, Bool, true, false, Option, some, List, [], ◌∷◌, ◌++◌, String, ◌==◌, eq_of_==, ltb, any,
  lookup, lookup-store, if◌then◌else◌, ◌≡◌, refl, sym, ap, ◌∙◌, inl, inr, Bool-cases, Option-cases,
  arith,
}
use cs455_project.Roles.{Role, role_rank}
use cs455_project.Awareness.{Json}
use cs455_project.Awareness.Wire.{Coder}
use cs455_project.Changes.{Differ}
use cs455_project.Crdt.{Pycrdt, apply_update_counting}
use cs455_project.Rooms.{
  Room, Connection, Message, binary, ack, Outboxes, or_else, is_id, push, push_each, apply_edit,
  is_new_turn, close_window, open_window, record_edit,
}
use cs455_project.Gateway.{update, Socket, take_update, handle_message}

abbrev pub is_connected : ℕ → List (ℕ × Connection) → Bool
is_connected ws conns = any (λ (c : ℕ × Connection). c.0 == ws) conns

-- No key twice, as in a dict.
abbrev pub IsDict : List (ℕ × Connection) → Type 0
IsDict [] = Unit
IsDict ((ws, conn) ∷ conns) = (is_connected ws conns ≡ false) × IsDict conns

-- A queue with one message more.
abbrev pub with_message : Message → Option (List Message) → Option (List Message)
with_message payload queue = some (or_else queue [] ++ payload ∷ [])

lookup-push_each_absent :
    (k : ℕ) (payload : Message) (exclude : Option ℕ) (conns : List (ℕ × Connection))
    (boxes : Outboxes)
    → is_connected k conns ≡ false
    → lookup k (push_each payload exclude conns boxes) ≡ lookup k boxes
unfolding push_each
lookup-push_each_absent k payload exclude [] boxes absent = refl
lookup-push_each_absent k payload exclude ((ws, conn) ∷ conns) boxes absent = ground (
  arith,
  lookup-store k ws (or_else (lookup ws boxes) [] ++ payload ∷ []) boxes,
  lookup-push_each_absent k payload exclude conns boxes,
  lookup-push_each_absent k payload exclude conns (push ws payload boxes),
)

lookup-push_each :
    (k : ℕ) (payload : Message) (exclude : Option ℕ) (conns : List (ℕ × Connection))
    (boxes : Outboxes)
    → IsDict conns
    → is_connected k conns ≡ true
    → is_id exclude k ≡ false
    → lookup k (push_each payload exclude conns boxes) ≡ with_message payload (lookup k boxes)
unfolding push_each
lookup-push_each k payload exclude [] boxes dict here other = ground (arith, here)
lookup-push_each k payload exclude ((ws, conn) ∷ conns) boxes (alone, dict) here other =
    let added = or_else (lookup ws boxes) [] ++ payload ∷ [] in
    elim (Bool-cases (ws == k)) [
      | inl e ↦
          let same : ws ≡ k = eq_of_== ws k e in
          let gone : is_connected k conns ≡ false =
            subst (λ i. is_connected i conns ≡ false) same alone in
          ground (
            arith,
            lookup-push_each_absent k payload exclude conns (push ws payload boxes) gone,
            lookup-store k ws added boxes,
          )
      | inr e ↦
          let later = if is_id exclude ws then boxes else push ws payload boxes in
          let kept : lookup k later ≡ lookup k boxes =
            ground (arith, e, lookup-store k ws added boxes) in
          let there : is_connected k conns ≡ true = ground (arith, here, e) in
          lookup-push_each k payload exclude conns later dict there other
          ∙ ap (with_message payload) kept
    ]

lookup-push_each_excluded :
    (k : ℕ) (payload : Message) (conns : List (ℕ × Connection)) (boxes : Outboxes)
    → lookup k (push_each payload (some k) conns boxes) ≡ lookup k boxes
unfolding push_each
lookup-push_each_excluded k payload [] boxes = refl
lookup-push_each_excluded k payload ((ws, conn) ∷ conns) boxes = ground (
  arith,
  lookup-store k ws (or_else (lookup ws boxes) [] ++ payload ∷ []) boxes,
  lookup-push_each_excluded k payload conns boxes,
  lookup-push_each_excluded k payload conns (push ws payload boxes),
)

connections-close_window :
    {D : Type 0} (lib : Pycrdt D) (differ : Differ) (room : Room D)
    → (close_window lib differ room).connections ≡ room.connections
unfolding close_window
connections-close_window lib differ room = ground arith

connections-record_edit :
    {D : Type 0} (now user_id changed : ℕ) (doc : D) (room : Room D)
    → (record_edit now user_id changed doc room).connections ≡ room.connections
connections-record_edit now user_id changed doc room = ground arith

connections-apply_edit :
    {D : Type 0} (lib : Pycrdt D) (differ : Differ) (now user_id : ℕ) (u : List ℕ) (room : Room D)
    → (apply_edit lib differ now user_id u room).1.connections ≡ room.connections
unfolding apply_edit
connections-apply_edit lib differ now user_id u room =
    let turned = if is_new_turn now user_id room then close_window lib differ room else room in
    let opened = open_window lib turned in
    let kept : turned.connections ≡ room.connections =
      elim (Bool-cases (is_new_turn now user_id room)) [
        | inl e ↦ rw e (connections-close_window lib differ room)
        | inr e ↦ rw e refl
      ] in
    let same : opened.connections ≡ room.connections = ground (arith, kept) in
    elim (Option-cases (apply_update_counting lib opened.doc u)) [
      | inl e ↦ rw (apply_edit, e) same
      | inr ((doc, changed), e) ↦
          rw (apply_edit, e) (connections-record_edit now user_id changed doc opened ∙ same)
    ]

module _ {D J : Type 0} (lib : Pycrdt D) (differ : Differ) (json : Json J) (coder : Coder J)
    (ws user_id : ℕ) (username : String) where
  -- If `pycrdt` takes an update from someone who may edit, in a room whose connections are kept in a dict, then every
  -- other connection of the room has the update as one more message in its queue, and the sender has an acknowledgement.
  pub update_reaches_others :
      (now : ℕ) (role : Role) (u : List ℕ) (k : ℕ) (s : Socket D J)
      → 0 < role_rank role
      → (apply_edit lib differ now user_id u s.room).0 ≡ true
      → IsDict s.room.connections
      → is_connected k s.room.connections ≡ true
      → (ws == k) ≡ false
      → let after =
          (handle_message lib differ json coder ws user_id username role now
            (update (some u))
            s).manager.outboxes in
        (lookup k after ≡ with_message (binary u) (lookup k s.manager.outboxes))
        × (lookup ws after ≡ with_message ack (lookup ws s.manager.outboxes))
  unfolding handle_message take_update
  update_reaches_others now role u k s may taken dict here other =
      let edited = (apply_edit lib differ now user_id u s.room).1 in
      let boxes = push_each (binary u) (some ws) edited.connections s.manager.outboxes in
      let kept = connections-apply_edit lib differ now user_id u s.room in
      let sent : lookup k boxes ≡ with_message (binary u) (lookup k s.manager.outboxes) =
        lookup-push_each k (binary u) (some ws) edited.connections s.manager.outboxes
          (subst IsDict (sym kept) dict) (subst (λ c. is_connected k c ≡ true) (sym kept) here)
          other in
      let own = lookup-push_each_excluded ws (binary u) edited.connections s.manager.outboxes in
      let editor_ : ltb (role_rank role) 1 ≡ false = ground arith in
      let added = or_else (lookup ws boxes) [] ++ ack ∷ [] in
      ground (
        arith,
        editor_,
        taken,
        sent,
        own,
        lookup-store k ws added boxes,
        lookup-store ws ws added boxes,
      )
