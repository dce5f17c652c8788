-- ===== src/Gateway/Viewer.antt =====
-- A viewer's messages change no more of a room than its cursors.
use cs455_project.Prelude.{
  ℕ, Bool, true, false, Option, none, some, List, [], ◌∷◌, String, if◌then◌else◌, ◌≡◌, refl, ap,
  map, ◌∙◌, inl, inr, Bool-cases, arith,
}
use cs455_project.Roles.{Role, viewer}
use cs455_project.Awareness.{Json, Entry, accept}
use cs455_project.Awareness.Wire.{Coder, null, object, other, decode_update}
use cs455_project.Changes.{Differ}
use cs455_project.Crdt.{Pycrdt}
use cs455_project.Rooms.{Room, is_empty}
use cs455_project.Rooms.Manager.{is_room, put_awareness, broadcast_to_project}
use cs455_project.Gateway.{
  Received, bytes, broken_json, update, awareness_update, sync_step1, awareness, hello,
  project_presence, ping, answered, step, other_op, Socket, take_entries, handle_message,
  handle_messages,
}

module _ {D J : Type 0} (lib : Pycrdt D) (differ : Differ) (json : Json J) (coder : Coder J)
    (ws user_id : ℕ) (username : String) where
  -- The room without the states of the older cursor message.
  abbrev pub stateless : Room D → Room D
  stateless room = record room { awareness = [] }

  -- The room is the same but for those states, and so are the rooms of the manager.
  abbrev pub Same : Socket D J → Socket D J → Type 0
  Same s s' =
      (stateless s'.room ≡ stateless s.room)
      × (map stateless s'.manager.rooms ≡ map stateless s.manager.rooms)

  map-put_awareness :
      (p f : ℕ) (states : List (ℕ × List ℕ)) (rooms : List (Room D))
      → map stateless (put_awareness p f states rooms) ≡ map stateless rooms
  map-put_awareness p f states [] = refl
  map-put_awareness p f states (room ∷ rooms) = elim (Bool-cases (is_room p f room)) [
    | inl e ↦ rw e refl
    | inr e ↦
        rw e (ap (λ (l : List (Room D)). stateless room ∷ l) (map-put_awareness p f states rooms))
  ]

  entries-Same :
      (role : Role) (entries : Option (List (Entry J))) (s : Socket D J)
      → Same s (take_entries lib differ json coder ws user_id username role entries s)
  entries-Same role none s = (refl, refl)
  entries-Same role (some entries) s =
      elim (Bool-cases (is_empty (accept json ws user_id username entries s.peers).relayed)) [
        | inl e ↦ ground (arith, e)
        | inr e ↦ ground (arith, e)
      ]

  whichever : (b : Bool) (x y s : Socket D J) → Same s x → Same s y → Same s (if b then x else y)
  whichever true x y s h k = h
  whichever false x y s h k = k

  message-Same :
      (now : ℕ) (m : Received J) (s : Socket D J)
      → Same s (handle_message lib differ json coder ws user_id username viewer now m s)
  unfolding handle_message broadcast_to_project
  message-Same now bytes s = (refl, refl)
  message-Same now broken_json s = (refl, refl)
  message-Same now (update u) s = (refl, refl)
  message-Same now (awareness_update none) s = (refl, refl)
  message-Same now (awareness_update (some data_)) s =
      entries-Same viewer (decode_update coder data_) s
  message-Same now (sync_step1 none) s = (refl, refl)
  message-Same now (sync_step1 (some [])) s = (refl, refl)
  message-Same now (sync_step1 (some (b ∷ bs))) s = (refl, refl)
  message-Same now (awareness null) s =
      (refl, map-put_awareness s.room.project_id s.room.file_id _ s.manager.rooms)
  message-Same now (awareness (object state)) s =
      (refl, map-put_awareness s.room.project_id s.room.file_id _ s.manager.rooms)
  message-Same now (awareness other) s = (refl, refl)
  message-Same now hello s = (refl, refl)
  message-Same now project_presence s = (refl, refl)
  message-Same now ping s = (refl, refl)
  message-Same now answered s = (refl, refl)
  message-Same now step s = (refl, refl)
  message-Same now other_op s = (refl, refl)

  -- Whatever messages a viewer's socket gets, and whenever, its room is as it was before but for the
  -- cursors, with the same document, connections and counted edits, and so is each room of the manager.
  pub viewer_edits_nothing :
      (messages : List (ℕ × Received J)) (s : Socket D J)
      → Same s (handle_messages lib differ json coder ws user_id username viewer messages s)
  unfolding handle_messages
  viewer_edits_nothing [] s = (refl, refl)
  viewer_edits_nothing ((now, m) ∷ ms) s =
      let first = message-Same now m s in
      let later =
        viewer_edits_nothing ms
          (handle_message lib differ json coder ws user_id username viewer now m s) in
      whichever s.running
        (handle_messages lib differ json coder ws user_id username viewer ms
          (handle_message lib differ json coder ws user_id username viewer now m s))
        s s (later.0 ∙ first.0, later.1 ∙ first.1) (refl, refl)
