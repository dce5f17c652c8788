-- ===== src/Gateway.antt =====
-- One client's socket on a file: the loop of `collab_socket` in backend/app/realtime/gateway.py and what
-- happens when it ends. The heartbeat and the check of the token are left out. Base64 is decoded before: `none` is a text that it refuses.
pub mod Viewer
pub mod Delivered
use cs455_project.Prelude.{
  ℕ, Bool, true, false, not, Option, none, some, List, [], ◌∷◌, ◌++◌, String, ltb, map, store,
  if◌then◌else◌,
}
use text.Mathlib.Text.{◌==◌ as str_eq}
use cs455_project.Roles.{Role, role_rank}
use cs455_project.Awareness.{Json, Item, field_of, Peer, Entry, accept, drop_ws}
use cs455_project.Awareness.Wire.{Coder, Parsed, null, object, other, decode_update, encode_update}
use cs455_project.Changes.{Differ}
use cs455_project.Crdt.{Pycrdt, diff_update, state_vector}
use cs455_project.Rooms.{
  Room, Message, binary, ack, read_only, invalid_update, left, opened, cursors, presence, pong,
  invalid_json, use_debug_panel, unknown_op, Outboxes, push, broadcast, has_user, apply_edit,
  is_empty,
}
use cs455_project.Rooms.Manager.{
  Manager, client_id_for, put_awareness, set_room, detach, broadcast_to_project,
}

-- What a client sends. The state of `awareness` is null if it is missing or falsy.
pub data Received (J : Type 0) : Type 0 where
  bytes : Received J
  broken_json : Received J
  update : Option (List ℕ) → Received J
  awareness_update : Option (List ℕ) → Received J
  sync_step1 : Option (List ℕ) → Received J
  awareness : Parsed J → Received J
  hello : Received J
  project_presence : Received J
  ping : Received J
  answered : Received J
  step : Received J
  other_op : Received J

-- The socket's room with its cursors, and whether the loop goes on.
pub record Socket (D J : Type 0) : Type 0 where
  pub room : Room D
  pub peers : List (Peer J)
  pub manager : Manager D
  pub running : Bool

-- `state.setdefault(key, value)`
abbrev pub set_default : {J : Type 0} → String → J → List (Item J) → List (Item J)
set_default key value state = elim (field_of key state) [
  | none ↦ state ++ record { key = key; value = value } ∷ []
  | some old ↦ state
]

-- `{**state, key: value}`
abbrev pub set_item : {J : Type 0} → String → J → List (Item J) → List (Item J)
set_item key value [] = record { key = key; value = value } ∷ []
set_item key value (i ∷ rest) =
    let later = set_item key value rest in
    if str_eq i.key key then record { key = key; value = value } ∷ rest else i ∷ later

module _ {D J : Type 0} (lib : Pycrdt D) (differ : Differ) (json : Json J) (coder : Coder J) where
  module _ (ws user_id : ℕ) (username : String) (role : Role) where
    abbrev pub send : Message → Socket D J → Socket D J
    send payload s = record s {
      manager = record s.manager { outboxes = push ws payload s.manager.outboxes };
    }

    abbrev pub send_others : Message → Socket D J → Socket D J
    send_others payload s = record s {
      manager = record s.manager {
        outboxes = broadcast s.room payload (some ws) s.manager.outboxes;
      };
    }

    abbrev pub keep_room : Room D → Socket D J → Socket D J
    keep_room room s = record s { room = room; manager = set_room room s.manager }

    -- `op == "update"` from someone who may edit
    unfoldable pub take_update : (now : ℕ) → Option (List ℕ) → Socket D J → Socket D J
    take_update now none s = send invalid_update s
    take_update now (some u) s =
        let edited = apply_edit lib differ now user_id u s.room in
        if edited.0
        then send ack (send_others (binary u) (keep_room edited.1 s))
        else send invalid_update (keep_room edited.1 s)

    -- `_awareness_frame` to the others, if there is anything to tell
    abbrev pub tell_cursors : List (Entry J) → Socket D J → Socket D J
    tell_cursors accepted s =
        if is_empty accepted then s else send_others (cursors (encode_update coder accepted)) s

    abbrev pub take_entries : Option (List (Entry J)) → Socket D J → Socket D J
    take_entries none s = s
    take_entries (some entries) s =
        let seen = accept json ws user_id username entries s.peers in
        tell_cursors seen.relayed (record s { peers = seen.peers })

    abbrev pub take_awareness : Option (List ℕ) → Socket D J → Socket D J
    take_awareness none s = s
    take_awareness (some data_) s = take_entries (decode_update coder data_) s

    -- A state vector that is not given is the server's own; a broken one ends the loop.
    abbrev pub sync : Option (List ℕ) → Socket D J → Socket D J
    sync none s = record s { running = false }
    sync (some []) s = send (binary (diff_update lib s.room.doc (state_vector lib s.room.doc))) s
    sync (some (b ∷ bs)) s = send (binary (diff_update lib s.room.doc (b ∷ bs))) s

    -- `_set_awareness`
    abbrev pub set_awareness : List (Item J) → Socket D J → Socket D J
    set_awareness state s =
        let cid = client_id_for ws in
        let raw = coder.dumps (some (set_item "client_id" (json.number cid) state)) in
        let states = store cid raw s.room.awareness in
        record s {
          room = record s.room { awareness = states };
          manager = record s.manager {
            rooms = put_awareness s.room.project_id s.room.file_id states s.manager.rooms;
          };
        }

    -- `_broadcast_presence`; each state has its `client_id` already.
    abbrev pub broadcast_presence : Socket D J → Socket D J
    broadcast_presence s = send_others (presence (map (λ (c : ℕ × List ℕ). c.1) s.room.awareness)) s

    abbrev pub named : List (Item J) → List (Item J)
    named state =
        set_default "username" (json.text "anon")
          (set_default "user_id" (json.number user_id) state)

    -- `op == "awareness"`: what is neither an object nor falsy ends the loop.
    abbrev pub take_state : Parsed J → Socket D J → Socket D J
    take_state null s = broadcast_presence (set_awareness (named []) s)
    take_state (object state) s = broadcast_presence (set_awareness (named state) s)
    take_state other s = record s { running = false }

    -- One message.
    unfoldable pub handle_message : (now : ℕ) → Received J → Socket D J → Socket D J
    handle_message now bytes s = s
    handle_message now broken_json s = send invalid_json s
    handle_message now (update u) s =
        let taken = take_update now u s in
        if ltb (role_rank role) 1 then send read_only s else taken
    handle_message now (awareness_update data_) s = take_awareness data_ s
    handle_message now (sync_step1 sv) s = sync sv s
    handle_message now (awareness state) s = take_state state s
    handle_message now hello s = s
    handle_message now project_presence s = record s {
      manager =
          broadcast_to_project s.room.project_id (opened user_id s.room.file_id) none s.manager;
    }
    handle_message now ping s = send pong s
    handle_message now answered s = s
    handle_message now step s = send use_debug_panel s
    handle_message now other_op s = send unknown_op s

    -- The loop, over the messages with their times.
    unfoldable pub handle_messages : List (ℕ × Received J) → Socket D J → Socket D J
    handle_messages [] s = s
    handle_messages ((now, m) ∷ ms) s =
        let later = handle_messages ms (handle_message now m s) in if s.running then later else s

    -- The `finally` block.
    unfoldable pub close_socket : Socket D J → Socket D J
    close_socket s =
        let (room, manager) = detach s.room ws s.manager in
        let (gone, peers) = drop_ws json ws user_id username s.peers in
        let told =
          record (if is_empty gone
            then record s { room = room; peers = peers; manager = manager }
            else record s {
              room = room;
              peers = peers;
              manager = record manager {
                outboxes =
                    broadcast room (cursors (encode_update coder gone)) none manager.outboxes;
              };
            }) { running = false } in
        if has_user room user_id then told else record told {
          manager =
              broadcast_to_project room.project_id (left user_id room.file_id) none told.manager;
        }
