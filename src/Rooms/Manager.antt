-- ===== src/Rooms/Manager.antt =====
-- The class `RoomManager` of backend/app/realtime/manager.py, and `open_room` of
-- backend/app/realtime/rooms.py.
pub mod Cleanup
pub mod Opening
use cs455_project.Prelude.{
  ℕ, ◌+◌, ◌-◌, ◌*◌, ◌%◌, ◌^◌, Bool, true, false, ◌&&◌, not, Option, none, some, List, [], ◌∷◌, ◌++◌,
  ◌==◌, ltb, any, where_, length, sum_of, lookup, store, discard, map, if◌then◌else◌, value_error,
  Result, ok, err,
}
use cs455_project.Crdt.{Pycrdt, new_doc, doc_from_bytes}
use cs455_project.Documents.{DocumentVersion, latest_version}
use cs455_project.Rooms.{
  Room, Connection, Message, Outboxes, is_empty, is_id, push, or_else, second,
}

-- `rooms` is `_rooms`, whose keys are the rooms' own two ids.
pub record Manager (D : Type 0) : Type 0 where
  pub rooms : List (Room D)
  pub project_rooms : List (ℕ × List ℕ)
  pub all_connections : List (ℕ × Connection)
  pub outboxes : Outboxes

-- `_client_id_for`: the lowest 32 bits of the object's identity.
abbrev pub client_id_for : ℕ → ℕ
client_id_for ws = ws % 2 ^ 32

-- The sets of WebSockets, as lists without a repetition.
abbrev pub add_to : ℕ → List ℕ → List ℕ
add_to ws set = if any (λ i. i == ws) set then set else set ++ ws ∷ []

-- The loop of `broadcast_to_project`.
abbrev pub push_known : Message → Option ℕ → List (ℕ × Connection) → List ℕ → Outboxes → Outboxes
push_known payload exclude known [] boxes = boxes
push_known payload exclude known (ws ∷ set) boxes = push_known payload exclude known set (
    if is_id exclude ws
    then boxes
    else elim (lookup ws known) [ none ↦ boxes | some conn ↦ push ws payload boxes ])

module _ {D : Type 0} where
  abbrev pub is_room : (project_id file_id : ℕ) → Room D → Bool
  is_room project_id file_id room = room.project_id == project_id && room.file_id == file_id

  abbrev pub find_room : (project_id file_id : ℕ) → List (Room D) → Option (Room D)
  find_room project_id file_id [] = none
  find_room project_id file_id (room ∷ rooms) =
      if is_room project_id file_id room then some room else find_room project_id file_id rooms

  abbrev pub get_room : (project_id file_id : ℕ) → Manager D → Option (Room D)
  get_room project_id file_id m = find_room project_id file_id m.rooms

  -- The change of a room object that the dict holds.
  abbrev pub put_room : Room D → List (Room D) → List (Room D)
  put_room room [] = []
  put_room room (old ∷ rooms) =
      let later = put_room room rooms in
      if is_room room.project_id room.file_id old then room ∷ rooms else old ∷ later

  abbrev pub set_room : Room D → Manager D → Manager D
  set_room room m = record m { rooms = put_room room m.rooms }

  abbrev pub touch : ℕ → Room D → Room D
  touch now room = record room { last_accessed = now }

  abbrev pub fresh_room : (now project_id file_id : ℕ) → D → Room D
  fresh_room now project_id file_id doc = record {
    project_id = project_id;
    file_id = file_id;
    doc = doc;
    awareness = [];
    client_to_ws = [];
    connections = [];
    last_accessed = now;
    hydrated = false;
    window_text = none;
    window_authors = [];
    window_started = 0;
    last_edit = 0;
    last_author = none;
    pending = [];
  }

  -- The same for the states of the older message only.
  abbrev pub put_awareness :
      (project_id file_id : ℕ) → List (ℕ × List ℕ) → List (Room D) → List (Room D)
  put_awareness project_id file_id states [] = []
  put_awareness project_id file_id states (old ∷ rooms) =
      let later = put_awareness project_id file_id states rooms in
      if is_room project_id file_id old
      then record old { awareness = states } ∷ rooms
      else old ∷ later

  -- `detach`; the queue of the connection is not read any more.
  unfoldable pub detach : Room D → ℕ → Manager D → Room D × Manager D
  detach room ws m =
      let left = record room {
        connections = discard ws room.connections;
        client_to_ws = discard (client_id_for ws) room.client_to_ws;
        awareness = discard (client_id_for ws) room.awareness;
      } in
      (
        left,
        record m { rooms = put_room left m.rooms; all_connections = discard ws m.all_connections },
      )

  -- `stats`: the rooms and their connections
  abbrev pub stats : Manager D → ℕ × ℕ
  stats m = (length m.rooms, sum_of (λ (room : Room D). length room.connections) m.rooms)

  abbrev pub is_unused : (now ttl_seconds : ℕ) → Room D → Bool
  is_unused now ttl_seconds room =
      is_empty room.connections && ltb (ttl_seconds * second) (now - room.last_accessed)

  -- `del self._rooms[key]`
  abbrev pub delete_room : Room D → List (Room D) → List (Room D)
  delete_room key rooms =
      where_ (λ (room : Room D). not (is_room key.project_id key.file_id room)) rooms

  abbrev pub delete_each : List (Room D) → List (Room D) → List (Room D)
  delete_each [] rooms = rooms
  delete_each (key ∷ keys) rooms = delete_each keys (delete_room key rooms)

  unfoldable pub cleanup_unused_rooms : (now ttl_seconds : ℕ) → Manager D → ℕ × Manager D
  cleanup_unused_rooms now ttl_seconds m =
      let to_delete = where_ (is_unused now ttl_seconds) m.rooms in
      (length to_delete, record m { rooms = delete_each to_delete m.rooms })

  unfoldable pub attach_to_project : (project_id ws : ℕ) → Manager D → Manager D
  attach_to_project project_id ws m = record m {
    project_rooms =
        store project_id (add_to ws (or_else (lookup project_id m.project_rooms) []))
          m.project_rooms;
  }

  unfoldable pub detach_from_project : (project_id ws : ℕ) → Manager D → Manager D
  detach_from_project project_id ws m = elim (lookup project_id m.project_rooms) [
    | none ↦ m
    | some set ↦
        let left = where_ (λ i. not (i == ws)) set in
        record m {
          project_rooms =
              if is_empty left
              then discard project_id m.project_rooms
              else store project_id left m.project_rooms;
        }
  ]

  unfoldable pub broadcast_to_project : ℕ → Message → Option ℕ → Manager D → Manager D
  broadcast_to_project project_id payload exclude m = record m {
    outboxes =
        push_known payload exclude m.all_connections
          (or_else (lookup project_id m.project_rooms) []) m.outboxes;
  }

  -- The end of `open_room`: a version whose bytes `pycrdt` refuses leaves the room as it is.
  abbrev pub keep_opened : Result (Room D) → Manager D → Result (Room D) × Manager D
  keep_opened (err e) m = (err e, m)
  keep_opened (ok opened) m = (ok opened, set_room opened m)

module _ {D : Type 0} (lib : Pycrdt D) where
  unfoldable pub get_or_create_room : (now project_id file_id : ℕ) → Manager D → Room D × Manager D
  get_or_create_room now project_id file_id m = elim (get_room project_id file_id m) [
    | some room ↦ (touch now room, set_room (touch now room) m)
    | none ↦
        let room = fresh_room now project_id file_id (new_doc lib []) in
        (room, record m { rooms = m.rooms ++ room ∷ [] })
  ]

  unfoldable pub attach : (now project_id file_id ws user_id : ℕ) → Manager D → Room D × Manager D
  attach now project_id file_id ws user_id m =
      let (room, m') = get_or_create_room now project_id file_id m in
      let conn : Connection = record { user_id = some user_id } in
      let joined = record room {
        connections = store ws conn room.connections;
        client_to_ws = store (client_id_for ws) ws room.client_to_ws;
      } in
      (
        joined,
        record m' {
          rooms = put_room joined m'.rooms;
          all_connections = store ws conn m'.all_connections;
          outboxes = store ws [] m'.outboxes;
        },
      )

  -- The loading of `open_room`, which nobody else does at the same time.
  unfoldable pub hydrate : List DocumentVersion → Room D → Result (Room D)
  hydrate versions room =
      if room.hydrated then ok room else elim (latest_version room.file_id versions) [
        | none ↦ ok (record room { hydrated = true })
        | some latest ↦ elim (doc_from_bytes lib latest.snapshot_bytes) [
          | none ↦ err value_error
          | some doc ↦ ok (record room { doc = doc; hydrated = true })
        ]
      ]

  unfoldable pub open_room :
      (now project_id file_id : ℕ) → List DocumentVersion → Manager D → Result (Room D) × Manager D
  open_room now project_id file_id versions m =
      let (room, m') = get_or_create_room now project_id file_id m in
      keep_opened (hydrate versions room) m'
