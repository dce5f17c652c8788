-- ===== src/Rooms.antt =====
-- One room of backend/app/realtime/manager.py, the class `Room`: its document and the window in which
-- edits are counted for their authors. Times are microseconds. A WebSocket is a number.
pub mod Balance
pub mod Ledger
pub mod Edit
pub mod Replace
pub mod Manager
use cs455_project.Prelude.{
  ℕ, ◌+◌, ◌-◌, Bool, true, false, ◌&&◌, not, Option, none, some, List, [], ◌∷◌, ◌++◌, ◌==◌, leb,
  lookup, store, where_, any, if◌then◌else◌,
}
use cs455_project.Changes.{Weights, Differ, line_stats, split_stats}
use cs455_project.Crdt.{Pycrdt, doc_to_text, apply_update_counting}

-- One of the FILE_CHANGED entries; the name is the one that the panel shows.
pub record Change : Type 0 where
  pub user_id : ℕ
  pub lines_added : ℕ
  pub lines_removed : ℕ

-- What is sent to a client: an update, or a text that says one of these. `cursors` has the encoded
-- cursors, `presence` the JSON texts of the states.
pub data Message : Type 0 where
  binary : List ℕ → Message
  ack : Message
  read_only : Message
  invalid_update : Message
  file_changed : (file_id : ℕ) → Option ℕ → List Change → Message
  left : (user_id file_id : ℕ) → Message
  opened : (user_id file_id : ℕ) → Message
  cursors : List ℕ → Message
  presence : List (List ℕ) → Message
  pong : Message
  invalid_json : Message
  use_debug_panel : Message
  unknown_op : Message

pub record Connection : Type 0 where
  pub user_id : Option ℕ

-- The queues of the connections by their WebSocket: a room and the manager hold the same object. A
-- queue has no bound, so that nothing is dropped.
abbrev pub Outboxes : Type 0
Outboxes = List (ℕ × List Message)

abbrev pub second : ℕ
second = 1000000

abbrev pub author_switch : ℕ
author_switch = second

-- The lines added and removed of each author.
abbrev pub Credits : Type 0
Credits = List (ℕ × (ℕ × ℕ))

-- `awareness` has the states of the older message as their JSON texts. The `cursors` are in Awareness,
-- and a socket in Gateway has them beside its room.
pub record Room (D : Type 0) : Type 0 where
  pub project_id : ℕ
  pub file_id : ℕ
  pub doc : D
  pub awareness : List (ℕ × List ℕ)
  pub client_to_ws : List (ℕ × ℕ)
  pub connections : List (ℕ × Connection)
  pub last_accessed : ℕ
  pub hydrated : Bool
  pub window_text : Option (List ℕ)
  pub window_authors : Weights
  pub window_started : ℕ
  pub last_edit : ℕ
  pub last_author : Option ℕ
  pub pending : Credits

abbrev pub is_empty {ℓ} : {A : Type ℓ} → List A → Bool
is_empty [] = true
is_empty (x ∷ xs) = false

abbrev pub or_else {ℓ} : {A : Type ℓ} → Option A → A → A
or_else none d = d
or_else (some a) d = a

abbrev pub is_id : Option ℕ → ℕ → Bool
is_id none i = false
is_id (some j) i = j == i

-- `conn.queue.put_nowait(payload)`
abbrev pub push : ℕ → Message → Outboxes → Outboxes
push ws payload boxes = store ws (or_else (lookup ws boxes) [] ++ payload ∷ []) boxes

-- The loop of `broadcast`.
unfoldable pub push_each : Message → Option ℕ → List (ℕ × Connection) → Outboxes → Outboxes
push_each payload exclude [] boxes = boxes
push_each payload exclude ((ws, conn) ∷ others) boxes =
    push_each payload exclude others (if is_id exclude ws then boxes else push ws payload boxes)

-- The loop of `close_window`.
abbrev pub credit_each : Credits → Credits → Credits
credit_each [] pending = pending
credit_each ((uid, (a, r)) ∷ shares) pending =
    let (added, removed) = or_else (lookup uid pending) (0, 0) in
    credit_each shares (store uid (added + a, removed + r) pending)

abbrev pub is_credited : ℕ × (ℕ × ℕ) → Bool
is_credited share = not (share.1.0 == 0 && share.1.1 == 0)

module _ {D : Type 0} where
  abbrev pub broadcast : Room D → Message → Option ℕ → Outboxes → Outboxes
  broadcast room payload exclude boxes = push_each payload exclude room.connections boxes

  -- The user still has a connection to this room.
  abbrev pub has_user : Room D → ℕ → Bool
  has_user room user_id = any (λ (c : ℕ × Connection). is_id c.1.user_id user_id) room.connections

  abbrev pub reset_window : Room D → Room D
  reset_window room = record room { window_text = none; window_authors = []; last_author = none }

  unfoldable pub take_pending : Room D → Credits × Room D
  take_pending room = (where_ is_credited room.pending, record room { pending = [] })

  -- A different person edits after a pause.
  abbrev pub is_new_turn : (now user_id : ℕ) → Room D → Bool
  is_new_turn now user_id room =
      not (is_empty room.window_authors)
      && not (is_id room.last_author user_id)
      && leb author_switch (now - room.last_edit)

  abbrev pub record_edit : (now user_id changed : ℕ) → D → Room D → Room D
  record_edit now user_id changed doc room =
      if changed == 0 then record room { doc = doc } else record room {
        doc = doc;
        window_started = if is_empty room.window_authors then now else room.window_started;
        window_authors =
            store user_id (or_else (lookup user_id room.window_authors) 0 + changed)
              room.window_authors;
        last_edit = now;
        last_author = some user_id;
      }

module _ {D : Type 0} (lib : Pycrdt D) where
  abbrev pub open_window : Room D → Room D
  open_window room =
      if is_empty room.window_authors
      then record room { window_text = some (doc_to_text lib room.doc) }
      else room

  module _ (differ : Differ) where
    unfoldable pub close_window : Room D → Room D
    close_window room =
        let (added, removed) =
          line_stats differ (or_else room.window_text []) (doc_to_text lib room.doc) in
        let pending = credit_each (split_stats room.window_authors added removed) room.pending in
        reset_window
          (if is_empty room.window_authors then room else record room { pending = pending })

    -- The Boolean says whether `pycrdt` took the update; where it raises, the window is already open.
    unfoldable pub apply_edit : (now user_id : ℕ) → List ℕ → Room D → Bool × Room D
    apply_edit now user_id update room =
        let opened =
          open_window (if is_new_turn now user_id room then close_window room else room) in
        elim (apply_update_counting lib opened.doc update) [
          | none ↦ (false, opened)
          | some (doc, changed) ↦ (true, record_edit now user_id changed doc opened)
        ]
