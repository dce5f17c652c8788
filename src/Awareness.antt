-- ===== src/Awareness.antt =====
-- Cursors and presence in one file: `RoomAwareness` of backend/app/realtime/awareness.py. A JSON
-- value is a parameter, with the two kinds of value that the server writes itself.
pub mod Mirror
pub mod Wire
use cs455_project.Prelude.{
  ℕ, ◌+◌, ◌-◌, Bool, true, false, ◌&&◌, not, Option, none, some, List, [], ◌∷◌, ◌++◌, String, map,
  ◌==◌, ltb, leb, where_, row, modify, length, if◌then◌else◌,
}
use text.Mathlib.Text.{◌==◌ as str_eq}

abbrev pub max_clients_per_connection : ℕ
max_clients_per_connection = 4

-- The local `owned`, a number that can fall below 0: `up - down`.
pub record Owned : Type 0 where
  pub up : ℕ
  pub down : ℕ

-- `owned >= MAX_CLIENTS_PER_CONNECTION`
abbrev pub is_full : Owned → Bool
is_full owned = leb (max_clients_per_connection + owned.down) owned.up

-- A JSON object as its items, in their order.
pub record Item (J : Type 0) : Type 0 where
  pub key : String
  pub value : J

abbrev pub field_of : {J : Type 0} → String → List (Item J) → Option J
field_of key [] = none
field_of key (i ∷ rest) = if str_eq i.key key then some i.value else field_of key rest

pub record Entry (J : Type 0) : Type 0 where
  pub client_id : ℕ
  pub clock : ℕ
  pub state : Option (List (Item J))

-- `ws` is which connection owns the cursor.
pub record Peer (J : Type 0) : Type 0 where
  pub client_id : ℕ
  pub clock : ℕ
  pub state : List (Item J)
  pub ws : ℕ
  pub user_id : ℕ

-- How the server writes a number and a text, and whether a value is a text that `_COLOR` matches.
pub record Json (J : Type 0) : Type 0 where
  pub number : ℕ → J
  pub text : String → J
  pub is_color : J → Bool

module _ {J : Type 0} (json : Json J) where
  abbrev color_items : Option J → List (Item J)
  color_items none = []
  color_items (some c) = if json.is_color c then record { key = "color"; value = c } ∷ [] else []

  abbrev passed_items : String → Option J → List (Item J)
  passed_items key none = []
  passed_items key (some v) = record { key = key; value = v } ∷ []

  unfoldable pub clean_state : List (Item J) → ℕ → String → List (Item J)
  clean_state state user_id username =
      record { key = "user_id"; value = json.number user_id }
        ∷ record { key = "username"; value = json.text username }
        ∷ color_items (field_of "color" state)
      ++ passed_items "selection" (field_of "selection" state)
      ++ passed_items "cursor" (field_of "cursor" state)

  abbrev pub peer_of : ℕ → List (Peer J) → Option (Peer J)
  peer_of i peers = row (λ p. p.client_id) i peers

  -- `self.peers[client_id] = ...`: in place, or at the end
  abbrev pub put_peer : Peer J → List (Peer J) → List (Peer J)
  put_peer p peers = elim (peer_of p.client_id peers) [
    | none ↦ peers ++ p ∷ []
    | some old ↦
        modify (λ (q : Peer J). q.client_id) p.client_id (λ q. record p { client_id = q.client_id })
          peers
  ]

  abbrev pub delete_peer : ℕ → List (Peer J) → List (Peer J)
  delete_peer i peers = where_ (λ (p : Peer J). not (p.client_id == i)) peers

  -- What one entry makes of the peers and of the number that the connection owns, and what of it is
  -- passed on.
  pub record Seen : Type 0 where
    pub relayed : List (Entry J)
    pub owned : Owned
    pub peers : List (Peer J)

  abbrev pub ignored : Owned → List (Peer J) → Seen
  ignored owned peers = record { relayed = []; owned = owned; peers = peers }

  module _ (ws user_id : ℕ) (username : String) where
    abbrev announced : Entry J → List (Item J) → Owned → List (Peer J) → Seen
    announced e state owned peers =
        let clean = clean_state state user_id username in
        record {
          relayed = record { client_id = e.client_id; clock = e.clock; state = some clean } ∷ [];
          owned = owned;
          peers =
              put_peer
                (record {
                  client_id = e.client_id;
                  clock = e.clock;
                  state = clean;
                  ws = ws;
                  user_id = user_id;
                })
                peers;
        }

    -- One round of the loop of `accept`, for a client id that nobody has, or that somebody has.
    abbrev accept_new : Entry J → Owned → List (Peer J) → Seen
    accept_new e owned peers = elim e.state [
      | none ↦ ignored owned peers
      | some state ↦
          if is_full owned
          then ignored owned peers
          else announced e state (record owned { up = owned.up + 1 }) peers
    ]

    abbrev accept_known : Entry J → Peer J → Owned → List (Peer J) → Seen
    accept_known e peer owned peers =
        if not (peer.user_id == user_id)
        then ignored owned peers
        else if ltb e.clock peer.clock
        then ignored owned peers
        else elim e.state [
          | none ↦ record {
            relayed = record { client_id = e.client_id; clock = e.clock; state = none } ∷ [];
            owned = if peer.ws == ws then record owned { down = owned.down + 1 } else owned;
            peers = delete_peer e.client_id peers;
          }
          | some state ↦ announced e state owned peers
        ]

    unfoldable pub accept_one : Entry J → Owned → List (Peer J) → Seen
    accept_one e owned peers = elim (peer_of e.client_id peers) [
      | none ↦ accept_new e owned peers
      | some peer ↦ accept_known e peer owned peers
    ]

    unfoldable pub accept_each : List (Entry J) → Owned → List (Peer J) → Seen
    accept_each [] owned peers = ignored owned peers
    accept_each (e ∷ rest) owned peers =
        let first = accept_one e owned peers in
        let later = accept_each rest first.owned first.peers in
        record {
          relayed = first.relayed ++ later.relayed;
          owned = later.owned;
          peers = later.peers;
        }

    abbrev pub owns : Peer J → Bool
    owns p = p.ws == ws

    unfoldable pub accept : List (Entry J) → List (Peer J) → Seen
    accept entries peers =
        accept_each entries (record { up = length (where_ owns peers); down = 0 }) peers

    -- `drop`: what is left, and the announcements that the rest is gone.
    unfoldable pub drop_ws : List (Peer J) → List (Entry J) × List (Peer J)
    drop_ws peers = (
      map (λ (p : Peer J). record { client_id = p.client_id; clock = p.clock + 1; state = none })
          (where_ owns peers),
      where_ (λ p. not (owns p)) peers,
    )

  abbrev pub shown : Peer J → Entry J
  shown p = record { client_id = p.client_id; clock = p.clock; state = some p.state }

  -- `exclude` is a connection whose cursors are left out.
  unfoldable pub snapshot : Option ℕ → List (Peer J) → List (Entry J)
  snapshot none peers = map shown peers
  snapshot (some ws) peers = map shown (where_ (λ (p : Peer J). not (p.ws == ws)) peers)
