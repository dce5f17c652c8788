-- ===== src/Rooms/Manager/Cleanup.antt =====
-- Which rooms `cleanup_unused_rooms` removes.
use mathlib.Core.Path.{subst}
use cs455_project.Prelude.{
  ℕ, ◌+◌, ◌-◌, ◌*◌, ◌≤◌, ◌<◌, Bool, true, false, none, some, List, [], ◌∷◌, any, where_,
  if◌then◌else◌, ◌≡◌, ◌⊎◌, refl, inl, inr, Bool-cases, Option-cases, List-cases, ltb, length, arith,
}
use cs455_project.Rooms.{Room}
use cs455_project.Rooms.Manager.{
  Manager, is_room, find_room, get_room, is_unused, delete_room, delete_each, cleanup_unused_rooms,
}

module _ {D : Type 0} where
  -- No key twice, as in a dict.
  abbrev pub IsKeyed : List (Room D) → Type 0
  IsKeyed [] = Unit
  IsKeyed (room ∷ rooms) =
      (any (is_room room.project_id room.file_id) rooms ≡ false) × IsKeyed rooms

  find-delete_room :
      (p f : ℕ) (key : Room D) (rooms : List (Room D))
      → find_room p f (delete_room key rooms)
        ≡ (if is_room p f key then none else find_room p f rooms)
  find-delete_room p f key [] = ground arith
  find-delete_room p f key (room ∷ rooms) = ground (arith, find-delete_room p f key rooms)

  find-delete_each :
      (p f : ℕ) (keys rooms : List (Room D))
      → find_room p f (delete_each keys rooms)
        ≡ (if any (is_room p f) keys then none else find_room p f rooms)
  find-delete_each p f [] rooms = refl
  find-delete_each p f (key ∷ keys) rooms =
      ground
        (arith, find-delete_each p f keys (delete_room key rooms), find-delete_room p f key rooms)

  -- Of no room with the key, none is selected.
  any-where_ :
      (p f : ℕ) (test : Room D → Bool) (rooms : List (Room D))
      → any (is_room p f) rooms ≡ false
      → any (is_room p f) (where_ test rooms) ≡ false
  any-where_ p f test [] h = refl
  any-where_ p f test (room ∷ rooms) h = ground (arith, any-where_ p f test rooms)

  -- Of the one room with the key it is known whether it is selected.
  selected :
      (p f : ℕ) (test : Room D → Bool) (rooms : List (Room D))
      → IsKeyed rooms
      → any (is_room p f) (where_ test rooms)
        ≡ elim (find_room p f rooms) [ none ↦ false | some room ↦ test room ]
  selected p f test [] keyed = refl
  selected p f test (room ∷ rooms) (alone, keyed) = elim (Bool-cases (is_room p f room)) [
    | inl e ↦
        let project : room.project_id ≡ p = ground (arith, e) in
        let file : room.file_id ≡ f = ground (arith, e) in
        let same : any (is_room p f) rooms ≡ false =
          subst (λ i. any (is_room i f) rooms ≡ false) project
            (subst (λ j. any (is_room room.project_id j) rooms ≡ false) file alone) in
        ground (arith, e, any-where_ p f test rooms same)
    | inr e ↦ ground (arith, e, selected p f test rooms keyed)
  ]

  find-cleanup :
      (now ttl_seconds p f : ℕ) (m : Manager D)
      → IsKeyed m.rooms
      → get_room p f (cleanup_unused_rooms now ttl_seconds m).1 ≡ elim (get_room p f m) [
        | none ↦ none
        | some room ↦ if is_unused now ttl_seconds room then none else some room
      ]
  unfolding cleanup_unused_rooms
  find-cleanup now ttl_seconds p f m keyed = ground (
    arith,
    find-delete_each p f (where_ (is_unused now ttl_seconds) m.rooms) m.rooms,
    selected p f (is_unused now ttl_seconds) m.rooms keyed,
  )

  -- Nobody is connected to the room, and it was last accessed more than the limit ago.
  abbrev pub IsAbandoned : (now ttl_seconds : ℕ) → Room D → Type 0
  IsAbandoned now ttl_seconds room =
      (length room.connections ≡ 0) × (room.last_accessed + ttl_seconds * 1000000 < now)

  -- Somebody is connected to the room, or it was accessed within the limit.
  abbrev pub IsInUse : (now ttl_seconds : ℕ) → Room D → Type 0
  IsInUse now ttl_seconds room =
      (0 < length room.connections) ⊎ (now ≤ room.last_accessed + ttl_seconds * 1000000)

  unused_cases :
      (now ttl_seconds : ℕ) (room : Room D)
      → (is_unused now ttl_seconds room ≡ true) × IsAbandoned now ttl_seconds room
        ⊎ (is_unused now ttl_seconds room ≡ false) × IsInUse now ttl_seconds room
  unused_cases now ttl_seconds room = elim (List-cases room.connections) [
    | inr (c, cs, e) ↦ inr (ground (arith, e), inl (ground (arith, e)))
    | inl e ↦ elim (Bool-cases (ltb (ttl_seconds * 1000000) (now - room.last_accessed))) [
      | inl late ↦ inl (ground (arith, e, late), (ground (arith, e), ground (arith, late)))
      | inr early ↦ inr (ground (arith, e, early), inr (ground (arith, early)))
    ]
  ]

  -- In a manager with no key twice, `cleanup_unused_rooms` makes no rooms, and a room that it had is gone
  -- and had no connection and no access within the limit, or is found as it was and had a connection or
  -- an access within the limit.
  pub get_room-cleanup_unused_rooms :
      (now ttl_seconds p f : ℕ) (m : Manager D)
      → IsKeyed m.rooms
      → let after = get_room p f (cleanup_unused_rooms now ttl_seconds m).1 in
        (get_room p f m ≡ none) × (after ≡ none)
        ⊎ ((room : Room D) × (get_room p f m ≡ some room)
            × ((after ≡ none) × IsAbandoned now ttl_seconds room
                ⊎ (after ≡ some room) × IsInUse now ttl_seconds room))
  get_room-cleanup_unused_rooms now ttl_seconds p f m keyed =
      let cleaned = find-cleanup now ttl_seconds p f m keyed in
      elim (Option-cases (get_room p f m)) [
        | inl none_ ↦ inl (none_, rw none_ at cleaned)
        | inr (room, found) ↦ elim (unused_cases now ttl_seconds room) [
          | inl (unused, abandoned) ↦
              inr (room, found, inl (ground (arith, cleaned, found, unused), abandoned))
          | inr (used, in_use) ↦
              inr (room, found, inr (ground (arith, cleaned, found, used), in_use))
        ]
      ]
