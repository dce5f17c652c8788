-- ===== src/Awareness/Mirror.antt =====
-- Who follows the announcements sees the room's cursors, and no user reaches another user's.
use cs455_project.Prelude.{
  ℕ, ◌≡◌, refl, sym, ap, Bool, false, not, Option, none, some, List, [], ◌∷◌, String, ◌==◌, modify,
  row-modify, row-append, arith, if◌then◌else◌, Option-cases, Bool-cases, inl, inr, All, All-append,
  eq_of_==, ◌⊎◌, ◌||◌, ltb, key-row,
}
use mathlib.Core.Option
use mathlib.Core.Path.{subst}
use cs455_project.Awareness.{
  field_of, Item, Entry, Peer, Json, Owned, is_full, clean_state, peer_of, put_peer, delete_peer,
  accept_one, accept_each, accept,
}

module _ {J : Type 0} (json : Json J) where
  -- A view of the cursors: the clock and the state for each client id.
  abbrev pub View : Type 0
  View = ℕ → Option (ℕ × List (Item J))

  -- The entry has a lower clock than what is shown for its client id.
  abbrev pub is_outdated : Option (ℕ × List (Item J)) → Entry J → Bool
  is_outdated none e = false
  is_outdated (some (clock, state)) e = ltb e.clock clock

  -- The view after one announcement, which an outdated one leaves as it is.
  abbrev pub follow : View → Entry J → View
  follow v e j =
      if not (e.client_id == j) || is_outdated (v j) e
      then v j
      else elim e.state [ none ↦ none | some state ↦ some (e.clock, state) ]

  abbrev pub shows : Option (Peer J) → Option (ℕ × List (Item J))
  shows none = none
  shows (some p) = some (p.clock, p.state)

  -- The room's own view.
  abbrev pub room_view : List (Peer J) → View
  room_view peers j = shows (peer_of json j peers)

  pub row-put_peer :
      (p : Peer J) (peers : List (Peer J)) (j : ℕ)
      → peer_of json j (put_peer json p peers)
        ≡ (if p.client_id == j then some p else peer_of json j peers)
  row-put_peer p peers j = elim (Option-cases (peer_of json p.client_id peers)) [
    | inl new ↦ elim (Bool-cases (p.client_id == j)) [
      | inr other ↦ ground (arith, new, other, row-append (λ (q : Peer J). q.client_id) j peers p)
      | inl same ↦ ground (
        arith,
        new,
        same,
        row-append (λ (q : Peer J). q.client_id) j peers p,
        ap (λ k. peer_of json k peers) (eq_of_== p.client_id j same),
      )
    ]
    | inr (old, there) ↦ elim (Bool-cases (p.client_id == j)) [
      | inr other ↦ ground (arith, there, other, changed j (λ q. refl))
      | inl same ↦ ground (
        arith,
        there,
        same,
        changed j (λ q. refl),
        ap (λ k. peer_of json k peers) (eq_of_== p.client_id j same),
        key-row (λ (q : Peer J). q.client_id) p.client_id peers old there,
      )
    ]
  ]
    where
      changed :
          (k : ℕ)
          → ((q : Peer J) → q.client_id ≡ q.client_id)
          → peer_of json k (
              modify
                (λ (q : Peer J). q.client_id)
                p.client_id
                (λ q. record p { client_id = q.client_id })
                peers)
            ≡ (if p.client_id == k
                then Option.map
                    (λ (q : Peer J). record p { client_id = q.client_id })
                    (peer_of json k peers)
                else peer_of json k peers)
      changed k keeps =
          row-modify (λ (q : Peer J). q.client_id) p.client_id k
            (λ q. record p { client_id = q.client_id }) peers keeps

  pub row-delete_peer :
      (i : ℕ) (peers : List (Peer J)) (j : ℕ)
      → peer_of json j (delete_peer json i peers) ≡ (if i == j then none else peer_of json j peers)
  row-delete_peer i [] j = ground arith
  row-delete_peer i (p ∷ peers) j = ground (arith, row-delete_peer i peers j)

  module _ (ws user_id : ℕ) (username : String) where
    accept_one-others :
        (e : Entry J) (owned : Owned) (peers : List (Peer J)) (j : ℕ) (p : Peer J)
        → peer_of json j peers ≡ some p
        → p.user_id == user_id ≡ false
        → peer_of json j (accept_one json ws user_id username e owned peers).peers ≡ some p
    unfolding accept_one
    accept_one-others e owned peers j p there other = elim (Bool-cases (e.client_id == j)) [
      | inl same ↦
          ground (arith, there, same, ap (λ k. peer_of json k peers) (eq_of_== e.client_id j same))
      | inr apart ↦ elim (Option-cases e.state) [
        | inl gone ↦ ground (arith, gone, there, row-delete_peer e.client_id peers j)
        | inr (state, at) ↦ ground (
          arith,
          at,
          there,
          row-put_peer
              (record {
                client_id = e.client_id;
                clock = e.clock;
                state = clean_state json state user_id username;
                ws = ws;
                user_id = user_id;
              })
              peers j,
        )
      ]
    ]

    accept_each-others :
        (entries : List (Entry J)) (owned : Owned) (peers : List (Peer J)) (j : ℕ) (p : Peer J)
        → peer_of json j peers ≡ some p
        → p.user_id == user_id ≡ false
        → peer_of json j (accept_each json ws user_id username entries owned peers).peers ≡ some p
    unfolding accept_each
    accept_each-others [] owned peers j p there other = there
    accept_each-others (e ∷ rest) owned peers j p there other =
        accept_each-others rest _ _ j p (accept_one-others e owned peers j p there other) other

    -- Whatever a connection sends, a cursor of another user stays as it is.
    pub accept-others :
        (entries : List (Entry J)) (peers : List (Peer J)) (j : ℕ) (p : Peer J)
        → peer_of json j peers ≡ some p
        → p.user_id == user_id ≡ false
        → peer_of json j (accept json ws user_id username entries peers).peers ≡ some p
    unfolding accept
    accept-others entries peers j p there other = accept_each-others entries _ peers j p there other

    -- A state that is passed on names the user that the connection logged in as.
    pub record IsStamped (e : Entry J) : Type 0 where
      pub by_id :
          (state : List (Item J))
          → e.state ≡ some state
          → field_of "user_id" state ≡ some (json.number user_id)
      pub by_name :
          (state : List (Item J))
          → e.state ≡ some state
          → field_of "username" state ≡ some (json.text username)

    abbrev clean_entry : Entry J → List (Item J) → Entry J
    clean_entry e state = record {
      client_id = e.client_id;
      clock = e.clock;
      state = some (clean_state json state user_id username);
    }

    abbrev null_entry : Entry J → Entry J
    null_entry e = record { client_id = e.client_id; clock = e.clock; state = none }

    accept_one-relayed :
        (e : Entry J) (owned : Owned) (peers : List (Peer J))
        → let relayed = (accept_one json ws user_id username e owned peers).relayed in
          (relayed ≡ [])
          ⊎ (relayed ≡ null_entry e ∷ [])
          ⊎ ((state : List (Item J)) × (relayed ≡ clean_entry e state ∷ []))
    unfolding accept_one
    accept_one-relayed e owned peers = elim (Option-cases e.state) [
      | inl gone ↦ elim (Option-cases (peer_of json e.client_id peers)) [
        | inl new ↦ inl (ground (arith, gone, new))
        | inr (p, there) ↦ elim (Bool-cases (not (p.user_id == user_id) || ltb e.clock p.clock)) [
          | inl refused ↦ inl (ground (arith, gone, there))
          | inr fine ↦ inr (inl (ground (arith, gone, there)))
        ]
      ]
      | inr (state, given) ↦ elim (Option-cases (peer_of json e.client_id peers)) [
        | inl new ↦ elim (Bool-cases (is_full owned)) [
          | inl full ↦ inl (ground (arith, given, new))
          | inr room ↦ inr (inr (state, ground (arith, given, new)))
        ]
        | inr (p, there) ↦ elim (Bool-cases (not (p.user_id == user_id) || ltb e.clock p.clock)) [
          | inl refused ↦ inl (ground (arith, given, there))
          | inr fine ↦ inr (inr (state, ground (arith, given, there)))
        ]
      ]
    ]

    clean-IsStamped : (e : Entry J) (state : List (Item J)) → IsStamped (clean_entry e state)
    unfolding clean_state
    clean-IsStamped e state = record { by_id = λ s h. ground arith; by_name = λ s h. ground arith }

    accept_one-IsStamped :
        (e : Entry J) (owned : Owned) (peers : List (Peer J))
        → All IsStamped (accept_one json ws user_id username e owned peers).relayed
    accept_one-IsStamped e owned peers = elim (accept_one-relayed e owned peers) [
      | inl nothing ↦ subst (All IsStamped) (sym nothing) tt
      | inr (inl removed) ↦ subst (All IsStamped) (sym removed) (
        record { by_id = λ s h. absurd (ground arith); by_name = λ s h. absurd (ground arith) },
        tt,
      )
      | inr (inr (state, cleaned)) ↦
          subst (All IsStamped) (sym cleaned) (clean-IsStamped e state, tt)
    ]

    accept_each-IsStamped :
        (entries : List (Entry J)) (owned : Owned) (peers : List (Peer J))
        → All IsStamped (accept_each json ws user_id username entries owned peers).relayed
    unfolding accept_each
    accept_each-IsStamped [] owned peers = tt
    accept_each-IsStamped (e ∷ rest) owned peers =
        All-append IsStamped _ _ (accept_one-IsStamped e owned peers)
          (accept_each-IsStamped rest _ _)

    -- Every state that `accept` passes on carries the id and the name of the user that the connection
    -- logged in as, whatever the client wrote there.
    pub accept-IsStamped :
        (entries : List (Entry J)) (peers : List (Peer J))
        → All IsStamped (accept json ws user_id username entries peers).relayed
    unfolding accept
    accept-IsStamped entries peers = accept_each-IsStamped entries _ peers
