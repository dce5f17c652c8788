-- ===== src/Rooms/Manager/Opening.antt =====
-- What `open_room` makes of a file that nobody has open.
use cs455_project.Prelude.{
  ℕ, false, true, none, some, List, [], ◌≡◌, refl, Result, ok, err, inl, inr, ◌∙◌, ap, sym,
  Bool-cases, Option-cases, ◌∷◌, arith,
}
use cs455_project.Crdt.{Pycrdt, new_doc, doc_from_bytes}
use cs455_project.Documents.{DocumentVersion, latest_version}
use cs455_project.Rooms.{Room}
use cs455_project.Rooms.Manager.{
  Manager, is_room, find_room, fresh_room, get_room, get_or_create_room, hydrate, keep_opened,
  open_room,
}

module _ {D : Type 0} (lib : Pycrdt D) where
  pub hydrate-latest :
      (room : Room D) (latest : DocumentVersion) (doc : D) (versions : List DocumentVersion)
      → room.hydrated ≡ false
      → latest_version room.file_id versions ≡ some latest
      → doc_from_bytes lib latest.snapshot_bytes ≡ some doc
      → hydrate lib versions room ≡ ok (record room { doc = doc; hydrated = true })
  unfolding hydrate
  hydrate-latest room latest doc versions cold found loaded = rw (cold, found, loaded) refl

  created :
      (now project_id file_id : ℕ) (m : Manager D)
      → get_room project_id file_id m ≡ none
      → (get_or_create_room lib now project_id file_id m).0
        ≡ fresh_room now project_id file_id (new_doc lib [])
  unfolding get_or_create_room
  created now project_id file_id m absent = rw (get_or_create_room, absent) refl

  kept : (r : Result (Room D)) (m : Manager D) → (keep_opened r m).0 ≡ r
  kept (ok opened) m = refl
  kept (err e) m = refl

  opens :
      (now project_id file_id : ℕ) (versions : List DocumentVersion) (m : Manager D)
      → (open_room lib now project_id file_id versions m).0
        ≡ hydrate lib versions (get_or_create_room lib now project_id file_id m).0
  unfolding open_room
  opens now project_id file_id versions m =
      let (room, m') = get_or_create_room lib now project_id file_id m in
      kept (hydrate lib versions room) m'

  pub open_room-absent :
      (now project_id file_id : ℕ) (versions : List DocumentVersion) (m : Manager D)
      → get_room project_id file_id m ≡ none
      → (open_room lib now project_id file_id versions m).0
        ≡ hydrate lib versions (fresh_room now project_id file_id (new_doc lib []))
  open_room-absent now project_id file_id versions m absent =
      opens now project_id file_id versions m
      ∙ ap (hydrate lib versions) (created now project_id file_id m absent)

  file_id-find_room :
      (project_id file_id : ℕ) (rooms : List (Room D)) (room : Room D)
      → find_room project_id file_id rooms ≡ some room
      → room.file_id ≡ file_id
  file_id-find_room project_id file_id [] room h = ground arith
  file_id-find_room project_id file_id (r ∷ rooms) room h =
      elim (Bool-cases (is_room project_id file_id r)) [
        | inl e ↦ ground (arith, e, h)
        | inr e ↦ file_id-find_room project_id file_id rooms room (ground (arith, e, h))
      ]

  file_id-get_or_create_room :
      (now project_id file_id : ℕ) (m : Manager D)
      → (get_or_create_room lib now project_id file_id m).0.file_id ≡ file_id
  unfolding get_or_create_room
  file_id-get_or_create_room now project_id file_id m =
      elim (Option-cases (get_room project_id file_id m)) [
        | inl e ↦ rw (get_or_create_room, e) refl
        | inr (room, e) ↦
            rw (get_or_create_room, e) (file_id-find_room project_id file_id m.rooms room e)
      ]

  file_id-hydrate :
      (versions : List DocumentVersion) (room opened : Room D)
      → hydrate lib versions room ≡ ok opened
      → opened.file_id ≡ room.file_id
  unfolding hydrate
  file_id-hydrate versions room opened h = elim (Bool-cases room.hydrated) [
    | inl e ↦ ground (arith, e, h)
    | inr e ↦ elim (Option-cases (latest_version room.file_id versions)) [
      | inl f ↦ ground (arith, e, f, h)
      | inr (latest, f) ↦ elim (Option-cases (doc_from_bytes lib latest.snapshot_bytes)) [
        | inl g ↦ ground (arith, e, f, g, h)
        | inr (doc, g) ↦ ground (arith, e, f, g, h)
      ]
    ]
  ]

  pub file_id-open_room :
      (now project_id file_id : ℕ) (versions : List DocumentVersion) (m : Manager D) (room : Room D)
      → (open_room lib now project_id file_id versions m).0 ≡ ok room
      → room.file_id ≡ file_id
  file_id-open_room now project_id file_id versions m room h =
      file_id-hydrate versions (get_or_create_room lib now project_id file_id m).0 room
        (sym (opens now project_id file_id versions m) ∙ h)
      ∙ file_id-get_or_create_room now project_id file_id m
