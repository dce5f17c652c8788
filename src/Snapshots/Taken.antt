-- ===== src/Snapshots/Taken.antt =====
-- What a snapshot has of each file.
use cs455_project.Prelude.{
  ℕ, Option, none, some, List, [], ◌∷◌, ◌++◌, map, if◌then◌else◌, All, String, ◌≡◌, refl, ap, inl,
  inr, Bool-cases, Option-cases,
}
use cs455_project.Database.{Db}
use cs455_project.Crdt.{Pycrdt, new_doc, doc_from_bytes, doc_to_bytes}
use cs455_project.Crdt.Laws.{IsPycrdt}
use cs455_project.Documents.{Documents, DocumentVersion, SnapshotFile, latest_version}
use cs455_project.Rooms.Manager.{Manager, get_room}
use cs455_project.Snapshots.{stored_content, content_of_file, copies_of, files_of, take_snapshot}

module _ {D : Type 0} (lib : Pycrdt D) where
  -- The text that a file has now: of the live document if it is loaded, else of the latest version, else
  -- that of an empty document; `none` where `pycrdt` refuses the version.
  abbrev pub stored_text : Option DocumentVersion → Option (List ℕ)
  stored_text none = some (lib.text (new_doc lib []))
  stored_text (some latest) = elim (doc_from_bytes lib latest.snapshot_bytes) [
    | none ↦ none
    | some doc ↦ some (lib.text doc)
  ]

  abbrev pub current_text : (project_id file_id : ℕ) → Documents → Manager D → Option (List ℕ)
  current_text project_id file_id docs m =
      let stored = stored_text (latest_version file_id docs.versions) in
      elim (get_room project_id file_id m) [
        | none ↦ stored
        | some room ↦ if room.hydrated then some (lib.text room.doc) else stored
      ]

  abbrev pub text_of_bytes : List ℕ → Option (List ℕ)
  text_of_bytes content = elim (doc_from_bytes lib content) [
    | none ↦ none
    | some doc ↦ some (lib.text doc)
  ]

  read_back : IsPycrdt lib → (doc : D) → text_of_bytes (doc_to_bytes lib doc) ≡ some (lib.text doc)
  read_back laws doc =
      let (copy, copied, same) = laws.copies doc in rw (text_of_bytes, copied) (ap some same)

  stored_back :
      IsPycrdt lib
      → (latest : Option DocumentVersion)
      → text_of_bytes (stored_content lib latest) ≡ stored_text latest
  stored_back laws none = read_back laws (new_doc lib [])
  stored_back laws (some latest) = refl

  content_back :
      (project_id file_id : ℕ) (docs : Documents) (m : Manager D)
      → IsPycrdt lib
      → text_of_bytes (content_of_file lib project_id file_id docs m)
        ≡ current_text project_id file_id docs m
  unfolding content_of_file
  content_back project_id file_id docs m laws =
      elim (Option-cases (get_room project_id file_id m)) [
        | inl e ↦
            rw (content_of_file, current_text, e)
              (stored_back laws (latest_version file_id docs.versions))
        | inr (room, e) ↦ elim (Bool-cases room.hydrated) [
          | inl f ↦ rw (content_of_file, current_text, e, f) (read_back laws room.doc)
          | inr f ↦
              rw (content_of_file, current_text, e, f)
                (stored_back laws (latest_version file_id docs.versions))
        ]
      ]

  -- It belongs to the snapshot, and decodes to the text that its file has.
  abbrev pub HoldsText :
      (snapshot_id project_id : ℕ) → Documents → Manager D → SnapshotFile → Type 0
  HoldsText snapshot_id project_id docs m sf =
      (sf.snapshot_id ≡ snapshot_id)
      × (text_of_bytes sf.content ≡ current_text project_id sf.file_id docs m)

  copies-HoldsText :
      (snapshot_id project_id : ℕ) (file_ids : List ℕ) (docs : Documents) (m : Manager D)
      → IsPycrdt lib
      → (map
            (λ (sf : SnapshotFile). sf.file_id)
            (copies_of lib snapshot_id project_id file_ids docs m)
          ≡ file_ids)
        × All
            (HoldsText snapshot_id project_id docs m)
            (copies_of lib snapshot_id project_id file_ids docs m)
  unfolding copies_of
  copies-HoldsText snapshot_id project_id [] docs m laws = (refl, tt)
  copies-HoldsText snapshot_id project_id (i ∷ is) docs m laws =
      let (ids, holds) = copies-HoldsText snapshot_id project_id is docs m laws in
      (ap (λ l. i ∷ l) ids, ((refl, content_back project_id i docs m laws), holds))

  -- With a `pycrdt` as documented: a snapshot adds one row for each file of the project, in their order, and each
  -- of the rows belongs to the snapshot and decodes to the text that the file has at that time.
  pub take_snapshot-HoldsText :
      (db : Db) (project_id : ℕ) (label : String) (user_id : ℕ) (docs : Documents) (m : Manager D)
      → IsPycrdt lib
      → let (snapshot_id, after) = take_snapshot lib db project_id label user_id docs m in
        (rows : List SnapshotFile) × (after.snapshot_files ≡ docs.snapshot_files ++ rows)
        × (map (λ (sf : SnapshotFile). sf.file_id) rows ≡ files_of db project_id)
        × All (HoldsText snapshot_id project_id docs m) rows
  unfolding take_snapshot
  take_snapshot-HoldsText db project_id label user_id docs m laws =
      let (ids, holds) =
        copies-HoldsText docs.next_id project_id (files_of db project_id) docs m laws in
      (copies_of lib docs.next_id project_id (files_of db project_id) docs m, refl, ids, holds)
