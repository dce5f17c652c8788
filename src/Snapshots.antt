-- ===== src/Snapshots.antt =====
-- Labelled copies of every file of a project: backend/app/api/snapshots.py. The counts and names that the
-- answers show are left out.
pub mod Taken
use Prim.Native.String.{◌++◌ as ◌<>◌}
use cs455_project.Prelude.{
  ℕ, ◌+◌, Bool, true, false, not, Option, none, some, List, [], ◌∷◌, ◌++◌, String, ◌==◌, where_,
  map, row, if◌then◌else◌, value_error, Result, ok, err, ◌>>=◌, ◌>>◌, require, found, cut,
}
use cs455_project.Roles.{Role, viewer, editor, debugger, owner}
use cs455_project.Database.{Db, User, File, Member, get_member}
use cs455_project.Changes.{Differ}
use cs455_project.Crdt.{Pycrdt, new_doc, doc_from_bytes, doc_to_bytes, doc_to_text}
use cs455_project.Documents.{Documents, DocumentVersion, Snapshot, SnapshotFile, latest_version}
use cs455_project.Rooms.{Room}
use cs455_project.Rooms.Edit.{replace_text}
use cs455_project.Rooms.Manager.{Manager, get_room, set_room, open_room}
use cs455_project.Checkpoint.Save.{save_room}

abbrev pub may_edit_project : Role → Bool
may_edit_project viewer = false
may_edit_project _ = true

-- `_require_owner_or_editor`
unfoldable pub require_owner_or_editor : Db → (project_id user_id : ℕ) → Result Member
require_owner_or_editor db project_id user_id = do
  member ← get_member db project_id user_id
  require (may_edit_project member.role) 403
  ok member

abbrev pub files_of : Db → ℕ → List ℕ
files_of db project_id =
    map (λ (f : File). f.id) (where_ (λ (f : File). f.project_id == project_id) db.files)

module _ {D : Type 0} (lib : Pycrdt D) where
  -- What is stored of a file without a live document.
  abbrev pub stored_content : Option DocumentVersion → List ℕ
  stored_content none = doc_to_bytes lib (new_doc lib [])
  stored_content (some latest) = latest.snapshot_bytes

  unfoldable pub content_of_file : (project_id file_id : ℕ) → Documents → Manager D → List ℕ
  content_of_file project_id file_id docs m =
      let stored = stored_content (latest_version file_id docs.versions) in
      elim (get_room project_id file_id m) [
        | none ↦ stored
        | some room ↦ if room.hydrated then doc_to_bytes lib room.doc else stored
      ]

  -- The loop of `_take_snapshot`.
  unfoldable pub copies_of :
      (snapshot_id project_id : ℕ) → List ℕ → Documents → Manager D → List SnapshotFile
  copies_of snapshot_id project_id [] docs m = []
  copies_of snapshot_id project_id (file_id ∷ file_ids) docs m =
      record {
        snapshot_id = snapshot_id;
        file_id = file_id;
        content = content_of_file project_id file_id docs m;
      }
      ∷ copies_of snapshot_id project_id file_ids docs m

  -- `_take_snapshot`: the id of the snapshot, and the tables.
  unfoldable pub take_snapshot :
      Db
      → (project_id : ℕ) → (label : String) → (user_id : ℕ) → Documents
      → Manager D
      → ℕ × Documents
  take_snapshot db project_id label user_id docs m = (
    docs.next_id,
    record docs {
      next_id = docs.next_id + 1;
      snapshots =
          docs.snapshots
          ++ record {
            id = docs.next_id;
            project_id = project_id;
            label = label;
            created_by = some user_id;
          }
            ∷ [];
      snapshot_files =
          docs.snapshot_files ++ copies_of docs.next_id project_id (files_of db project_id) docs m;
    },
  )

  unfoldable pub create_snapshot :
      Db
      → User
      → (project_id : ℕ) → (label : String) → Documents
      → Manager D
      → Result (ℕ × Documents)
  create_snapshot db user project_id label docs m = do
    member ← require_owner_or_editor db project_id user.id
    ok (take_snapshot db project_id label user.id docs m)

  -- The ids of the project's snapshots; their order is left out.
  unfoldable pub list_snapshots : Db → User → (project_id : ℕ) → Documents → Result (List Snapshot)
  list_snapshots db user project_id docs = do
    member ← get_member db project_id user.id
    ok (where_ (λ (s : Snapshot). s.project_id == project_id) docs.snapshots)

module _ {D : Type 0} (lib : Pycrdt D) (differ : Differ) where
  -- What a request leaves, also where it raises an exception.
  pub record SnapshotRestored : Type 0 where
    pub answer : Result ℕ
    pub docs : Documents
    pub manager : Manager D

  abbrev pub stops : Result ℕ → Documents → Manager D → SnapshotRestored
  stops answer docs m = record { answer = answer; docs = docs; manager = m }

  -- One file of the loop, from what `replace_text` answered on: the number of restored files so far.
  abbrev pub save_changed :
      (now : ℕ) → Bool → Room D → ℕ → ℕ → Documents → Manager D → SnapshotRestored
  save_changed now false room user_id restored docs m = stops (ok restored) docs m
  save_changed now true room user_id restored docs m =
      let (result, written, m') = save_room lib differ now room (some user_id) docs m in
      stops (ok (restored + 1)) written m'

  abbrev pub replace_opened :
      (now : ℕ) → Room D → List ℕ → ℕ → ℕ → Documents → Manager D → SnapshotRestored
  replace_opened now room text user_id restored docs m =
      let (answer, replaced, boxes) = replace_text lib differ now room text user_id m.outboxes in
      let m' = record (set_room replaced m) { outboxes = boxes } in
      elim answer [
        | err e ↦ stops (err e) docs m'
        | ok changed ↦ save_changed now changed replaced user_id restored docs m'
      ]

  unfoldable pub restore_file :
      (now project_id user_id : ℕ) → SnapshotFile → ℕ → Documents → Manager D → SnapshotRestored
  restore_file now project_id user_id sf restored docs m =
      let (opening, m') = open_room lib now project_id sf.file_id docs.versions m in
      elim opening [
        | err e ↦ stops (err e) docs m'
        | ok room ↦ elim (doc_from_bytes lib sf.content) [
          | none ↦ stops (err value_error) docs m'
          | some doc ↦ replace_opened now room (doc_to_text lib doc) user_id restored docs m'
        ]
      ]

  -- The loop of `restore_snapshot`.
  unfoldable pub restore_files :
      (now project_id user_id : ℕ)
      → List SnapshotFile
      → ℕ
      → Documents
      → Manager D
      → SnapshotRestored
  restore_files now project_id user_id [] restored docs m = stops (ok restored) docs m
  restore_files now project_id user_id (sf ∷ sfs) restored docs m =
      let first = restore_file now project_id user_id sf restored docs m in
      elim first.answer [
        | err e ↦ first
        | ok so_far ↦ restore_files now project_id user_id sfs so_far first.docs first.manager
      ]

  abbrev pub snapshot_of : Documents → (project_id snapshot_id : ℕ) → Result Snapshot
  snapshot_of docs project_id snapshot_id = do
    snapshot ← found (row (λ s. s.id) snapshot_id docs.snapshots) 404
    require (snapshot.project_id == project_id) 404
    ok snapshot

  -- What is checked before anything is written.
  unfoldable pub restore_snapshot :
      (now : ℕ)
      → Db
      → User
      → (project_id snapshot_id : ℕ) → Documents
      → Manager D
      → SnapshotRestored
  restore_snapshot now db user project_id snapshot_id docs m =
      let checked : Result Snapshot = (do
        member ← require_owner_or_editor db project_id user.id
        snapshot_of docs project_id snapshot_id) in
      elim checked [
        | err e ↦ stops (err e) docs m
        | ok snapshot ↦
            let (safety, copied) =
              take_snapshot lib db project_id
                (cut 255 ("Before restoring '" <> (snapshot.label <> "'"))) user.id docs m in
            restore_files now project_id user.id
              (where_ (λ (sf : SnapshotFile). sf.snapshot_id == snapshot_id) docs.snapshot_files) 0
              copied m
      ]
