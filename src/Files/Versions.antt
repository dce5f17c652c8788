-- ===== src/Files/Versions.antt =====
-- Reading, saving and restoring the versions of a file: the second part of backend/app/api/files.py.
use cs455_project.Prelude.{
  ℕ, Bool, true, false, ◌&&◌, ◌||◌, not, Option, none, some, List, [], ◌∷◌, ◌==◌, leb, take, where_,
  foldr, if◌then◌else◌, value_error, Result, ok, err, ◌>>=◌, ◌>>◌, require, found, one_or_none,
}
use cs455_project.Roles.{editor, at_least}
use cs455_project.Database.{Db, User, get_member}
use cs455_project.Changes.{Differ}
use cs455_project.Crdt.{Pycrdt, doc_from_bytes, doc_to_text}
use cs455_project.Documents.{DocumentVersion, Documents, latest_version}
use cs455_project.Rooms.{Room}
use cs455_project.Rooms.Edit.{replace_text}
use cs455_project.Rooms.Manager.{Manager, get_room, set_room, open_room}
use cs455_project.Checkpoint.Save.{save_room}
use cs455_project.Files.{may_read, project_file}

-- Bytes that `pycrdt` refuses raise an exception.
abbrev pub decoded : {D : Type 0} → Option D → Result D
decoded none = err value_error
decoded (some doc) = ok doc

abbrev pub has_number : (file_id number : ℕ) → DocumentVersion → Bool
has_number file_id number v = v.file_id == file_id && v.version_number == number

-- `_version`
unfoldable pub version_of : List DocumentVersion → (file_id number : ℕ) → Result DocumentVersion
version_of versions file_id number = do
  version ← one_or_none (where_ (has_number file_id number) versions)
  found version 404

-- `order_by(version_number.desc())`
abbrev pub insert_newest : DocumentVersion → List DocumentVersion → List DocumentVersion
insert_newest v [] = v ∷ []
insert_newest v (w ∷ rest) =
    let later = insert_newest v rest in
    if leb w.version_number v.version_number then v ∷ w ∷ rest else w ∷ later

abbrev pub is_saved : DocumentVersion → Bool
is_saved v = elim v.saved_by [ none ↦ false | some user_id ↦ true ]

unfoldable pub list_versions :
    Db
    → Documents
    → User
    → (project_id file_id limit : ℕ) → (saves_only : Bool) → Result (List DocumentVersion)
list_versions db docs user project_id file_id limit saves_only = do
  member ← get_member db project_id user.id
  file ← project_file db project_id file_id
  let rows =
      where_ (λ (v : DocumentVersion). v.file_id == file_id && (not saves_only || is_saved v))
        docs.versions
  ok (take limit (foldr insert_newest [] rows))

pub record Content : Type 0 where
  pub text : List ℕ
  pub version : ℕ

module _ {D : Type 0} (lib : Pycrdt D) where
  abbrev pub content_of : Option DocumentVersion → Result Content
  content_of none = ok (record { text = []; version = 0 })
  content_of (some latest) = do
    doc ← decoded (doc_from_bytes lib latest.snapshot_bytes)
    ok (record { text = doc_to_text lib doc; version = latest.version_number })

  unfoldable pub get_latest_content :
      Db → Documents → User → (project_id file_id : ℕ) → Result Content
  get_latest_content db docs user project_id file_id = do
    project ← may_read db user project_id
    file ← project_file db project_id file_id
    content_of (latest_version file_id docs.versions)

  unfoldable pub get_version :
      Db → Documents → User → (project_id file_id number : ℕ) → Result (List ℕ)
  get_version db docs user project_id file_id number = do
    member ← get_member db project_id user.id
    file ← project_file db project_id file_id
    version ← version_of docs.versions file_id number
    doc ← decoded (doc_from_bytes lib version.snapshot_bytes)
    ok (doc_to_text lib doc)

  -- Where the text of a file is read: backend/app/realtime/source.py.
  unfoldable pub get_file_text : Documents → Manager D → (project_id file_id : ℕ) → Result (List ℕ)
  get_file_text docs m project_id file_id = elim (get_room project_id file_id m) [
    | some room ↦ ok (doc_to_text lib room.doc)
    | none ↦ elim (latest_version file_id docs.versions) [
      | none ↦ ok []
      | some latest ↦
          decoded (doc_from_bytes lib latest.snapshot_bytes) >>= λ doc. ok (doc_to_text lib doc)
    ]
  ]

-- What `restore_version` checks before it opens the room.
unfoldable pub version_to_restore :
    Db → Documents → User → (project_id file_id number : ℕ) → Result DocumentVersion
version_to_restore db docs user project_id file_id number = do
  member ← get_member db project_id user.id
  require (at_least member.role editor) 403
  file ← project_file db project_id file_id
  version_of docs.versions file_id number

abbrev pub number_of : Option DocumentVersion → Option ℕ
number_of none = none
number_of (some v) = some v.version_number

-- The version of the answer, and whether it was created.
pub record FileSaved : Type 0 where
  pub version : Option ℕ
  pub created : Bool

module _ {D : Type 0} (lib : Pycrdt D) (differ : Differ) where
  abbrev pub unsaved : ℕ → Documents → Manager D → FileSaved × Documents × Manager D
  unsaved file_id docs m = (
    record { version = number_of (latest_version file_id docs.versions); created = false },
    docs,
    m,
  )

  abbrev pub saved :
      (now : ℕ) → Room D → ℕ → Documents → Manager D → FileSaved × Documents × Manager D
  saved now room user_id docs m =
      let (result, written, m') = save_room lib differ now room (some user_id) docs m in
      (record { version = result.version; created = result.created }, written, m')

  unfoldable pub save_file :
      (now : ℕ)
      → Db
      → User
      → (project_id file_id : ℕ) → Documents
      → Manager D
      → Result (FileSaved × Documents × Manager D)
  save_file now db user project_id file_id docs m = do
    member ← get_member db project_id user.id
    require (at_least member.role editor) 403
    file ← project_file db project_id file_id
    ok (elim (get_room project_id file_id m) [
      | none ↦ unsaved file_id docs m
      | some room ↦ if room.hydrated then saved now room user.id docs m else unsaved file_id docs m
    ])

  -- What a request leaves, also where it raises an exception.
  pub record Restored : Type 0 where
    pub answer : Result (Option ℕ × Bool)
    pub docs : Documents
    pub manager : Manager D

  -- The end of `restore_version`, from what `replace_text` answered on.
  abbrev pub save_replaced : (now : ℕ) → Result Bool → Room D → ℕ → Documents → Manager D → Restored
  save_replaced now (err e) room user_id docs m = record {
    answer = err e;
    docs = docs;
    manager = m;
  }
  save_replaced now (ok changed) room user_id docs m =
      let (result, written, m') = save_room lib differ now room (some user_id) docs m in
      record { answer = ok (result.version, changed); docs = written; manager = m' }

  unfoldable pub restore_text : (now : ℕ) → Room D → List ℕ → ℕ → Documents → Manager D → Restored
  restore_text now room text user_id docs m =
      let (answer, replaced, boxes) = replace_text lib differ now room text user_id m.outboxes in
      save_replaced now answer replaced user_id docs
        (record (set_room replaced m) { outboxes = boxes })

  abbrev pub restore_opened :
      (now : ℕ) → Result (Room D) → DocumentVersion → ℕ → Documents → Manager D → Restored
  restore_opened now (err e) version user_id docs m = record {
    answer = err e;
    docs = docs;
    manager = m;
  }
  restore_opened now (ok room) version user_id docs m =
      elim (doc_from_bytes lib version.snapshot_bytes) [
        | none ↦ record { answer = err value_error; docs = docs; manager = m }
        | some doc ↦ restore_text now room (doc_to_text lib doc) user_id docs m
      ]

  unfoldable pub restore_version :
      (now : ℕ) → Db → User → (project_id file_id number : ℕ) → Documents → Manager D → Restored
  restore_version now db user project_id file_id number docs m =
      elim (version_to_restore db docs user project_id file_id number) [
        | err e ↦ record { answer = err e; docs = docs; manager = m }
        | ok version ↦
            let (opening, m') = open_room lib now project_id file_id docs.versions m in
            restore_opened now opening version user.id docs m'
      ]
