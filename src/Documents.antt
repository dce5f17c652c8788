-- ===== src/Documents.antt =====
-- The tables of stored texts: backend/app/models/document_version.py, file_change.py and snapshot.py,
-- and the query for a file's latest version. Bytes are numbers; a timestamp is in microseconds.
pub mod Latest
use cs455_project.Prelude.{
  ℕ, ◌+◌, Bool, true, false, Option, none, some, List, [], ◌∷◌, ◌++◌, String, ◌==◌, ltb,
  if◌then◌else◌,
}

pub record DocumentVersion : Type 0 where
  pub id : ℕ
  pub file_id : ℕ
  pub version_number : ℕ
  pub snapshot_bytes : List ℕ
  pub created_at : ℕ
  pub saved_by : Option ℕ

pub record FileChange : Type 0 where
  pub project_id : ℕ
  pub file_id : ℕ
  pub user_id : ℕ
  pub lines_added : ℕ
  pub lines_removed : ℕ

pub record Snapshot : Type 0 where
  pub id : ℕ
  pub project_id : ℕ
  pub label : String
  pub created_by : Option ℕ

pub record SnapshotFile : Type 0 where
  pub snapshot_id : ℕ
  pub file_id : ℕ
  pub content : List ℕ

pub record Documents : Type 0 where
  -- what the next inserted row gets as its primary key
  pub next_id : ℕ
  pub versions : List DocumentVersion
  pub changes : List FileChange
  pub snapshots : List Snapshot
  pub snapshot_files : List SnapshotFile

-- `order_by(version_number.desc()).limit(1)` of the rows of a file
abbrev pub newer : DocumentVersion → Option DocumentVersion → DocumentVersion
newer v none = v
newer v (some w) = if ltb v.version_number w.version_number then w else v

abbrev pub latest_version : ℕ → List DocumentVersion → Option DocumentVersion
latest_version file_id [] = none
latest_version file_id (v ∷ vs) =
    let later = latest_version file_id vs in
    if v.file_id == file_id then some (newer v later) else later

abbrev pub add_version :
    (file_id number : ℕ) → List ℕ → (now : ℕ) → Option ℕ → Documents → Documents
add_version file_id number payload now saved_by docs = record docs {
  next_id = docs.next_id + 1;
  versions =
      docs.versions
      ++ record {
        id = docs.next_id;
        file_id = file_id;
        version_number = number;
        snapshot_bytes = payload;
        created_at = now;
        saved_by = saved_by;
      }
        ∷ [];
}
