-- ===== src/Checkpoint/Save.antt =====
-- Writing versions and changes: `_window_due`, `_checkpoint_room`, `checkpoint_once`, `save_room` and
-- `_announce` of backend/app/realtime/checkpoint.py.
pub mod Versions
use cs455_project.Prelude.{
  ℕ, ◌+◌, ◌-◌, ◌*◌, Bool, true, false, ◌&&◌, ◌||◌, not, Option, none, some, List, [], ◌∷◌, ◌++◌,
  ◌==◌, leb, map, if◌then◌else◌,
}
use cs455_project.Changes.{Differ, same_text}
use cs455_project.Crdt.{Pycrdt, doc_to_bytes}
use cs455_project.Documents.{DocumentVersion, FileChange, Documents, latest_version, add_version}
use cs455_project.Rooms.{
  Room, Change, Credits, file_changed, is_empty, second, close_window, take_pending,
}
use cs455_project.Rooms.Manager.{Manager, set_room, broadcast_to_project}

abbrev pub checkpoint_interval_seconds : ℕ
checkpoint_interval_seconds = 5

abbrev pub max_window_seconds : ℕ
max_window_seconds = 60

abbrev pub window_due : {D : Type 0} → ℕ → Room D → Bool
window_due now room =
    if is_empty room.window_authors
    then not (is_empty room.pending)
    else leb (checkpoint_interval_seconds * second) (now - room.last_edit)
      || leb (max_window_seconds * second) (now - room.window_started)

pub record CheckpointResult : Type 0 where
  pub version : Option ℕ
  pub created : Bool
  pub saved_at : Option ℕ
  pub changes : List Change

-- `latest.saved_by = saved_by`, for the row with the id of `latest`
abbrev pub marked : ℕ → ℕ → DocumentVersion → DocumentVersion
marked i user_id v = if v.id == i then record v { saved_by = some user_id } else v

abbrev pub mark_saved : ℕ → ℕ → List DocumentVersion → List DocumentVersion
mark_saved i user_id [] = []
mark_saved i user_id (v ∷ vs) = marked i user_id v ∷ mark_saved i user_id vs

-- Saving right after an autosave of the same text.
abbrev pub mark_latest : Option ℕ → DocumentVersion → Documents → Documents
mark_latest none latest docs = docs
mark_latest (some user_id) latest docs = elim latest.saved_by [
  | none ↦ record docs { versions = mark_saved latest.id user_id docs.versions }
  | some someone ↦ docs
]

-- The version part of `_checkpoint_room`, from the latest version that was read.
abbrev pub write_version :
    (now file_id : ℕ)
    → List ℕ
    → Option ℕ
    → Option DocumentVersion
    → Documents
    → CheckpointResult × Documents
write_version now file_id payload saved_by none docs =
    if is_empty payload
    then (record { version = none; created = false; saved_at = none; changes = [] }, docs)
    else (
      record { version = some 1; created = true; saved_at = some now; changes = [] },
      add_version file_id 1 payload now saved_by docs,
    )
write_version now file_id payload saved_by (some latest) docs =
    if not (is_empty payload) && not (same_text latest.snapshot_bytes payload)
    then (
      record {
        version = some (latest.version_number + 1);
        created = true;
        saved_at = some now;
        changes = [];
      },
      add_version file_id (latest.version_number + 1) payload now saved_by docs,
    )
    else (
      record {
        version = some latest.version_number;
        created = false;
        saved_at = some latest.created_at;
        changes = [];
      },
      mark_latest saved_by latest docs,
    )

abbrev pub change_of : ℕ × (ℕ × ℕ) → Change
change_of (uid, (a, r)) = record { user_id = uid; lines_added = a; lines_removed = r }

abbrev pub change_row : (project_id file_id : ℕ) → ℕ × (ℕ × ℕ) → FileChange
change_row project_id file_id (uid, (a, r)) = record {
  project_id = project_id;
  file_id = file_id;
  user_id = uid;
  lines_added = a;
  lines_removed = r;
}

module _ {D : Type 0} (lib : Pycrdt D) (differ : Differ) where
  unfoldable pub checkpoint_room :
      (now : ℕ)
      → Room D
      → (close : Bool) → Option ℕ
      → Documents
      → CheckpointResult × Room D × Documents
  checkpoint_room now room close saved_by docs =
      let latest = latest_version room.file_id docs.versions in
      let (result, written) =
        write_version now room.file_id (doc_to_bytes lib room.doc) saved_by latest docs in
      let (shares, taken) = take_pending (close_window lib differ room) in
      if close
      then (
        record result { changes = map change_of shares },
        taken,
        record written {
          changes = written.changes ++ map (change_row room.project_id room.file_id) shares;
        },
      )
      else (result, room, written)

  abbrev pub announce : Room D → CheckpointResult → Manager D → Manager D
  announce room result m =
      if is_empty result.changes
      then m
      else broadcast_to_project room.project_id
          (file_changed room.file_id result.version result.changes) none m

  unfoldable pub save_room :
      (now : ℕ)
      → Room D
      → Option ℕ
      → Documents
      → Manager D
      → CheckpointResult × Documents × Manager D
  save_room now room user_id docs m =
      let (result, saved, docs') = checkpoint_room now room true user_id docs in
      (result, docs', announce saved result (set_room saved m))

  -- The loop of `checkpoint_once`, before its commit.
  unfoldable pub checkpoint_each :
      (now : ℕ) (force : Bool)
      → List (Room D)
      → Documents
      → List (CheckpointResult × Room D) × Documents
  checkpoint_each now force [] docs = ([], docs)
  checkpoint_each now force (room ∷ rooms) docs =
      let (result, written, docs1) =
        checkpoint_room now room (force || window_due now room) none docs in
      let (results, docs2) = checkpoint_each now force rooms docs1 in
      ((result, written) ∷ results, docs2)

  abbrev pub announce_each : List (CheckpointResult × Room D) → Manager D → Manager D
  announce_each [] m = m
  announce_each ((result, room) ∷ results) m =
      announce_each results (announce room result (set_room room m))

  unfoldable pub checkpoint_once :
      (now : ℕ) (force : Bool) → Documents → Manager D → Documents × Manager D
  checkpoint_once now force docs m =
      let (results, docs') = checkpoint_each now force m.rooms docs in
      (docs', announce_each results m)
