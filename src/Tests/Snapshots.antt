-- ===== src/Tests/Snapshots.antt =====
-- The theorem on snapshots at a project with one open file.
use cs455_project.Prelude.{List, ◌++◌, map, All, ◌≡◌}
use cs455_project.Documents.{SnapshotFile}
use cs455_project.Snapshots.{files_of, take_snapshot}
use cs455_project.Snapshots.Taken.{HoldsText, take_snapshot-HoldsText}
use cs455_project.Tests.{base}
use cs455_project.Tests.Texts.{toy, toy-IsPycrdt}
use cs455_project.Tests.Rooms.{documents, manager}

take_snapshot-HoldsText_example :
    let (snapshot_id, after) = take_snapshot toy base 7 "v1" 1 documents manager in
    (rows : List SnapshotFile) × (after.snapshot_files ≡ documents.snapshot_files ++ rows)
    × (map (λ (sf : SnapshotFile). sf.file_id) rows ≡ files_of base 7)
    × All (HoldsText toy snapshot_id 7 documents manager) rows
take_snapshot-HoldsText_example =
    take_snapshot-HoldsText toy base 7 "v1" 1 documents manager toy-IsPycrdt
