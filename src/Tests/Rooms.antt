-- ===== src/Tests/Rooms.antt =====
-- The theorems on rooms, versions and changes at a concrete room.
use cs455_project.Prelude.{ℕ, ◌+◌, true, none, some, List, [], ◌∷◌, ◌++◌, ◌≡◌, ◌⊎◌, refl, ok, arith}
use cs455_project.Changes.{split_stats, largest_remainder}
use cs455_project.Changes.Totals.{IsSplit, split_stats-IsSplit, added_of, removed_of}
use cs455_project.Documents.{Documents, DocumentVersion}
use cs455_project.Rooms.{Room, close_window, apply_edit, take_pending}
use cs455_project.Rooms.Balance.{lines}
use cs455_project.Rooms.Ledger.{Ledger, edited, collected, done, and_then, credited_lines_balance}
use cs455_project.Rooms.Manager.{Manager, get_room, cleanup_unused_rooms, open_room}
use cs455_project.Rooms.Manager.Cleanup.{IsAbandoned, IsInUse, get_room-cleanup_unused_rooms}
use cs455_project.Checkpoint.Save.{save_room}
use cs455_project.Checkpoint.Save.Versions.{IsStored, save_room-IsStored, open_room-save_room}
use cs455_project.Runtime.{
  Language, language_for_path, get_runtime_config, get_language_from_file_path, runtimes, plaintext,
}
use cs455_project.Runtime.Known.{language_for_path_runs}
use cs455_project.Tests.Texts.{toy, toy-IsPycrdt, rewrite_lines, rewrite_lines-IsDiffer}

-- Two lines, and two people.
abbrev pub shared_room : Room (List ℕ)
shared_room = record {
  project_id = 7;
  file_id = 8;
  doc = 97 ∷ 10 ∷ 98 ∷ [];
  awareness = [];
  client_to_ws = [];
  connections = (5, record { user_id = some 1 }) ∷ (6, record { user_id = some 2 }) ∷ [];
  last_accessed = 0;
  hydrated = true;
  window_text = none;
  window_authors = [];
  window_started = 0;
  last_edit = 0;
  last_author = none;
  pending = [];
}

abbrev pub manager : Manager (List ℕ)
manager = record {
  rooms = shared_room ∷ [];
  project_rooms = [];
  all_connections = [];
  outboxes = [];
}

abbrev closed_manager : Manager (List ℕ)
closed_manager = record { rooms = []; project_rooms = []; all_connections = []; outboxes = [] }

-- The file has one version, with a line less.
abbrev stored : DocumentVersion
stored = record {
  id = 1;
  file_id = 8;
  version_number = 4;
  snapshot_bytes = 0 ∷ 97 ∷ [];
  created_at = 0;
  saved_by = none;
}

abbrev pub documents : Documents
documents = record {
  next_id = 2;
  versions = stored ∷ [];
  changes = [];
  snapshots = [];
  snapshot_files = [];
}

-- Seven added lines for three people.
split_shares :
    split_stats ((1, 3) ∷ (2, 5) ∷ (3, 1) ∷ []) 7 2 ≡ (1, (2, 1)) ∷ (2, (4, 1)) ∷ (3, (1, 0)) ∷ []
unfolding split_stats largest_remainder
split_shares = refl

split_stats-IsSplit_example :
    IsSplit ((1, 3) ∷ (2, 5) ∷ (3, 1) ∷ []) 7 2 (split_stats ((1, 3) ∷ (2, 5) ∷ (3, 1) ∷ []) 7 2)
split_stats-IsSplit_example = split_stats-IsSplit ((1, 3) ∷ (2, 5) ∷ (3, 1) ∷ []) 7 2 (omega arith)

-- Alice writes a third line, and two seconds later bob a fourth.
abbrev alice_wrote : Room (List ℕ)
alice_wrote =
    (apply_edit toy rewrite_lines 1000000 1 (0 ∷ 97 ∷ 10 ∷ 98 ∷ 10 ∷ 99 ∷ []) shared_room).1

abbrev bob_wrote : Room (List ℕ)
bob_wrote =
    (apply_edit toy rewrite_lines 3000000 2 (0 ∷ 97 ∷ 10 ∷ 98 ∷ 10 ∷ 99 ∷ 10 ∷ 100 ∷ [])
      alice_wrote).1

abbrev written : Ledger toy rewrite_lines
written = record { room = (take_pending bob_wrote).1; taken = [] ++ (take_pending bob_wrote).0 }

credited_lines_balance_example :
    lines (97 ∷ 10 ∷ 98 ∷ [])
      + added_of (written.taken ++ (close_window toy rewrite_lines written.room).pending)
    ≡ lines (close_window toy rewrite_lines written.room).doc
      + removed_of (written.taken ++ (close_window toy rewrite_lines written.room).pending)
credited_lines_balance_example =
    credited_lines_balance toy rewrite_lines shared_room written toy-IsPycrdt rewrite_lines-IsDiffer
      refl refl
      (and_then
        (and_then (and_then done (edited 1000000 1 (0 ∷ 97 ∷ 10 ∷ 98 ∷ 10 ∷ 99 ∷ [])))
          (edited 3000000 2 (0 ∷ 97 ∷ 10 ∷ 98 ∷ 10 ∷ 99 ∷ 10 ∷ 100 ∷ [])))
        collected)

get_room-cleanup_unused_rooms_example :
    let after = get_room 7 8 (cleanup_unused_rooms 400000000 300 manager).1 in
    (get_room 7 8 manager ≡ none) × (after ≡ none)
    ⊎ ((room : Room (List ℕ)) × (get_room 7 8 manager ≡ some room)
        × ((after ≡ none) × IsAbandoned 400000000 300 room
            ⊎ (after ≡ some room) × IsInUse 400000000 300 room))
get_room-cleanup_unused_rooms_example =
    get_room-cleanup_unused_rooms 400000000 300 7 8 manager (refl, tt)

save_room-IsStored_example :
    let (result, after, m) = save_room toy rewrite_lines 9 shared_room (some 1) documents manager in
    IsStored 8 (0 ∷ 97 ∷ 10 ∷ 98 ∷ []) result.version result.created (stored ∷ []) after.versions
save_room-IsStored_example =
    save_room-IsStored toy rewrite_lines 9 shared_room (some 1) documents manager refl

open_room-save_room_example :
    let (result, after, m) = save_room toy rewrite_lines 9 shared_room (some 1) documents manager in
    (opened : Room (List ℕ)) × ((open_room toy 20 7 8 after.versions closed_manager).0 ≡ ok opened)
    × (opened.doc ≡ 97 ∷ 10 ∷ 98 ∷ [])
open_room-save_room_example =
    open_room-save_room toy rewrite_lines 9 20 shared_room (some 1) documents manager closed_manager
      toy-IsPycrdt refl refl

language_for_path_runs_example :
    (language_for_path "src/main.PY" ≡ plaintext)
    ⊎ ((language : Language) × (get_runtime_config (language_for_path "src/main.PY")
          ≡ ok (runtimes language)))
language_for_path_runs_example = language_for_path_runs "src/main.PY"

upper_case_python : language_for_path "src/main.PY" ≡ "python"
unfolding language_for_path get_language_from_file_path
upper_case_python = refl
