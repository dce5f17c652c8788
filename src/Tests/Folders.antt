-- ===== src/Tests/Folders.antt =====
-- The theorems on folders and breakpoints at concrete inputs.
use cs455_project.Prelude.{◌≢◌, refl, true, none, some, [], ◌∷◌, arith, pos, negsuc}
use cs455_project.Database.{Db, Folder, get_member}
use cs455_project.Folders.{check_parent, update_folder, may_edit, folder_of_project, walk}
use cs455_project.Folders.Walk.{IsForest, check_parent_ends}
use cs455_project.Folders.Made.{create_folder-IsForest}
use cs455_project.Folders.{create_folder}
use cs455_project.Folders.Tree.{update_folder-IsForest}
use cs455_project.Breakpoints.{set_file_breakpoints, require_debugger, file_in_project, replace}
use cs455_project.Breakpoints.Lines.{HasLines, set_file_breakpoints-HasLines}
use cs455_project.Control.{Slots}
use cs455_project.Tests.{base, alice, no_slots}

abbrev src_folder : Folder
src_folder = record { id = 20; project_id = 7; parent_folder_id = none; name = "src" }

abbrev lib_folder : Folder
lib_folder = record { id = 21; project_id = 7; parent_folder_id = none; name = "lib" }

abbrev two_folders : Db
two_folders = record base { folders = src_folder ∷ lib_folder ∷ [] }

two_folders-IsForest : IsForest two_folders
two_folders-IsForest i f h = (0, (f, h, ground arith))

abbrev nested : Db
nested = record base {
  folders = src_folder ∷ record lib_folder { parent_folder_id = some 20 } ∷ [];
}

update_folder-IsForest_example : IsForest nested
unfolding update_folder folder_of_project may_edit check_parent walk
update_folder-IsForest_example =
    update_folder-IsForest two_folders alice 7 21 (record { name = none; parent = some (some 20) })
      nested two_folders-IsForest refl

-- Two folders that are each other's parent.
abbrev looped : Db
looped = record base {
  folders =
      record src_folder { parent_folder_id = some 21 }
      ∷ record lib_folder { parent_folder_id = some 20 }
      ∷ [];
}

check_parent_ends_example : check_parent looped 7 20 none ≢ none
check_parent_ends_example = check_parent_ends looped 7 20 none

abbrev with_breakpoints : Db
with_breakpoints = record base {
  next_id = 12;
  breakpoints =
      record { id = 10; file_id = 8; line = 3; enabled = true; created_by = 1 }
      ∷ record { id = 11; file_id = 8; line = 5; enabled = true; created_by = 1 }
      ∷ [];
}

set_file_breakpoints-HasLines_example :
    HasLines 8 (pos 5 ∷ negsuc 0 ∷ pos 3 ∷ pos 5 ∷ []) base with_breakpoints
unfolding set_file_breakpoints require_debugger file_in_project replace get_member
set_file_breakpoints-HasLines_example =
    set_file_breakpoints-HasLines base 7 8 1 (pos 5 ∷ negsuc 0 ∷ pos 3 ∷ pos 5 ∷ [])
      with_breakpoints refl

abbrev bobs_session : Slots
bobs_session = record no_slots {
  active = λ p.
      some (record {
        execution_id = 10;
        file_id = 8;
        path = "main.py";
        user_id = 2;
        username = "bob";
      });
}

abbrev with_test_folder : Db
with_test_folder = record two_folders {
  next_id = 11;
  folders =
      src_folder
      ∷ lib_folder
      ∷ record { id = 10; project_id = 7; parent_folder_id = some 21; name = "test" }
      ∷ [];
}

create_folder-IsForest_example : IsForest with_test_folder
unfolding create_folder may_edit check_parent walk
create_folder-IsForest_example =
    create_folder-IsForest two_folders alice 7 "test" (some 21) with_test_folder
      two_folders-IsForest refl refl
