-- ===== src/Folders.antt =====
-- Making, renaming and moving folders: backend/app/api/folders.py.
pub mod Walk
pub mod Tree
pub mod Made
use cs455_project.Prelude.{
  ℕ, zero, suc, ◌+◌, Bool, true, false, ◌&&◌, ◌||◌, not, Option, none, some, List, [], ◌∷◌, ◌++◌,
  String, ◌==◌, any, length, row, modify, if◌then◌else◌, Failure, http, Result, ok, err, ◌>>=◌,
  ◌>>◌, require, found,
}
use cs455_project.Roles.{editor, at_least}
use cs455_project.Database.{Db, User, Project, Folder, Member, folder_row, project_row, member_of}

abbrev pub is_current : Option ℕ → ℕ → Bool
is_current none current = false
is_current (some moving) current = current == moving

-- The loop of `_check_parent`, from the folder it stands at: `none` where the fuel runs out, which
-- the program does not do.
unfoldable pub walk : ℕ → Db → ℕ → Option ℕ → List ℕ → Option ℕ → Option (Result (Unit {0}))
walk fuel db project_id moving seen none = some (ok tt)
walk zero db project_id moving seen (some current) = none
walk (suc fuel) db project_id moving seen (some current) =
    if any (λ i. i == current) seen
    then some (ok tt)
    else if is_current moving current
    then some (err (http 400))
    else elim (folder_row db current) [
      | none ↦ some (err (http 400))
      | some parent ↦
          if parent.project_id == project_id
          then walk fuel db project_id moving (current ∷ seen) parent.parent_folder_id
          else some (err (http 400))
    ]

-- Every round of the loop sees another folder.
abbrev pub enough_steps : Db → ℕ
enough_steps db = length db.folders + 1

unfoldable pub check_parent : Db → ℕ → ℕ → Option ℕ → Option (Result (Unit {0}))
check_parent db project_id parent_id moving =
    walk (enough_steps db) db project_id moving [] (some parent_id)

-- The owner, or a member who is at least an editor.
unfoldable pub may_edit : Db → User → ℕ → Result Project
may_edit db user project_id = do
  project ← found (project_row db project_id) 404
  (if project.owner_id == user.id then ok project else (do
    member ← member_of db project_id user.id
    m ← found member 403
    require (at_least m.role editor) 403
    ok project))

-- `none` of a given `parent_id` is the top level, where nothing is checked.
abbrev pub check_given : Db → ℕ → Option ℕ → Option ℕ → Option (Result (Unit {0}))
check_given db project_id none moving = some (ok tt)
check_given db project_id (some parent_id) moving = check_parent db project_id parent_id moving

abbrev pub add_folder : ℕ → Option ℕ → String → Db → Db
add_folder project_id parent_id name db = record db {
  next_id = db.next_id + 1;
  folders =
      db.folders
      ++ record {
        id = db.next_id;
        project_id = project_id;
        parent_folder_id = parent_id;
        name = name;
      }
        ∷ [];
}

unfoldable pub create_folder : Db → User → ℕ → String → Option ℕ → Option (Result Db)
create_folder db user project_id name parent_id = elim (may_edit db user project_id) [
  | err e ↦ some (err e)
  | ok project ↦ elim (check_given db project_id parent_id none) [
    | none ↦ none
    | some (err e) ↦ some (err e)
    | some (ok u) ↦ some (ok (add_folder project_id parent_id name db))
  ]
]

-- The fields of an update that were set: a parent that is none moves the folder to the top level.
pub record Changes : Type 0 where
  pub name : Option String
  pub parent : Option (Option ℕ)

abbrev pub new_parent : Option (Option ℕ) → Option ℕ → Option ℕ
new_parent none old = old
new_parent (some p) old = p

abbrev pub new_name : Option String → String → String
new_name none old = old
new_name (some name) old = name

abbrev pub change_folder : ℕ → Changes → Db → Db
change_folder folder_id c db = record db {
  folders =
      modify (λ f. f.id) folder_id
        (λ (f : Folder). record f {
          name = new_name c.name f.name;
          parent_folder_id = new_parent c.parent f.parent_folder_id;
        })
        db.folders;
}

unfoldable pub folder_of_project : Db → ℕ → ℕ → Result Folder
folder_of_project db project_id folder_id = do
  folder ← found (folder_row db folder_id) 404
  require (folder.project_id == project_id) 404
  ok folder

-- Only a parent that was set is checked.
abbrev pub check_moved : Db → ℕ → ℕ → Option (Option ℕ) → Option (Result (Unit {0}))
check_moved db project_id folder_id none = some (ok tt)
check_moved db project_id folder_id (some parent_id) =
    check_given db project_id parent_id (some folder_id)

unfoldable pub update_folder : Db → User → ℕ → ℕ → Changes → Option (Result Db)
update_folder db user project_id folder_id c = elim (folder_of_project db project_id folder_id) [
  | err e ↦ some (err e)
  | ok folder ↦ elim (may_edit db user project_id) [
    | err e ↦ some (err e)
    | ok project ↦ elim (check_moved db project_id folder_id c.parent) [
      | none ↦ none
      | some (err e) ↦ some (err e)
      | some (ok u) ↦ some (ok (change_folder folder_id c db))
    ]
  ]
]
