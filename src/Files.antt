-- ===== src/Files.antt =====
-- Files and their versions: backend/app/api/files.py. Broadcasts of the new tree are left out, and so
-- are the times in the answers.
pub mod Versions
pub mod Restored
use cs455_project.Prelude.{
  ℕ, ◌+◌, Bool, true, false, ◌&&◌, not, Option, none, some, List, [], ◌∷◌, ◌++◌, String, ◌==◌, any,
  where_, modify, if◌then◌else◌, http, integrity_error, Result, ok, err, ◌>>=◌, ◌>>◌, require,
  found,
}
use text.Mathlib.Text.{◌==◌ as str_eq}
use cs455_project.Database.{
  Db, User, File, Folder, Project, folder_row, file_row, project_row, member_of,
}
use cs455_project.Folders.{may_edit}
use cs455_project.Runtime.{language_for_path}

-- A folder id that is given and not 0 has to be a folder of the project.
abbrev pub check_folder : Db → ℕ → Option ℕ → Result (Unit {0})
check_folder db project_id none = ok tt
check_folder db project_id (some folder_id) = do
  folder ← found (folder_row db folder_id) 404
  require (folder.project_id == project_id) 404

abbrev pub truthy : Option ℕ → Option ℕ
truthy none = none
truthy (some i) = if i == 0 then none else some i

-- The constraints of the table that a commit checks: the unique path, and the foreign key of the folder.
abbrev pub has_path : (project_id : ℕ) → String → File → Bool
has_path project_id path f = f.project_id == project_id && str_eq f.path path

abbrev pub folder_exists : Db → Option ℕ → Bool
folder_exists db none = true
folder_exists db (some folder_id) = elim (folder_row db folder_id) [
  | none ↦ false
  | some folder ↦ true
]

abbrev pub new_file : Db → ℕ → String → Option ℕ → File
new_file db project_id path folder_id = record {
  id = db.next_id;
  project_id = project_id;
  folder_id = folder_id;
  path = path;
  language = language_for_path path;
}

unfoldable pub create_file : Db → User → ℕ → String → Option ℕ → Result (File × Db)
create_file db user project_id path folder_id = do
  project ← may_edit db user project_id
  check_folder db project_id (truthy folder_id)
  require (not (any (has_path project_id path) db.files) && folder_exists db folder_id) 409
  let file = new_file db project_id path folder_id
  ok (file, record db { next_id = db.next_id + 1; files = db.files ++ file ∷ [] })

-- `_project_file`
unfoldable pub project_file : Db → ℕ → ℕ → Result File
project_file db project_id file_id = do
  file ← found (file_row db file_id) 404
  require (file.project_id == project_id) 404
  ok file

-- The fields of an update that were set: a folder that is none moves the file to the top level.
pub record FileUpdate : Type 0 where
  pub path : Option String
  pub folder_id : Option (Option ℕ)

abbrev pub renamed : Option String → File → File
renamed none f = f
renamed (some path) f = record f { path = path; language = language_for_path path }

abbrev pub moved_to : Option (Option ℕ) → File → File
moved_to none f = f
moved_to (some folder_id) f = record f { folder_id = folder_id }

abbrev pub check_new_folder : Db → ℕ → Option (Option ℕ) → Result (Unit {0})
check_new_folder db project_id none = ok tt
check_new_folder db project_id (some folder_id) = check_folder db project_id folder_id

-- Another file has the path.
abbrev pub path_taken : List File → File → Bool
path_taken files file =
    any (λ f. not (f.id == file.id) && has_path file.project_id file.path f) files

-- The exception of this commit is not caught.
abbrev pub commit : Bool → Db → Result Db
commit true db = ok db
commit false db = err integrity_error

unfoldable pub update_file : Db → User → ℕ → ℕ → FileUpdate → Result (File × Db)
update_file db user project_id file_id c = do
  project ← may_edit db user project_id
  file ← project_file db project_id file_id
  check_new_folder db project_id c.folder_id
  let changed = moved_to c.folder_id (renamed c.path file)
  db' ←
      commit (not (path_taken db.files changed))
        (record db { files = modify (λ f. f.id) file_id (λ f. changed) db.files })
  ok (changed, db')

-- The owner, or any member.
unfoldable pub may_read : Db → User → ℕ → Result Project
may_read db user project_id = do
  project ← found (project_row db project_id) 404
  (if project.owner_id == user.id
      then ok project
      else (do member ← member_of db project_id user.id; m ← found member 403; ok project))

-- The order by id is left out.
unfoldable pub list_files : Db → User → ℕ → Result (List File)
list_files db user project_id = do
  project ← may_read db user project_id
  ok (where_ (λ (f : File). f.project_id == project_id) db.files)
