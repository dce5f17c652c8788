-- ===== src/Breakpoints.antt =====
-- Breakpoints and commands to a debug session: backend/app/api/breakpoints.py.
pub mod Lines
use cs455_project.Prelude.{
  ℕ, zero, suc, ◌+◌, Bool, true, false, ◌&&◌, ◌||◌, not, Option, none, some, List, [], ◌∷◌, ◌++◌,
  String, ◌==◌, where_, map, foldr, ltb, leb, any, add_id, ℤ, pos, negsuc, length, if◌then◌else◌,
  Failure, http, Result, ok, err, ◌>>=◌, ◌>>◌, require, found,
}
use cs455_project.Database.{Db, Member, File, Breakpoint, get_member, file_row}
use cs455_project.Control.{Slots, ActiveInfo, get_active, is_run}
use cs455_project.Runs.{may_debug}

unfoldable pub require_debugger : Db → ℕ → ℕ → Result Member
require_debugger db project_id user_id = do
  member ← get_member db project_id user_id
  require (may_debug member.role) 403
  ok member

unfoldable pub file_in_project : Db → ℕ → ℕ → Result File
file_in_project db project_id file_id = do
  file ← found (file_row db file_id) 404
  require (file.project_id == project_id) 404
  ok file

abbrev pub of_file : ℕ → Breakpoint → Bool
of_file file_id b = b.file_id == file_id

-- The new rows, with ids from `next` on.
abbrev pub new_rows : ℕ → ℕ → ℕ → List (ℕ × Bool) → List Breakpoint
new_rows next file_id user_id [] = []
new_rows next file_id user_id ((line, enabled) ∷ rest) =
    record { id = next; file_id = file_id; line = line; enabled = enabled; created_by = user_id }
    ∷ new_rows (next + 1) file_id user_id rest

-- `_replace`: delete the file's rows, add the new ones.
unfoldable pub replace : ℕ → List (ℕ × Bool) → ℕ → Db → Db
replace file_id lines user_id db = record db {
  next_id = db.next_id + length lines;
  breakpoints =
      where_ (λ b. not (of_file file_id b)) db.breakpoints
      ++ new_rows db.next_id file_id user_id lines;
}

-- `n for n in payload.lines if n >= 1`
abbrev pub positive : List ℤ → List ℕ
positive [] = []
positive (pos n ∷ rest) = let later = positive rest in if leb 1 n then n ∷ later else later
positive (negsuc n ∷ rest) = positive rest

abbrev pub max_breakpoints_per_file : ℕ
max_breakpoints_per_file = 200

-- A list that is too long does not pass the validation of the body.
unfoldable pub set_file_breakpoints : Db → ℕ → ℕ → ℕ → List ℤ → Result Db
set_file_breakpoints db project_id file_id user_id lines = do
  require (leb (length lines) max_breakpoints_per_file) 422
  member ← require_debugger db project_id user_id
  file ← file_in_project db project_id file_id
  ok (replace file_id (map (λ n. (n, true)) (foldr add_id [] (positive lines))) user_id db)

pub data Command : Type 0 where
  continue_ next_ step_in step_out pause stop variables frame : Command

-- `command in STEP_COMMANDS`
abbrev pub is_step : Command → Bool
is_step continue_ = true
is_step next_ = true
is_step step_in = true
is_step step_out = true
is_step pause = true
is_step stop = true
is_step variables = false
is_step frame = false

-- Whom `debug_command` lets send a command to which run. `online` is whether Redis answers.
unfoldable pub admit_command : Bool → Db → Slots → ℕ → ℕ → ℕ → Command → Result (Unit {0})
admit_command online db slots project_id execution_id user_id command = do
  member ←
      (if is_step command
        then require_debugger db project_id user_id
        else get_member db project_id user_id)
  require online 503
  require (is_run execution_id (get_active project_id slots)) 409
