-- ===== src/Database.antt =====
-- The rows of the database (backend/app/models) and the queries that several handlers share.
pub mod Rows
pub use Rows.*
use cs455_project.Prelude.{
  ℕ, Bool, ◌&&◌, Option, none, some, List, ◌==◌, where_, row, found, Result, one_or_none, ◌>>=◌,
}
use cs455_project.Roles.{Role}

pub record Db : Type 0 where
  -- what the next inserted row gets as its primary key
  pub next_id : ℕ
  pub users : List User
  pub projects : List Project
  pub members : List Member
  pub invitations : List Invitation
  pub join_requests : List JoinRequest
  pub folders : List Folder
  pub files : List File
  pub executions : List Execution
  pub events : List ExecutionEvent
  pub debug_sessions : List DebugSession
  pub breakpoints : List Breakpoint

abbrev pub is_member : ℕ → ℕ → Member → Bool
is_member project_id user_id m = m.project_id == project_id && m.user_id == user_id

-- `select(ProjectMember).where(project_id == ..., user_id == ...)`, as `scalar_one_or_none()` reads it
abbrev pub member_of : Db → ℕ → ℕ → Result (Option Member)
member_of db project_id user_id = one_or_none (where_ (is_member project_id user_id) db.members)

-- `get_member` of deps.py: the one membership row, or 403
unfoldable pub get_member : Db → ℕ → ℕ → Result Member
get_member db project_id user_id = do member ← member_of db project_id user_id; found member 403

abbrev pub project_row : Db → ℕ → Option Project
project_row db i = row (λ p. p.id) i db.projects

abbrev pub file_row : Db → ℕ → Option File
file_row db i = row (λ f. f.id) i db.files

abbrev pub folder_row : Db → ℕ → Option Folder
folder_row db i = row (λ f. f.id) i db.folders

abbrev pub user_row : Db → ℕ → Option User
user_row db i = row (λ u. u.id) i db.users

abbrev pub execution_row : Db → ℕ → Option Execution
execution_row db i = row (λ e. e.id) i db.executions
