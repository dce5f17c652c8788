-- ===== src/Database/Rows.antt =====
-- The tables of backend/app/models. A timestamp is a number of microseconds.
use cs455_project.Prelude.{ℕ, Bool, String, Option, ℤ}
use cs455_project.Status.{ExecutionStatus}
use cs455_project.Roles.{Role}

pub record User : Type 0 where
  pub id : ℕ
  pub username : String

pub record Project : Type 0 where
  pub id : ℕ
  pub owner_id : ℕ
  pub name : String

pub record Member : Type 0 where
  pub id : ℕ
  pub project_id : ℕ
  pub user_id : ℕ
  pub role : Role

pub record Invitation : Type 0 where
  pub id : ℕ
  pub project_id : ℕ
  pub token : String
  pub role : Role
  pub expires_at : ℕ

pub data JoinRequestStatus : Type 0 where
  pending approved rejected : JoinRequestStatus

pub record JoinRequest : Type 0 where
  pub id : ℕ
  pub project_id : ℕ
  pub user_id : ℕ
  pub status : JoinRequestStatus
  pub decided_at : Option ℕ

pub record Folder : Type 0 where
  pub id : ℕ
  pub project_id : ℕ
  pub parent_folder_id : Option ℕ
  pub name : String

pub record File : Type 0 where
  pub id : ℕ
  pub project_id : ℕ
  pub folder_id : Option ℕ
  pub path : String
  pub language : String

pub record Execution : Type 0 where
  pub id : ℕ
  pub project_id : ℕ
  pub file_id : ℕ
  pub status : ExecutionStatus
  pub exit_code : Option ℤ
  pub stdout : String
  pub stderr : String
  pub queued_at : ℕ
  pub started_at : Option ℕ
  pub finished_at : Option ℕ
  pub worker_id : Option String

pub data Actor : Type 0 where
  api worker sweeper : Actor

-- The keyword arguments of a status change: `none` is one that was not given.
pub record Fields : Type 0 where
  pub exit_code : Option (Option ℤ)
  pub stdout : Option String
  pub stderr : Option String
  pub started_at : Option ℕ
  pub finished_at : Option ℕ
  pub worker_id : Option String

-- `event_type` is the value of `target`; the payload is the other fields.
pub record ExecutionEvent : Type 0 where
  pub execution_id : ℕ
  pub previous : Option ExecutionStatus
  pub target : ExecutionStatus
  pub actor : Actor
  pub fields : Fields

pub data DebugStatus : Type 0 where
  active paused stopped : DebugStatus

pub record DebugSession : Type 0 where
  pub id : ℕ
  pub execution_id : Option ℕ
  pub status : DebugStatus
  pub current_file : Option String
  pub project_id : Option ℕ
  pub started_by : Option ℕ
  pub ended_at : Option ℕ

pub record Breakpoint : Type 0 where
  pub id : ℕ
  pub file_id : ℕ
  pub line : ℕ
  pub enabled : Bool
  pub created_by : ℕ
