-- ===== src/Tests.antt =====
-- Concrete data on which the theorems are run.
mod Runs
mod Queue
mod People
mod Versions
mod Folders
mod Texts
mod Rooms
mod Wire
mod Snapshots
mod Search
mod Gateway
mod Login
mod Agent
use cs455_project.Prelude.{
  ℕ, Bool, true, false, Option, none, some, List, [], ◌∷◌, String, pos, refl,
}
use cs455_project.Status.{queued, running, starting}
use cs455_project.Roles.{owner, debugger}
use cs455_project.Database.{Db, User, Project, Member, File, Execution, execution_row}
use cs455_project.Execution.{insert_queued, claim, no_fields}
use cs455_project.Execution.Audit.{IsAudited}
use cs455_project.Execution.Progress.{insert_queued-IsAudited}
use cs455_project.Control.{Slots}
use cs455_project.Queue.{Payload}

abbrev pub alice : User
alice = record { id = 1; username = "alice" }

abbrev pub bob : User
bob = record { id = 2; username = "bob" }

-- One project of alice's with one Python file; bob may debug.
abbrev pub base : Db
base = record {
  next_id = 10;
  users = alice ∷ bob ∷ [];
  projects = record { id = 7; owner_id = 1; name = "demo" } ∷ [];
  members =
      record { id = 3; project_id = 7; user_id = 1; role = owner }
      ∷ record { id = 4; project_id = 7; user_id = 2; role = debugger }
      ∷ [];
  invitations = [];
  join_requests = [];
  folders = [];
  files =
      record { id = 8; project_id = 7; folder_id = none; path = "main.py"; language = "python" }
      ∷ [];
  executions = [];
  events = [];
  debug_sessions = [];
  breakpoints = [];
}

pub base-IsAudited : IsAudited base
base-IsAudited = record { agrees = λ i. refl; fresh = λ i h. refl }

-- A run of that file that waits: its id is 10.
abbrev pub one_queued : Db
one_queued = insert_queued base 7 8 100

pub one_queued-IsAudited : IsAudited one_queued
one_queued-IsAudited = insert_queued-IsAudited base 7 8 100 base-IsAudited

abbrev pub no_slots : Slots
no_slots = record { active = λ p. none; state = λ i. none }

abbrev pub payload : ℕ → Payload
payload i = record {
  execution_id = i;
  project_id = 7;
  file_id = 8;
  source_text = "print(1)";
  worker_id_hint = "host";
  debug = false;
  debug_session_info = none;
  language = "python";
  stdin = none;
  role = owner;
  enqueued_at = 100;
}
