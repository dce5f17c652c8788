-- ===== src/Runs.antt =====
-- Starting, reading and cancelling a run: backend/app/api/executions.py. `others` stands for what
-- other processes commit while a handler waits.
pub mod Delivery
pub mod Cancel
use cs455_project.Prelude.{
  ℕ, zero, suc, ◌+◌, Bool, true, false, ◌&&◌, ◌||◌, not, Option, none, some, List, [], ◌∷◌, ◌++◌,
  String, map, ◌==◌, if◌then◌else◌, where_, row, modify, Failure, http, Result, ok, err, ◌>>=◌,
  ◌>>◌, require, found,
}
use text.Mathlib.Text.{◌==◌ as str_eq}
use cs455_project.Status.{ExecutionStatus, queued, failed, cancelled, is_status, is_finished}
use cs455_project.Roles.{Role, viewer, editor, debugger, owner}
use cs455_project.Database.{
  Db, User, Member, File, Execution, Fields, DebugSession, DebugStatus, active, stopped, Breakpoint,
  api, get_member, file_row, execution_row,
}
use cs455_project.Execution.{no_fields, insert_queued, change_status}
use cs455_project.Queue.{DebugInfo, Payload}
use cs455_project.Control.{ActiveInfo, Slots, set_active, claim_active, get_active}

-- `Role(member.role) in {OWNER, EDITOR, DEBUGGER}`
abbrev pub may_run : Role → Bool
may_run viewer = false
may_run editor = true
may_run debugger = true
may_run owner = true

abbrev pub may_debug : Role → Bool
may_debug viewer = false
may_debug editor = false
may_debug debugger = true
may_debug owner = true

unfoldable pub require_runner : Db → ℕ → ℕ → Result Member
require_runner db project_id user_id = do
  member ← get_member db project_id user_id
  require (may_run member.role) 403
  ok member

unfoldable pub check_can_debug : Bool → Member → File → Result (Unit {0})
check_can_debug enable_debugger member file = do
  require enable_debugger 503
  require (may_debug member.role) 403
  require (str_eq file.language "python") 400

-- Whether the run that holds the slot is over, or its row is gone.
abbrev is_left_over : Db → Option ActiveInfo → Bool
is_left_over db none = true
is_left_over db (some current) = elim (execution_row db current.execution_id) [
  | none ↦ true
  | some running ↦ is_finished running.status
]

-- `slots` is Redis at the SET NX and `later` at the read that follows a failed one; `online` is
-- whether Redis answers.
unfoldable pub claim_debug_slot : Bool → Db → (slots later : Slots) → ℕ → ActiveInfo → Result Slots
unfolding claim_active set_active
claim_debug_slot false db slots later project_id info = err (http 503)
claim_debug_slot true db slots later project_id info =
    let (claimed, slots') = claim_active project_id info slots in
    if claimed
    then ok slots'
    else if is_left_over db (get_active project_id later)
    then ok (set_active project_id info later)
    else err (http 409)

-- `breakpoints.setdefault(path, []).append(line)`
unfoldable pub add_line : String → ℕ → List (String × List ℕ) → List (String × List ℕ)
add_line path line [] = (path, line ∷ []) ∷ []
add_line path line ((p, lines) ∷ rest) =
    let added = add_line path line rest in
    if str_eq p path then (p, lines ++ line ∷ []) ∷ rest else (p, lines) ∷ added

abbrev in_project : ℕ → File → Bool
in_project project_id f = f.project_id == project_id

-- The enabled breakpoints of one file, put under its path.
abbrev add_lines : List Breakpoint → File → List (String × List ℕ) → List (String × List ℕ)
add_lines [] f acc = acc
add_lines (b ∷ rest) f acc =
    add_lines rest f (if b.file_id == f.id && b.enabled then add_line f.path b.line acc else acc)

abbrev add_files : List Breakpoint → List File → List (String × List ℕ) → List (String × List ℕ)
add_files bs [] acc = acc
add_files bs (f ∷ rest) acc = add_files bs rest (add_lines bs f acc)

unfoldable pub debug_info : Db → ℕ → User → DebugInfo
unfolding add_line
debug_info db project_id user =
    let files = where_ (in_project project_id) db.files in
    record {
      breakpoints = add_files db.breakpoints files [];
      file_ids = map (λ f. (f.path, f.id)) files;
      user_id = user.id;
      username = user.username;
    }

pub record Request : Type 0 where
  pub project_id : ℕ
  pub user : User
  pub file_id : ℕ
  pub stdin : Option String
  pub debug : Bool

-- What the process has around it: a setting, whether Redis answers, its slots at the two reads, the
-- clock, the host name, and the file's text as `get_file_text` reads it.
pub record Around : Type 0 where
  pub enable_debugger : Bool
  pub online : Bool
  pub slots : Slots
  pub later : Slots
  pub now : ℕ
  pub hostname : String
  pub source_text : String

-- What is committed before the run goes to the queue.
pub record Prepared : Type 0 where
  pub execution_id : ℕ
  pub payload : Payload
  pub db : Db
  pub slots : Slots

-- `db.add(DebugSession(...))`
abbrev add_debug_session : Db → ℕ → Request → File → Db
add_debug_session db execution_id req file = record db {
  next_id = db.next_id + 1;
  debug_sessions =
      db.debug_sessions
      ++ record {
        id = db.next_id;
        execution_id = some execution_id;
        status = active;
        current_file = some file.path;
        project_id = some req.project_id;
        started_by = some req.user.id;
        ended_at = none;
      }
        ∷ [];
}

-- The debug half of `start_run`: the slot, the session row and what the worker needs to know.
unfoldable pub prepare_debug :
    Around → Db → ℕ → Request → File → Result (Db × Slots × Option DebugInfo)
unfolding claim_debug_slot debug_info
prepare_debug a db execution_id req file =
    if req.debug
    then (do
      slots ← claim_debug_slot a.online db a.slots a.later req.project_id (record {
        execution_id = execution_id;
        file_id = file.id;
        path = file.path;
        user_id = req.user.id;
        username = req.user.username;
      })
      ok (
        add_debug_session db execution_id req file,
        slots,
        some (debug_info db req.project_id req.user),
      ))
    else ok (db, a.slots, none)

-- The checks of `start_run`, in their order: who asks, and for which file.
unfoldable pub admit_run : Around → Db → Request → Result (Member × File)
unfolding require_runner check_can_debug
admit_run a db req = do
  member ← require_runner db req.project_id req.user.id
  file ← found (file_row db req.file_id) 404
  require (file.project_id == req.project_id) 400
  require (not (str_eq file.language "plaintext")) 400
  if req.debug then check_can_debug a.enable_debugger member file else ok tt
  ok (member, file)

-- The payload for the queue. A debug run takes no stdin.
unfoldable pub payload_of : Around → ℕ → Request → Member → File → Option DebugInfo → Payload
payload_of a execution_id req member file info = record {
  execution_id = execution_id;
  project_id = req.project_id;
  file_id = req.file_id;
  source_text = a.source_text;
  worker_id_hint = a.hostname;
  debug = req.debug;
  debug_session_info = info;
  language = file.language;
  stdin = if req.debug then none else req.stdin;
  role = member.role;
  enqueued_at = a.now;
}

-- The insertions of `start_run`, up to the commit.
unfoldable pub insert_run : Around → Db → Request → Member → File → Result Prepared
unfolding prepare_debug payload_of
insert_run a db req member file = do
  (db', slots', info) ←
      prepare_debug a (insert_queued db req.project_id req.file_id a.now) db.next_id req file
  ok (record {
    execution_id = db.next_id;
    payload = payload_of a db.next_id req member file info;
    db = db';
    slots = slots';
  })

-- `start_run` up to the commit.
unfoldable pub prepare_run : Around → Db → Request → Result Prepared
unfolding admit_run insert_run
prepare_run a db req = do (member, file) ← admit_run a db req; insert_run a db req member file
