-- ===== src/Runs/Delivery/Laws.antt =====
-- What `start_run` guarantees, delivered or not.
use cs455_project.Prelude.{
  ℕ, ◌≤◌, ◌≡◌, inl, inr, true, false, Option, some, arith, Result-cases, ok,
}
use text.Mathlib.Text.{◌==◌ as str_eq}
use cs455_project.Database.{Db, Member, File, get_member, file_row}
use cs455_project.Execution.{insert_queued}
use cs455_project.Execution.Audit.{IsAudited, IsAudited-frame}
use cs455_project.Execution.Progress.{insert_queued-IsAudited}
use cs455_project.Control.{Slots}
use cs455_project.Queue.{DebugInfo}
use cs455_project.Runs.{
  Around, Request, Prepared, admit_run, insert_run, payload_of, prepare_run, prepare_debug, may_run,
  may_debug,
}

-- Beside the debug session's own row, a run is prepared by one insertion.
pub record IsInserted (db db' : Db) : Type 0 where
  pub events : db'.events ≡ db.events
  pub executions : db'.executions ≡ db.executions
  pub next_id : db.next_id ≤ db'.next_id

prepare_debug-IsInserted :
    (a : Around) (db : Db) (i : ℕ) (req : Request) (file : File) (db' : Db) (s : Slots)
    (info : Option DebugInfo)
    → prepare_debug a db i req file ≡ ok (db', s, info)
    → IsInserted db db'
unfolding prepare_debug
prepare_debug-IsInserted a db i req file db' s info h = ground arith

-- What the checks of `start_run` let through.
pub record IsAdmitted (a : Around) (db : Db) (req : Request) (member : Member) (file : File)
    : Type 0 where
  pub is_member : get_member db req.project_id req.user.id ≡ ok member
  pub may : may_run member.role ≡ true
  pub is_file : file_row db req.file_id ≡ some file
  pub of_project : file.project_id ≡ req.project_id
  pub runnable : str_eq file.language "plaintext" ≡ false
  pub debuggable :
      req.debug ≡ true
      → (a.enable_debugger ≡ true)
        × (may_debug member.role ≡ true)
        × (str_eq file.language "python" ≡ true)

-- When the checks of `start_run` pass, the run is started by a member who may run code, on a file of
-- the project that is code; a debug run only with the debugger on, by a member who may debug, on a
-- Python file.
pub admit_run-IsAdmitted :
    (a : Around) (db : Db) (req : Request) (member : Member) (file : File)
    → admit_run a db req ≡ ok (member, file)
    → IsAdmitted a db req member file
unfolding admit_run
admit_run-IsAdmitted a db req member file h = record {
  is_member = ground arith;
  may = ground arith;
  is_file = ground arith;
  of_project = ground arith;
  runnable = ground arith;
  debuggable = λ d. (ground arith, ground arith, ground arith);
}

insert_run-IsInserted :
    (a : Around) (db : Db) (req : Request) (member : Member) (file : File) (p : Prepared)
    → insert_run a db req member file ≡ ok p
    → (p.execution_id ≡ db.next_id)
      × (p.payload.execution_id ≡ db.next_id)
      × IsInserted (insert_queued db req.project_id req.file_id a.now) p.db
unfolding insert_run
insert_run-IsInserted a db req member file p h =
    elim (Result-cases
      (prepare_debug a (insert_queued db req.project_id req.file_id a.now) db.next_id req file)) [
        | inr (e, q) ↦ absurd (ground arith)
        | inl ((db', s, info), q) ↦
            let same : p.db ≡ db' = ground arith in
            (
              ground arith,
              unfold payload_of in ground arith,
              rw same (
                  prepare_debug-IsInserted a (insert_queued db req.project_id req.file_id a.now)
                    db.next_id req file db' s info q),
            )
      ]

-- A prepared run: its row is the one that was inserted, and the trails are in step.
pub record IsReady (db : Db) (p : Prepared) : Type 0 where
  pub id : p.execution_id ≡ db.next_id
  pub audited : IsAudited p.db

pub prepare_run-IsReady :
    (a : Around) (db : Db) (req : Request) (p : Prepared)
    → prepare_run a db req ≡ ok p
    → IsAudited db
    → IsReady db p
unfolding prepare_run
prepare_run-IsReady a db req p h audited = elim (Result-cases (admit_run a db req)) [
  | inr (e, refused) ↦ absurd (ground arith)
  | inl ((member, file), admitted) ↦
      let (id, _, i) = insert_run-IsInserted a db req member file p (ground arith) in
      record {
        id = id;
        audited =
            IsAudited-frame i.events i.executions i.next_id
              (insert_queued-IsAudited db req.project_id req.file_id a.now audited);
      }
]
