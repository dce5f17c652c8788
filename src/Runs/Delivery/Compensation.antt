-- ===== src/Runs/Delivery/Compensation.antt =====
-- What compensates for a failed delivery of `start_run`, and what the client can count on.
use cs455_project.Prelude.{
  any, http, ℕ, ◌≡◌, refl, sym, inl, inr, Bool, true, false, Option, some, List, arith, Bool-cases,
  Option-cases, Result-cases, ok, err, key-row,
}
use mathlib.Core.Path.{subst}
use cs455_project.Status.{can_transition, is_status-eq, queued, failed, is_status}
use cs455_project.Database.{Fields, Db, Execution, api, execution_row}
use cs455_project.Execution.{moved, no_fields, write_status, change_status}
use cs455_project.Execution.Audit.{row-moved, IsAudited, IsAudited-frame, change_status-IsAudited}
use cs455_project.Execution.Cases.{change_current}
use cs455_project.Queue.{Payload}
use cs455_project.Runs.{Around, Request, Prepared, prepare_run}
use cs455_project.Runs.Delivery.{
  Delivery, delivered, raised, Started, fail_undelivered_run, start_run, settle, stop_sessions,
}
use cs455_project.Queue.{has_id, remove_from_queue}
use cs455_project.Queue.Pop.{hdel_gone}
use cs455_project.Runs.Delivery.{clean_up}
use cs455_project.Runs.Delivery.Laws.{prepare_run-IsReady}

stop_sessions-IsAudited : {db : Db} (i now : ℕ) → IsAudited db → IsAudited (stop_sessions i now db)
stop_sessions-IsAudited i now a = IsAudited-frame refl refl (omega arith) a

-- A compensation either finds a run that someone else has moved on, and changes nothing, or fails it.
record Compensated (db : Db) (i : ℕ) (done : Bool) (db' : Db) : Type 0 where
  audited : IsAudited db → IsAudited db'
  unchanged : done ≡ false → db' ≡ db
  moved_on : (e : Execution) → execution_row db' i ≡ some e → is_status e.status queued ≡ false

-- The change that a compensation makes of a queued run.
abbrev give_up_fields : ℕ → Fields
give_up_fields now = record no_fields {
  finished_at = some now;
  stderr = some "Execution queue delivery failed; please try again";
}

abbrev give_up : Db → Execution → ℕ → Option (Bool × Execution × Db)
give_up db e now = change_status db e failed api (give_up_fields now)

-- A compensation either finds a run that someone else has moved on, and changes nothing, or fails it.
give_up_works :
    (db : Db) (e : Execution) (i now : ℕ)
    → execution_row db i ≡ some e
    → is_status e.status queued ≡ true
    → (e' : Execution) × (db' : Db) × (give_up db e now ≡ some (true, e', db'))
      × (IsAudited db → IsAudited db')
      × (e'.status ≡ failed)
      × (execution_row db' i ≡ some e')
unfolding write_status
give_up_works db e i now at_i waiting =
    let at_id : e.id ≡ i = key-row (λ (x : Execution). x.id) i db.executions e at_i in
    let here : execution_row db e.id ≡ some e =
      subst (λ j. execution_row db j ≡ some e) (sym at_id) at_i in
    let from_queued : e.status ≡ queued = is_status-eq e.status queued waiting in
    let legal : can_transition e.status failed ≡ true =
      rw from_queued (unfold can_transition in refl) in
    let works = change_current db e failed api (give_up_fields now) here legal in
    (
      _,
      _,
      works,
      change_status-IsAudited db e failed api (give_up_fields now) true _ _ works,
      refl,
      subst
          (λ j.
            execution_row
              (moved db e.id e.status failed api (give_up_fields now) (give_up_fields now)) j
            ≡ some (write_status failed (give_up_fields now) e))
          at_id
          (ground (
            arith,
            row-moved db e.id e failed api (give_up_fields now) (give_up_fields now) here legal
                e.id,
          )),
    )

fail_undelivered_run-Compensated :
    (db : Db) (i : ℕ) (debug : Bool) (now : ℕ) (done : Bool) (db' : Db)
    → fail_undelivered_run db i debug now ≡ (done, db')
    → Compensated db i done db'
unfolding fail_undelivered_run
fail_undelivered_run-Compensated db i debug now done db' h =
    elim (Option-cases (execution_row db i)) [
      | inl gone ↦ record {
        audited = ground arith;
        unchanged = ground arith;
        moved_on = ground arith;
      }
      | inr (e, at_i) ↦ elim (Bool-cases (is_status e.status queued)) [
        | inr other ↦ record {
          audited = ground arith;
          unchanged = ground arith;
          moved_on = ground arith;
        }
        | inl waiting ↦
            let (e', db'', works, audited, st, at') = give_up_works db e i now at_i waiting in
            record {
              audited =
                  λ a. ground (arith, audited a, works, stop_sessions-IsAudited i now (audited a));
              unchanged = ground (arith, works);
              moved_on = λ x at_x. ground (arith, at', works, st);
            }
      ]
    ]

-- The transactions of others keep the trails.
abbrev Honest : Delivery → Type 0
Honest delivered = Unit
Honest (raised arrived others now removed cleared) = (d : Db) → IsAudited d → IsAudited (others d)

settle-IsAudited :
    (delivery : Delivery) (req : Request) (waiting : List Payload) (p : Prepared)
    → Honest delivery
    → IsAudited p.db
    → IsAudited (settle delivery req waiting p).db
unfolding settle
settle-IsAudited delivered req waiting p honest a = a
settle-IsAudited (raised arrived others now removed cleared) req waiting p honest a =
    let c = fail_undelivered_run-Compensated (others p.db) p.execution_id req.debug now _ _ refl in
    let kept : IsAudited (fail_undelivered_run (others p.db) p.execution_id req.debug now).1 =
      c.audited (honest p.db a) in
    elim (Bool-cases (fail_undelivered_run (others p.db) p.execution_id req.debug now).0) [
      | inl won ↦ rw won kept
      | inr lost ↦ rw lost kept
    ]

-- `start_run` keeps every audit trail in step with its row, whether or not Redis took the run, as long
-- as the transactions of others in between keep that.
pub start_run-IsAudited :
    (a : Around) (db : Db) (waiting : List Payload) (req : Request) (delivery : Delivery)
    → Honest delivery
    → IsAudited db
    → IsAudited (start_run a db waiting req delivery).db
unfolding start_run
start_run-IsAudited a db waiting req delivery honest audited =
    elim (Result-cases (prepare_run a db req)) [
      | inr (e, refused) ↦ ground arith
      | inl (p, ready) ↦ ground (
        arith,
        settle-IsAudited delivery req waiting p honest
            (prepare_run-IsReady a db req p ready audited).audited,
      )
    ]

-- What is left of a run that Redis did not take.
pub record IsCleared (i : ℕ) (removed : Bool) (s : Started) : Type 0 where
  pub moved_on : (e : Execution) → execution_row s.db i ≡ some e → is_status e.status queued ≡ false
  pub not_waiting :
      removed ≡ true → s.answer ≡ err (http 503) → any (has_id i) s.redis.waiting ≡ false

settle-IsCleared :
    (waiting : List Payload) (req : Request) (arrived : Bool) (others : Db → Db) (now : ℕ)
    (removed cleared : Bool) (p : Prepared)
    → IsCleared p.execution_id removed
        (settle (raised arrived others now removed cleared) req waiting p)
unfolding settle clean_up
settle-IsCleared waiting req arrived others now removed cleared p =
    let c = fail_undelivered_run-Compensated (others p.db) p.execution_id req.debug now _ _ refl in
    let moved_on = c.moved_on in
    elim (Bool-cases (fail_undelivered_run (others p.db) p.execution_id req.debug now).0) [
      | inl won ↦ rw won (record {
        moved_on = moved_on;
        not_waiting = λ r _. rw r (unfold remove_from_queue in hdel_gone p.execution_id _);
      })
      | inr lost ↦
          rw lost (record { moved_on = moved_on; not_waiting = λ r said. absurd (ground arith) })
    ]

-- When the delivery of a prepared run raises, whatever the others did meanwhile, `start_run` leaves no
-- row of that run that is still queued; and when the client is told 503 and the removal got through,
-- no payload of the run waits either.
pub undelivered-IsCleared :
    (a : Around) (db : Db) (waiting : List Payload) (req : Request) (arrived : Bool)
    (others : Db → Db) (now : ℕ) (removed cleared : Bool) (p : Prepared)
    → prepare_run a db req ≡ ok p
    → IsCleared p.execution_id removed
        (start_run a db waiting req (raised arrived others now removed cleared))
unfolding start_run
undelivered-IsCleared a db waiting req arrived others now removed cleared p ready =
    subst (IsCleared p.execution_id removed) (ground arith)
      (settle-IsCleared waiting req arrived others now removed cleared p)
