-- ===== src/Queue.antt =====
-- The waiting runs in Redis and their order: backend/app/realtime/execution_queue.py.
-- The hash is the list of its payloads, each under its execution id. What redis-py and JSON do
-- with a payload is not modelled: a payload comes back as it was sent.
pub mod Ageing
pub mod Select
pub mod Pop
pub mod HandOut
use mathlib.Core.Option
use cs455_project.Prelude.{
  ℕ, zero, suc, ◌+◌, ◌-◌, ◌*◌, ◌<◌, min, Bool, true, false, Option, none, some, List, [], ◌∷◌, ◌++◌,
  String, ltb, ◌==◌, if◌then◌else◌, row, where_, not, any,
}
use cs455_project.Roles.{Role, role_rank, owner}
use text.Mathlib.Text.{◌==◌ as str_eq}

-- `debug_session_info`: breakpoints by path, file ids by path, and who debugs.
pub record DebugInfo : Type 0 where
  pub breakpoints : List (String × List ℕ)
  pub file_ids : List (String × ℕ)
  pub user_id : ℕ
  pub username : String

pub record Payload : Type 0 where
  pub execution_id : ℕ
  pub project_id : ℕ
  pub file_id : ℕ
  pub source_text : String
  pub worker_id_hint : String
  pub debug : Bool
  pub debug_session_info : Option DebugInfo
  pub language : String
  pub stdin : Option String
  pub role : Role
  pub enqueued_at : ℕ

-- The five settings of the score. The weights are numbers in one unit, the debug bonus is
-- `debug_bonus / bonus_unit`, and the saturation is in microseconds, as timestamps are.
pub record Settings : Type 0 where
  pub role_weight : ℕ
  pub wait_weight : ℕ
  pub lang_penalty_weight : ℕ
  pub saturation : ℕ
  pub debug_bonus : ℕ
  pub bonus_unit : ℕ

-- The defaults of core/config.py: 10, 20, 2, 30 seconds and 0.5.
abbrev pub default_settings : Settings
default_settings = record {
  role_weight = 10;
  wait_weight = 20;
  lang_penalty_weight = 2;
  saturation = 30_000_000;
  debug_bonus = 1;
  bonus_unit = 2;
}

abbrev pub max_role_rank : ℕ
max_role_rank = 3

-- A score times the common denominator `max_role_rank * bonus_unit * saturation`, with what is
-- subtracted kept apart: the exact value where the program computes with floats.
pub record Score : Type 0 where
  pub gain : ℕ
  pub loss : ℕ

-- `a > b`
abbrev pub exceeds : Score → Score → Bool
exceeds a b = ltb (b.gain + a.loss) (a.gain + b.loss)

-- `role_weight` of compute_priority, times `max_role_rank * bonus_unit`
abbrev pub role_term : Settings → Role → Bool → ℕ
role_term s role debug =
    role_rank role * s.bonus_unit + (if debug then max_role_rank * s.debug_bonus else 0)

-- `wait_term`, times `saturation`. `-` stops at 0, as `max(now - enqueued_at, 0.0)` does.
abbrev pub wait_term : Settings → ℕ → ℕ → ℕ
wait_term s enqueued_at now = min (now - enqueued_at) s.saturation

unfoldable pub compute_priority : Settings → Role → Bool → String → ℕ → ℕ → Score
compute_priority s role debug language enqueued_at now = record {
  gain =
      s.role_weight * role_term s role debug * s.saturation
      + s.wait_weight * wait_term s enqueued_at now * (max_role_rank * s.bonus_unit);
  loss =
      (if str_eq language "cpp" then s.lang_penalty_weight else 0)
      * (max_role_rank * s.bonus_unit * s.saturation);
}

abbrev pub score_of : Settings → ℕ → Payload → Score
score_of s now p = compute_priority s p.role p.debug p.language p.enqueued_at now

-- `if score > best_score: best = p`. A tie keeps the earlier one.
unfoldable pub better_of : Settings → ℕ → Payload → Payload → Payload
better_of s now best p = if exceeds (score_of s now p) (score_of s now best) then p else best

-- The loop of `_select_highest_priority`, from the best seen so far.
unfoldable pub select_from : Settings → ℕ → Payload → List Payload → Payload
select_from s now best [] = best
select_from s now best (p ∷ rest) = select_from s now (better_of s now best p) rest

unfoldable pub select_highest_priority : Settings → ℕ → List Payload → Option Payload
unfolding select_from better_of
select_highest_priority s now [] = none
select_highest_priority s now (p ∷ rest) = some (select_from s now p rest)

abbrev pub has_id : ℕ → Payload → Bool
has_id i p = p.execution_id == i

-- `HDEL`: the hash without the field
abbrev pub hdel : ℕ → List Payload → List Payload
hdel i waiting = where_ (λ p. not (has_id i p)) waiting

-- `HSET`: a field that is there gets the new value
unfoldable pub enqueue_execution : Payload → List Payload → List Payload
enqueue_execution p waiting = hdel p.execution_id waiting ++ p ∷ []

-- What the others do to the hash between this worker's HGETALL and its HDEL, and the time that it
-- reads: one entry for each attempt.
pub record Attempt : Type 0 where
  pub now : ℕ
  pub meanwhile : List Payload → List Payload

-- One attempt: the HDEL counts as a win only if the field was still there.
take_if_there : Payload → List Payload → Option Payload
take_if_there best waiting = if any (has_id best.execution_id) waiting then some best else none

-- `_pop_highest_priority`, over the attempts that are left. It answers the payload and the hash.
unfoldable pub pop_highest_priority :
    Settings → List Attempt → List Payload → Option Payload × List Payload
unfolding take_if_there
pop_highest_priority s [] waiting = (none, waiting)
pop_highest_priority s (a ∷ rest) waiting = elim (select_highest_priority s a.now waiting) [
  | none ↦ (none, waiting)
  | some best ↦ elim (take_if_there best (a.meanwhile waiting)) [
    | some won ↦ (some won, hdel best.execution_id (a.meanwhile waiting))
    | none ↦ pop_highest_priority s rest (a.meanwhile waiting)
  ]
]

abbrev pub max_dequeue_attempts : ℕ
max_dequeue_attempts = 8

-- `remove_from_queue`: whether the run was still waiting, and the hash
unfoldable pub remove_from_queue : ℕ → List Payload → Bool × List Payload
remove_from_queue i waiting = (any (has_id i) waiting, hdel i waiting)
