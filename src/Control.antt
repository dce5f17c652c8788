-- ===== src/Control.antt =====
-- The debug keys in Redis: backend/app/debug/control.py. Keys that Redis has expired are absent;
-- `expire` is the step by which one goes.
use cs455_project.Prelude.{ℕ, Bool, true, false, Option, none, some, String, ◌==◌, if◌then◌else◌}

pub record ActiveInfo : Type 0 where
  pub execution_id : ℕ
  pub file_id : ℕ
  pub path : String
  pub user_id : ℕ
  pub username : String

-- The running debug session of each project, and the last paused event of each run, as its text.
pub record Slots : Type 0 where
  pub active : ℕ → Option ActiveInfo
  pub state : ℕ → Option String

abbrev pub put {ℓ} : {A : Type ℓ} → ℕ → A → (ℕ → A) → ℕ → A
put k v f j = if k == j then v else f j

unfoldable pub set_active : ℕ → ActiveInfo → Slots → Slots
set_active project_id info s = record s { active = put project_id (some info) s.active }

-- `SET ... NX`: only if there is none
unfoldable pub claim_active : ℕ → ActiveInfo → Slots → Bool × Slots
unfolding set_active
claim_active project_id info s = elim (s.active project_id) [
  | none ↦ (true, set_active project_id info s)
  | some other ↦ (false, s)
]

abbrev pub get_active : ℕ → Slots → Option ActiveInfo
get_active project_id s = s.active project_id

abbrev pub is_run : ℕ → Option ActiveInfo → Bool
is_run execution_id none = false
is_run execution_id (some info) = info.execution_id == execution_id

-- Forget the project's session if it is still this run, and the run's paused event in any case.
unfoldable pub clear_active : ℕ → ℕ → Slots → Slots
clear_active project_id execution_id s = record {
  active =
      if is_run execution_id (s.active project_id) then put project_id none s.active else s.active;
  state = put execution_id none s.state;
}

unfoldable pub set_state : ℕ → Option String → Slots → Slots
set_state execution_id event s = record s { state = put execution_id event s.state }

unfoldable pub expire : ℕ → Slots → Slots
expire project_id s = record s { active = put project_id none s.active }
