-- ===== src/Status.antt =====
-- The states of a run and the transition table: backend/app/models/execution.py.
use cs455_project.Prelude.{ℕ, ◌<◌, ◌≡◌, refl, Bool, true, false, List, [], ◌∷◌, arith, ◌==◌, any}

pub data ExecutionStatus : Type 0 where
  queued starting compiling running completed failed timeout cancelled : ExecutionStatus

-- The position in the enumeration, by which two states are compared.
abbrev pub ordinal : ExecutionStatus → ℕ
ordinal queued = 0
ordinal starting = 1
ordinal compiling = 2
ordinal running = 3
ordinal completed = 4
ordinal failed = 5
ordinal timeout = 6
ordinal cancelled = 7

abbrev pub is_status : ExecutionStatus → ExecutionStatus → Bool
is_status a b = ordinal a == ordinal b

abbrev pub allowed_transitions : ExecutionStatus → List ExecutionStatus
allowed_transitions queued = starting ∷ compiling ∷ cancelled ∷ failed ∷ []
allowed_transitions starting = running ∷ compiling ∷ failed ∷ timeout ∷ cancelled ∷ []
allowed_transitions compiling = running ∷ failed ∷ timeout ∷ cancelled ∷ []
allowed_transitions running = completed ∷ failed ∷ timeout ∷ cancelled ∷ []
allowed_transitions completed = []
allowed_transitions failed = []
allowed_transitions timeout = []
allowed_transitions cancelled = []

unfoldable pub can_transition : ExecutionStatus → ExecutionStatus → Bool
can_transition current target = any (is_status target) (allowed_transitions current)

-- `status in FINISHED_STATUSES`
unfoldable pub is_finished : ExecutionStatus → Bool
is_finished s = any (is_status s) (completed ∷ failed ∷ timeout ∷ cancelled ∷ [])

-- How far a run has come. No chain of allowed changes is longer than `last_stage`.
abbrev pub stage : ExecutionStatus → ℕ
stage queued = 0
stage starting = 1
stage compiling = 2
stage running = 3
stage completed = 4
stage failed = 4
stage timeout = 4
stage cancelled = 4

abbrev pub last_stage : ℕ
last_stage = 4

pub is_status-eq : (a b : ExecutionStatus) → is_status a b ≡ true → a ≡ b
is_status-eq a b h = ground arith

pub is_status_refl : (a : ExecutionStatus) → is_status a a ≡ true
is_status_refl queued = refl
is_status_refl starting = refl
is_status_refl compiling = refl
is_status_refl running = refl
is_status_refl completed = refl
is_status_refl failed = refl
is_status_refl timeout = refl
is_status_refl cancelled = refl

pub stage-can_transition : (a b : ExecutionStatus) → can_transition a b ≡ true → stage a < stage b
unfolding can_transition
stage-can_transition queued b h = ground arith
stage-can_transition starting b h = ground arith
stage-can_transition compiling b h = ground arith
stage-can_transition running b h = ground arith
stage-can_transition _ b h = ground arith

pub can_transition-finished :
    (a b : ExecutionStatus) → is_finished a ≡ true → can_transition a b ≡ false
unfolding can_transition is_finished
can_transition-finished queued b h = ground arith
can_transition-finished _ b h = ground arith

-- Cancelling is allowed exactly while the run is not finished.
pub can_transition-cancelled :
    (a : ExecutionStatus) → is_finished a ≡ false → can_transition a cancelled ≡ true
unfolding can_transition is_finished
can_transition-cancelled a h = ground arith

-- So is failing.
pub can_transition-failed :
    (a : ExecutionStatus) → is_finished a ≡ false → can_transition a failed ≡ true
unfolding can_transition is_finished
can_transition-failed a h = ground arith
