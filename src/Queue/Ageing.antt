-- ===== src/Queue/Ageing.antt =====
-- Ageing beats every role.
use native.Mathlib.Nat.{mul_assoc, mul-le-mul_left, mul-le-mul_right}
use cs455_project.Prelude.{ℕ, ◌+◌, ◌-◌, ◌*◌, ◌≤◌, ◌<◌, min, ◌≡◌, Bool, true, String, arith}
use cs455_project.Roles.{Role}
use cs455_project.Queue.{Settings, exceeds, role_term, wait_term, compute_priority, max_role_rank}

-- The whole wait outweighs a wait of `w` together with the highest role term, a debug run of an
-- owner, and the language penalty.
abbrev pub Outweighs : Settings → ℕ → Type 0
Outweighs s w =
    s.role_weight * ((max_role_rank * s.bonus_unit + max_role_rank * s.debug_bonus) * s.saturation)
      + s.lang_penalty_weight * (max_role_rank * s.bonus_unit * s.saturation)
      + s.wait_weight * (w * (max_role_rank * s.bonus_unit))
    < s.wait_weight * (s.saturation * (max_role_rank * s.bonus_unit))

role_term-le :
    (s : Settings) (role : Role) (debug : Bool)
    → role_term s role debug ≤ max_role_rank * s.bonus_unit + max_role_rank * s.debug_bonus
role_term-le s Role.viewer debug = ground arith
role_term-le s Role.editor debug = ground arith
role_term-le s Role.debugger debug = ground arith
role_term-le s Role.owner debug = ground arith

mul_mid_le : (a b b' c : ℕ) → b ≤ b' → a * b * c ≤ a * (b' * c)
mul_mid_le a b b' c h = rw mul_assoc (mul-le-mul_left a (mul-le-mul_right c h))

gain-aged :
    (s : Settings) (role : Role) (debug : Bool) (language : String) (enqueued_at now : ℕ)
    → s.saturation ≤ now - enqueued_at
    → s.wait_weight * (s.saturation * (max_role_rank * s.bonus_unit))
      ≤ (compute_priority s role debug language enqueued_at now).gain
unfolding compute_priority
gain-aged s role debug language enqueued_at now aged =
    let full : min (now - enqueued_at) s.saturation ≡ s.saturation = omega arith in
    rw full (grind arith)

gain-le :
    (s : Settings) (role : Role) (debug : Bool) (language : String) (enqueued_at now w : ℕ)
    → now - enqueued_at ≤ w
    → (compute_priority s role debug language enqueued_at now).gain
      ≤ s.role_weight
          * ((max_role_rank * s.bonus_unit + max_role_rank * s.debug_bonus) * s.saturation)
        + s.wait_weight * (w * (max_role_rank * s.bonus_unit))
unfolding compute_priority
gain-le s role debug language enqueued_at now w recent =
    let capped : wait_term s enqueued_at now ≤ w = omega arith in
    omega (
      arith,
      mul_mid_le s.role_weight _ _ s.saturation (role_term-le s role debug),
      mul_mid_le s.wait_weight _ _ (max_role_rank * s.bonus_unit) capped,
    )

loss-le :
    (s : Settings) (role : Role) (debug : Bool) (language : String) (enqueued_at now : ℕ)
    → (compute_priority s role debug language enqueued_at now).loss
      ≤ s.lang_penalty_weight * (max_role_rank * s.bonus_unit * s.saturation)
unfolding compute_priority
loss-le s role debug language enqueued_at now = ground arith

-- A run that has waited for the whole saturation time outscores every run that has waited at most
-- `w`, whatever the roles, the languages and the debug flags, if the settings outweigh `w`.
pub aged_outscores :
    (s : Settings) (w now : ℕ) (role role' : Role) (debug debug' : Bool)
    (language language' : String) (enqueued_at enqueued_at' : ℕ)
    → Outweighs s w
    → s.saturation ≤ now - enqueued_at
    → now - enqueued_at' ≤ w
    → exceeds
        (compute_priority s role debug language enqueued_at now)
        (compute_priority s role' debug' language' enqueued_at' now)
      ≡ true
aged_outscores s w now role role' debug debug' language language' enqueued_at enqueued_at' o aged
      recent =
    ground (
      arith,
      gain-aged s role debug language enqueued_at now aged,
      gain-le s role' debug' language' enqueued_at' now w recent,
      loss-le s role debug language enqueued_at now,
    )
