-- ===== src/Roles.antt =====
-- Roles and their ranks: backend/app/models/session.py and backend/app/core/deps.py.
use cs455_project.Prelude.{ℕ, Bool, leb, ltb}

pub data Role : Type 0 where
  viewer editor debugger owner : Role

-- `ROLE_RANK`, and `RoleRank` over the members of the enumeration in their order: the same numbers.
abbrev pub role_rank : Role → ℕ
role_rank viewer = 0
role_rank editor = 1
role_rank debugger = 2
role_rank owner = 3

abbrev pub at_least : Role → Role → Bool
at_least role min_role = leb (role_rank min_role) (role_rank role)

-- `RoleRank[a] > RoleRank[b]`
abbrev pub outranks : Role → Role → Bool
outranks a b = ltb (role_rank b) (role_rank a)
