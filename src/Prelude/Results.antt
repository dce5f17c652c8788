-- ===== src/Prelude/Results.antt =====
-- What a request handler answers: a value, or the HTTP status of the exception that it raises.
use Prim.Native.Nat.{ℕ}
use mathlib.Core.Path.{◌≡◌, refl}
use mathlib.Core.Logic.{◌⊎◌, inl, inr}
use mathlib.Core.Bool.{Bool, true, false}
use mathlib.Core.Option.{Option, none, some}
use mathlib.Core.List.{List, [], ◌∷◌}

-- `http c` is an HTTPException with status `c`; the text of its detail is left out. The others
-- are exceptions that no handler catches: a query for at most one row met two, a ValueError, a commit that
-- breaks a constraint of a table, and an AttributeError.
pub data Failure : Type 0 where
  http : ℕ → Failure
  multiple_results : Failure
  value_error : Failure
  integrity_error : Failure
  attribute_error : Failure

pub data Result {ℓ} (A : Type ℓ) : Type ℓ where
  ok : A → Result A
  err : Failure → Result A

infixl 5 ◌>>=◌ ◌>>◌
-- An exception ends the handler.
abbrev pub ◌>>=◌ {ℓ κ} : {A : Type ℓ} {B : Type κ} → Result A → (A → Result B) → Result B
err failure >>= next = err failure
ok answer >>= next = next answer

abbrev pub ◌>>◌ {ℓ} : {B : Type ℓ} → Result (Unit {0}) → Result B → Result B
check >> rest = check >>= λ _. rest

-- `if not b: raise HTTPException(c)`
abbrev pub require : Bool → ℕ → Result (Unit {0})
require false c = err (http c)
require true c = ok tt

-- `if o is None: raise HTTPException(c)`
abbrev pub found {ℓ} : {A : Type ℓ} → Option A → ℕ → Result A
found none c = err (http c)
found (some a) c = ok a

-- `scalar_one_or_none()` of a query with these rows
abbrev pub one_or_none {ℓ} : {A : Type ℓ} → List A → Result (Option A)
one_or_none [] = ok none
one_or_none (x ∷ []) = ok (some x)
one_or_none (x ∷ y ∷ rest) = err multiple_results

pub Result-cases {ℓ} :
    {A : Type ℓ} (r : Result A) → ((a : A) × (r ≡ ok a)) ⊎ ((e : Failure) × (r ≡ err e))
Result-cases (ok a) = inl (a, refl)
Result-cases (err e) = inr (e, refl)
