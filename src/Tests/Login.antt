-- ===== src/Tests/Login.antt =====
-- The theorems on logins at one account.
use cs455_project.Prelude.{ℕ, none, some, List, [], ◌∷◌, String, ◌≡◌, refl, arith}
use text.Mathlib.Text.{◌==◌ as str_eq}
use cs455_project.Login.{Account, Counters, token, too_many, login, lockout_seconds_remaining}
use cs455_project.Login.Lockout.{logins, retry_after_suffices, locked_after_failures}

abbrev accounts : List Account
accounts =
    record { id = 1; username = "alice"; email = "alice@example.org"; password_hash = "secret" }
    ∷ []

abbrev one_key : String → ℕ
one_key username = 0

-- Alice has failed five times, and Redis lost the expiry of her counter.
abbrev stuck : Counters
stuck = some ((0, record { value = 5; expires_at = none }) ∷ [])

is_refused : (login one_key str_eq 10 accounts "alice" "secret" stuck).0 ≡ too_many 900
unfolding login lockout_seconds_remaining
is_refused = refl

retry_after_suffices_example :
    (login one_key str_eq 900510 accounts "alice" "secret"
      (login one_key str_eq 10 accounts "alice" "secret" stuck).1).0
    ≡ token 1
retry_after_suffices_example =
    retry_after_suffices one_key str_eq 10 900510 900 1 accounts "alice" "secret" "secret" stuck
      is_refused (omega arith) refl

-- A counter with 1.4 seconds left: the first login is told one second, and the one that comes after that
-- second is refused again and told the whole lockout time.
abbrev nearly_over : Counters
nearly_over = some ((0, record { value = 5; expires_at = some 1400 }) ∷ [])

first_told : (login one_key str_eq 0 accounts "alice" "secret" nearly_over).0 ≡ too_many 1
unfolding login lockout_seconds_remaining
first_told = refl

locked_anew :
    (login one_key str_eq 1000 accounts "alice" "secret"
      (login one_key str_eq 0 accounts "alice" "secret" nearly_over).1).0
    ≡ too_many 900
unfolding login lockout_seconds_remaining
locked_anew = refl

abbrev tries : List (ℕ × String)
tries = (11, "a") ∷ (12, "b") ∷ (13, "c") ∷ (14, "d") ∷ []

locked_after_failures_example :
    (login one_key str_eq 100010 accounts "alice" "secret"
      (logins one_key str_eq accounts "alice" ((10, "x") ∷ tries) (some []))).0
    ≡ too_many 800
locked_after_failures_example =
    locked_after_failures one_key str_eq 10 100010 accounts "alice" "x" "secret" tries [] refl refl
      ((omega arith, refl), ((omega arith, refl), ((omega arith, refl), ((omega arith, refl), tt))))
      (omega arith) (omega arith)
