-- ===== src/Login.antt =====
-- Logging in and its limit on failures: backend/app/core/login_limiter.py, and `login` and `signup` of
-- backend/app/api/auth.py. Times are in milliseconds. The hash of a password, its check and the key
-- of a user name are arguments; a token is the id of its user.
pub mod Lockout
use cs455_project.Prelude.{
  ℕ, ◌+◌, ◌-◌, ◌*◌, ◌/◌, Bool, true, false, ◌&&◌, ◌||◌, not, Option, none, some, List, [], ◌∷◌,
  ◌++◌, String, ◌==◌, ltb, leb, any, lookup, store, discard, if◌then◌else◌, http, Result, ok, err,
}
use text.Mathlib.Text.{◌==◌ as str_eq}

abbrev pub login_max_failures : ℕ
login_max_failures = 5

abbrev pub login_lockout_seconds : ℕ
login_lockout_seconds = 900

-- A counter in Redis, which is gone from its expiry on.
pub record Counter : Type 0 where
  pub value : ℕ
  pub expires_at : Option ℕ

-- The counters by their keys, or none where Redis does not answer.
abbrev pub Counters : Type 0
Counters = Option (List (ℕ × Counter))

abbrev pub is_alive : ℕ → Counter → Bool
is_alive now c = elim c.expires_at [ none ↦ true | some t ↦ ltb now t ]

abbrev pub alive : ℕ → Option Counter → Option Counter
alive now none = none
alive now (some c) = if is_alive now c then some c else none

abbrev pub read_counter : (now key : ℕ) → List (ℕ × Counter) → Option Counter
read_counter now key counters = alive now (lookup key counters)

-- `ttl`: the seconds left, rounded as Redis rounds its milliseconds, so that a counter in its last half
-- second has 0. It is 0 here also for a key that does not expire, where Redis says -1.
abbrev pub ttl_of : ℕ → Counter → ℕ
ttl_of now c = elim c.expires_at [ none ↦ 0 | some t ↦ (t - now + 500) / 1000 ]

abbrev pub expire : (now key : ℕ) → Counter → List (ℕ × Counter) → List (ℕ × Counter)
expire now key c counters =
    store key (record c { expires_at = some (now + login_lockout_seconds * 1000) }) counters

-- What is left of the lockout, 0 if there is none, and the counters.
abbrev pub remaining : (now key : ℕ) → Option Counter → List (ℕ × Counter) → ℕ × List (ℕ × Counter)
remaining now key none counters = (0, counters)
remaining now key (some c) counters =
    if ltb c.value login_max_failures
    then (0, counters)
    else if ltb 0 (ttl_of now c)
    then (ttl_of now c, counters)
    else (login_lockout_seconds, expire now key c counters)

unfoldable pub lockout_seconds_remaining : (now key : ℕ) → Counters → ℕ × Counters
lockout_seconds_remaining now key none = (0, none)
lockout_seconds_remaining now key (some counters) =
    let (seconds, after) = remaining now key (read_counter now key counters) counters in
    (seconds, some after)

-- `incr`, and the expiry of a new counter
abbrev pub increment : (now key : ℕ) → Option Counter → List (ℕ × Counter) → List (ℕ × Counter)
increment now key none counters = expire now key (record { value = 1; expires_at = none }) counters
increment now key (some c) counters =
    let more = record c { value = c.value + 1 } in
    if c.value + 1 == 1 then expire now key more counters else store key more counters

unfoldable pub record_login_failure : (now key : ℕ) → Counters → Counters
record_login_failure now key none = none
record_login_failure now key (some counters) =
    some (increment now key (read_counter now key counters) counters)

unfoldable pub reset_login_failures : (key : ℕ) → Counters → Counters
reset_login_failures key none = none
reset_login_failures key (some counters) = some (discard key counters)

pub record Account : Type 0 where
  pub id : ℕ
  pub username : String
  pub email : String
  pub password_hash : String

-- The user of a token, or the status; a 429 says when to try again.
pub data Answer : Type 0 where
  token : ℕ → Answer
  unauthorized : Answer
  too_many : (retry_after : ℕ) → Answer

abbrev pub account_of : String → List Account → Option Account
account_of username [] = none
account_of username (a ∷ as_) =
    let later = account_of username as_ in if str_eq a.username username then some a else later

abbrev pub answer_login : (now key : ℕ) → Option ℕ → Counters → Answer × Counters
answer_login now key none counters = (unauthorized, record_login_failure now key counters)
answer_login now key (some user_id) counters = (token user_id, reset_login_failures key counters)

module _ (key_of : String → ℕ) (verify_password : (password hash : String) → Bool) where
  abbrev pub check_login : List Account → (username password : String) → Option ℕ
  check_login accounts username password = elim (account_of username accounts) [
    | none ↦ none
    | some a ↦ if verify_password password a.password_hash then some a.id else none
  ]

  unfoldable pub login :
      (now : ℕ) → List Account → (username password : String) → Counters → Answer × Counters
  login now accounts username password counters =
      let (retry_after, checked) = lockout_seconds_remaining now (key_of username) counters in
      if retry_after == 0
      then answer_login now (key_of username) (check_login accounts username password) checked
      else (too_many retry_after, checked)

-- `signup`, with the next id.
unfoldable pub signup :
    (hash_password : String → String)
    → ℕ
    → (username email password : String) → List Account
    → Result (ℕ × List Account)
signup hash_password next_id username email password accounts =
    if any (λ (a : Account). str_eq a.username username || str_eq a.email email) accounts
    then err (http 409)
    else ok (
      next_id,
      accounts
          ++ record {
            id = next_id;
            username = username;
            email = email;
            password_hash = hash_password password;
          }
            ∷ [],
    )
