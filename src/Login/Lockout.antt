-- ===== src/Login/Lockout.antt =====
-- When a login is refused, and until when.
use cs455_project.Prelude.{
  ℕ, suc, ◌+◌, ◌-◌, ◌*◌, ◌/◌, ◌≤◌, ◌<◌, Bool, false, Option, none, some, List, [], ◌∷◌, String,
  if◌then◌else◌, ◌==◌, ltb, lookup, store, lookup-store, All, length, ◌≡◌, refl, sym, ap, ◌∙◌, inl,
  inr, Bool-cases, Option-cases, arith,
}
use cs455_project.Login.{
  Counter, Counters, Account, Answer, token, unauthorized, too_many, alive, read_counter, remaining,
  lockout_seconds_remaining, record_login_failure, answer_login, check_login, login,
  login_max_failures, login_lockout_seconds,
}

-- After a refusal the counter is gone half a second after the time it names has passed.
remaining-ends :
    (now later key : ℕ) (counters : List (ℕ × Counter)) (found : Option Counter)
    → lookup key counters ≡ found
    → 0 < (remaining now key (alive now found) counters).0
    → now + (remaining now key (alive now found) counters).0 * 1000 + 500 ≤ later
    → read_counter later key (remaining now key (alive now found) counters).1 ≡ none
remaining-ends now later key counters none e locked passed = ground (arith, locked)
remaining-ends now later key counters (some c) e locked passed = elim (Option-cases c.expires_at) [
  | inl f ↦ ground (
    arith,
    e,
    f,
    locked,
    passed,
    lookup-store key key (record c { expires_at = some (now + 900000) }) counters,
  )
  | inr (t, f) ↦ ground (
    arith,
    e,
    f,
    locked,
    passed,
    lookup-store key key (record c { expires_at = some (now + 900000) }) counters,
  )
]

abbrev seconds_of : Answer → ℕ
seconds_of (too_many n) = n
seconds_of _ = 0

module _ (key_of : String → ℕ) (verify_password : String → String → Bool) where
  -- With some counters: the answer while the counter is locked, and after it is gone.
  refused_while :
      (now : ℕ) (accounts : List Account) (username password : String)
      (counters : List (ℕ × Counter))
      → let (seconds, after) =
          remaining now (key_of username) (read_counter now (key_of username) counters) counters in
        (seconds == 0) ≡ false
        → login key_of verify_password now accounts username password (some counters)
          ≡ (too_many seconds, some after)
  unfolding login lockout_seconds_remaining
  refused_while now accounts username password counters e = rw e refl

  admitted_when :
      (now user_id : ℕ) (accounts : List Account) (username password : String)
      (counters : List (ℕ × Counter))
      → read_counter now (key_of username) counters ≡ none
      → check_login key_of verify_password accounts username password ≡ some user_id
      → (login key_of verify_password now accounts username password (some counters)).0
        ≡ token user_id
  unfolding login lockout_seconds_remaining
  admitted_when now user_id accounts username password counters gone right = rw (gone, right) refl

  answered :
      (now key seconds : ℕ) (user : Option ℕ) (counters : Counters)
      → (answer_login now key user counters).0 ≡ too_many seconds
      → ⊥
  answered now key seconds none counters h = ground (arith, h)
  answered now key seconds (some user_id) counters h = ground (arith, h)

  -- If a login is refused with a number of seconds to wait, then a login with the right password that comes
  -- next, and half a second or more after that time has passed, is answered with a token.
  pub retry_after_suffices :
      (now later retry_after user_id : ℕ) (accounts : List Account)
      (username password other : String) (counters : Counters)
      → (login key_of verify_password now accounts username password counters).0
        ≡ too_many retry_after
      → now + retry_after * 1000 + 500 ≤ later
      → check_login key_of verify_password accounts username other ≡ some user_id
      → (login key_of verify_password later accounts username other
          (login key_of verify_password now accounts username password counters).1).0
        ≡ token user_id
  unfolding login lockout_seconds_remaining
  retry_after_suffices now later retry_after user_id accounts username password other none refused
        passed right =
      absurd (
        answered now (key_of username) retry_after
          (check_login key_of verify_password accounts username password) none refused)
  retry_after_suffices now later retry_after user_id accounts username password other
        (some counters) refused passed right =
      let key = key_of username in
      let (seconds, after) = remaining now key (read_counter now key counters) counters in
      elim (Bool-cases (seconds == 0)) [
        | inl e ↦ absurd (
            answered now key retry_after
              (check_login key_of verify_password accounts username password) (some after)
              (ground (arith, e, refused)))
        | inr e ↦
            let locked = refused_while now accounts username password counters e in
            let same : seconds ≡ retry_after =
              ap seconds_of (sym (ap (λ (r : Answer × Counters). r.0) locked) ∙ refused) in
            let gone =
              remaining-ends now later key counters (lookup key counters) refl (ground (arith, e))
                (omega (arith, same, passed)) in
            rw locked (admitted_when later user_id accounts username other after gone right)
      ]

  -- One login after the other, each at its time with its password.
  abbrev pub logins : List Account → String → List (ℕ × String) → Counters → Counters
  logins accounts username [] counters = counters
  logins accounts username ((now, password) ∷ later) counters =
      logins accounts username later
        (login key_of verify_password now accounts username password counters).1

  -- A failure half a second or more before the time `t` when the counter expires.
  abbrev pub Fails : List Account → String → (t : ℕ) → ℕ × String → Type 0
  Fails accounts username t (now, password) =
      (now + 500 ≤ t) × (check_login key_of verify_password accounts username password ≡ none)

  counts :
      (now t n : ℕ) (accounts : List Account) (username password : String)
      (counters : List (ℕ × Counter))
      → lookup (key_of username) counters ≡ some (record { value = suc n; expires_at = some t })
      → now + 500 ≤ t
      → check_login key_of verify_password accounts username password ≡ none
      → suc n < login_max_failures
      → login key_of verify_password now accounts username password (some counters) ≡ (
        unauthorized,
        some (store (key_of username) (record { value = suc n + 1; expires_at = some t }) counters),
      )
  unfolding login lockout_seconds_remaining record_login_failure
  counts now t n accounts username password counters e soon wrong few = ground (arith, e, wrong)

  locks :
      (now t n : ℕ) (accounts : List Account) (username password : String)
      (counters : List (ℕ × Counter))
      → lookup (key_of username) counters ≡ some (record { value = n; expires_at = some t })
      → now + 500 ≤ t
      → login_max_failures ≤ n
      → login key_of verify_password now accounts username password (some counters)
        ≡ (too_many ((t - now + 500) / 1000), some counters)
  unfolding login lockout_seconds_remaining
  locks now t n accounts username password counters e soon many = ground (arith, e)

  starts :
      (now : ℕ) (accounts : List Account) (username password : String)
      (counters : List (ℕ × Counter))
      → read_counter now (key_of username) counters ≡ none
      → check_login key_of verify_password accounts username password ≡ none
      → login key_of verify_password now accounts username password (some counters) ≡ (
        unauthorized,
        some (
            store
              (key_of username)
              (record { value = 1; expires_at = some (now + login_lockout_seconds * 1000) })
              counters),
      )
  unfolding login lockout_seconds_remaining record_login_failure
  starts now accounts username password counters gone wrong = ground (arith, gone, wrong)

  -- What a locked login is told for the milliseconds that are left: the lockout time anew if Redis rounds
  -- them to no second at all.
  abbrev pub told : ℕ → ℕ
  told left = if (left + 500) / 1000 == 0 then login_lockout_seconds else (left + 500) / 1000

  told_while :
      (now t n : ℕ) (accounts : List Account) (username password : String)
      (counters : List (ℕ × Counter))
      → lookup (key_of username) counters ≡ some (record { value = n; expires_at = some t })
      → now < t
      → login_max_failures ≤ n
      → (login key_of verify_password now accounts username password (some counters)).0
        ≡ too_many (told (t - now))
  unfolding login lockout_seconds_remaining
  told_while now t n accounts username password counters e soon many = ground (arith, e)

  many_fail :
      (later t n : ℕ) (accounts : List Account) (username password : String)
      (rest : List (ℕ × String)) (counters : List (ℕ × Counter))
      → lookup (key_of username) counters ≡ some (record { value = suc n; expires_at = some t })
      → All (Fails accounts username t) rest
      → later < t
      → login_max_failures ≤ suc n + length rest
      → (login key_of verify_password later accounts username password
          (logins accounts username rest (some counters))).0
        ≡ too_many (told (t - later))
  many_fail later t n accounts username password [] counters e fails soon many =
      told_while later t (suc n) accounts username password counters e soon (omega (arith, many))
  many_fail later t n accounts username password ((now, tried) ∷ rest) counters e
        ((early, wrong), others) soon many =
      let key = key_of username in
      elim (Bool-cases (ltb (suc n) login_max_failures)) [
        | inl few ↦
            let next = store key (record { value = suc n + 1; expires_at = some t }) counters in
            let up : suc n + 1 ≡ suc (suc n) = omega arith in
            let found : lookup key next
                ≡ some (record { value = suc (suc n); expires_at = some t }) =
              ground (
                arith,
                up,
                lookup-store key key (record { value = suc n + 1; expires_at = some t }) counters,
              ) in
            rw (counts now t n accounts username tried counters e early wrong (ground (arith, few)))
              (many_fail later t (suc n) accounts username password rest next found others soon
                (omega (arith, many)))
        | inr full ↦
            let much : login_max_failures ≤ suc n = ground (arith, full) in
            rw (locks now t (suc n) accounts username tried counters e early much) (
              many_fail later t n accounts username password rest counters e others soon
                (omega (arith, much)))
      ]

  -- If the user name has no counter at the time of a failing login, and at least four more logins fail
  -- within the lockout time less half a second, then every login before the lockout time is over is
  -- refused, also one with the right password, and it is told the time that is left in whole seconds, or
  -- the lockout time if that is less than half a second.
  pub locked_after_failures :
      (now later : ℕ) (accounts : List Account) (username first password : String)
      (rest : List (ℕ × String)) (counters : List (ℕ × Counter))
      → read_counter now (key_of username) counters ≡ none
      → check_login key_of verify_password accounts username first ≡ none
      → All (Fails accounts username (now + login_lockout_seconds * 1000)) rest
      → 4 ≤ length rest
      → later < now + login_lockout_seconds * 1000
      → (login key_of verify_password later accounts username password
          (logins accounts username ((now, first) ∷ rest) (some counters))).0
        ≡ too_many (told (now + login_lockout_seconds * 1000 - later))
  locked_after_failures now later accounts username first password rest counters gone wrong fails
        many soon =
      let key = key_of username in
      let t = now + login_lockout_seconds * 1000 in
      let next = store key (record { value = 1; expires_at = some t }) counters in
      let found : lookup key next ≡ some (record { value = 1; expires_at = some t }) =
        ground (arith, lookup-store key key (record { value = 1; expires_at = some t }) counters) in
      rw (starts now accounts username first counters gone wrong) (
        many_fail later t 0 accounts username password rest next found fails soon
          (omega (arith, many)))
