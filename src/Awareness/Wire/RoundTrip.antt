-- ===== src/Awareness/Wire/RoundTrip.antt =====
-- What is encoded decodes to the same entries.
use native.Mathlib.Numerals.{towards_suc}
use native.Mathlib.Nat.{add-mul, mul_assoc}
use mathlib.Core.List.{append_assoc}
use cs455_project.Prelude.{
  take-append, drop-append, ℕ, zero, suc, ◌+◌, ◌*◌, ◌/◌, ◌%◌, ◌^◌, ◌≤◌, ◌<◌, ◌≡◌, refl, ap, Option,
  none, some, List, [], ◌∷◌, ◌++◌, ltb, length, length-append, arith, Bool-cases, inl, inr, All,
}
use cs455_project.Awareness.{Entry, Item}
use cs455_project.Awareness.Wire.{
  read_from, read_var_uint, write_from, write_var_uint, Coder, Parsed, null, object, state_of,
  decode_entry, decode_entries, decode_update, encode_entry, encode_entries, encode_update, uint32,
  max_state_bytes, max_entries_per_update, max_update_bytes,
}

-- The number has at most `k + 1` groups of seven bits.
abbrev Fits : ℕ → ℕ → Type 0
Fits zero n = n < 128
Fits (suc k) n = Fits k (n / 128)

pow_step : (s : ℕ) → 2 ^ (s + 7) ≡ 128 * 2 ^ s
pow_step s = simp towards_suc (omega arith)

groups : (n w : ℕ) → n % 128 * w + n / 128 * (128 * w) ≡ n * w
groups n w =
    let whole : n ≡ n % 128 + n / 128 * 128 = omega arith in
    omega (
      arith,
      ap (λ (t : ℕ). t * w) whole,
      add-mul (n % 128) (n / 128 * 128) w,
      mul_assoc (n / 128) 128 w,
    )

read-write :
    (k fuel n shift result : ℕ) (rest : List ℕ)
    → Fits k n
    → n ≤ fuel
    → shift + 7 * k ≤ 28
    → read_from shift result (write_from fuel n ++ rest) ≡ some (result + n * 2 ^ shift, rest)
unfolding read_from write_from
read-write zero zero n shift result rest fits enough room = ground arith
read-write zero (suc fuel) n shift result rest fits enough room = ground arith
read-write (suc k) zero n shift result rest fits enough room = ground arith
read-write (suc k) (suc fuel) n shift result rest fits enough room = elim (Bool-cases (ltb 127 n)) [
  | inr small ↦ ground arith
  | inl more ↦
      let byte = 128 + n % 128 in
      ground (
        arith,
        more,
        read-write k fuel (n / 128) (shift + 7) (result + byte % 128 * 2 ^ shift) rest,
        pow_step shift,
        groups n (2 ^ shift),
        fits,
      )
]

-- A number below 2 ^ 32 is read back from what was written, with what stands behind it.
read_var_uint-write_var_uint :
    (n : ℕ) (rest : List ℕ) → n < uint32 → read_var_uint (write_var_uint n ++ rest) ≡ some (n, rest)
unfolding read_var_uint write_var_uint
read_var_uint-write_var_uint n rest small = ground (arith, read-write 4 n n 0 0 rest)

regroup :
    (a b c raw rest : List ℕ) → (a ++ (b ++ (c ++ raw))) ++ rest ≡ a ++ (b ++ (c ++ (raw ++ rest)))
regroup a b c raw rest = simp append_assoc

module _ {J : Type 0} (coder : Coder J) where
  abbrev parsed : Option (List (Item J)) → Parsed J
  parsed none = null
  parsed (some items) = object items

  -- `json.loads` gives back the state that `json.dumps` wrote, as it does for an object that has each
  -- key once.
  abbrev pub IsReadBack : Entry J → Type 0
  IsReadBack e = coder.loads (coder.dumps e.state) ≡ some (parsed e.state)

  -- The ids fit into 32 bits and the state into the limit.
  abbrev pub IsSmall : Entry J → Type 0
  IsSmall e =
      (e.client_id < uint32) × (e.clock < uint32) × (length (coder.dumps e.state) ≤ max_state_bytes)

  state_back :
      (e : Entry J)
      → IsReadBack e
      → state_of coder (coder.loads (coder.dumps e.state)) ≡ some e.state
  state_back e back = rw back (go e.state)
    where
      go : (state : Option (List (Item J))) → state_of coder (some (parsed state)) ≡ some state
      go none = refl
      go (some items) = refl

  decode_entry-encode_entry :
      (e : Entry J) (rest : List ℕ)
      → IsReadBack e
      → IsSmall e
      → decode_entry coder (encode_entry coder e ++ rest) ≡ some (e, rest)
  unfolding decode_entry encode_entry
  decode_entry-encode_entry e rest back (id, clock, size) =
      let raw = coder.dumps e.state in
      ground (
        arith,
        regroup (write_var_uint e.client_id) (write_var_uint e.clock) (write_var_uint (length raw))
            raw rest,
        read_var_uint-write_var_uint e.client_id
            (write_var_uint e.clock ++ (write_var_uint (length raw) ++ (raw ++ rest))),
        read_var_uint-write_var_uint e.clock (write_var_uint (length raw) ++ (raw ++ rest)),
        read_var_uint-write_var_uint (length raw) (raw ++ rest),
        take-append (length raw) raw rest refl,
        drop-append (length raw) raw rest refl,
        length-append raw rest,
        state_back e back,
      )

  decode_entries-encode_entries :
      (entries : List (Entry J))
      → All IsReadBack entries
      → All IsSmall entries
      → decode_entries coder (length entries) (encode_entries coder entries) ≡ some (entries, [])
  unfolding decode_entries encode_entries
  decode_entries-encode_entries [] backs small = refl
  decode_entries-encode_entries (e ∷ rest) (back, backs) (first, later) = ground (
    arith,
    decode_entry-encode_entry e (encode_entries coder rest) back first,
    decode_entries-encode_entries rest backs later,
  )

  -- If the JSON library reads back each entry's state as it wrote it, an update of at most eight entries, each with a client
  -- id and a clock below 2 ^ 32 and a state within its limit, that fits into the limit of an update is
  -- decoded from its encoding as it was.
  pub decode_update-encode_update :
      (entries : List (Entry J))
      → All IsReadBack entries
      → All IsSmall entries
      → length entries ≤ max_entries_per_update
      → length (encode_update coder entries) ≤ max_update_bytes
      → decode_update coder (encode_update coder entries) ≡ some entries
  unfolding decode_update encode_update
  decode_update-encode_update entries backs small few short = ground (
    arith,
    read_var_uint-write_var_uint (length entries) (encode_entries coder entries),
    decode_entries-encode_entries entries backs small,
  )
