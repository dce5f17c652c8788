-- ===== src/Awareness/Wire.antt =====
-- The wire format of the cursors: `_read_var_uint`, `_write_var_uint`, `decode_update` and
-- `encode_update` of backend/app/realtime/awareness.py. A byte string is a list of numbers, and a
-- position in it is what stands behind it. An AwarenessError is `none`.
pub mod RoundTrip
use cs455_project.Prelude.{
  ℕ, zero, suc, ◌+◌, ◌*◌, ◌/◌, ◌%◌, ◌^◌, Bool, true, false, ◌&&◌, ◌||◌, Option, none, some, List,
  [], ◌∷◌, ◌++◌, ◌==◌, ltb, leb, length, take, drop, if◌then◌else◌,
}
use cs455_project.Awareness.{Entry, Item}

abbrev pub max_update_bytes : ℕ
max_update_bytes = 8192

abbrev pub max_state_bytes : ℕ
max_state_bytes = 4096

abbrev pub max_entries_per_update : ℕ
max_entries_per_update = 8

abbrev pub uint32 : ℕ
uint32 = 4294967296

abbrev pub max_varint_bits : ℕ
max_varint_bits = 28

-- The loop of `_read_var_uint`. The bits that `|=` adds were 0, so it is a sum.
unfoldable pub read_from : (shift result : ℕ) → List ℕ → Option (ℕ × List ℕ)
read_from shift result [] = none
read_from shift result (byte ∷ rest) =
    let result' = result + byte % 128 * 2 ^ shift in
    let more = read_from (shift + 7) result' rest in
    if ltb byte 128
    then some (result', rest)
    else if ltb max_varint_bits (shift + 7)
    then none
    else more

unfoldable pub read_var_uint : List ℕ → Option (ℕ × List ℕ)
read_var_uint bytes = read_from 0 0 bytes

-- The loop of `_write_var_uint`. It divides by 128 in each round, so `n` rounds are enough.
unfoldable pub write_from : ℕ → ℕ → List ℕ
write_from zero n = n ∷ []
write_from (suc fuel) n =
    let rest = write_from fuel (n / 128) in if ltb 127 n then (128 + n % 128) ∷ rest else n ∷ []

unfoldable pub write_var_uint : ℕ → List ℕ
write_var_uint n = write_from n n

-- What `json.loads` gives: null, an object or anything else.
pub data Parsed (J : Type 0) : Type 0 where
  null : Parsed J
  object : List (Item J) → Parsed J
  other : Parsed J

-- `json.loads` after the decoding of the text, `none` where either raises, and `json.dumps` with the
-- encoding.
pub record Coder (J : Type 0) : Type 0 where
  pub loads : List ℕ → Option (Parsed J)
  pub dumps : Option (List (Item J)) → List ℕ

module _ {J : Type 0} (coder : Coder J) where
  -- A state is an object or null.
  abbrev pub state_of : Option (Parsed J) → Option (Option (List (Item J)))
  state_of none = none
  state_of (some null) = some none
  state_of (some (object items)) = some (some items)
  state_of (some other) = none

  -- One round of the loop of `decode_update`, from the two ids and the length that were read.
  abbrev pub decode_state : (client_id clock size : ℕ) → List ℕ → Option (Entry J × List ℕ)
  decode_state client_id clock size bytes =
      if leb uint32 client_id || leb uint32 clock
      then none
      else if ltb max_state_bytes size || ltb (length bytes) size
      then none
      else elim (state_of (coder.loads (take size bytes))) [
        | none ↦ none
        | some state ↦
            some (record { client_id = client_id; clock = clock; state = state }, drop size bytes)
      ]

  unfoldable pub decode_entry : List ℕ → Option (Entry J × List ℕ)
  decode_entry bytes = elim (read_var_uint bytes) [
    | none ↦ none
    | some (client_id, bytes1) ↦ elim (read_var_uint bytes1) [
      | none ↦ none
      | some (clock, bytes2) ↦ elim (read_var_uint bytes2) [
        | none ↦ none
        | some (size, bytes3) ↦ decode_state client_id clock size bytes3
      ]
    ]
  ]

  unfoldable pub decode_entries : ℕ → List ℕ → Option (List (Entry J) × List ℕ)
  decode_entries zero bytes = some ([], bytes)
  decode_entries (suc count) bytes = elim (decode_entry bytes) [
    | none ↦ none
    | some (e, rest) ↦ elim (decode_entries count rest) [
      | none ↦ none
      | some (entries, last) ↦ some (e ∷ entries, last)
    ]
  ]

  abbrev pub all_read : Option (List (Entry J) × List ℕ) → Option (List (Entry J))
  all_read none = none
  all_read (some (entries, [])) = some entries
  all_read (some (entries, byte ∷ rest)) = none

  unfoldable pub decode_update : List ℕ → Option (List (Entry J))
  decode_update bytes =
      if ltb max_update_bytes (length bytes) then none else elim (read_var_uint bytes) [
        | none ↦ none
        | some (count, rest) ↦
            if ltb max_entries_per_update count then none else all_read (decode_entries count rest)
      ]

  unfoldable pub encode_entry : Entry J → List ℕ
  encode_entry e =
      let raw = coder.dumps e.state in
      write_var_uint e.client_id ++ (write_var_uint e.clock ++ (write_var_uint (length raw) ++ raw))

  unfoldable pub encode_entries : List (Entry J) → List ℕ
  encode_entries [] = []
  encode_entries (e ∷ rest) = encode_entry e ++ encode_entries rest

  unfoldable pub encode_update : List (Entry J) → List ℕ
  encode_update entries = write_var_uint (length entries) ++ encode_entries entries
