-- ===== src/Tests/Wire.antt =====
-- The wire format of the cursors at a concrete update.
use cs455_project.Prelude.{
  ℕ, Option, none, some, List, [], ◌∷◌, ◌≡◌, refl, arith, ◌==◌, ◌&&◌, if◌then◌else◌,
}
use cs455_project.Awareness.{Entry, Item}
use cs455_project.Awareness.Wire.{
  Parsed, null, object, other, Coder, decode_update, encode_update, encode_entries, encode_entry,
  write_var_uint, write_from,
}
use cs455_project.Awareness.Wire.RoundTrip.{decode_update-encode_update}

-- The only objects are those with a user id, which stands between the braces.
abbrev loads_toy : List ℕ → Option (Parsed ℕ)
loads_toy (bracket ∷ []) = some (if bracket == 110 then null else other)
loads_toy (bracket ∷ n ∷ end ∷ []) = some (
    if bracket == 123 && end == 125
    then object (record { key = "user_id"; value = n } ∷ [])
    else other)
loads_toy _ = none

abbrev dumps_toy : Option (List (Item ℕ)) → List ℕ
dumps_toy none = 110 ∷ []
dumps_toy (some []) = 123 ∷ 125 ∷ []
dumps_toy (some (i ∷ items)) = 123 ∷ i.value ∷ 125 ∷ []

abbrev toy_coder : Coder ℕ
toy_coder = record { loads = loads_toy; dumps = dumps_toy }

-- A cursor that is shown, with a client id of two bytes, and one that is gone.
abbrev two_entries : List (Entry ℕ)
two_entries =
    record {
      client_id = 300;
      clock = 5;
      state = some (record { key = "user_id"; value = 55 } ∷ []);
    }
    ∷ record { client_id = 7; clock = 128; state = none }
    ∷ []

encoded_entries :
    encode_update toy_coder two_entries
    ≡ 2 ∷ 172 ∷ 2 ∷ 5 ∷ 3 ∷ 123 ∷ 55 ∷ 125 ∷ 7 ∷ 128 ∷ 1 ∷ 1 ∷ 110 ∷ []
unfolding encode_update encode_entries encode_entry write_var_uint write_from
encoded_entries = refl

decode_update-encode_update_example :
    decode_update toy_coder (encode_update toy_coder two_entries) ≡ some two_entries
decode_update-encode_update_example =
    decode_update-encode_update toy_coder two_entries (refl, (refl, tt))
      ((omega arith, omega arith, omega arith), ((omega arith, omega arith, omega arith), tt))
      (omega arith) (rw encoded_entries (omega arith))
