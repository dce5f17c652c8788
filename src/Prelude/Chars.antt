-- ===== src/Prelude/Chars.antt =====
-- The characters of a text as numbers.
use Prim.Native.Nat.{ℕ, zero, suc}
use Prim.Native.Char.{code}
use Prim.Native.String.{String, [], ◌∷◌}
use mathlib.Core.List.{List}

abbrev pub chars : String → List ℕ
chars [] = List.[]
chars (c ∷ s) = List.◌∷◌ (code c) (chars s)

-- The first characters of a text.
abbrev pub cut : ℕ → String → String
cut zero s = []
cut (suc n) [] = []
cut (suc n) (c ∷ s) = c ∷ cut n s
