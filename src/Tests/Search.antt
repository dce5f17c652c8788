-- ===== src/Tests/Search.antt =====
-- The theorem on searches at two files and a pattern that finds every character.
use cs455_project.Prelude.{ℕ, suc, List, [], ◌∷◌}
use cs455_project.Search.{Pattern, search_project}
use cs455_project.Search.Bounds.{IsWithin, search_project-IsWithin}

abbrev from_ : ℕ → List ℕ → List (ℕ × ℕ)
from_ n [] = []
from_ n (c ∷ cs) = (n, suc n) ∷ from_ (suc n) cs

abbrev every_char : Pattern
every_char line = from_ 0 line

abbrev two_files : List (ℕ × List ℕ)
two_files = (8, 97 ∷ 10 ∷ 98 ∷ []) ∷ (9, 99 ∷ []) ∷ []

search_project-IsWithin_example : IsWithin (search_project every_char two_files)
search_project-IsWithin_example = search_project-IsWithin every_char two_files
