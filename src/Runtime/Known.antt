-- ===== src/Runtime/Known.antt =====
-- Every language that a path gets can be run, or is plain text.
use cs455_project.Prelude.{
  chars, ℕ, String, List, [], ◌∷◌, map, ◌≡◌, refl, ◌⊎◌, inl, inr, Bool-cases, Option-cases,
  value_error, ok, err,
}
use cs455_project.Changes.{same_text}
use cs455_project.Runtime.{
  Language, python, nodejs, cpp, value, runtimes, get_runtime_config, last_part, lower,
  extension_map, find_extension, language_of_chars, get_language_from_file_path, language_for_path,
  plaintext,
}

find_extension-cases :
    (extension : List ℕ) (known : List (List ℕ × Language))
    → ((language : Language) × (find_extension extension known ≡ ok (value language)))
      ⊎ (find_extension extension known ≡ err value_error)
find_extension-cases extension [] = inr refl
find_extension-cases extension ((k, language) ∷ others) =
    elim (Bool-cases (same_text k extension)) [
      | inl e ↦ inl (language, rw e refl)
      | inr e ↦ rw (language_of_chars, e) (find_extension-cases extension others)
    ]

language_of_chars-cases :
    (path : List ℕ)
    → ((language : Language) × (language_of_chars path ≡ ok (value language)))
      ⊎ (language_of_chars path ≡ err value_error)
language_of_chars-cases [] = inl (python, refl)
language_of_chars-cases (c ∷ cs) = elim (Option-cases (last_part (c ∷ cs))) [
  | inl e ↦ inr (rw (language_of_chars, e) refl)
  | inr (extension, e) ↦
      rw (language_of_chars, e) (find_extension-cases (map lower extension) extension_map)
]

runs : (language : Language) → get_runtime_config (value language) ≡ ok (runtimes language)
unfolding get_runtime_config
runs python = refl
runs nodejs = refl
runs cpp = refl

-- Whatever its path, a file's language is plain text, or one that `get_runtime_config` finds a runtime for.
pub language_for_path_runs :
    (path : String)
    → (language_for_path path ≡ plaintext)
      ⊎ ((language : Language) × (get_runtime_config (language_for_path path)
            ≡ ok (runtimes language)))
unfolding language_for_path get_language_from_file_path
language_for_path_runs path = elim (language_of_chars-cases (chars path)) [
  | inl (language, e) ↦
      inr (language, rw (language_for_path, get_language_from_file_path, e) (runs language))
  | inr e ↦ inl (rw (language_for_path, get_language_from_file_path, e) refl)
]
