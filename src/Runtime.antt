-- ===== src/Runtime.antt =====
-- Which language a file has and how it is run: backend/app/runtime/registry.py without the settings
-- for a debugger. Python's `lower` is written out for the ASCII letters; no other character has one of
-- the compared letters as its lower case.
pub mod Known
use cs455_project.Prelude.{
  String, chars, ℕ, ◌+◌, Bool, true, false, ◌&&◌, Option, none, some, List, [], ◌∷◌, ◌==◌, leb, map,
  if◌then◌else◌, value_error, Result, ok, err,
}
use cs455_project.Changes.{same_text}

pub data Language : Type 0 where
  python nodejs cpp : Language

abbrev pub value : Language → String
value python = "python"
value nodejs = "nodejs"
value cpp = "cpp"

abbrev pub lower : ℕ → ℕ
lower c = if leb 65 c && leb c 90 then c + 32 else c

pub record RuntimeConfig : Type 0 where
  pub language : Language
  pub image : String
  pub entrypoint : List String
  pub build_command : Option (List String)
  pub file_extension : String

-- `RUNTIMES`
abbrev pub runtimes : Language → RuntimeConfig
runtimes python = record {
  language = python;
  image = "concord-sandbox:latest";
  entrypoint = "python" ∷ "/workspace/main.py" ∷ [];
  build_command = none;
  file_extension = ".py";
}
runtimes nodejs = record {
  language = nodejs;
  image = "concord-sandbox-nodejs:latest";
  entrypoint = "node" ∷ "/workspace/main.js" ∷ [];
  build_command = none;
  file_extension = ".js";
}
runtimes cpp = record {
  language = cpp;
  image = "concord-sandbox-cpp:latest";
  entrypoint = "/workspace/main.out" ∷ [];
  build_command = some (
      "g++" ∷ "-std=c++17" ∷ "-O2" ∷ "-Wall" ∷ "-o" ∷ "/workspace/main.out" ∷ "/workspace/main.cpp"
      ∷ []);
  file_extension = ".cpp";
}

-- `Language(name)`
abbrev pub language_of : List ℕ → Option Language
language_of name =
    if same_text name (chars "python")
    then some python
    else if same_text name (chars "nodejs")
    then some nodejs
    else if same_text name (chars "cpp")
    then some cpp
    else none

unfoldable pub get_runtime_config : String → Result RuntimeConfig
get_runtime_config language = elim (language_of (map lower (chars language))) [
  | none ↦ err value_error
  | some lang ↦ ok (runtimes lang)
]

-- `path.split(".")[-1]`, `none` if there is no dot.
abbrev pub last_part : List ℕ → Option (List ℕ)
last_part [] = none
last_part (c ∷ cs) = elim (last_part cs) [
  | some part ↦ some part
  | none ↦ if c == 46 then some cs else none
]

-- `extension_map`
abbrev pub extension_map : List (List ℕ × Language)
extension_map =
    (chars "py", python)
    ∷ (chars "js", nodejs)
    ∷ (chars "cpp", cpp)
    ∷ (chars "c", cpp)
    ∷ (chars "cc", cpp)
    ∷ (chars "cxx", cpp)
    ∷ []

abbrev pub find_extension : List ℕ → List (List ℕ × Language) → Result String
find_extension extension [] = err value_error
find_extension extension ((known, language) ∷ others) =
    let rest = find_extension extension others in
    if same_text known extension then ok (value language) else rest

abbrev pub language_of_chars : List ℕ → Result String
language_of_chars [] = ok (value python)
language_of_chars (c ∷ cs) = elim (last_part (c ∷ cs)) [
  | none ↦ err value_error
  | some extension ↦ find_extension (map lower extension) extension_map
]

unfoldable pub get_language_from_file_path : String → Result String
get_language_from_file_path path = language_of_chars (chars path)

abbrev pub plaintext : String
plaintext = "plaintext"

-- `get_language_from_file_path` raises nothing but a ValueError.
unfoldable pub language_for_path : String → String
language_for_path path = elim (get_language_from_file_path path) [
  | ok language ↦ language
  | err e ↦ plaintext
]
