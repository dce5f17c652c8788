-- ===== src/Agent.antt =====
-- The tools of the coding agent: backend/app/agent/tools.py. A tool's answer is kept as data where
-- the program writes a text for the model. JSON and `ast` are arguments.
pub mod Tools
pub mod Loop
pub mod Proposals
pub mod Unique
use cs455_project.Prelude.{
  ℕ, zero, suc, ◌+◌, ◌-◌, Bool, true, false, ◌&&◌, ◌||◌, not, Option, none, some, List, [], ◌∷◌,
  ◌++◌, String, ◌==◌, ltb, leb, length, drop, any, where_, map, if◌then◌else◌, Failure, Result, ok,
  err,
}
use text.Mathlib.Text.{◌==◌ as str_eq}
use cs455_project.Awareness.{Item, field_of}
use cs455_project.Database.{Db, File, Execution, file_row}

pub data Tool : Type 0 where
  list_files read_file get_last_execution check_syntax propose_edit : Tool

abbrev pub name_of : Tool → String
name_of list_files = "list_files"
name_of read_file = "read_file"
name_of get_last_execution = "get_last_execution"
name_of check_syntax = "check_syntax"
name_of propose_edit = "propose_edit"

abbrev pub tools : List Tool
tools = list_files ∷ read_file ∷ get_last_execution ∷ check_syntax ∷ propose_edit ∷ []

-- `MODE_TOOLS.get(mode, list(TOOLS))`
abbrev pub mode_tools : String → List Tool
mode_tools mode =
    if str_eq mode "explain"
    then list_files ∷ read_file ∷ get_last_execution ∷ []
    else if str_eq mode "review"
    then list_files ∷ read_file ∷ get_last_execution ∷ check_syntax ∷ []
    else tools

abbrev pub find_tool : String → List Tool → Option Tool
find_tool name [] = none
find_tool name (t ∷ ts) = if str_eq name (name_of t) then some t else find_tool name ts

-- The explanation is kept whatever it is, `none` if it is no text.
pub record Proposal : Type 0 where
  pub file_id : ℕ
  pub original_text : List ℕ
  pub proposed_text : List ℕ
  pub explanation : Option (List ℕ)
  pub syntax_ok : Bool

-- `files_read` is a set that nothing reads in the order of its elements.
pub record AgentContext : Type 0 where
  pub db : Db
  pub project_id : ℕ
  pub active_file_id : Option ℕ
  pub max_file_chars : ℕ
  pub proposal : Option Proposal
  pub active_text_override : Option (List ℕ)
  pub files_read : List ℕ

-- What the program uses of a JSON value, `ast.parse`, and `get_file_text` for the context's project.
pub record Outside (J : Type 0) : Type 0 where
  pub loads : String → Option (List (Item J))
  pub as_int : J → Option ℕ
  pub as_text : J → Option (List ℕ)
  pub is_null : J → Bool
  pub is_falsy : J → Bool
  pub parses : List ℕ → Bool
  pub get_file_text : ℕ → Result (List ℕ)

-- What a tool tells the model.
pub data Output : Type 0 where
  not_available : Output
  invalid_json : Output
  tool_error : Output
  bad_arguments : Output
  files : List File → Output
  content : File → List ℕ → (truncated : Bool) → Output
  not_run : File → Output
  last_run : File → Execution → Output
  syntax : Bool → Output
  only_python : Output
  recorded : (syntax_ok : Bool) → Output

-- How a handler ends: with an output and the context, with a ToolError, with a TypeError, or with an
-- exception that `run_tool` does not catch.
pub data Ran : Type 0 where
  done : AgentContext → Output → Ran
  refused : Ran
  mistyped : Ran
  raised : Failure → Ran

-- `text.startswith(s)`
abbrev pub starts_with : List ℕ → List ℕ → Bool
starts_with [] text = true
starts_with (c ∷ cs) [] = false
starts_with (c ∷ cs) (d ∷ ds) = c == d && starts_with cs ds

-- `text.count(s)` of a text that is not empty, from where `skip` characters belong to the last match.
abbrev pub count_from : List ℕ → (skip : ℕ) → List ℕ → ℕ
count_from s skip [] = 0
count_from s (suc skip) (c ∷ cs) = count_from s skip cs
count_from s zero (c ∷ cs) =
    let matched = count_from s (length s - 1) cs in
    let passed = count_from s 0 cs in if starts_with s (c ∷ cs) then suc matched else passed

-- `text.replace(s, t, 1)`
abbrev pub replace_first : (s t : List ℕ) → List ℕ → List ℕ
replace_first s t [] = []
replace_first s t (c ∷ cs) =
    let later = replace_first s t cs in
    if starts_with s (c ∷ cs) then t ++ drop (length s) (c ∷ cs) else c ∷ later

module _ {J : Type 0} (outside : Outside J) where
  -- The keyword arguments that a handler takes.
  abbrev pub has_key : String → List (Item J) → Bool
  has_key key args = any (λ (i : Item J). str_eq i.key key) args

  abbrev pub all_keys : (required : List String) → List (Item J) → Bool
  all_keys [] args = true
  all_keys (key ∷ keys) args = has_key key args && all_keys keys args

  abbrev pub known_keys : (known : List String) → List (Item J) → Bool
  known_keys known [] = true
  known_keys known (i ∷ args) = any (str_eq i.key) known && known_keys known args

  abbrev pub accepts_keys : (required optional : List String) → List (Item J) → Bool
  accepts_keys required optional args =
      all_keys required args && known_keys (required ++ optional) args

  -- `_project_file`: `none` is a ToolError.
  unfoldable pub project_file : AgentContext → Option J → Option File
  project_file ctx none = none
  project_file ctx (some given) = elim (outside.as_int given) [
    | none ↦ none
    | some fid ↦ elim (file_row ctx.db fid) [
      | none ↦ none
      | some file ↦ if file.project_id == ctx.project_id then some file else none
    ]
  ]

  abbrev pub is_active_file : AgentContext → ℕ → Bool
  is_active_file ctx i = elim ctx.active_file_id [ none ↦ false | some active ↦ active == i ]

  unfoldable pub file_text : AgentContext → File → Result (List ℕ)
  file_text ctx file = elim ctx.active_text_override [
    | none ↦ outside.get_file_text file.id
    | some text ↦ if is_active_file ctx file.id then ok text else outside.get_file_text file.id
  ]
