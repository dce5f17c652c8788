-- ===== src/Agent/Tools.antt =====
-- The handlers of the tools, and `run_tool`: the second part of backend/app/agent/tools.py.
use cs455_project.Prelude.{
  ℕ, Bool, true, false, ◌&&◌, ◌||◌, not, Option, none, some, List, [], ◌∷◌, String, chars, ◌==◌,
  ltb, length, take, where_, map, if◌then◌else◌, attribute_error, Result, ok, err, row,
}
use text.Mathlib.Text.{◌==◌ as str_eq}
use cs455_project.Awareness.{Item, field_of}
use cs455_project.Changes.{same_text}
use cs455_project.Runtime.{lower}
use cs455_project.Database.{File, Execution}
use cs455_project.Agent.{
  Tool, list_files, read_file, get_last_execution, check_syntax, propose_edit, mode_tools,
  find_tool, AgentContext, Outside, Output, not_available, invalid_json, tool_error, bad_arguments,
  files, content, not_run, last_run, syntax, only_python, recorded, Ran, done, refused, mistyped,
  raised, count_from, replace_first, accepts_keys, project_file, file_text,
}

-- `order_by(queued_at.desc(), id.desc()).limit(1)` of the file's runs
abbrev pub later_run : Execution → Option Execution → Execution
later_run e none = e
later_run e (some f) =
    if ltb e.queued_at f.queued_at || (e.queued_at == f.queued_at && ltb e.id f.id) then f else e

abbrev pub last_execution : ℕ → List Execution → Option Execution
last_execution file_id [] = none
last_execution file_id (e ∷ es) =
    let later = last_execution file_id es in
    if e.file_id == file_id then some (later_run e later) else later

module _ {J : Type 0} (outside : Outside J) where
  abbrev pub mark_read : File → AgentContext → AgentContext
  mark_read file ctx = record ctx { files_read = file.id ∷ ctx.files_read }

  abbrev pub run_read_file : AgentContext → List (Item J) → Ran
  run_read_file ctx args = elim (project_file outside ctx (field_of "file_id" args)) [
    | none ↦ refused
    | some file ↦ elim (file_text outside ctx file) [
      | err e ↦ raised e
      | ok text ↦
          done (mark_read file ctx)
            (content file (take ctx.max_file_chars text) (ltb ctx.max_file_chars (length text)))
    ]
  ]

  abbrev pub show_last : AgentContext → Option File → Ran
  show_last ctx none = refused
  show_last ctx (some file) = elim (last_execution file.id ctx.db.executions) [
    | none ↦ done ctx (not_run file)
    | some e ↦ done ctx (last_run file e)
  ]

  -- The file of the context, where the model gives none.
  abbrev pub active_file : AgentContext → Option File
  active_file ctx = elim ctx.active_file_id [
    | none ↦ none
    | some fid ↦ elim (row (λ f. f.id) fid ctx.db.files) [
      | none ↦ none
      | some file ↦ if file.project_id == ctx.project_id then some file else none
    ]
  ]

  abbrev pub run_get_last_execution : AgentContext → List (Item J) → Ran
  run_get_last_execution ctx args = elim (field_of "file_id" args) [
    | none ↦ show_last ctx (active_file ctx)
    | some given ↦
        show_last ctx
          (if outside.is_null given then active_file ctx else project_file outside ctx (some given))
  ]

  abbrev pub text_of : Option J → Option (List ℕ)
  text_of none = none
  text_of (some given) = outside.as_text given

  -- An argument with a default.
  abbrev pub text_or : List ℕ → Option J → Option (List ℕ)
  text_or default none = some default
  text_or default (some given) = outside.as_text given

  -- `language.lower()` of a value that is no text is an AttributeError.
  abbrev pub run_check_syntax : AgentContext → List (Item J) → Ran
  run_check_syntax ctx args = elim (text_or (chars "python") (field_of "language" args)) [
    | none ↦ raised attribute_error
    | some language ↦
        if same_text (map lower language) (chars "python")
        then elim (text_of (field_of "code" args)) [
          | none ↦ mistyped
          | some code ↦ done ctx (syntax (outside.parses code))
        ]
        else done ctx only_python
  ]

  -- The end of `propose_edit`, from the replaced text on.
  abbrev pub record_proposal :
      AgentContext → File → (text original proposed : List ℕ) → Option (List ℕ) → Ran
  record_proposal ctx file text original proposed explanation =
      let new_text = replace_first original proposed text in
      let fine = not (str_eq file.language "python") || outside.parses new_text in
      done
        (record ctx {
          proposal = some (record {
            file_id = file.id;
            original_text = original;
            proposed_text = proposed;
            explanation = explanation;
            syntax_ok = fine;
          });
        })
        (recorded fine)

  -- From the file's text on: an argument that is no text is a TypeError where it is used.
  unfoldable pub propose :
      AgentContext
      → File
      → (text : List ℕ) → (original proposed explanation : Option (List ℕ)) → Ran
  propose ctx file text none proposed explanation = mistyped
  propose ctx file text (some original) none explanation =
      if count_from original 0 text == 1 then mistyped else refused
  propose ctx file text (some original) (some proposed) explanation =
      if count_from original 0 text == 1
      then record_proposal ctx file text original proposed explanation
      else refused

  abbrev pub is_missing : Option J → Bool
  is_missing none = true
  is_missing (some given) = outside.is_falsy given

  abbrev pub run_propose_edit : AgentContext → List (Item J) → Ran
  run_propose_edit ctx args = elim (project_file outside ctx (field_of "file_id" args)) [
    | none ↦ refused
    | some file ↦
        if is_missing (field_of "original" args)
        then refused
        else elim (file_text outside ctx file) [
          | err e ↦ raised e
          | ok text ↦
              propose ctx file text (text_of (field_of "original" args))
                (text_of (field_of "proposed" args)) (text_or [] (field_of "explanation" args))
        ]
  ]

  -- `await handler(ctx, **args)`
  unfoldable pub run_handler : Tool → AgentContext → List (Item J) → Ran
  run_handler list_files ctx args =
      if accepts_keys outside [] [] args
      then done ctx (files (where_ (λ (f : File). f.project_id == ctx.project_id) ctx.db.files))
      else mistyped
  run_handler read_file ctx args =
      if accepts_keys outside ("file_id" ∷ []) [] args then run_read_file ctx args else mistyped
  run_handler get_last_execution ctx args =
      if accepts_keys outside [] ("file_id" ∷ []) args
      then run_get_last_execution ctx args
      else mistyped
  run_handler check_syntax ctx args =
      if accepts_keys outside ("code" ∷ []) ("language" ∷ []) args
      then run_check_syntax ctx args
      else mistyped
  run_handler propose_edit ctx args =
      if accepts_keys outside ("file_id" ∷ "original" ∷ "proposed" ∷ []) ("explanation" ∷ []) args
      then run_propose_edit ctx args
      else mistyped

  -- What `run_tool` gives, with the context that the handler leaves.
  abbrev pub caught : AgentContext → Ran → Result (AgentContext × Output × Bool)
  caught ctx (done after output) = ok (after, output, true)
  caught ctx refused = ok (ctx, tool_error, false)
  caught ctx mistyped = ok (ctx, bad_arguments, false)
  caught ctx (raised e) = err e

  unfoldable pub run_tool :
      AgentContext → String → String → String → Result (AgentContext × Output × Bool)
  run_tool ctx mode name raw_args = elim (find_tool name (mode_tools mode)) [
    | none ↦ ok (ctx, not_available, false)
    | some tool ↦ elim (if str_eq raw_args "" then some [] else outside.loads raw_args) [
      | none ↦ ok (ctx, invalid_json, false)
      | some args ↦ caught ctx (run_handler tool ctx args)
    ]
  ]
