-- ===== src/Agent/Proposals.antt =====
-- What the agent may propose.
use mathlib.Core.Path.{subst}
use cs455_project.Prelude.{
  ℕ, suc, true, Option, none, some, List, [], ◌∷◌, ◌++◌, ◌==◌, eq_of_==, length, drop,
  if◌then◌else◌, ok, ◌≡◌, chars, map, refl, sym, ◌∙◌, key-row, ap, ◌⊎◌, inl, inr, Bool-cases,
  Option-cases, Result-cases, arith,
}
use cs455_project.Awareness.{Item, field_of}
use cs455_project.Database.{File, file_row}
use cs455_project.Agent.{
  Tool, list_files, read_file, get_last_execution, check_syntax, propose_edit, Proposal,
  AgentContext, Outside, Ran, done, refused, mistyped, raised, starts_with, count_from,
  replace_first, accepts_keys, project_file, file_text,
}
use cs455_project.Agent.Tools.{
  run_handler, run_read_file, show_last, last_execution, run_get_last_execution, active_file,
  run_check_syntax, run_propose_edit, propose, is_missing, text_of, text_or,
}
use cs455_project.Changes.{same_text}
use cs455_project.Runtime.{lower}

prefix_lem : (s text : List ℕ) → starts_with s text ≡ true → text ≡ s ++ drop (length s) text
prefix_lem [] text h = refl
prefix_lem (c ∷ cs) [] h = ground arith
prefix_lem (c ∷ cs) (d ∷ ds) h = ground (arith, prefix_lem cs ds, eq_of_== c d)

-- Where the text stands for the first time.
abbrev pub Stands : (s t text : List ℕ) → Type 0
Stands s t text =
    (before : List ℕ) × (after : List ℕ) × (text ≡ before ++ (s ++ after))
    × (replace_first s t text ≡ before ++ (t ++ after))

count-Stands : (s t text : List ℕ) (n : ℕ) → count_from s 0 text ≡ suc n → Stands s t text
count-Stands s t [] n h = ground (arith, h)
count-Stands s t (c ∷ cs) n h = elim (Bool-cases (starts_with s (c ∷ cs))) [
  | inl e ↦ ([], drop (length s) (c ∷ cs), prefix_lem s (c ∷ cs) e, rw e refl)
  | inr e ↦
      let (before, after, whole, replaced) = count-Stands s t cs n (ground (arith, e, h)) in
      (c ∷ before, after, ap (λ l. c ∷ l) whole, rw e (ap (λ l. c ∷ l) replaced))
]

module _ {J : Type 0} (outside : Outside J) (start : AgentContext) where
  -- The file of that id is one of the project, its text has the original exactly once, and the proposal replaces it.
  abbrev pub IsUnique : Proposal → Type 0
  IsUnique p =
      (file : File) × (text : List ℕ) × (file_row start.db p.file_id ≡ some file)
      × (file.project_id ≡ start.project_id)
      × (file_text outside start file ≡ ok text)
      × (count_from p.original_text 0 text ≡ 1)
      × Stands p.original_text p.proposed_text text

  -- The context at the start with another proposal and other files read.
  abbrev pub Later : Option Proposal → List ℕ → AgentContext
  Later proposal files_read = record start { proposal = proposal; files_read = files_read }

  -- The proposal is the old one, or a new one that the condition allows.
  abbrev pub Proposes : Type 0 → (old new : Option Proposal) → Type 0
  Proposes allowed old new = (new ≡ old) ⊎ (allowed × (p : Proposal) × (new ≡ some p) × IsUnique p)

  abbrev pub Kept : Type 0 → Option Proposal → AgentContext → Type 0
  Kept allowed old ctx =
      (new : Option Proposal) × (read : List ℕ) × (ctx ≡ Later new read) × Proposes allowed old new

  abbrev pub Good : Type 0 → Option Proposal → Ran → Type 0
  Good allowed old (done ctx output) = Kept allowed old ctx
  Good allowed old refused = Unit
  Good allowed old mistyped = Unit
  Good allowed old (raised e) = Unit

  same_project :
      (old : Option Proposal) (read : List ℕ) (given : Option J) (file : File)
      → project_file outside (Later old read) given ≡ some file
      → file.project_id ≡ start.project_id
  unfolding project_file
  same_project old read none file h = ground (arith, h)
  same_project old read (some given) file h = elim (Option-cases (outside.as_int given)) [
    | inl e ↦ ground (arith, e, h)
    | inr (fid, e) ↦ elim (Option-cases (file_row start.db fid)) [
      | inl f ↦ ground (arith, e, f, h)
      | inr (found, f) ↦ ground (arith, e, f, h)
    ]
  ]

  is_row :
      (old : Option Proposal) (read : List ℕ) (given : Option J) (file : File)
      → project_file outside (Later old read) given ≡ some file
      → file_row start.db file.id ≡ some file
  unfolding project_file
  is_row old read none file h = ground (arith, h)
  is_row old read (some given) file h = elim (Option-cases (outside.as_int given)) [
    | inl e ↦ ground (arith, e, h)
    | inr (fid, e) ↦ elim (Option-cases (file_row start.db fid)) [
      | inl f ↦ ground (arith, e, f, h)
      | inr (found, f) ↦
          let same : found ≡ file = ground (arith, e, f, h) in
          let stored : file_row start.db fid ≡ some file = f ∙ ap some same in
          subst (λ i. file_row start.db i ≡ some file)
            (sym (key-row (λ (x : File). x.id) fid start.db.files file stored)) stored
    ]
  ]

  stays :
      (old : Option Proposal) (read : List ℕ) (file : File) (text : List ℕ)
      → file_text outside (Later old read) file ≡ ok text
      → file_text outside start file ≡ ok text
  unfolding file_text
  stays old read file text h = h

  propose-Good :
      (allowed : Type 0) (may : allowed) (old : Option Proposal) (read : List ℕ) (file : File)
      (text : List ℕ) (original proposed explanation : Option (List ℕ))
      → file_row start.db file.id ≡ some file
      → file.project_id ≡ start.project_id
      → file_text outside start file ≡ ok text
      → Good allowed old (propose outside (Later old read) file text original proposed explanation)
  unfolding propose
  propose-Good allowed may old read file text none proposed explanation found inside reads = tt
  propose-Good allowed may old read file text (some original) none explanation found inside reads =
      elim (Bool-cases (count_from original 0 text == 1)) [ inl e ↦ rw e tt | inr e ↦ rw e tt ]
  propose-Good allowed may old read file text (some original) (some proposed) explanation found
        inside reads =
      elim (Bool-cases (count_from original 0 text == 1)) [
        | inl e ↦
            let once = eq_of_== (count_from original 0 text) 1 e in
            rw e (
              _,
              read,
              refl,
              inr (
                may,
                _,
                refl,
                (
                  file,
                  text,
                  found,
                  inside,
                  reads,
                  once,
                  count-Stands original proposed text 0 once,
                ),
              ),
            )
        | inr e ↦ rw e tt
      ]

  -- A handler that leaves the context as it was.
  pub kept :
      (allowed : Type 0) (old : Option Proposal) (read : List ℕ) → Kept allowed old (Later old read)
  kept allowed old read = (old, read, refl, inl refl)

  read_file-Good :
      (allowed : Type 0) (old : Option Proposal) (read : List ℕ) (args : List (Item J))
      → Good allowed old (run_read_file outside (Later old read) args)
  read_file-Good allowed old read args =
      elim (Option-cases (project_file outside (Later old read) (field_of "file_id" args))) [
        | inl e ↦ rw (Good, run_read_file, e) tt
        | inr (file, e) ↦ elim (Result-cases (file_text outside (Later old read) file)) [
          | inl (text, f) ↦ rw (Good, run_read_file, e, f) (old, file.id ∷ read, refl, inl refl)
          | inr (failure, f) ↦ rw (Good, run_read_file, e, f) tt
        ]
      ]

  show_last-Good :
      (allowed : Type 0) (old : Option Proposal) (read : List ℕ) (file : Option File)
      → Good allowed old (show_last outside (Later old read) file)
  show_last-Good allowed old read none = tt
  show_last-Good allowed old read (some file) =
      elim (Option-cases (last_execution file.id start.db.executions)) [
        | inl e ↦ rw (Good, show_last, e) (kept allowed old read)
        | inr (run, e) ↦ rw (Good, show_last, e) (kept allowed old read)
      ]

  get_last_execution-Good :
      (allowed : Type 0) (old : Option Proposal) (read : List ℕ) (args : List (Item J))
      → Good allowed old (run_get_last_execution outside (Later old read) args)
  get_last_execution-Good allowed old read args = elim (Option-cases (field_of "file_id" args)) [
    | inl e ↦
        rw (Good, run_get_last_execution, e)
          (show_last-Good allowed old read (active_file outside (Later old read)))
    | inr (given, e) ↦
        rw (Good, run_get_last_execution, e)
          (show_last-Good allowed old read (
            if outside.is_null given
            then active_file outside (Later old read)
            else project_file outside (Later old read) (some given)))
  ]

  check_syntax-Good :
      (allowed : Type 0) (old : Option Proposal) (read : List ℕ) (args : List (Item J))
      → Good allowed old (run_check_syntax outside (Later old read) args)
  check_syntax-Good allowed old read args =
      elim (Option-cases (text_or outside (chars "python") (field_of "language" args))) [
        | inl e ↦ rw (Good, run_check_syntax, e) tt
        | inr (language, e) ↦ elim (Bool-cases (same_text (map lower language) (chars "python"))) [
          | inl f ↦ elim (Option-cases (text_of outside (field_of "code" args))) [
            | inl g ↦ rw (Good, run_check_syntax, e, f, g) tt
            | inr (code, g) ↦ rw (Good, run_check_syntax, e, f, g) (kept allowed old read)
          ]
          | inr f ↦ rw (Good, run_check_syntax, e, f) (kept allowed old read)
        ]
      ]

  propose_edit-Good :
      (allowed : Type 0) (may : allowed) (old : Option Proposal) (read : List ℕ)
      (args : List (Item J))
      → Good allowed old (run_propose_edit outside (Later old read) args)
  propose_edit-Good allowed may old read args =
      elim (Option-cases (project_file outside (Later old read) (field_of "file_id" args))) [
        | inl e ↦ rw (Good, run_propose_edit, e) tt
        | inr (file, e) ↦ elim (Bool-cases (is_missing outside (field_of "original" args))) [
          | inl f ↦ rw (Good, run_propose_edit, e, f) tt
          | inr f ↦ elim (Result-cases (file_text outside (Later old read) file)) [
            | inl (text, g) ↦
                rw (Good, run_propose_edit, e, f, g)
                  (propose-Good allowed may old read file text
                    (text_of outside (field_of "original" args))
                    (text_of outside (field_of "proposed" args))
                    (text_or outside [] (field_of "explanation" args))
                    (is_row old read (field_of "file_id" args) file e)
                    (same_project old read (field_of "file_id" args) file e)
                    (stays old read file text g))
            | inr (failure, g) ↦ rw (Good, run_propose_edit, e, f, g) tt
          ]
        ]
      ]

  pub handler-Good :
      (tool : Tool) (old : Option Proposal) (read : List ℕ) (args : List (Item J))
      → Good (tool ≡ propose_edit) old (run_handler outside tool (Later old read) args)
  unfolding run_handler
  handler-Good list_files old read args = elim (Bool-cases (accepts_keys outside [] [] args)) [
    | inl e ↦ rw (Good, run_handler, e) (kept (list_files ≡ propose_edit) old read)
    | inr e ↦ rw (Good, run_handler, e) tt
  ]
  handler-Good read_file old read args =
      elim (Bool-cases (accepts_keys outside ("file_id" ∷ []) [] args)) [
        | inl e ↦
            rw (Good, run_handler, e) (read_file-Good (read_file ≡ propose_edit) old read args)
        | inr e ↦ rw (Good, run_handler, e) tt
      ]
  handler-Good get_last_execution old read args =
      elim (Bool-cases (accepts_keys outside [] ("file_id" ∷ []) args)) [
        | inl e ↦
            rw (Good, run_handler, e)
              (get_last_execution-Good (get_last_execution ≡ propose_edit) old read args)
        | inr e ↦ rw (Good, run_handler, e) tt
      ]
  handler-Good check_syntax old read args =
      elim (Bool-cases (accepts_keys outside ("code" ∷ []) ("language" ∷ []) args)) [
        | inl e ↦
            rw (Good, run_handler, e)
              (check_syntax-Good (check_syntax ≡ propose_edit) old read args)
        | inr e ↦ rw (Good, run_handler, e) tt
      ]
  handler-Good propose_edit old read args =
      elim (Bool-cases (
        accepts_keys outside ("file_id" ∷ "original" ∷ "proposed" ∷ []) ("explanation" ∷ [])
          args)) [
            | inl e ↦
                rw (Good, run_handler, e)
                  (propose_edit-Good (propose_edit ≡ propose_edit) refl old read args)
            | inr e ↦ rw (Good, run_handler, e) tt
          ]
