-- ===== src/Agent/Unique.antt =====
-- What the agent's loop may leave as a proposal.
use mathlib.Core.Path.{subst}
use cs455_project.Prelude.{
  ℕ, zero, suc, Bool, false, Option, none, some, List, [], ◌∷◌, String, if◌then◌else◌, Result, ok,
  err, ◌≡◌, refl, sym, ap, inl, inr, Bool-cases, Option-cases, Result-cases, Among, List-cases,
  arith,
}
use text.Mathlib.Text.{◌==◌ as str_eq}
use cs455_project.Agent.{
  Tool, propose_edit, name_of, mode_tools, find_tool, Proposal, AgentContext, Outside, Output, Ran,
  done, refused, mistyped, raised, not_available, invalid_json, tool_error, bad_arguments,
}
use cs455_project.Agent.Tools.{run_handler, caught, run_tool}
use cs455_project.Agent.Loop.{
  ToolCall, Chat, Run, AgentResult, Provider, after_call, count_tokens, say, finish, begin,
  run_calls, run_steps, run_agent,
}
use cs455_project.Agent.Proposals.{Later, Proposes, Kept, Good, kept, handler-Good}

found_tool : (name : String) (ts : List Tool) (t : Tool) → find_tool name ts ≡ some t → Among t ts
found_tool name [] t h = ground (arith, h)
found_tool name (x ∷ xs) t h = elim (Bool-cases (str_eq name (name_of x))) [
  | inl e ↦ inl (ground (arith, e, h))
  | inr e ↦ inr (found_tool name xs t (ground (arith, e, h)))
]

module _ {J : Type 0} (outside : Outside J) (start : AgentContext) where
  allowing :
      (A B : Type 0) (old : Option Proposal) (ctx : AgentContext)
      → (A → B)
      → Kept outside start A old ctx
      → Kept outside start B old ctx
  allowing A B old ctx f (new, read, e, inl same) = (new, read, e, inl same)
  allowing A B old ctx f (new, read, e, inr (may, p, q, r)) = (new, read, e, inr (f may, p, q, r))

  onwards :
      (A : Type 0) (old mid new : Option Proposal)
      → Proposes outside start A old mid
      → Proposes outside start A mid new
      → Proposes outside start A old new
  onwards A old mid new first (inl same) =
      subst (λ p. Proposes outside start A old p) (sym same) first
  onwards A old mid new first (inr p) = inr p

  abbrev called_context : Result (AgentContext × Output × Bool) → AgentContext
  called_context (ok called) = called.0
  called_context (err e) = start

  abbrev run_context : Result Run → AgentContext
  run_context (ok run) = run.ctx
  run_context (err e) = start

  abbrev proposal_of : Result (AgentResult × Run) → Option Proposal
  proposal_of (ok finished) = finished.0.proposal
  proposal_of (err e) = none

  unchanged :
      (A : Type 0) (old : Option Proposal) (read : List ℕ) (output : Output) (fine : Bool)
      (called : AgentContext × Output × Bool)
      → ok (Later outside start old read, output, fine) ≡ ok called
      → Kept outside start A old called.0
  unchanged A old read output fine called h =
      subst (λ c. Kept outside start A old c) (ap called_context h) (kept outside start A old read)

  settled :
      (A : Type 0) (old : Option Proposal) (read : List ℕ) (ran : Ran)
      (called : AgentContext × Output × Bool)
      → Good outside start A old ran
      → caught outside (Later outside start old read) ran ≡ ok called
      → Kept outside start A old called.0
  settled A old read (done ctx output) called good h =
      subst (λ c. Kept outside start A old c) (ap called_context h) good
  settled A old read refused called good h = unchanged A old read tool_error false called h
  settled A old read mistyped called good h = unchanged A old read bad_arguments false called h
  settled A old read (raised e) called good h = ground (arith, h)

  module _ (provider : Provider) (mode : String) where
    -- The mode has the tool that proposes.
    abbrev pub IsAllowed : Type 0
    IsAllowed = Among propose_edit (mode_tools mode)

    run_tool-Kept :
        (old : Option Proposal) (read : List ℕ) (name arguments : String)
        (called : AgentContext × Output × Bool)
        → run_tool outside (Later outside start old read) mode name arguments ≡ ok called
        → Kept outside start IsAllowed old called.0
    unfolding run_tool
    run_tool-Kept old read name arguments called h =
        elim (Option-cases (find_tool name (mode_tools mode))) [
          | inl e ↦ unchanged IsAllowed old read not_available false called (ground (arith, e, h))
          | inr (tool, e) ↦
              elim (Option-cases
                (if str_eq arguments "" then some [] else outside.loads arguments)) [
                  | inl f ↦
                      unchanged IsAllowed old read invalid_json false called
                        (ground (arith, e, f, h))
                  | inr (args, f) ↦
                      let g : caught outside (Later outside start old read)
                            (run_handler outside tool (Later outside start old read) args)
                          ≡ ok called =
                        ground (arith, e, f, h) in
                      allowing (tool ≡ propose_edit) IsAllowed old called.0
                        (λ same.
                          subst (λ t. Among t (mode_tools mode)) same
                            (found_tool name (mode_tools mode) tool e))
                        (settled (tool ≡ propose_edit) old read
                          (run_handler outside tool (Later outside start old read) args) called
                          (handler-Good outside start tool old read args) g)
                ]
        ]

    run_calls-Kept :
        (tcs : List ToolCall) (old : Option Proposal) (run after : Run)
        → Kept outside start IsAllowed old run.ctx
        → run_calls outside provider mode tcs run ≡ ok after
        → Kept outside start IsAllowed old after.ctx
    unfolding run_calls
    run_calls-Kept [] old run after k h =
        subst (λ c. Kept outside start IsAllowed old c) (ap run_context h) k
    run_calls-Kept (tc ∷ tcs) old run after (mid, read, here, first) h =
        elim (Result-cases (run_tool outside run.ctx mode tc.name tc.arguments)) [
          | inr (failure, e) ↦ ground (arith, e, h)
          | inl (called, e) ↦
              let e1 : run_tool outside (Later outside start mid read) mode tc.name tc.arguments
                  ≡ ok called =
                subst (λ c. run_tool outside c mode tc.name tc.arguments ≡ ok called) here e in
              let (new, more, there, second) =
                run_tool-Kept mid read tc.name tc.arguments called e1 in
              run_calls-Kept tcs old (after_call outside provider mode tc called run) after
                (new, more, there, onwards IsAllowed old mid new first second)
                (ground (arith, e, h))
        ]

    -- What the loop ends with is what the context has.
    finished-Proposes :
        (old : Option Proposal) (answer : Option String) (run : Run) (finished : AgentResult × Run)
        → Kept outside start IsAllowed old run.ctx
        → ok (finish outside provider mode answer run) ≡ ok finished
        → Proposes outside start IsAllowed old finished.0.proposal
    finished-Proposes old answer run finished (new, read, here, proposes) h =
        subst (λ p. Proposes outside start IsAllowed old p) (ap proposal_of h)
          (subst (λ p. Proposes outside start IsAllowed old p)
            (ap (λ (c : AgentContext). c.proposal) (sym here)) proposes)

    run_steps-Proposes :
        (steps : ℕ) (old : Option Proposal) (run : Run) (finished : AgentResult × Run)
        → Kept outside start IsAllowed old run.ctx
        → run_steps outside provider mode steps run ≡ ok finished
        → Proposes outside start IsAllowed old finished.0.proposal
    unfolding run_steps
    run_steps-Proposes zero old run finished k h = finished-Proposes old none run finished k h
    run_steps-Proposes (suc steps) old run finished k h =
        elim (Result-cases (provider run.messages)) [
          | inr (failure, e) ↦ ground (arith, e, h)
          | inl (reply, e) ↦
              let counted = count_tokens outside provider mode reply run in
              elim (List-cases reply.tool_calls) [
                | inl f ↦
                    finished-Proposes old (some reply.content) counted finished k
                      (ground (arith, e, f, h))
                | inr (tc, tcs, f) ↦
                    let spoken = say outside provider mode reply counted in
                    elim (Result-cases (run_calls outside provider mode (tc ∷ tcs) spoken)) [
                      | inr (failure, g) ↦ ground (arith, e, f, g, h)
                      | inl (after, g) ↦
                          run_steps-Proposes steps old after finished
                            (run_calls-Kept (tc ∷ tcs) old spoken after k g)
                            (ground (arith, e, f, g, h))
                    ]
              ]
        ]

module _ {J : Type 0} (outside : Outside J) (provider : Provider) (mode : String) where
  -- If the agent answers, it leaves the proposal that was there before, or the mode has the tool
  -- `propose_edit` and the file with the proposal's id is one of the project, and its text has the original
  -- exactly once, in whose place the replacement has the proposed text.
  pub run_agent-Proposes :
      (max_steps : ℕ) (ctx : AgentContext) (history : List Chat) (message : String)
      (finished : AgentResult × Run)
      → run_agent outside provider mode max_steps ctx history message ≡ ok finished
      → Proposes outside ctx (Among propose_edit (mode_tools mode)) ctx.proposal finished.0.proposal
  unfolding run_agent
  run_agent-Proposes max_steps ctx history message finished h =
      run_steps-Proposes outside ctx provider mode max_steps ctx.proposal
        (begin outside provider mode ctx history message) finished
        (ctx.proposal, ctx.files_read, refl, inl refl) h
