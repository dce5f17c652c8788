-- ===== src/Agent/Loop.antt =====
-- The loop of the coding agent: `run_agent` of backend/app/agent/runner.py. The progress callback, the
-- time and the texts that are shown are left out.
use cs455_project.Prelude.{
  ℕ, zero, suc, ◌+◌, Bool, true, false, Option, none, some, List, [], ◌∷◌, ◌++◌, String, Result, ok,
  err,
}
use cs455_project.Agent.{Proposal, AgentContext, Outside, Output}
use cs455_project.Agent.Tools.{run_tool}

pub record ToolCall : Type 0 where
  pub id : String
  pub name : String
  pub arguments : String

pub record Reply : Type 0 where
  pub content : String
  pub tool_calls : List ToolCall
  pub prompt_tokens : ℕ
  pub completion_tokens : ℕ

pub data Chat : Type 0 where
  system : Chat
  turn : (role text : String) → Chat
  user : String → Chat
  assistant : String → List ToolCall → Chat
  tool : (id name : String) → Output → Chat

pub record Step : Type 0 where
  pub tool : String
  pub ok_ : Bool

-- `answer` is none where the steps ran out, which the program says with a fixed text.
pub record AgentResult : Type 0 where
  pub answer : Option String
  pub steps : List Step
  pub proposal : Option Proposal
  pub prompt_tokens : ℕ
  pub completion_tokens : ℕ
  pub truncated : Bool

-- The variables of the loop.
pub record Run : Type 0 where
  pub ctx : AgentContext
  pub messages : List Chat
  pub steps : List Step
  pub prompt_tokens : ℕ
  pub completion_tokens : ℕ

-- `provider.chat`, which may raise.
abbrev pub Provider : Type 0
Provider = List Chat → Result Reply

module _ {J : Type 0} (outside : Outside J) (provider : Provider) (mode : String) where
  abbrev pub after_call : ToolCall → AgentContext × Output × Bool → Run → Run
  after_call tc (ctx, output, fine) run = record run {
    ctx = ctx;
    steps = run.steps ++ record { tool = tc.name; ok_ = fine } ∷ [];
    messages = run.messages ++ tool tc.id tc.name output ∷ [];
  }

  -- The inner loop.
  unfoldable pub run_calls : List ToolCall → Run → Result Run
  run_calls [] run = ok run
  run_calls (tc ∷ tcs) run = elim (run_tool outside run.ctx mode tc.name tc.arguments) [
    | err e ↦ err e
    | ok called ↦ run_calls tcs (after_call tc called run)
  ]

  abbrev pub count_tokens : Reply → Run → Run
  count_tokens reply run = record run {
    prompt_tokens = run.prompt_tokens + reply.prompt_tokens;
    completion_tokens = run.completion_tokens + reply.completion_tokens;
  }

  abbrev pub say : Reply → Run → Run
  say reply run = record run {
    messages = run.messages ++ assistant reply.content reply.tool_calls ∷ [];
  }

  abbrev pub finish : Option String → Run → AgentResult × Run
  finish answer run = (
    record {
      answer = answer;
      steps = run.steps;
      proposal = run.ctx.proposal;
      prompt_tokens = run.prompt_tokens;
      completion_tokens = run.completion_tokens;
      truncated = elim answer [ none ↦ true | some text ↦ false ];
    },
    run,
  )

  -- The outer loop, which has as many rounds as there are steps left.
  unfoldable pub run_steps : (max_steps : ℕ) → Run → Result (AgentResult × Run)
  run_steps zero run = ok (finish none run)
  run_steps (suc steps) run = elim (provider run.messages) [
    | err e ↦ err e
    | ok reply ↦ elim reply.tool_calls [
      | [] ↦ ok (finish (some reply.content) (count_tokens reply run))
      | tc ∷ tcs ↦ elim (run_calls (tc ∷ tcs) (say reply (count_tokens reply run))) [
        | err e ↦ err e
        | ok called ↦ run_steps steps called
      ]
    ]
  ]

  -- The history is what was said before.
  abbrev pub begin : AgentContext → List Chat → String → Run
  begin ctx history message = record {
    ctx = ctx;
    messages = system ∷ [] ++ history ++ user message ∷ [];
    steps = [];
    prompt_tokens = 0;
    completion_tokens = 0;
  }

  unfoldable pub run_agent :
      (max_steps : ℕ) → AgentContext → List Chat → (message : String) → Result (AgentResult × Run)
  run_agent max_steps ctx history message = run_steps max_steps (begin ctx history message)
