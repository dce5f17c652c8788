-- ===== src/Tests/Agent.antt =====
-- The agent's loop at a model that proposes one edit and then answers.
use cs455_project.Prelude.{
  ℕ, true, false, Option, none, some, List, [], ◌∷◌, String, chars, leb, length, if◌then◌else◌, ok,
  ◌≡◌, refl, Among,
}
use cs455_project.Agent.{
  propose_edit, mode_tools, AgentContext, Outside, Proposal, file_text, project_file,
}
use cs455_project.Agent.Tools.{run_tool, run_handler, propose}
use cs455_project.Agent.Loop.{Provider, AgentResult, Run, run_agent, run_steps, run_calls}
use cs455_project.Agent.Proposals.{Proposes}
use cs455_project.Agent.Unique.{run_agent-Proposes}
use cs455_project.Tests.{base}

data Value : Type 0 where
  number : ℕ → Value
  word : String → Value

abbrev int_of : Value → Option ℕ
int_of (number n) = some n
int_of (word s) = none

abbrev word_of : Value → Option (List ℕ)
word_of (number n) = none
word_of (word s) = some (chars s)

-- The model's arguments replace `b` by `c` in the file 8, whose text is `a b`.
abbrev stub : Outside Value
stub = record {
  loads = λ raw. some (
      record { key = "file_id"; value = number 8 }
      ∷ record { key = "original"; value = word "b" }
      ∷ record { key = "proposed"; value = word "c" }
      ∷ []);
  as_int = int_of;
  as_text = word_of;
  is_null = λ v. false;
  is_falsy = λ v. false;
  parses = λ text. true;
  get_file_text = λ file_id. ok (chars "a b");
}

abbrev asks_once : Provider
asks_once messages =
    if leb 4 (length messages)
    then ok (record { content = "done"; tool_calls = []; prompt_tokens = 1; completion_tokens = 1 })
    else ok (record {
      content = "";
      tool_calls = record { id = "t1"; name = "propose_edit"; arguments = "..." } ∷ [];
      prompt_tokens = 1;
      completion_tokens = 1;
    })

abbrev context : AgentContext
context = record {
  db = base;
  project_id = 7;
  active_file_id = none;
  max_file_chars = 100;
  proposal = none;
  active_text_override = none;
  files_read = [];
}

abbrev proposed : Proposal
proposed = record {
  file_id = 8;
  original_text = chars "b";
  proposed_text = chars "c";
  explanation = some [];
  syntax_ok = true;
}

ends :
    (finished : AgentResult × Run) × (run_agent stub asks_once "fix" 6 context [] "rename"
      ≡ ok finished)
    × (finished.0.proposal ≡ some proposed)
unfolding run_agent run_steps run_calls run_tool run_handler propose file_text project_file
ends = (_, refl, refl)

run_agent-Proposes_example :
    Proposes stub context (Among propose_edit (mode_tools "fix")) none ends.0.0.proposal
run_agent-Proposes_example =
    run_agent-Proposes stub asks_once "fix" 6 context [] "rename" ends.0 ends.1
