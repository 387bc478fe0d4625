-- ===== src/Tests/Agents.antt =====
-- Runs against a scripted provider.
use hopskip.Base.{
  ℕ, zero, suc, ◌+◌, ◌≤◌, ◌≡◌, refl, true, false, some, List, [], ◌∷◌, nat_eq, bytes_eq, bytes_beq,
  pair_eq, int_eq, all,
}
use hopskip.Text.{codes}
use hopskip.Base.{bytes_beq}
use hopskip.Agent.Limits.{max_int, max_steps, atoi, magnitude, digits_value}
use hopskip.Agent.Limits.Budgets.{max_steps-le}
use hopskip.Agent.Events.{Event}
use hopskip.Agent.Trace.Acts.{Logged, IsTold}
use hopskip.Agent.Anthropic.Acts.{tallied, noted}
use hopskip.Agent.OpenAi.Acts.{tallied_chat, tallied_responses}
use hopskip.Agent.Anthropic.{
  ToolUse, Block, Message, Param, Reply, failed, message, Tools, stop_reason_tool_use,
}
use hopskip.Agent.Anthropic
use hopskip.Agent.Anthropic.Runs.{run-Transcript}
use hopskip.Agent.Anthropic.History.{IsAnswered, empty, said, run-IsAnswered}
use hopskip.Agent.OpenAi
use hopskip.Agent.OpenAi.Runs.{run_openai-Transcript}
use hopskip.Agent.OpenAi.History
use hopskip.Agent.OpenAi.History.{run_openai-IsAnswered}

-- The tools count their calls, and answer with the name of the tool.
abbrev pub counting : Tools ℕ
counting name input n = ((name, false), n + 1)

abbrev asks_for_hosts : Message
asks_for_hosts = record {
  content =
      Block.other (codes "Let me look.")
      ∷ Block.uses (record { id = codes "t1"; name = codes "list_hosts"; input = codes "{}" })
      ∷ [];
  stop_reason = stop_reason_tool_use;
  input_tokens = 10;
  output_tokens = 4;
}

-- It asks for a tool first, and then fails.
abbrev pub scripted : Anthropic.Provider ℕ
scripted thinks system msgs zero = (message (codes "Let me look." ∷ []) asks_for_hosts, 0)
scripted thinks system msgs (suc n) = (failed [] false (codes "429 too many"), suc n)

abbrev hosts_run : List Event × List Param × Logged ℕ
hosts_run =
    Anthropic.run (tallied scripted) (noted counting) 3 (codes "claude-opus") (codes "sys")
      (codes "hosts?") [] (0, [])

run-Transcript_example : IsTold 3 hosts_run.0 hosts_run.2.1
run-Transcript_example =
    run-Transcript scripted counting 3 (codes "claude-opus") (codes "sys") (codes "hosts?") [] 0

run-IsAnswered_example :
    IsAnswered
      (Anthropic.run scripted counting 3
        (codes "claude-opus")
        (codes "sys")
        (codes "hosts?")
        (Param.user_text (codes "hi") ∷ [])
        0).1
run-IsAnswered_example =
    run-IsAnswered scripted counting 3 (codes "claude-opus") (codes "sys") (codes "hosts?")
      (Param.user_text (codes "hi") ∷ []) 0 (said (codes "hi") empty)

-- No chat model at first; then a response that asks for a tool, and one that does not.
abbrev no_chat : OpenAi.Chat ℕ
no_chat msgs n = (OpenAi.failed [] false (codes "This is not a chat model"), n)

abbrev response : List OpenAi.Output → OpenAi.Response
response items = record {
  id = codes "r1";
  output_text = codes "ok";
  output = items;
  input_tokens = 7;
  output_tokens = 2;
}

abbrev scripted_responses : OpenAi.Responses ℕ
scripted_responses prev instructions input zero = (
  OpenAi.responded (
      response (
        OpenAi.function_call
          (record { id = codes "c1"; name = codes "list_hosts"; arguments = codes "{}" })
        ∷ [])),
  0,
)
scripted_responses prev instructions input (suc n) = (OpenAi.responded (response []), suc n)

abbrev switched_run : List Event × OpenAi.Runner × Logged ℕ
switched_run =
    OpenAi.run (tallied_chat no_chat) (tallied_responses scripted_responses) (noted counting) 2
      (codes "sys") (codes "hosts?") OpenAi.new_runner (0, [])

run_openai-Transcript_example : IsTold 3 switched_run.0 switched_run.2.1
run_openai-Transcript_example =
    run_openai-Transcript no_chat scripted_responses counting 2 (codes "sys") (codes "hosts?")
      OpenAi.new_runner 0

abbrev scripted_chat : OpenAi.Chat ℕ
scripted_chat msgs zero = (
  OpenAi.completed []
      (record {
        finish_reason = codes "tool_calls";
        content = [];
        tool_calls =
            record { id = codes "c1"; name = codes "list_hosts"; arguments = codes "{}" } ∷ [];
      }
        ∷ [])
      5 5,
  0,
)
scripted_chat msgs (suc n) = (OpenAi.failed [] true (codes "cancelled"), suc n)

run_openai-IsAnswered_example :
    History.IsAnswered
      (OpenAi.run scripted_chat scripted_responses counting 2
        (codes "sys")
        (codes "hosts?")
        OpenAi.new_runner
        0).1.msgs
run_openai-IsAnswered_example =
    run_openai-IsAnswered scripted_chat scripted_responses counting 2 (codes "sys") (codes "hosts?")
      OpenAi.new_runner 0 History.empty

max_steps-le_example :
    (1 ≤ max_steps (some (codes "-3"))) × (max_steps (some (codes "-3")) ≤ max_int)
max_steps-le_example = max_steps-le (some (codes "-3"))

max_steps_read : max_steps (some (codes "+64")) ≡ 64
unfolding max_steps atoi magnitude digits_value bytes_beq all
max_steps_read = refl
