-- ===== src/ToolLoop/Tests.antt =====
-- The tool loop: the theorems at a turn in which the model calls one tool and then says nothing.
use boba_claw.Prelude.{
  ℕ, ◌+◌, ◌≤◌, ◌≡◌, refl, true, false, none, some, List, [], ◌∷◌, ◌++◌, codes, if◌then◌else◌, ok,
  Holds, trim, trim_end, trim_start, ◌==◌, arith,
}
use boba_claw.Conversation.{ConversationMessage, ToolCall, plain, text_content, tool_result}
use boba_claw.ToolLoop.{
  Surroundings, Settings, ToolLoopState, new_state, parent, is_blank, truncate_for_persist,
  summary_response_nudge, digits_within,
}
use boba_claw.ToolLoop.Loop.{run_calls, iterate, retry_empty, finish, run_tool_loop, reply}
use boba_claw.ToolLoop.Calls.{IsAnswered, calls-IsAnswered}
use boba_claw.ToolLoop.Records.{AfterRun, StopsRecorded, run_tool_loop-records}
use boba_claw.ToolLoop.Bounds.{run_tool_loop-meter}
use boba_claw.ToolLoop.Replies.{final_text_visible}

abbrev exec_call : ToolCall
exec_call = record { id = "call_1"; name = "exec"; arguments = codes "ls" }

abbrev calling : ConversationMessage
calling = record {
  role = "assistant";
  content = none;
  tool_calls = some (exec_call ∷ []);
  tool_call_id = none;
}

-- The first answer is a call, all later ones are empty; the world counts the requests.
abbrev answer : ℕ → ConversationMessage
answer n = if n == 0 then calling else plain "assistant" []

abbrev env : Surroundings ℕ Unit Unit
env = record {
  is_cancelled = λ n. false;
  ensure_budget = λ n ms b. ok (n, ms, b);
  chat_turn = λ n ms tools. ok (n + 1, answer n);
  dispatch = λ n call. record {
    world = n;
    executed = true;
    run_id = some "run_1";
    result = ok (0, codes "out");
  };
  collect_sources = λ call body code. [];
  append_sources = λ text sources. text;
}

abbrev set : Settings Unit
set = record {
  mode = parent;
  tools = tt ∷ [];
  requires_action = true;
  max_iterations = 3;
  max_action_retries = 2;
  max_empty_response_retries = 1;
}

abbrev question : List ConversationMessage
question = plain "user" (codes "list it") ∷ []

abbrev answered : List ConversationMessage
answered = question ++ calling ∷ tool_result "call_1" (codes "out") ∷ []

abbrev after_call : ToolLoopState Unit
after_call = record (new_state Unit) {
  executed = true;
  tool_call_count = 1;
  last_run_id = some "run_1";
  tool_persist = record { name = "exec"; exit_code = 0; body = codes "out" } ∷ [];
}

calls_run :
    run_calls env set 1 (question ++ calling ∷ []) (new_state Unit) (exec_call ∷ [])
    ≡ ok (1, answered, after_call)
unfolding run_calls truncate_for_persist
calls_run = refl

calls-IsAnswered_example :
    IsAnswered env set
      (question ++ calling ∷ [])
      (new_state Unit)
      (exec_call ∷ [])
      answered
      after_call
calls-IsAnswered_example =
    calls-IsAnswered env set 1 1 (question ++ calling ∷ []) answered (new_state Unit) after_call
      (exec_call ∷ []) calls_run

abbrev ended : ToolLoopState Unit
ended = record after_call {
  final_text =
      codes
        "Reached the tool step limit (3) before producing a final reply. Ask to continue or narrow the task.";
}

abbrev ended_messages : List ConversationMessage
ended_messages =
    answered
    ++ plain "assistant" [] ∷ plain "user" summary_response_nudge ∷ plain "assistant" [] ∷ []

turn_run : run_tool_loop env set 0 question ≡ ok (3, ended_messages, ended, true)
unfolding run_tool_loop iterate retry_empty finish reply run_calls truncate_for_persist is_blank
    trim trim_start trim_end text_content digits_within
turn_run = refl

run_tool_loop-records_example :
    Holds (AfterRun env set) (StopsRecorded env set) (run_tool_loop env set 0 question)
run_tool_loop-records_example = run_tool_loop-records env set 0 question

run_tool_loop-meter_example : 3 ≤ 0 + (3 + 1)
run_tool_loop-meter_example =
    run_tool_loop-meter env set (λ n. n) (λ w w' ms tools m h. ground arith)
      (λ w w' ms ms' b b' h. ground arith) (λ w call. refl) 0 3 question ended_messages ended true
      turn_run

final_text_visible_example : is_blank ended.final_text ≡ false
final_text_visible_example =
    final_text_visible env set 0 3 question ended_messages ended true (λ text sources h. h) turn_run
