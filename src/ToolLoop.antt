-- ===== src/ToolLoop.antt =====
-- One turn of the agent: `run_tool_loop` of crates/bobaclaw-agent/src/tool_loop.rs, and the reply to an
-- interrupted turn of cancel.rs.
--
-- The loop's surroundings are arguments, collected in `Surroundings`: a state `W` that the provider and
-- the tools change, the cancellation token as a test on it, the provider's answer, the budget check of
-- compaction.rs, the dispatch of a tool call, and the sources footer. The events that are shown to the
-- user leave no trace in the model. An `i32` exit code is its 32 bits.
pub mod Loop
pub mod Calls
pub mod Records
pub mod Bounds
pub mod Replies
pub mod Tests
use boba_claw.Prelude.{
  ℕ, zero, suc, ◌+◌, ◌-◌, ◌/◌, ◌%◌, String, str_eq, Bool, true, false, not, ◌&&◌, ◌||◌, Option,
  none, some, List, [], ◌∷◌, ◌++◌, if◌then◌else◌, ltb, leb, length, take, any, last?, Text, codes,
  trim, is_empty, contains, Result, ok, err, ◌>>=◌,
}
use boba_claw.Summary.{newline}
use boba_claw.Conversation.{
  ConversationMessage, ToolCall, text_content, plain, tool_result, tool_body_persist_max_chars,
}

pub data TurnMode : Type 0 where
  parent child : TurnMode

abbrev pub is_parent : TurnMode → Bool
is_parent parent = true
is_parent child = false

pub data Failure : Type 0 where
  interrupted : Failure
  failed : Text → Failure

pub record ToolPersistEntry : Type 0 where
  pub name : String
  pub exit_code : ℕ
  pub body : Text

pub record ToolLoopState (Source : Type 0) : Type 0 where
  pub final_text : Text
  pub executed : Bool
  pub tool_call_count : ℕ
  pub skill_manage_used : Bool
  pub memory_manage_used : Bool
  pub last_run_id : Option String
  pub tool_persist : List ToolPersistEntry
  pub action_retries : ℕ
  pub sources : List Source

abbrev pub new_state : (Source : Type 0) → ToolLoopState Source
new_state Source = record {
  final_text = [];
  executed = false;
  tool_call_count = 0;
  skill_manage_used = false;
  memory_manage_used = false;
  last_run_id = none;
  tool_persist = [];
  action_retries = 0;
  sources = [];
}

-- What `dispatch_tool_call` leaves behind: the two flags it sets through its context, also on failure,
-- and the exit code and the body, or the failure.
pub record Dispatched (W : Type 0) : Type 0 where
  pub world : W
  pub executed : Bool
  pub run_id : Option String
  pub result : Result Failure (ℕ × Text)

pub record Surroundings (W Source Tool : Type 0) : Type 0 where
  pub is_cancelled : W → Bool
  pub ensure_budget :
      W → List ConversationMessage → ℕ → Result Text (W × List ConversationMessage × ℕ)
  pub chat_turn :
      W → List ConversationMessage → List Tool → Result Failure (W × ConversationMessage)
  pub dispatch : W → ToolCall → Dispatched W
  pub collect_sources : ToolCall → Text → ℕ → List Source
  pub append_sources : Text → List Source → Text

pub record Settings (Tool : Type 0) : Type 0 where
  pub mode : TurnMode
  pub tools : List Tool
  pub requires_action : Bool
  pub max_iterations : ℕ
  pub max_action_retries : ℕ
  pub max_empty_response_retries : ℕ

abbrev pub action_required_nudge : Text
action_required_nudge =
    codes "The user's request requires real tool output. "
    ++ codes "You replied without calling exec, schedule, or a configured MCP tool. "
    ++ codes "Call the appropriate tool now, then answer using only that output."

abbrev pub summary_response_nudge : Text
summary_response_nudge =
    codes "Reply to the user in plain language. "
    ++ codes "Summarize what you accomplished using tool output already in this conversation. "
    ++ codes
        "Include concrete results, errors, and next steps. Call a tool only if something is still missing."

-- `trim().is_empty()`
unfoldable pub is_blank : Text → Bool
is_blank s = is_empty (trim s)

abbrev pub truncation_note : Text
truncation_note = newline ∷ codes "… (truncated for session storage)"

unfoldable pub truncate_for_persist : Text → ℕ → Text
truncate_for_persist s max_chars =
    if leb (length s) max_chars then s else take (max_chars - 40) s ++ truncation_note

unfoldable pub parent_turn_offered_tools {ℓ} : {Tool : Type ℓ} → TurnMode → List Tool → Bool
parent_turn_offered_tools mode tools = is_parent mode && not (is_empty tools)

-- `format!` of a number: its decimal digits.
unfoldable pub digits_within : ℕ → ℕ → Text
digits_within zero n = []
digits_within (suc fuel) n =
    (if ltb n 10 then [] else digits_within fuel (n / 10)) ++ (48 + n % 10) ∷ []

abbrev pub decimal : ℕ → Text
decimal n = digits_within (suc n) n

unfoldable pub interrupted_reply : Text → Text
interrupted_reply partial =
    let trimmed = trim partial in
    if is_empty trimmed
    then codes "⚡ Запрос прерван."
    else trimmed ++ newline ∷ newline ∷ codes "*[прервано]*"

-- Why a turn ends early: the outcome of an interruption, or an error.
pub data Stop (Source : Type 0) : Type 0 where
  interrupted_at : ToolLoopState Source → Stop Source
  error : Text → Stop Source

abbrev pub lift_failure {ℓ} :
    {A : Type ℓ} {Source : Type 0}
    → ToolLoopState Source
    → Result Failure A
    → Result (Stop Source) A
lift_failure st (ok a) = ok a
lift_failure st (err interrupted) = err (interrupted_at st)
lift_failure st (err (failed e)) = err (error e)

abbrev pub lift_error {ℓ} : {A : Type ℓ} {Source : Type 0} → Result Text A → Result (Stop Source) A
lift_error (ok a) = ok a
lift_error (err e) = err (error e)

abbrev pub calls_of : Option (List ToolCall) → List ToolCall
calls_of none = []
calls_of (some calls) = calls

abbrev pub or_before {ℓ} : {A : Type ℓ} → Option A → Option A → Option A
or_before none before = before
or_before (some a) before = some a
