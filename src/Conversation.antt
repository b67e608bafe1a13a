-- ===== src/Conversation.antt =====
-- Messages of a conversation with the model: crates/bobaclaw-provider/src/tools_chat.rs, and the
-- token estimate of crates/bobaclaw-agent/src/context.rs. A message's JSON content is its text.
use boba_claw.Prelude.{
  ℕ, ◌+◌, ◌/◌, ◌%◌, ◌^◌, max, String, str_eq, Option, none, some, List, [], ◌∷◌, ◌++◌,
  if◌then◌else◌, ltb, Text, codes, byte_len,
}
use boba_claw.Summary.{newline}

pub record ToolCall : Type 0 where
  pub id : String
  pub name : String
  pub arguments : Text

pub record ConversationMessage : Type 0 where
  pub role : String
  pub content : Option Text
  pub tool_calls : Option (List ToolCall)
  pub tool_call_id : Option String

abbrev pub or_empty {ℓ} : {A : Type ℓ} → Option (List A) → List A
or_empty none = []
or_empty (some x) = x

unfoldable pub text_content : ConversationMessage → Text
text_content m = or_empty m.content

abbrev pub plain : String → Text → ConversationMessage
plain role text = record {
  role = role;
  content = some text;
  tool_calls = none;
  tool_call_id = none;
}

abbrev pub tool_result : String → Text → ConversationMessage
tool_result id body = record {
  role = "tool";
  content = some body;
  tool_calls = none;
  tool_call_id = some id;
}

call_chars : List ToolCall → ℕ
call_chars [] = 0
call_chars (c ∷ cs) = byte_len (codes c.name) + byte_len c.arguments + call_chars cs

message_chars : List ConversationMessage → ℕ
unfolding call_chars text_content
message_chars [] = 0
message_chars (m ∷ ms) =
    byte_len (text_content m)
    + call_chars (or_empty m.tool_calls)
    + byte_len (codes m.role)
    + message_chars ms

abbrev pub u32_mod : ℕ
u32_mod = 2 ^ 32

-- `estimate_tokens`; the cast to `u32` wraps.
unfoldable pub estimate_tokens : List ConversationMessage → ℕ
unfolding message_chars
estimate_tokens ms = max (message_chars ms / 4) 1 % u32_mod

abbrev pub tool_body_persist_max_chars : ℕ
tool_body_persist_max_chars = 4000

prune_old_tool_body : Text → Text
prune_old_tool_body body =
    if ltb tool_body_persist_max_chars (byte_len body)
    then codes
        "[Old tool output cleared to save context — full log in run_dir/result.json if needed]"
    else body

abbrev transcript_body : String → Text → Text
transcript_body role content = if str_eq role "tool" then prune_old_tool_body content else content

unfoldable pub transcript_lines : List (String × Text) → Text
unfolding prune_old_tool_body
transcript_lines [] = []
transcript_lines ((role, content) ∷ rest) =
    (if str_eq role "compaction"
      then []
      else codes "["
        ++ (codes role
            ++ (codes "]" ++ newline ∷ (transcript_body role content ++ newline ∷ newline ∷ []))))
    ++ transcript_lines rest
