-- ===== src/Compaction/Tests.antt =====
-- Compaction: the theorems at concrete sessions.
use boba_claw.Prelude.{
  ℕ, ◌<◌, ◌≡◌, refl, ◌⊎◌, max, min, String, true, Option, none, some, List, [], ◌∷◌, ◌++◌, length,
  keep, Text, codes, byte_len, Result, ok, arith,
}
use boba_claw.Sessions.{
  StateDb, StoredMessage, MessageRow, SessionRow, insert_message, append_compaction,
  list_stored_messages, to_pair,
}
use boba_claw.Sessions.Messages.{IsSound}
use boba_claw.Summary.{summary_prefix}
use boba_claw.Conversation.{ConversationMessage, plain, transcript_lines, estimate_tokens}
use boba_claw.Compaction.{
  CompactionPlan, not_compaction, to_pairs, uncovered_rows, plan_compaction, effective_history,
  previous_summary_body,
}
use boba_claw.Compaction.History.{compaction_keeps}
use boba_claw.Compaction.Run.{
  ContextConfig, Failure, history_to_conversation, maybe_compact_session,
  maybe_ensure_context_budget, run_compaction,
}
use boba_claw.Compaction.Compacted.{compacted_lem}

abbrev message : ℕ → String → StoredMessage
message n role = record { id = n; role = role; content = codes "text"; covers_through_id = none }

abbrev summary : ℕ → ℕ → StoredMessage
summary n b = record {
  id = n;
  role = "compaction";
  content = codes "sum";
  covers_through_id = some b;
}

abbrev four_rows : List StoredMessage
four_rows = message 1 "user" ∷ message 2 "assistant" ∷ message 3 "user" ∷ message 4 "assistant" ∷ []

abbrev four_plan : CompactionPlan
four_plan = record {
  to_summarize = to_pairs (message 1 "user" ∷ message 2 "assistant" ∷ []);
  covers_through_id = 2;
  previous_summary = none;
}

four_planned : plan_compaction four_rows 2 ≡ some four_plan
unfolding plan_compaction uncovered_rows previous_summary_body
four_planned = refl

compaction_keeps_example :
    (kept : List StoredMessage) × (effective_history
        ((four_rows ++ message 5 "user" ∷ []) ++ summary 6 2 ∷ [])
      ≡ to_pair (summary 6 2) ∷ to_pairs (kept ++ keep not_compaction (message 5 "user" ∷ [])))
    × (four_plan.to_summarize ++ to_pairs kept ≡ to_pairs (uncovered_rows four_rows))
    × (length kept ≡ max 2 1)
compaction_keeps_example =
    compaction_keeps four_rows (message 5 "user" ∷ []) 2 four_plan (summary 6 2) (ground arith)
      four_planned refl refl

abbrev summarized_rows : List StoredMessage
summarized_rows = message 1 "user" ∷ message 2 "assistant" ∷ message 3 "user" ∷ summary 4 2 ∷ []

abbrev row : ℕ → String → MessageRow
row n role = record { session_id = "s"; message = message n role; timestamp = n }

abbrev session : SessionRow
session = record {
  id = "s";
  source = "telegram";
  agent_group = "home";
  user_id = none;
  started_at = 0;
  ended_at = none;
  end_reason = none;
  message_count = 6;
}

abbrev six_messages : StateDb
six_messages = record {
  sessions = session ∷ [];
  messages =
      row 1 "user"
      ∷ row 2 "assistant"
      ∷ row 3 "user"
      ∷ row 4 "assistant"
      ∷ row 5 "user"
      ∷ row 6 "assistant"
      ∷ [];
  next_message_id = 7;
  routes = [];
}

abbrev small_window : ContextConfig
small_window = record {
  compression_enabled = true;
  context_window_tokens = 12;
  reserve_tokens = 4;
  keep_recent_messages = 2;
  guard_threshold = 1;
}

abbrev summarize : Text → Option Text → Result Failure Text
summarize transcript previous = ok (codes "sum")

abbrev compacted_db : StateDb
compacted_db = record six_messages {
  messages =
      six_messages.messages
      ++ record {
        session_id = "s";
        message = record {
          id = 7;
          role = "compaction";
          content = summary_prefix ++ codes "sum";
          covers_through_id = some 4;
        };
        timestamp = 9;
      }
        ∷ [];
  next_message_id = 8;
  sessions = record session { message_count = 7 } ∷ [];
}

six_messages-IsSound : IsSound six_messages
six_messages-IsSound = record { rising = ground arith; counted = ground arith }

compacts : maybe_compact_session summarize small_window six_messages "s" 9 ≡ ok (compacted_db, true)
unfolding maybe_compact_session plan_compaction uncovered_rows previous_summary_body
    list_stored_messages effective_history history_to_conversation estimate_tokens run_compaction
    append_compaction insert_message byte_len
compacts = refl

compacted_lem_example :
    let all = list_stored_messages six_messages "s" in
    (p : CompactionPlan) × (summary : Text) × (kept : List StoredMessage) × (summarize
        (transcript_lines p.to_summarize)
        p.previous_summary
      ≡ ok summary)
    × (effective_history (list_stored_messages compacted_db "s")
        ≡ ("compaction", summary_prefix ++ summary) ∷ to_pairs kept)
    × (p.to_summarize ++ to_pairs kept ≡ to_pairs (uncovered_rows all))
    × (length kept ≡ max (min 2 (length all)) 1)
    × (8 < estimate_tokens (history_to_conversation (effective_history all)))
    × ((s : String)
        → ("s" ≡ s) ⊎ (list_stored_messages compacted_db s ≡ list_stored_messages six_messages s))
compacted_lem_example =
    compacted_lem summarize small_window six_messages "s" 9 compacted_db six_messages-IsSound
      compacts

abbrev turn_messages : List ConversationMessage
turn_messages =
    plain "system" (codes "be kind") ∷ plain "user" (codes "old") ∷ plain "user" (codes "now") ∷ []

abbrev new_boundary : ℕ
new_boundary = 4

abbrev rebuilt : List ConversationMessage
rebuilt =
    plain "system" (codes "be kind")
    ∷ plain "user" (summary_prefix ++ codes "sum")
    ∷ plain "user" (codes "text")
    ∷ plain "assistant" (codes "text")
    ∷ plain "user" (codes "now")
    ∷ []

ensures :
    maybe_ensure_context_budget summarize small_window six_messages "s" turn_messages 2 9
    ≡ ok (compacted_db, rebuilt, new_boundary)
unfolding maybe_ensure_context_budget maybe_compact_session plan_compaction uncovered_rows
    previous_summary_body list_stored_messages effective_history history_to_conversation
    estimate_tokens run_compaction append_compaction insert_message byte_len
ensures = refl
