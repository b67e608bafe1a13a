-- ===== src/Compaction/Run.antt =====
-- The entry points of compaction.rs over the state database. The provider's answer to the summarizer
-- prompt is an argument, `summarize`; it may fail.
use boba_claw.Prelude.{
  ℕ, ◌-◌, max, min, String, str_eq, Bool, true, false, not, Option, none, some, List, [], ◌∷◌, ◌++◌,
  map, if◌then◌else◌, ltb, leb, length, drop, Text, Result, ok, err, ◌>>=◌,
}
use boba_claw.Sessions.{StateDb, SqlError, append_compaction, list_stored_messages}
use boba_claw.Summary.{summary_prefix}
use boba_claw.Conversation.{ConversationMessage, plain, transcript_lines, estimate_tokens}
use boba_claw.Compaction.{CompactionPlan, plan_compaction, effective_history}

-- `guard_threshold` is the value of `guard_threshold_tokens`, which is computed in `f32`.
pub record ContextConfig : Type 0 where
  pub compression_enabled : Bool
  pub context_window_tokens : ℕ
  pub reserve_tokens : ℕ
  pub keep_recent_messages : ℕ
  pub guard_threshold : ℕ

-- `saturating_sub`
abbrev pub compact_threshold : ContextConfig → ℕ
compact_threshold c = c.context_window_tokens - c.reserve_tokens

pub data Failure : Type 0 where
  sql : SqlError → Failure
  provider too_few nothing_to_compact : Failure

abbrev pub lift_sql {ℓ} : {A : Type ℓ} → Result SqlError A → Result Failure A
lift_sql (ok a) = ok a
lift_sql (err e) = err (sql e)

abbrev pub api_message : String × Text → ConversationMessage
api_message (role, content) = plain (if str_eq role "compaction" then "user" else role) content

unfoldable pub history_to_conversation : List (String × Text) → List ConversationMessage
history_to_conversation rows = map api_message rows

abbrev pub first_or_system : List ConversationMessage → ConversationMessage
first_or_system [] = plain "system" []
first_or_system (m ∷ ms) = m

-- The rebuilt list, and the boundary in it.
abbrev pub rebuild :
    List (String × Text) → List ConversationMessage → ℕ → List ConversationMessage × ℕ
rebuild history messages boundary =
    let fresh = first_or_system messages ∷ history_to_conversation history in
    (fresh ++ drop boundary messages, length fresh)

abbrev pub ensured :
    String → List ConversationMessage → ℕ → StateDb → Bool → StateDb × List ConversationMessage × ℕ
ensured sid messages boundary db false = (db, messages, boundary)
ensured sid messages boundary db true =
    let (ms, b) = rebuild (effective_history (list_stored_messages db sid)) messages boundary in
    (db, ms, b)

module _ (summarize : Text → Option Text → Result Failure Text) (config : ContextConfig) where
  -- The stored text is returned too.
  unfoldable pub run_compaction :
      StateDb → String → CompactionPlan → ℕ → Result Failure (StateDb × Text)
  run_compaction db sid plan now = do
    summary ← summarize (transcript_lines plan.to_summarize) plan.previous_summary
    let full = summary_prefix ++ summary
    db' ← lift_sql (append_compaction db sid full plan.covers_through_id now)
    ok (db', full)

  abbrev pub run_plan :
      StateDb → String → Option CompactionPlan → ℕ → Result Failure (StateDb × Bool)
  run_plan db sid none now = ok (db, false)
  run_plan db sid (some plan) now = do (db', full) ← run_compaction db sid plan now; ok (db', true)

  unfoldable pub maybe_compact_session : StateDb → String → ℕ → Result Failure (StateDb × Bool)
  unfolding run_compaction
  maybe_compact_session db sid now =
      let all = list_stored_messages db sid in
      let tokens = estimate_tokens (history_to_conversation (effective_history all)) in
      let tail_keep = min config.keep_recent_messages (length all) in
      if not config.compression_enabled
      then ok (db, false)
      else if ltb (length all) 6
      then ok (db, false)
      else if leb tokens (compact_threshold config)
      then ok (db, false)
      else run_plan db sid (plan_compaction all tail_keep) now

  abbrev run_forced : StateDb → String → Option CompactionPlan → ℕ → Result Failure (StateDb × Text)
  run_forced db sid none now = err nothing_to_compact
  run_forced db sid (some plan) now = run_compaction db sid plan now

  unfoldable pub force_compact_session : StateDb → String → ℕ → Result Failure (StateDb × Text)
  unfolding run_compaction
  force_compact_session db sid now =
      let all = list_stored_messages db sid in
      let tail_keep = min config.keep_recent_messages (length all) in
      if ltb (length all) 2
      then err too_few
      else run_forced db sid (plan_compaction all (max tail_keep 2)) now

  unfoldable pub maybe_ensure_context_budget :
      StateDb
      → String
      → List ConversationMessage
      → ℕ
      → ℕ
      → Result Failure (StateDb × List ConversationMessage × ℕ)
  unfolding maybe_compact_session
  maybe_ensure_context_budget db sid messages boundary now =
      if not config.compression_enabled
      then ok (db, messages, boundary)
      else if ltb (estimate_tokens messages) config.guard_threshold
      then ok (db, messages, boundary)
      else do
        (db', compacted) ← maybe_compact_session db sid now
        ok (ensured sid messages boundary db' compacted)
