-- ===== src/ToolLoop/Loop.antt =====
-- The loop itself.
use boba_claw.Prelude.{
  ℕ, zero, suc, ◌+◌, str_eq, Bool, not, ◌&&◌, ◌||◌, List, [], ◌∷◌, ◌++◌, if◌then◌else◌, ltb, length,
  any, Text, codes, is_empty, contains, Result, ok, err, ◌>>=◌,
}
use boba_claw.Summary.{newline}
use boba_claw.Conversation.{
  ConversationMessage, ToolCall, text_content, plain, tool_result, tool_body_persist_max_chars,
}
use boba_claw.ToolLoop.{
  is_parent, ToolPersistEntry, ToolLoopState, new_state, Dispatched, Surroundings, Settings, Stop,
  interrupted_at, lift_failure, lift_error, calls_of, or_before, is_blank, truncate_for_persist,
  decimal, action_required_nudge, summary_response_nudge,
}

module _ {W Source Tool : Type 0} (env : Surroundings W Source Tool) (set : Settings Tool) where
  -- `run_tool_call` with the statements before and behind its call.
  abbrev pub counted : ToolLoopState Source → ToolCall → ToolLoopState Source
  counted st call = record st {
    tool_call_count = st.tool_call_count + 1;
    skill_manage_used = st.skill_manage_used || str_eq call.name "skill_manage";
    memory_manage_used = st.memory_manage_used || str_eq call.name "memory_manage";
  }

  abbrev pub flagged : ToolLoopState Source → Dispatched W → ToolLoopState Source
  flagged st d = record st {
    executed = st.executed || d.executed;
    last_run_id = or_before d.run_id st.last_run_id;
  }

  abbrev pub entry_of : ToolCall → ℕ × Text → ToolPersistEntry
  entry_of call (exit_code, body) = record {
    name = call.name;
    exit_code = exit_code;
    body = truncate_for_persist body tool_body_persist_max_chars;
  }

  abbrev pub recorded : ToolLoopState Source → ToolCall → ℕ × Text → ToolLoopState Source
  recorded st call (exit_code, body) = record st {
    sources = st.sources ++ env.collect_sources call body exit_code;
    tool_persist = st.tool_persist ++ entry_of call (exit_code, body) ∷ [];
  }

  unfoldable pub run_calls :
      W
      → List ConversationMessage
      → ToolLoopState Source
      → List ToolCall
      → Result (Stop Source) (W × List ConversationMessage × ToolLoopState Source)
  run_calls w ms st [] = ok (w, ms, st)
  run_calls w ms st (call ∷ calls) =
      let d = env.dispatch w call in
      let st' = flagged (counted st call) d in
      if env.is_cancelled w then err (interrupted_at st) else do
        (exit_code, body) ← lift_failure st' d.result
        run_calls d.world (ms ++ tool_result call.id body ∷ [])
            (recorded st' call (exit_code, body)) calls

  abbrev pub wants_retry : ToolLoopState Source → List ToolCall → Bool
  wants_retry st calls =
      set.requires_action
      && is_empty calls
      && not st.executed
      && ltb st.action_retries set.max_action_retries

  abbrev pub noted : ToolLoopState Source → Text → Bool → ToolLoopState Source
  noted st text retry =
      if not (is_blank text) && not retry then record st { final_text = text } else st

  abbrev pub LoopResult : Type 0
  LoopResult = Result (Stop Source) (W × List ConversationMessage × ℕ × ToolLoopState Source)

  -- What follows the model's message; `again` is the rest of the loop.
  abbrev pub follow_up :
      (W → List ConversationMessage → ℕ → ToolLoopState Source → LoopResult)
      → W
      → List ConversationMessage
      → ℕ
      → ToolLoopState Source
      → Text
      → Bool
      → List ToolCall
      → LoopResult
  follow_up again w ms b st text retry [] =
      if retry
      then again w (ms ++ plain "user" action_required_nudge ∷ []) b
          (record st { action_retries = st.action_retries + 1 })
      else ok (w, ms, b, record st { final_text = text })
  follow_up again w ms b st text retry (call ∷ calls) = do
    (w', ms', st') ← run_calls w ms st (call ∷ calls)
    again w' ms' b st'

  abbrev pub iteration :
      (W → List ConversationMessage → ℕ → ToolLoopState Source → LoopResult)
      → W
      → List ConversationMessage
      → ℕ
      → ToolLoopState Source
      → LoopResult
  iteration again w ms b st = if env.is_cancelled w then err (interrupted_at st) else do
    (w1, ms1, b1) ← lift_error (env.ensure_budget w ms b)
    (w2, m) ← lift_failure st (env.chat_turn w1 ms1 set.tools)
    let calls = calls_of m.tool_calls
    let retry = wants_retry st calls
    follow_up again w2 (ms1 ++ m ∷ []) b1 (noted st (text_content m) retry) (text_content m) retry
        calls

  -- `for iteration in 1..=max_iterations`
  unfoldable pub iterate : ℕ → W → List ConversationMessage → ℕ → ToolLoopState Source → LoopResult
  unfolding run_calls
  iterate zero w ms b st = ok (w, ms, b, st)
  iterate (suc n) w ms b st = iteration (iterate n) w ms b st

  abbrev pub missing_action : ToolLoopState Source → Bool
  missing_action st = set.requires_action && not st.executed

  abbrev pub retry_tools : ToolLoopState Source → List ConversationMessage → List Tool
  retry_tools st ms =
      if missing_action st || any (λ (m : ConversationMessage). str_eq m.role "tool") ms
      then set.tools
      else []

  abbrev pub nudged : ToolLoopState Source → List ConversationMessage → List ConversationMessage
  nudged st ms =
      ms
      ++ plain "user" (if missing_action st then action_required_nudge else summary_response_nudge)
        ∷ []

  abbrev pub ask_again :
      (W → List ConversationMessage → ℕ → ToolLoopState Source → LoopResult)
      → W
      → List ConversationMessage
      → ℕ
      → ToolLoopState Source
      → LoopResult
  ask_again again w ms b st =
      if not (is_blank st.final_text)
      then ok (w, ms, b, st)
      else if env.is_cancelled w
      then err (interrupted_at st)
      else do
        (w1, ms1, b1) ← lift_error (env.ensure_budget w (nudged st ms) b)
        (w2, m) ← lift_failure st (env.chat_turn w1 ms1 (retry_tools st ms))
        again w2 (ms1 ++ m ∷ []) b1
            (if is_blank (text_content m) then st else record st { final_text = text_content m })

  -- `while final_text.trim().is_empty() && empty_attempt < max_empty_response_retries`
  unfoldable pub retry_empty :
      ℕ → W → List ConversationMessage → ℕ → ToolLoopState Source → LoopResult
  retry_empty zero w ms b st = ok (w, ms, b, st)
  retry_empty (suc n) w ms b st = ask_again (retry_empty n) w ms b st

  abbrev limit_reply : Text
  limit_reply =
      codes "Reached the tool step limit ("
      ++ decimal set.max_iterations
      ++ codes ") before producing a final reply. Ask to continue or narrow the task."

  abbrev limit_note : Text
  limit_note =
      newline ∷ newline ∷ codes "(Reached the "
      ++ decimal set.max_iterations
      ++ codes "-step tool limit; partial progress may be in tool output above.)"

  unfoldable pub reply : Text → Bool → Text
  reply text limited =
      if is_blank text
      then if limited then limit_reply else codes "(model finished without a text response)"
      else if limited && is_parent set.mode && not (contains text (codes "tool step limit"))
      then text ++ limit_note
      else text

  -- The final text, the flag for the limit set when the text was empty behind the loop.
  unfoldable pub finish : ToolLoopState Source → Bool → ToolLoopState Source
  unfolding reply
  finish st limited =
      let text = reply st.final_text limited in
      record st {
        final_text = if is_parent set.mode then env.append_sources text st.sources else text;
      }

  -- The state behind the loop, the world, the messages and `hit_iteration_limit`.
  unfoldable pub run_tool_loop :
      W
      → List ConversationMessage
      → Result (Stop Source) (W × List ConversationMessage × ToolLoopState Source × Bool)
  unfolding iterate retry_empty finish
  run_tool_loop w messages = do
    (w1, ms1, b1, st1) ← iterate set.max_iterations w messages (length messages) (new_state Source)
    let limited = is_empty st1.final_text
    (w2, ms2, b2, st2) ←
        if is_parent set.mode
        then retry_empty set.max_empty_response_retries w1 ms1 b1 st1
        else ok (w1, ms1, b1, st1)
    ok (w2, ms2, finish st2 limited, limited)
