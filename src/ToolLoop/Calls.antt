-- ===== src/ToolLoop/Calls.antt =====
-- The calls of one answer.
use boba_claw.Prelude.{
  ℕ, ◌+◌, ◌≡◌, refl, sym, ap, ◌∙◌, inl, inr, String, some, List, [], ◌∷◌, ◌++◌, append_assoc,
  append-nil, map, map-append, length, Bool-cases, Text, ok, err, ◌>>=◌, Result-cases, Holds,
  Holds-weaken, Holds-ok, arith,
}
use boba_claw.Conversation.{ConversationMessage, ToolCall, tool_result}
use boba_claw.ToolLoop.{
  ToolPersistEntry, ToolLoopState, Dispatched, Surroundings, Settings, Failure, lift_failure,
}
use boba_claw.ToolLoop.Loop.{counted, flagged, entry_of, recorded, run_calls}

module _ {W Source Tool : Type 0} (env : Surroundings W Source Tool) (set : Settings Tool) where
  -- The messages and the state behind answered calls.
  abbrev pub IsAnswered :
      List ConversationMessage
      → ToolLoopState Source
      → List ToolCall
      → List ConversationMessage
      → ToolLoopState Source
      → Type 0
  IsAnswered ms st calls ms' st' =
      (results : List ConversationMessage) × (ms' ≡ ms ++ results)
      × (map (λ m. m.role) results ≡ map (λ c. "tool") calls)
      × (map (λ m. m.tool_call_id) results ≡ map (λ c. some c.id) calls)
      × (map (λ e. e.name) st'.tool_persist
          ≡ map (λ e. e.name) st.tool_persist ++ map (λ c. c.name) calls)
      × (st'.tool_call_count ≡ st.tool_call_count + length calls)

  abbrev AnsweredAll :
      List ConversationMessage
      → ToolLoopState Source
      → List ToolCall
      → W × List ConversationMessage × ToolLoopState Source
      → Type 0
  AnsweredAll ms st calls (w', ms', st') = IsAnswered ms st calls ms' st'

  abbrev name_of : ToolPersistEntry → String
  name_of e = e.name

  answer_first :
      (ms ms' : List ConversationMessage) (st st' : ToolLoopState Source) (d : Dispatched W)
      (call : ToolCall) (calls : List ToolCall) (r : ℕ × Text)
      → IsAnswered
          (ms ++ tool_result call.id r.1 ∷ [])
          (recorded env set (flagged env set (counted env set st call) d) call r)
          calls
          ms'
          st'
      → IsAnswered ms st (call ∷ calls) ms' st'
  answer_first ms ms' st st' d call calls r (results, e, roles, ids, names, n) = (
    tool_result call.id r.1 ∷ results,
    e ∙ append_assoc ms (tool_result call.id r.1 ∷ []) results,
    ap (◌∷◌ "tool") roles,
    ap (◌∷◌ (some call.id)) ids,
    names
        ∙ ap (λ xs. xs ++ map (λ (c : ToolCall). c.name) calls)
            (map-append name_of st.tool_persist (entry_of env set call r ∷ []))
        ∙ append_assoc (map name_of st.tool_persist) (call.name ∷ [])
            (map (λ (c : ToolCall). c.name) calls),
    omega arith,
  )

  run_calls-answers :
      (w : W) (ms : List ConversationMessage) (st : ToolLoopState Source) (calls : List ToolCall)
      → Holds (AnsweredAll ms st calls) (λ e. Unit) (run_calls env set w ms st calls)
  unfolding run_calls
  run_calls-answers w ms st [] = (
    [],
    sym (append-nil ms),
    refl,
    refl,
    sym (append-nil (map name_of st.tool_persist)),
    omega arith,
  )
  run_calls-answers w ms st (call ∷ calls) =
      let d = env.dispatch w call in
      elim (Bool-cases (env.is_cancelled w)) [
        | inl stop ↦ rw stop tt
        | inr go ↦ rw go (elim (Result-cases (env.dispatch w call).result) [
          | inl (r, e) ↦ rw e (
              Holds-weaken
                (AnsweredAll (ms ++ tool_result call.id r.1 ∷ [])
                  (recorded env set (flagged env set (counted env set st call) d) call r) calls)
                (AnsweredAll ms st (call ∷ calls)) (λ e. Unit) _
                (run_calls-answers d.world (ms ++ tool_result call.id r.1 ∷ [])
                  (recorded env set (flagged env set (counted env set st call) d) call r) calls)
                (λ x. answer_first ms x.1 st x.2 d call calls r))
          | inr (e, f) ↦ rw f (failure e)
        ])
      ]
    where
      failure :
          (e : Failure)
          → Holds
              (AnsweredAll ms st (call ∷ calls))
              (λ e. Unit)
              (do
                r ←
                    lift_failure
                      (flagged env set (counted env set st call) (env.dispatch w call))
                      (err e)
                run_calls env set
                    (env.dispatch w call).world
                    (ms ++ tool_result call.id r.1 ∷ [])
                    (recorded env set
                      (flagged env set (counted env set st call) (env.dispatch w call))
                      call
                      r)
                    calls)
      failure Failure.interrupted = tt
      failure (Failure.failed x) = tt

  -- Calls that all succeed append one tool message for each, in their order and under their ids; the
  -- records grow by one entry for each, under the call's name; and the counter counts them.
  pub calls-IsAnswered :
      (w w' : W) (ms ms' : List ConversationMessage) (st st' : ToolLoopState Source)
      (calls : List ToolCall)
      → run_calls env set w ms st calls ≡ ok (w', ms', st')
      → IsAnswered ms st calls ms' st'
  calls-IsAnswered w w' ms ms' st st' calls h =
      Holds-ok (AnsweredAll ms st calls) (λ e. Unit) (run_calls env set w ms st calls)
        (w', ms', st') (run_calls-answers w ms st calls) h
