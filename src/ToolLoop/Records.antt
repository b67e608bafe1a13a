-- ===== src/ToolLoop/Records.antt =====
-- The records of a turn.
use boba_claw.Prelude.{
  ℕ, zero, suc, ◌+◌, ◌-◌, ◌≤◌, ◌<◌, ◌≡◌, refl, inl, inr, Bool, true, false, not, ◌&&◌, List, [],
  ◌∷◌, ◌++◌, if◌then◌else◌, leb, length, length-append, length-take, take, All, All-append,
  Bool-cases, Text, Result, ok, err, ◌>>=◌, Result-cases, Holds, Holds-bind, arith,
}
use boba_claw.Conversation.{
  ConversationMessage, ToolCall, text_content, tool_result, tool_body_persist_max_chars,
}
use boba_claw.ToolLoop.{
  ToolLoopState, new_state, Surroundings, Settings, Stop, Failure, interrupted_at, error,
  lift_failure, lift_error, calls_of, is_blank, truncate_for_persist, truncation_note, is_parent,
}
use boba_claw.ToolLoop.Loop.{
  counted, flagged, entry_of, recorded, run_calls, wants_retry, noted, LoopResult, follow_up,
  iterate, nudged, retry_tools, retry_empty, finish, run_tool_loop,
}

-- A limit of at least 40 is kept by the cut, the note that replaces the rest included.
pub truncate_bound :
    (s : Text) (max_chars : ℕ)
    → 40 ≤ max_chars
    → length (truncate_for_persist s max_chars) ≤ max_chars
unfolding truncate_for_persist
truncate_bound s max_chars h = elim (Bool-cases (leb (length s) max_chars)) [
  | inl short ↦ rw short (ground arith)
  | inr long ↦ rw long (
      omega (
        arith,
        length-append (take (max_chars - 40) s) truncation_note,
        length-take (max_chars - 40) s,
      ))
]

module _ {W Source Tool : Type 0} (env : Surroundings W Source Tool) (set : Settings Tool) where
  -- The counter and the records agree, the bodies are cut, and the retries are within their limit.
  abbrev pub IsRecorded : ToolLoopState Source → Type 0
  IsRecorded st =
      (st.tool_call_count ≡ length st.tool_persist)
      × All (λ e. length e.body ≤ tool_body_persist_max_chars) st.tool_persist
      × (st.action_retries ≤ set.max_action_retries)

  -- At an interruption the last call may have no entry yet.
  abbrev pub StopsRecorded : Stop Source → Type 0
  StopsRecorded (interrupted_at st) =
      (length st.tool_persist ≤ st.tool_call_count)
      × (st.tool_call_count ≤ length st.tool_persist + 1)
      × All (λ e. length e.body ≤ tool_body_persist_max_chars) st.tool_persist
      × (st.action_retries ≤ set.max_action_retries)
  StopsRecorded (error e) = Unit

  abbrev AfterCalls : W × List ConversationMessage × ToolLoopState Source → Type 0
  AfterCalls (w, ms, st) = IsRecorded st

  abbrev AfterLoop : W × List ConversationMessage × ℕ × ToolLoopState Source → Type 0
  AfterLoop (w, ms, b, st) = IsRecorded st

  recorded_step :
      (st : ToolLoopState Source) (call : ToolCall) (r : ℕ × Text)
      → st.tool_call_count ≡ length st.tool_persist + 1
      → All (λ e. length e.body ≤ tool_body_persist_max_chars) st.tool_persist
      → st.action_retries ≤ set.max_action_retries
      → IsRecorded (recorded env set st call r)
  recorded_step st call r c a k = (
    omega (arith, length-append st.tool_persist (entry_of env set call r ∷ [])),
    All-append _ st.tool_persist (entry_of env set call r ∷ []) a
        (truncate_bound r.1 tool_body_persist_max_chars (omega arith), tt),
    k,
  )

  run_calls_lem :
      (w : W) (ms : List ConversationMessage) (st : ToolLoopState Source) (calls : List ToolCall)
      → IsRecorded st
      → Holds AfterCalls StopsRecorded (run_calls env set w ms st calls)
  unfolding run_calls
  run_calls_lem w ms st [] h = h
  run_calls_lem w ms st (call ∷ calls) h = elim (Bool-cases (env.is_cancelled w)) [
    | inl stop ↦ rw stop (omega arith, omega arith, h.1, h.2)
    | inr go ↦ rw go (elim (Result-cases (env.dispatch w call).result) [
      | inl (r, e) ↦ rw e (
          run_calls_lem (env.dispatch w call).world (ms ++ tool_result call.id r.1 ∷ [])
            (recorded env set (flagged env set (counted env set st call) (env.dispatch w call)) call
              r)
            calls
            (recorded_step (flagged env set (counted env set st call) (env.dispatch w call)) call r
              (omega arith) h.1 h.2))
      | inr (e, f) ↦ rw f (failure e)
    ])
  ]
    where
      failure :
          (e : Failure)
          → Holds AfterCalls StopsRecorded (do
            r ←
                lift_failure
                  (flagged env set (counted env set st call) (env.dispatch w call))
                  (err e)
            run_calls env set
                (env.dispatch w call).world
                (ms ++ tool_result call.id r.1 ∷ [])
                (recorded env set
                  (flagged env set (counted env set st call) (env.dispatch w call))
                  call
                  r)
                calls)
      failure Failure.interrupted = (omega arith, omega arith, h.1, h.2)
      failure (Failure.failed x) = tt

  -- A failure outside the tools.
  stop_recorded {ℓ} :
      {A : Type ℓ} (P : A → Type 0) (st : ToolLoopState Source) (r : Result Failure A)
      → IsRecorded st
      → ((a : A) → P a)
      → Holds P StopsRecorded (lift_failure st r)
  stop_recorded P st (ok a) h f = f a
  stop_recorded P st (err Failure.interrupted) h f = (omega arith, omega arith, h.1, h.2)
  stop_recorded P st (err (Failure.failed e)) h f = tt

  error_recorded {ℓ} :
      {A : Type ℓ} (P : A → Type 0) (r : Result Text A)
      → ((a : A) → P a)
      → Holds P StopsRecorded (lift_error r)
  error_recorded P (ok a) f = f a
  error_recorded P (err e) f = tt

  noted-IsRecorded :
      (st : ToolLoopState Source) (text : Text) (retry : Bool)
      → IsRecorded st
      → IsRecorded (noted env set st text retry)
  noted-IsRecorded st text retry h = elim (Bool-cases (not (is_blank text) && not retry)) [
    | inl e ↦ rw e h
    | inr e ↦ rw e h
  ]

  follow_up_lem :
      (again : W → List ConversationMessage → ℕ → ToolLoopState Source → LoopResult env set) (w : W)
      (ms : List ConversationMessage) (b : ℕ) (st : ToolLoopState Source) (text : Text)
      (retry : Bool) (calls : List ToolCall)
      → ((w : W) (ms : List ConversationMessage) (b : ℕ) (st : ToolLoopState Source)
          → IsRecorded st
          → Holds AfterLoop StopsRecorded (again w ms b st))
      → IsRecorded st
      → (retry ≡ true → st.action_retries < set.max_action_retries)
      → Holds AfterLoop StopsRecorded (follow_up env set again w ms b st text retry calls)
  follow_up_lem again w ms b st text true [] f h k =
      f w _ b (record st { action_retries = st.action_retries + 1 })
        (h.0, h.1, omega (arith, k refl))
  follow_up_lem again w ms b st text false [] f h k = h
  follow_up_lem again w ms b st text retry (call ∷ calls) f h k =
      Holds-bind AfterCalls AfterLoop StopsRecorded (run_calls env set w ms st (call ∷ calls)) _
        (run_calls_lem w ms st (call ∷ calls) h) (λ x g. f x.0 x.1 b x.2 g)

  noted-retries :
      (st : ToolLoopState Source) (text : Text) (retry : Bool)
      → (noted env set st text retry).action_retries ≡ st.action_retries
  noted-retries st text retry = elim (Bool-cases (not (is_blank text) && not retry)) [
    | inl e ↦ rw e refl
    | inr e ↦ rw e refl
  ]

  iterate_lem :
      (n : ℕ) (w : W) (ms : List ConversationMessage) (b : ℕ) (st : ToolLoopState Source)
      → IsRecorded st
      → Holds AfterLoop StopsRecorded (iterate env set n w ms b st)
  unfolding iterate
  iterate_lem zero w ms b st h = h
  iterate_lem (suc n) w ms b st h = elim (Bool-cases (env.is_cancelled w)) [
    | inl stop ↦ rw stop (omega arith, omega arith, h.1, h.2)
    | inr go ↦ rw go (
        Holds-bind (λ x. Unit) AfterLoop StopsRecorded (lift_error (env.ensure_budget w ms b)) _
          (error_recorded (λ x. Unit) (env.ensure_budget w ms b) (λ x. tt))
          (λ x u.
            Holds-bind (λ y. Unit) AfterLoop StopsRecorded
              (lift_failure st (env.chat_turn x.0 x.1 set.tools)) _
              (stop_recorded (λ y. Unit) st (env.chat_turn x.0 x.1 set.tools) h (λ y. tt))
              (λ y v.
                let calls = calls_of y.1.tool_calls in
                let retry = wants_retry env set st calls in
                let st' = noted env set st (text_content y.1) retry in
                follow_up_lem (iterate env set n) y.0 (x.1 ++ y.1 ∷ []) x.2 st' (text_content y.1)
                  retry calls (iterate_lem n) (noted-IsRecorded st (text_content y.1) retry h)
                  (λ e. rw (noted-retries st (text_content y.1) retry) (ground (arith, e))))))
  ]

  answered-IsRecorded :
      (st : ToolLoopState Source) (text : Text) (blank : Bool)
      → IsRecorded st
      → IsRecorded (if blank then st else record st { final_text = text })
  answered-IsRecorded st text true h = h
  answered-IsRecorded st text false h = h

  retry_empty_lem :
      (n : ℕ) (w : W) (ms : List ConversationMessage) (b : ℕ) (st : ToolLoopState Source)
      → IsRecorded st
      → Holds AfterLoop StopsRecorded (retry_empty env set n w ms b st)
  unfolding retry_empty
  retry_empty_lem zero w ms b st h = h
  retry_empty_lem (suc n) w ms b st h = elim (Bool-cases (is_blank st.final_text)) [
    | inr visible ↦ rw visible h
    | inl blank ↦ elim (Bool-cases (env.is_cancelled w)) [
      | inl stop ↦ rw (blank, stop) (omega arith, omega arith, h.1, h.2)
      | inr go ↦
          rw (blank, go)
            (Holds-bind (λ x. Unit) AfterLoop StopsRecorded
              (lift_error (env.ensure_budget w (nudged env set st ms) b)) _
              (error_recorded (λ x. Unit) (env.ensure_budget w (nudged env set st ms) b) (λ x. tt))
              (λ x u.
                let asked = env.chat_turn x.0 x.1 (retry_tools env set st ms) in
                Holds-bind (λ y. Unit) AfterLoop StopsRecorded (lift_failure st asked) _
                  (stop_recorded (λ y. Unit) st asked h (λ y. tt))
                  (λ y v.
                    retry_empty_lem n y.0 (x.1 ++ y.1 ∷ []) x.2
                      (if is_blank (text_content y.1)
                        then st
                        else record st { final_text = text_content y.1 })
                      (answered-IsRecorded st (text_content y.1) (is_blank (text_content y.1)) h))))
    ]
  ]

  abbrev pub AfterRun : W × List ConversationMessage × ToolLoopState Source × Bool → Type 0
  AfterRun (w, ms, st, limited) = IsRecorded st

  -- A turn that comes to its end has one record for each call that it counts, every body in them
  -- within the limit for storage, and no more action retries than the settings allow; one that is
  -- interrupted has the same, except that the call under way may be counted and not yet recorded.
  pub run_tool_loop-records :
      (w : W) (messages : List ConversationMessage)
      → Holds AfterRun StopsRecorded (run_tool_loop env set w messages)
  unfolding run_tool_loop finish
  run_tool_loop-records w messages =
      Holds-bind AfterLoop AfterRun StopsRecorded
        (iterate env set set.max_iterations w messages (length messages) (new_state Source)) _
        (iterate_lem set.max_iterations w messages (length messages) (new_state Source)
          (refl, tt, omega arith))
        (λ x h.
          Holds-bind AfterLoop AfterRun StopsRecorded
            (if is_parent set.mode
              then retry_empty env set set.max_empty_response_retries x.0 x.1 x.2 x.3
              else ok (x.0, x.1, x.2, x.3))
            _
            (elim (Bool-cases (is_parent set.mode)) [
              | inl parent ↦
                  rw parent (retry_empty_lem set.max_empty_response_retries x.0 x.1 x.2 x.3 h)
              | inr child ↦ rw child h
            ])
            (λ y k. k))
