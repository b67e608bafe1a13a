-- ===== src/ToolLoop/Bounds.antt =====
-- How often a turn asks the model.
use boba_claw.Prelude.{
  ℕ, zero, suc, ◌+◌, ◌≤◌, ◌≡◌, refl, inl, inr, Bool, true, false, List, [], ◌∷◌, ◌++◌,
  if◌then◌else◌, length, Bool-cases, Text, Result, ok, err, Holds, Holds-bind, Holds-weaken,
  Holds-ok, arith,
}
use boba_claw.Conversation.{ConversationMessage, ToolCall, text_content, tool_result}
use boba_claw.ToolLoop.{
  ToolLoopState, new_state, Surroundings, Settings, Stop, Failure, lift_failure, lift_error,
  calls_of, is_blank, is_parent,
}
use boba_claw.ToolLoop.Loop.{
  counted, flagged, recorded, run_calls, wants_retry, noted, LoopResult, follow_up, iterate, nudged,
  retry_tools, retry_empty, run_tool_loop,
}

module _ {W Source Tool : Type 0} (env : Surroundings W Source Tool) (set : Settings Tool)
    (meter : W → ℕ)
    (asks_once : (w w' : W) (ms : List ConversationMessage) (tools : List Tool)
        (m : ConversationMessage)
      → env.chat_turn w ms tools ≡ ok (w', m)
      → meter w' ≤ meter w + 1)
    (budget_asks_not : (w w' : W) (ms ms' : List ConversationMessage) (b b' : ℕ)
      → env.ensure_budget w ms b ≡ ok (w', ms', b')
      → meter w' ≡ meter w)
    (tools_ask_not : (w : W) (call : ToolCall) → meter (env.dispatch w call).world ≡ meter w) where
  abbrev Any : Stop Source → Type 0
  Any e = Unit

  abbrev CallsWithin : ℕ → W × List ConversationMessage × ToolLoopState Source → Type 0
  CallsWithin n (w, ms, st) = meter w ≤ n

  abbrev LoopWithin : ℕ → W × List ConversationMessage × ℕ × ToolLoopState Source → Type 0
  LoopWithin n (w, ms, b, st) = meter w ≤ n

  lift_ok {ℓ} :
      {A : Type ℓ} (P : A → Type 0) (st : ToolLoopState Source) (r : Result Failure A)
      → ((a : A) → r ≡ ok a → P a)
      → Holds P Any (lift_failure st r)
  lift_ok P st (ok a) f = f a refl
  lift_ok P st (err Failure.interrupted) f = tt
  lift_ok P st (err (Failure.failed e)) f = tt

  lift_error_ok {ℓ} :
      {A : Type ℓ} (P : A → Type 0) (r : Result Text A)
      → ((a : A) → r ≡ ok a → P a)
      → Holds P Any (lift_error r)
  lift_error_ok P (ok a) f = f a refl
  lift_error_ok P (err e) f = tt

  run_calls_meter :
      (n : ℕ) (w : W) (ms : List ConversationMessage) (st : ToolLoopState Source)
      (calls : List ToolCall)
      → meter w ≤ n
      → Holds (CallsWithin n) Any (run_calls env set w ms st calls)
  unfolding run_calls
  run_calls_meter n w ms st [] h = h
  run_calls_meter n w ms st (call ∷ calls) h = elim (Bool-cases (env.is_cancelled w)) [
    | inl stop ↦ rw stop tt
    | inr go ↦
        let d = env.dispatch w call in
        let st' = flagged env set (counted env set st call) d in
        rw go (
          Holds-bind (λ r. Unit) (CallsWithin n) Any (lift_failure st' d.result) _
            (lift_ok (λ r. Unit) st' d.result (λ r e. tt))
            (λ r u.
              run_calls_meter n d.world (ms ++ tool_result call.id r.1 ∷ [])
                (recorded env set st' call r) calls (omega (arith, tools_ask_not w call))))
  ]

  abbrev Asked : ℕ → W × ConversationMessage → Type 0
  Asked n (w, m) = meter w ≤ n

  asked :
      (n : ℕ) (w : W) (ms : List ConversationMessage) (tools : List Tool)
      (st : ToolLoopState Source)
      → meter w ≤ n
      → Holds (Asked (n + 1)) Any (lift_failure st (env.chat_turn w ms tools))
  asked n w ms tools st h =
      lift_ok (Asked (n + 1)) st (env.chat_turn w ms tools)
        (λ y e. omega (arith, asks_once w y.0 ms tools y.1 e))

  ensured :
      (n : ℕ) (w : W) (ms : List ConversationMessage) (b : ℕ)
      → meter w ≤ n
      → Holds (λ x. meter x.0 ≤ n) Any (lift_error (env.ensure_budget w ms b))
  ensured n w ms b h =
      lift_error_ok (λ x. meter x.0 ≤ n) (env.ensure_budget w ms b)
        (λ x e. omega (arith, budget_asks_not w x.0 ms x.1 b x.2 e))

  follow_up_meter :
      (again : W → List ConversationMessage → ℕ → ToolLoopState Source → LoopResult env set)
      (n k : ℕ) (w : W) (ms : List ConversationMessage) (b : ℕ) (st : ToolLoopState Source)
      (text : Text) (retry : Bool) (calls : List ToolCall)
      → ((w : W) (ms : List ConversationMessage) (b : ℕ) (st : ToolLoopState Source)
          → meter w ≤ n
          → Holds (LoopWithin (n + k)) Any (again w ms b st))
      → meter w ≤ n
      → Holds (LoopWithin (n + k)) Any (follow_up env set again w ms b st text retry calls)
  follow_up_meter again n k w ms b st text true [] f h = f w _ b _ h
  follow_up_meter again n k w ms b st text false [] f h = omega arith
  follow_up_meter again n k w ms b st text retry (call ∷ calls) f h =
      Holds-bind (CallsWithin n) (LoopWithin (n + k)) Any (run_calls env set w ms st (call ∷ calls))
        _ (run_calls_meter n w ms st (call ∷ calls) h) (λ x g. f x.0 x.1 b x.2 g)

  iterate_meter :
      (k n : ℕ) (w : W) (ms : List ConversationMessage) (b : ℕ) (st : ToolLoopState Source)
      → meter w ≤ n
      → Holds (LoopWithin (n + k)) Any (iterate env set k w ms b st)
  unfolding iterate
  iterate_meter zero n w ms b st h = omega arith
  iterate_meter (suc k) n w ms b st h = elim (Bool-cases (env.is_cancelled w)) [
    | inl stop ↦ rw stop tt
    | inr go ↦ rw go (
        Holds-bind (λ x. meter x.0 ≤ n) (LoopWithin (n + suc k)) Any
          (lift_error (env.ensure_budget w ms b)) _ (ensured n w ms b h)
          (λ x u.
            Holds-bind (Asked (n + 1)) (LoopWithin (n + suc k)) Any
              (lift_failure st (env.chat_turn x.0 x.1 set.tools)) _ (asked n x.0 x.1 set.tools st u)
              (λ y v.
                let calls = calls_of y.1.tool_calls in
                let retry = wants_retry env set st calls in
                Holds-weaken (LoopWithin (n + 1 + k)) (LoopWithin (n + suc k)) Any _
                  (follow_up_meter (iterate env set k) (n + 1) k y.0 (x.1 ++ y.1 ∷ []) x.2
                    (noted env set st (text_content y.1) retry) (text_content y.1) retry calls
                    (iterate_meter k (n + 1)) v)
                  (λ z q. omega arith))))
  ]

  retry_empty_meter :
      (k n : ℕ) (w : W) (ms : List ConversationMessage) (b : ℕ) (st : ToolLoopState Source)
      → meter w ≤ n
      → Holds (LoopWithin (n + k)) Any (retry_empty env set k w ms b st)
  unfolding retry_empty
  retry_empty_meter zero n w ms b st h = omega arith
  retry_empty_meter (suc k) n w ms b st h = elim (Bool-cases (is_blank st.final_text)) [
    | inr visible ↦ rw visible (omega arith)
    | inl blank ↦ elim (Bool-cases (env.is_cancelled w)) [
      | inl stop ↦ rw (blank, stop) tt
      | inr go ↦
          rw (blank, go)
            (Holds-bind (λ x. meter x.0 ≤ n) (LoopWithin (n + suc k)) Any
              (lift_error (env.ensure_budget w (nudged env set st ms) b)) _
              (ensured n w (nudged env set st ms) b h)
              (λ x u.
                Holds-bind (Asked (n + 1)) (LoopWithin (n + suc k)) Any
                  (lift_failure st (env.chat_turn x.0 x.1 (retry_tools env set st ms))) _
                  (asked n x.0 x.1 (retry_tools env set st ms) st u)
                  (λ y v.
                    Holds-weaken (LoopWithin (n + 1 + k)) (LoopWithin (n + suc k)) Any _
                      (retry_empty_meter k (n + 1) y.0 (x.1 ++ y.1 ∷ []) x.2 _ v)
                      (λ z q. omega arith))))
    ]
  ]

  abbrev RunWithin : ℕ → W × List ConversationMessage × ToolLoopState Source × Bool → Type 0
  RunWithin n (w, ms, st, limited) = meter w ≤ n

  -- A meter that a request to the model raises by at most one, and the budget check and the tools not
  -- at all: over a turn that comes to its end it rises by at most the iterations and the retries for an
  -- empty reply that the settings allow.
  pub run_tool_loop-meter :
      (w w' : W) (messages ms' : List ConversationMessage) (st : ToolLoopState Source)
      (limited : Bool)
      → run_tool_loop env set w messages ≡ ok (w', ms', st, limited)
      → meter w' ≤ meter w + (set.max_iterations + set.max_empty_response_retries)
  unfolding run_tool_loop
  run_tool_loop-meter w w' messages ms' st limited h =
      let loops = meter w + set.max_iterations in
      let total = meter w + (set.max_iterations + set.max_empty_response_retries) in
      let started =
        iterate env set set.max_iterations w messages (length messages) (new_state Source) in
      Holds-ok (RunWithin total) Any (run_tool_loop env set w messages) (w', ms', st, limited)
        (Holds-bind (LoopWithin loops) (RunWithin total) Any started _
          (iterate_meter set.max_iterations (meter w) w messages (length messages)
            (new_state Source) (omega arith))
          (λ x k.
            Holds-bind (LoopWithin total) (RunWithin total) Any
              (if is_parent set.mode
                then retry_empty env set set.max_empty_response_retries x.0 x.1 x.2 x.3
                else ok (x.0, x.1, x.2, x.3))
              _
              (elim (Bool-cases (is_parent set.mode)) [
                | inl parent ↦ rw parent (
                    Holds-weaken (LoopWithin (loops + set.max_empty_response_retries))
                      (LoopWithin total) Any _
                      (retry_empty_meter set.max_empty_response_retries loops x.0 x.1 x.2 x.3 k)
                      (λ z q. omega arith))
                | inr child ↦ rw child (omega arith)
              ])
              (λ y q. q)))
        h
