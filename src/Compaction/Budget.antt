-- ===== src/Compaction/Budget.antt =====
-- What the context budget check does to the messages of a turn.
use boba_claw.Prelude.{
  ℕ, suc, ◌≤◌, ◌≡◌, refl, sym, ap, ◌∙◌, inl, inr, ◌⊎◌, min, String, Bool, true, false, Option, List,
  [], ◌∷◌, ◌++◌, ltb, length, drop, Bool-cases, Text, Result, ok, ◌>>=◌, Result-cases, arith,
}
use boba_claw.Sessions.{StateDb, list_stored_messages}
use boba_claw.Conversation.{ConversationMessage, estimate_tokens}
use boba_claw.Compaction.{plan_compaction, effective_history}
use boba_claw.Compaction.Run.{
  ContextConfig, Failure, history_to_conversation, maybe_compact_session, first_or_system, ensured,
  maybe_ensure_context_budget,
}
use boba_claw.Compaction.Compacted.{run_plan-false}

drop-front {ℓ} : {A : Type ℓ} (xs ys : List A) → drop (length xs) (xs ++ ys) ≡ ys
drop-front [] ys = refl
drop-front (x ∷ xs) ys = drop-front xs ys

-- The turn's messages after a rebuild in the database `db`.
abbrev pub IsRebuilt :
    StateDb → String → List ConversationMessage → ℕ → List ConversationMessage → ℕ → Type 0
IsRebuilt db sid ms b ms' b' =
    let history = history_to_conversation (effective_history (list_stored_messages db sid)) in
    (ms' ≡ first_or_system ms ∷ (history ++ drop b ms)) × (b' ≡ suc (length history))

ensured_lem :
    (sid : String) (ms ms' : List ConversationMessage) (b b' : ℕ) (db db' : StateDb) (made : Bool)
    → ensured sid ms b db made ≡ (db', ms', b')
    → (db ≡ db')
      × (drop b' ms' ≡ drop b ms)
      × (((made ≡ false) × (ms' ≡ ms) × (b' ≡ b)) ⊎ ((made ≡ true) × IsRebuilt db' sid ms b ms' b'))
ensured_lem sid ms ms' b b' db db' false h =
    let eb : b ≡ b' = ap (λ x. x.2) h in
    let em : ms ≡ ms' = ap (λ x. x.1) h in
    (ap (λ x. x.0) h, rw (eb, em) refl, inl (refl, sym em, sym eb))
ensured_lem sid ms ms' b b' db db' true h =
    let history = history_to_conversation (effective_history (list_stored_messages db sid)) in
    let ed : db ≡ db' = ap (λ x. x.0) h in
    let em : first_or_system ms ∷ (history ++ drop b ms) ≡ ms' = ap (λ x. x.1) h in
    let eb : suc (length history) ≡ b' = ap (λ x. x.2) h in
    (
      ed,
      rw (sym em, sym eb) (drop-front history (drop b ms)),
      inr (refl, (rw (sym ed) (sym em), rw (sym ed) (sym eb))),
    )

ok-injective {ℓ κ} :
    {E : Type ℓ} {A : Type κ} (x y : A) (r : Result E A) → r ≡ ok x → r ≡ ok y → x ≡ y
ok-injective x y r h k = ground arith

unchanged :
    (db db' : StateDb) (ms ms' : List ConversationMessage) (b b' : ℕ)
    → (r : Result Failure (StateDb × List ConversationMessage × ℕ)) → r ≡ ok (db, ms, b)
    → r ≡ ok (db', ms', b')
    → (drop b' ms' ≡ drop b ms) × (db' ≡ db) × (ms' ≡ ms) × (b' ≡ b)
unchanged db db' ms ms' b b' r h k =
    let e : (db, ms, b) ≡ (db', ms', b') = ok-injective _ _ r h k in
    let eb : b ≡ b' = ap (λ x. x.2) e in
    let em : ms ≡ ms' = ap (λ x. x.1) e in (rw (eb, em) refl, sym (ap (λ x. x.0) e), sym em, sym eb)

module _ (summarize : Text → Option Text → Result Failure Text) (config : ContextConfig) where
  not_compacted :
      (db : StateDb) (sid : String) (now : ℕ) (db' : StateDb)
      → maybe_compact_session summarize config db sid now ≡ ok (db', false)
      → db' ≡ db
  unfolding maybe_compact_session
  not_compacted db sid now db' h =
      let all = list_stored_messages db sid in
      ground (
        arith,
        run_plan-false summarize config db sid
            (plan_compaction all (min config.keep_recent_messages (length all))) now db',
      )

  -- A budget check that succeeds keeps the messages behind the boundary on every branch: they are the
  -- messages behind the new boundary, in order. Either nothing has changed, or the session was
  -- compacted, the estimate having reached the guard threshold, and in front of the boundary stand the
  -- first message (an empty system message, if there was none) and the session's new history.
  pub ensure_keeps_turn :
      (db db' : StateDb) (sid : String) (ms ms' : List ConversationMessage) (b b' now : ℕ)
      → maybe_ensure_context_budget summarize config db sid ms b now ≡ ok (db', ms', b')
      → (drop b' ms' ≡ drop b ms)
        × (((db' ≡ db) × (ms' ≡ ms) × (b' ≡ b))
            ⊎ ((config.guard_threshold ≤ estimate_tokens ms)
                × (maybe_compact_session summarize config db sid now ≡ ok (db', true))
                × IsRebuilt db' sid ms b ms' b'))
  unfolding maybe_ensure_context_budget
  ensure_keeps_turn db db' sid ms ms' b b' now h = elim (Bool-cases config.compression_enabled) [
    | inr off ↦
        let (turn, ed, em, eb) = unchanged db db' ms ms' b b' _ (ground (arith, off)) h in
        (turn, inl (ed, em, eb))
    | inl on ↦ elim (Bool-cases (ltb (estimate_tokens ms) config.guard_threshold)) [
      | inl small ↦
          let (turn, ed, em, eb) = unchanged db db' ms ms' b b' _ (ground (arith, on, small)) h in
          (turn, inl (ed, em, eb))
      | inr large ↦ checked (ground (arith, large)) (ground (arith, on, large))
    ]
  ]
    where
      checked :
          config.guard_threshold ≤ estimate_tokens ms
          → (do
            (db1, made) ← maybe_compact_session summarize config db sid now
            ok (ensured sid ms b db1 made))
            ≡ ok (db', ms', b')
          → (drop b' ms' ≡ drop b ms)
            × (((db' ≡ db) × (ms' ≡ ms) × (b' ≡ b))
                ⊎ ((config.guard_threshold ≤ estimate_tokens ms)
                    × (maybe_compact_session summarize config db sid now ≡ ok (db', true))
                    × IsRebuilt db' sid ms b ms' b'))
      checked over k = elim (Result-cases (maybe_compact_session summarize config db sid now)) [
        | inr (x, e) ↦ absurd (ground (arith, e, k))
        | inl ((db1, made), e) ↦
            let (same, turn, parts) =
              ensured_lem sid ms ms' b b' db1 db' made (ground (arith, e, k)) in
            elim parts [
              | inl (stays, em, eb) ↦ (
                turn,
                inl (
                  sym same ∙ not_compacted db sid now db1 (e ∙ ap (λ m. ok (db1, m)) stays),
                  em,
                  eb,
                ),
              )
              | inr (again, built) ↦ (
                turn,
                inr (over, e ∙ ap (λ m. ok (db1, m)) again ∙ ap (λ d. ok (d, true)) same, built),
              )
            ]
      ]
