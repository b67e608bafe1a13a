-- ===== src/Compaction/Compacted.antt =====
-- What a compaction does to the database.
use boba_claw.Prelude.{
  ◌⊎◌, ℕ, ◌+◌, ◌<◌, ◌≡◌, refl, sym, ap, subst, ◌∙◌, inl, inr, max, min, String, eq_iff, eq_refl,
  str_eq, true, false, Option, none, some, List, [], ◌∷◌, ◌++◌, append-nil, length, Bool-cases,
  Text, Result, ok, err, bind-ok, Result-cases, arith,
}
use boba_claw.Sessions.{
  StateDb, StoredMessage, SqlError, append_compaction, insert_message, list_stored_messages,
}
use boba_claw.Sessions.Messages.{IsSound, Rising, Rising-session, insert_message_lem, new_message}
use boba_claw.Summary.{summary_prefix}
use boba_claw.Conversation.{transcript_lines, estimate_tokens}
use boba_claw.Compaction.{
  CompactionPlan, to_pairs, plan_compaction, uncovered_rows, effective_history,
}
use boba_claw.Compaction.Plan.{Ascends}
use boba_claw.Compaction.History.{compaction_keeps}
use boba_claw.Compaction.Run.{
  ContextConfig, Failure, lift_sql, history_to_conversation, run_compaction, run_plan,
  maybe_compact_session, compact_threshold,
}

Rising-Ascends : (lo hi : ℕ) (rs : List StoredMessage) → Rising lo hi rs → Ascends lo rs
Rising-Ascends lo hi [] r = tt
Rising-Ascends lo hi (x ∷ rs) r = (r.0, Rising-Ascends (x.id + 1) hi rs r.1)

Ascends-zero : (n : ℕ) (rs : List StoredMessage) → Ascends n rs → Ascends 0 rs
Ascends-zero n [] a = tt
Ascends-zero n (r ∷ rs) a = (omega arith, a.1)

session-Ascends :
    (db : StateDb) (sid : String) → IsSound db → Ascends 0 (list_stored_messages db sid)
unfolding list_stored_messages
session-Ascends db sid v = Ascends-zero 1 (list_stored_messages db sid) (
    Rising-Ascends 1 db.next_message_id (list_stored_messages db sid)
      (Rising-session sid 1 db.next_message_id db.messages v.rising))

lift_sql-ok {ℓ} : {A : Type ℓ} (r : Result SqlError A) (a : A) → lift_sql r ≡ ok a → r ≡ ok a
lift_sql-ok (ok x) a h = ground arith
lift_sql-ok (err e) a h = absurd (ground arith)

-- The summary row of a plan.
abbrev pub summary_row : StateDb → Text → ℕ → StoredMessage
summary_row db full covers = new_message db "compaction" full (some covers)

module _ (summarize : Text → Option Text → Result Failure Text) (config : ContextConfig) where
  run_compaction_parts :
      (db : StateDb) (sid : String) (p : CompactionPlan) (now : ℕ) (db' : StateDb) (full : Text)
      → run_compaction summarize config db sid p now ≡ ok (db', full)
      → (summary : Text) × (summarize (transcript_lines p.to_summarize) p.previous_summary
          ≡ ok summary)
        × (full ≡ summary_prefix ++ summary)
        × (insert_message db sid "compaction" full (some p.covers_through_id) now ≡ ok db')
  unfolding run_compaction append_compaction
  run_compaction_parts db sid p now db' full h =
      let (summary, e, f) = bind-ok _ _ (db', full) h in
      let (made, g, k) = bind-ok _ _ (db', full) f in
      let same : made ≡ db' = ground arith in
      let text : full ≡ summary_prefix ++ summary = ground arith in
      (summary, e, text, rw (text, sym same) (lift_sql-ok _ made g))

  run_plan-true :
      (db : StateDb) (sid : String) (o : Option CompactionPlan) (now : ℕ) (db' : StateDb)
      → run_plan summarize config db sid o now ≡ ok (db', true)
      → (p : CompactionPlan) × (o ≡ some p)
        × ((full : Text) × (run_compaction summarize config db sid p now ≡ ok (db', full)))
  run_plan-true db sid none now db' h = absurd (ground arith)
  run_plan-true db sid (some p) now db' h =
      elim (Result-cases (run_compaction summarize config db sid p now)) [
        | inl ((made, full), e) ↦
            let same : made ≡ db' = ground (arith, e) in (p, refl, (full, rw (sym same) e))
        | inr (x, e) ↦ absurd (ground (arith, e))
      ]

  pub run_plan-false :
      (db : StateDb) (sid : String) (o : Option CompactionPlan) (now : ℕ) (db' : StateDb)
      → run_plan summarize config db sid o now ≡ ok (db', false)
      → (o ≡ none) × (db' ≡ db)
  run_plan-false db sid none now db' h = (refl, ground arith)
  run_plan-false db sid (some p) now db' h =
      elim (Result-cases (run_compaction summarize config db sid p now)) [
        | inl ((made, full), e) ↦ absurd (ground (arith, e))
        | inr (x, e) ↦ absurd (ground (arith, e))
      ]

  abbrev tail_of : List StoredMessage → ℕ
  tail_of all = min config.keep_recent_messages (length all)

  compacted_parts :
      (db : StateDb) (sid : String) (now : ℕ) (db' : StateDb)
      → maybe_compact_session summarize config db sid now ≡ ok (db', true)
      → let all = list_stored_messages db sid in
        (compact_threshold config
          < estimate_tokens (history_to_conversation (effective_history all)))
        × (run_plan summarize config db sid (plan_compaction all (tail_of all)) now
            ≡ ok (db', true))
  unfolding maybe_compact_session
  compacted_parts db sid now db' h = ground arith

  other_session :
      (db : StateDb) (sid role : String) (content : Text) (covers : Option ℕ) (now : ℕ)
      (db' : StateDb) (s : String)
      → insert_message db sid role content covers now ≡ ok db'
      → (sid ≡ s) ⊎ (list_stored_messages db' s ≡ list_stored_messages db s)
  other_session db sid role content covers now db' s h = elim (Bool-cases (str_eq sid s)) [
    | inl same ↦ inl (ground (arith, eq_iff sid s))
    | inr other ↦ inr (
        insert_message_lem db db' sid role content covers now h s
        ∙ rw other (append-nil (list_stored_messages db s)))
  ]

  -- A session that is compacted, in a sound database: its history is then a summary under the summary
  -- prefix and, behind it, the messages kept, as many as asked for and at least one; with those handed
  -- to the summarizer they are all that no earlier summary covers; its history before was above the
  -- token threshold; and no other session has changed.
  pub compacted_lem :
      (db : StateDb) (sid : String) (now : ℕ) (db' : StateDb)
      → IsSound db
      → maybe_compact_session summarize config db sid now ≡ ok (db', true)
      → let all = list_stored_messages db sid in
        (p : CompactionPlan) × (summary : Text) × (kept : List StoredMessage) × (summarize
            (transcript_lines p.to_summarize)
            p.previous_summary
          ≡ ok summary)
        × (effective_history (list_stored_messages db' sid)
            ≡ ("compaction", summary_prefix ++ summary) ∷ to_pairs kept)
        × (p.to_summarize ++ to_pairs kept ≡ to_pairs (uncovered_rows all))
        × (length kept ≡ max (min config.keep_recent_messages (length all)) 1)
        × (compact_threshold config
            < estimate_tokens (history_to_conversation (effective_history all)))
        × ((s : String) → (sid ≡ s) ⊎ (list_stored_messages db' s ≡ list_stored_messages db s))
  compacted_lem db sid now db' v h =
      let all = list_stored_messages db sid in
      let (above, run) = compacted_parts db sid now db' h in
      let (p, planned, (full, e)) =
        run_plan-true db sid (plan_compaction all (tail_of all)) now db' run in
      let (summary, asked, text, stored) = run_compaction_parts db sid p now db' full e in
      let c = summary_row db full p.covers_through_id in
      let after : list_stored_messages db' sid ≡ (all ++ []) ++ c ∷ [] =
        insert_message_lem db db' sid "compaction" full (some p.covers_through_id) now stored sid
        ∙ rw (append-nil all, eq_refl sid) in
      let (kept, history, split, count) =
        compaction_keeps all [] (tail_of all) p c
          (subst (Ascends 0) (sym (append-nil all)) (session-Ascends db sid v)) planned refl refl in
      (
        p,
        summary,
        kept,
        asked,
        ap effective_history after
            ∙ history
            ∙ ap (λ xs. ("compaction", full) ∷ to_pairs xs) (append-nil kept)
            ∙ ap (λ t. ("compaction", t) ∷ to_pairs kept) text,
        split,
        count,
        above,
        λ s. other_session db sid "compaction" full (some p.covers_through_id) now db' s stored,
      )
