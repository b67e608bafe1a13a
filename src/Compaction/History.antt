-- ===== src/Compaction/History.antt =====
-- What a compaction does to the history that the model sees.
use boba_claw.Prelude.{
  ℕ, ◌+◌, ◌-◌, ◌≤◌, ◌<◌, ◌≡◌, refl, sym, ap, subst, ◌≢◌, ◌↔◌, ltb→lt, ◌∙◌, inl, inr, max, true,
  none, some, List, [], ◌∷◌, ◌++◌, append_assoc, append-nil, ltb, length, length-take, length-drop,
  take, drop, take-append-drop, keep, keep-append, last?, Bool-cases, Option-cases, arith,
}
use boba_claw.Sessions.{StoredMessage, to_pair}
use boba_claw.Compaction.{
  CompactionPlan, is_compaction, not_compaction, uncovered_by, uncovered_from, uncovered_rows,
  to_pairs, summarized, plan_compaction, effective_history,
}
use boba_claw.Compaction.Plan.{
  Ascends, above, Ascends-front, Ascends-keep, keep-above_last, last?-append, uncovered_suffix,
  last_compaction-append,
}

-- The rows that a plan leaves as they are.
abbrev pub kept_rows : List StoredMessage → ℕ → List StoredMessage
kept_rows rows tail_keep =
    let pending = uncovered_rows rows in drop (summarized pending tail_keep) pending

abbrev slice_of : List StoredMessage → ℕ → List StoredMessage
slice_of rows tail_keep =
    let pending = uncovered_rows rows in take (summarized pending tail_keep) pending

plan_parts :
    (rows : List StoredMessage) (tail_keep : ℕ) (p : CompactionPlan)
    → plan_compaction rows tail_keep ≡ some p
    → (l : StoredMessage) × (last? (slice_of rows tail_keep) ≡ some l)
      × (p.covers_through_id ≡ l.id)
      × (p.to_summarize ≡ to_pairs (slice_of rows tail_keep))
      × (2 ≤ summarized (uncovered_rows rows) tail_keep)
unfolding plan_compaction
plan_parts rows tail_keep p h = elim (Option-cases (last? (slice_of rows tail_keep))) [
  | inl e ↦ absurd (ground (arith, e))
  | inr (l, e) ↦ (l, e, ground arith, ground arith, ground arith)
]

to_pairs-append : (xs ys : List StoredMessage) → to_pairs (xs ++ ys) ≡ to_pairs xs ++ to_pairs ys
to_pairs-append [] ys = refl
to_pairs-append (x ∷ xs) ys = rw (to_pairs-append xs ys)

summary_drops_out :
    (rows : List StoredMessage) (c : StoredMessage)
    → is_compaction c ≡ true
    → keep not_compaction (rows ++ c ∷ []) ≡ keep not_compaction rows
summary_drops_out rows c k =
    rw (keep-append not_compaction rows (c ∷ []), k) (append-nil (keep not_compaction rows))

uncovered_with :
    (rows : List StoredMessage) (b : ℕ) (c : StoredMessage)
    → is_compaction c ≡ true
    → c.covers_through_id ≡ some b
    → uncovered_rows (rows ++ c ∷ []) ≡ keep (above b) (keep not_compaction rows)
unfolding uncovered_rows
uncovered_with rows b c k e =
    ap (λ o. uncovered_from o (rows ++ c ∷ [])) (last_compaction-append rows c k)
    ∙ ap (λ o. uncovered_by o (rows ++ c ∷ []) []) e
    ∙ ap (keep (above b)) (summary_drops_out rows c k)

-- Behind the new summary only the kept rows, and those that came since, are uncovered.
uncovered_after :
    (rows extra : List StoredMessage) (tail_keep : ℕ) (l c : StoredMessage)
    → Ascends 0 (rows ++ extra)
    → last? (slice_of rows tail_keep) ≡ some l
    → is_compaction c ≡ true
    → c.covers_through_id ≡ some l.id
    → uncovered_rows ((rows ++ extra) ++ c ∷ [])
      ≡ kept_rows rows tail_keep ++ keep not_compaction extra
uncovered_after rows extra tail_keep l c a h k b =
    let (front, e) = uncovered_suffix rows (Ascends-front 0 rows extra a) in
    let slice = slice_of rows tail_keep in
    let kept = kept_rows rows tail_keep in
    let since = keep not_compaction extra in
    let parts : keep not_compaction (rows ++ extra) ≡ (front ++ slice) ++ (kept ++ since) =
      keep-append not_compaction rows extra
      ∙ ap (λ xs. xs ++ since)
          (e
            ∙ ap (◌++◌ front) (
                sym (
                  take-append-drop (summarized (uncovered_rows rows) tail_keep)
                    (uncovered_rows rows)))
            ∙ sym (append_assoc front slice kept))
      ∙ append_assoc (front ++ slice) kept since in
    uncovered_with (rows ++ extra) l.id c k b
    ∙ ap (keep (above l.id)) parts
    ∙ keep-above_last 0 (front ++ slice) (kept ++ since) l
        (subst (Ascends 0) parts (Ascends-keep not_compaction 0 (rows ++ extra) a))
        (last?-append front slice l h)

history_after :
    (rows : List StoredMessage) (c : StoredMessage)
    → is_compaction c ≡ true
    → effective_history (rows ++ c ∷ []) ≡ to_pair c ∷ to_pairs (uncovered_rows (rows ++ c ∷ []))
unfolding effective_history
history_after rows c k = rw (last_compaction-append rows c k)

kept_length :
    (pending : List StoredMessage) (tail_keep : ℕ)
    → 2 ≤ summarized pending tail_keep
    → length (drop (summarized pending tail_keep) pending) ≡ max tail_keep 1
unfolding summarized
kept_length pending tail_keep h =
    omega (arith, length-drop (length pending - max tail_keep 1) pending)

-- Rows in id order, a plan for them, rows that came while the summary was made, and behind them the
-- summary row that the plan asks for. Then the model sees the summary and behind it exactly the rows
-- that the plan did not summarize and the messages that came since; the summarized and the kept rows
-- are together, in order, all rows that were uncovered; and the kept ones are as many as asked for,
-- at least one.
pub compaction_keeps :
    (rows extra : List StoredMessage) (tail_keep : ℕ) (p : CompactionPlan) (c : StoredMessage)
    → Ascends 0 (rows ++ extra)
    → plan_compaction rows tail_keep ≡ some p
    → is_compaction c ≡ true
    → c.covers_through_id ≡ some p.covers_through_id
    → (kept : List StoredMessage) × (effective_history ((rows ++ extra) ++ c ∷ [])
        ≡ to_pair c ∷ to_pairs (kept ++ keep not_compaction extra))
      × (p.to_summarize ++ to_pairs kept ≡ to_pairs (uncovered_rows rows))
      × (length kept ≡ max tail_keep 1)
compaction_keeps rows extra tail_keep p c a h k b =
    let (l, last, covers, taken, two) = plan_parts rows tail_keep p h in
    let pending = uncovered_rows rows in
    (
      kept_rows rows tail_keep,
      history_after (rows ++ extra) c k
          ∙ ap (λ xs. to_pair c ∷ to_pairs xs)
              (uncovered_after rows extra tail_keep l c a last k (b ∙ ap some covers)),
      ap (λ xs. xs ++ to_pairs (kept_rows rows tail_keep)) taken
          ∙ sym (to_pairs-append (slice_of rows tail_keep) (kept_rows rows tail_keep))
          ∙ ap to_pairs (take-append-drop (summarized pending tail_keep) pending),
      kept_length pending tail_keep two,
    )

plan_none :
    (rows : List StoredMessage) (tail_keep : ℕ)
    → length (uncovered_rows rows) < max tail_keep 1 + 2
    → plan_compaction rows tail_keep ≡ none
unfolding plan_compaction
plan_none rows tail_keep h = ground arith

nonempty_last : (xs : List StoredMessage) → 0 < length xs → last? xs ≢ none
nonempty_last [] h = absurd (omega arith)
nonempty_last (x ∷ []) h = λ e. cc
nonempty_last (x ∷ y ∷ xs) h = nonempty_last (y ∷ xs) (omega arith)

plan_some :
    (rows : List StoredMessage) (tail_keep : ℕ)
    → max tail_keep 1 + 2 ≤ length (uncovered_rows rows)
    → plan_compaction rows tail_keep ≢ none
unfolding plan_compaction
plan_some rows tail_keep h e = elim (Option-cases (last? (slice_of rows tail_keep))) [
  | inl f ↦
      nonempty_last (slice_of rows tail_keep)
        (omega
          (arith, length-take (summarized (uncovered_rows rows) tail_keep) (uncovered_rows rows)))
        f
  | inr (l, f) ↦ ground (arith, f)
]

-- A plan is made exactly if at least two rows are left to summarize beside the `tail_keep` (at least
-- one) that stay.
pub plan_iff :
    (rows : List StoredMessage) (tail_keep : ℕ)
    → (plan_compaction rows tail_keep ≢ none) ↔ (max tail_keep 1 + 2 ≤ length (uncovered_rows rows))
plan_iff rows tail_keep = (
  λ made. elim (Bool-cases (ltb (length (uncovered_rows rows)) (max tail_keep 1 + 2))) [
    | inl few ↦ absurd (made (plan_none rows tail_keep (ltb→lt _ _ few)))
    | inr many ↦ ground arith
  ],
  plan_some rows tail_keep,
)
