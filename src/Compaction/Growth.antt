-- ===== src/Compaction/Growth.antt =====
-- How the history grows with a message that is no summary.
use boba_claw.Prelude.{
  ℕ, ◌+◌, ◌≤◌, ◌<◌, ◌≡◌, refl, ap, subst, ◌∙◌, inl, inr, false, Option, none, some, List, [], ◌∷◌,
  ◌++◌, map-append, keep, keep-append, All, Option-cases, arith,
}
use boba_claw.Sessions.{StoredMessage, to_pair}
use boba_claw.Compaction.{
  is_compaction, not_compaction, last_compaction, uncovered_by, uncovered_from, uncovered_rows,
  to_pairs, effective_history, latest_summary,
}
use boba_claw.Compaction.Plan.{Ascends, above, last_compaction_split}

-- A summary covers rows before its own.
abbrev pub IsBoundary : Option ℕ → ℕ → Type 0
IsBoundary none n = Unit
IsBoundary (some b) n = b < n

abbrev pub CoversEarlier : StoredMessage → Type 0
CoversEarlier r = IsBoundary r.covers_through_id r.id

abbrev with_row :
    StoredMessage
    → Option (StoredMessage × List StoredMessage)
    → Option (StoredMessage × List StoredMessage)
with_row m none = none
with_row m (some (c, rest)) = some (c, rest ++ m ∷ [])

last_compaction-append_other :
    (rows : List StoredMessage) (m : StoredMessage)
    → is_compaction m ≡ false
    → last_compaction (rows ++ m ∷ []) ≡ with_row m (last_compaction rows)
last_compaction-append_other [] m h = rw h
last_compaction-append_other (r ∷ rows) m h =
    rw (last_compaction-append_other rows m h) (elim (Option-cases (last_compaction rows)) [
      | inl e ↦ rw e (ground arith)
      | inr (x, e) ↦ rw e
    ])

last_above :
    (n : ℕ) (xs : List StoredMessage) (m : StoredMessage)
    → Ascends n (xs ++ m ∷ [])
    → All (λ r. r.id < m.id) xs × (n ≤ m.id)
last_above n [] m a = (tt, a.0)
last_above n (x ∷ xs) m a =
    let (b, k) = last_above (x.id + 1) xs m a.1 in ((omega arith, b), omega arith)

All-middle :
    (P : StoredMessage → Type 0) (xs ys : List StoredMessage) (c : StoredMessage)
    → All P (xs ++ c ∷ ys)
    → P c
All-middle P [] ys c a = a.0
All-middle P (x ∷ xs) ys c a = All-middle P xs ys c a.1

keeps_message :
    (rows : List StoredMessage) (m : StoredMessage)
    → is_compaction m ≡ false
    → keep not_compaction (rows ++ m ∷ []) ≡ keep not_compaction rows ++ m ∷ []
keeps_message rows m h = rw (keep-append not_compaction rows (m ∷ []), h)

uncovered_by-append :
    (o : Option ℕ) (rows rest : List StoredMessage) (m : StoredMessage)
    → is_compaction m ≡ false
    → IsBoundary o m.id
    → uncovered_by o (rows ++ m ∷ []) (rest ++ m ∷ []) ≡ uncovered_by o rows rest ++ m ∷ []
uncovered_by-append (some b) rows rest m h k =
    ap (keep (above b)) (keeps_message rows m h)
    ∙ keep-append (above b) (keep not_compaction rows) (m ∷ [])
    ∙ ground arith
uncovered_by-append none rows rest m h k = keeps_message rest m h

uncovered_from-append :
    (o : Option (StoredMessage × List StoredMessage)) (rows : List StoredMessage)
    (m : StoredMessage)
    → is_compaction m ≡ false
    → ((c : StoredMessage) (rest : List StoredMessage)
        → o ≡ some (c, rest)
        → IsBoundary c.covers_through_id m.id)
    → latest_summary (with_row m o) ++ to_pairs (uncovered_from (with_row m o) (rows ++ m ∷ []))
      ≡ (latest_summary o ++ to_pairs (uncovered_from o rows)) ++ to_pair m ∷ []
uncovered_from-append none rows m h k =
    ap to_pairs (keeps_message rows m h) ∙ map-append to_pair (keep not_compaction rows) (m ∷ [])
uncovered_from-append (some (c, rest)) rows m h k =
    ap (λ xs. to_pair c ∷ to_pairs xs)
      (uncovered_by-append c.covers_through_id rows rest m h (k c rest refl))
    ∙ ap (◌∷◌ (to_pair c))
        (map-append to_pair (uncovered_by c.covers_through_id rows rest) (m ∷ []))

IsBoundary-before :
    (rows : List StoredMessage) (m c : StoredMessage) (rest : List StoredMessage)
    → Ascends 0 (rows ++ m ∷ [])
    → All CoversEarlier rows
    → last_compaction rows ≡ some (c, rest)
    → IsBoundary c.covers_through_id m.id
IsBoundary-before rows m c rest a v e =
    let (before, f, k) = last_compaction_split rows c rest e in
    weaken c.covers_through_id
      (All-middle CoversEarlier before rest c (subst (All CoversEarlier) f v))
      (All-middle (λ r. r.id < m.id) before rest c
        (subst (All λ r. r.id < m.id) f (last_above 0 rows m a).0))
  where
    weaken : (o : Option ℕ) → IsBoundary o c.id → c.id < m.id → IsBoundary o m.id
    weaken none h k = tt
    weaken (some b) h k = omega arith

-- Rows in id order whose summaries cover earlier rows only: a further message that is no summary goes
-- to the end of the history that the model sees, and changes nothing else of it.
pub history_grows :
    (rows : List StoredMessage) (m : StoredMessage)
    → is_compaction m ≡ false
    → Ascends 0 (rows ++ m ∷ [])
    → All CoversEarlier rows
    → effective_history (rows ++ m ∷ []) ≡ effective_history rows ++ to_pair m ∷ []
unfolding effective_history uncovered_rows
history_grows rows m h a v =
    ap (λ o. latest_summary o ++ to_pairs (uncovered_from o (rows ++ m ∷ [])))
      (last_compaction-append_other rows m h)
    ∙ uncovered_from-append (last_compaction rows) rows m h
        (λ c rest e. IsBoundary-before rows m c rest a v e)
