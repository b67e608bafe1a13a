-- ===== src/Compaction.antt =====
-- crates/bobaclaw-agent/src/compaction.rs: which stored messages the model sees, and which a summary
-- replaces.
pub mod Plan
pub mod History
pub mod Growth
pub mod Run
pub mod Compacted
pub mod Budget
pub mod Tests
use boba_claw.Prelude.{
  ℕ, ◌+◌, ◌-◌, ◌≡◌, max, String, str_eq, Bool, true, false, not, Option, none, some, List, [], ◌∷◌,
  ◌++◌, map, if◌then◌else◌, ltb, length, take, drop, keep, last?, Text, is_empty,
}
use boba_claw.Sessions.{StoredMessage, to_pair}
use boba_claw.Summary.{strip_summary_prefix}

abbrev pub is_compaction : StoredMessage → Bool
is_compaction r = str_eq r.role "compaction"

abbrev pub not_compaction : StoredMessage → Bool
not_compaction r = not (is_compaction r)

abbrev pub or_else {ℓ} : {A : Type ℓ} → Option A → Option A → Option A
or_else none d = d
or_else (some a) d = some a

-- `last_compaction_index`: the row at that index, with the rows behind it.
abbrev pub last_compaction : List StoredMessage → Option (StoredMessage × List StoredMessage)
last_compaction [] = none
last_compaction (r ∷ rs) =
    or_else (last_compaction rs) (if is_compaction r then some (r, rs) else none)

abbrev pub uncovered_by : Option ℕ → List StoredMessage → List StoredMessage → List StoredMessage
uncovered_by (some boundary) rows rest = keep (λ r. ltb boundary r.id) (keep not_compaction rows)
uncovered_by none rows rest = keep not_compaction rest

abbrev pub uncovered_from :
    Option (StoredMessage × List StoredMessage) → List StoredMessage → List StoredMessage
uncovered_from (some (c, rest)) rows = uncovered_by c.covers_through_id rows rest
uncovered_from none rows = keep not_compaction rows

unfoldable pub uncovered_rows : List StoredMessage → List StoredMessage
uncovered_rows rows = uncovered_from (last_compaction rows) rows

abbrev pub to_pairs : List StoredMessage → List (String × Text)
to_pairs = map to_pair

pub record CompactionPlan : Type 0 where
  pub to_summarize : List (String × Text)
  pub covers_through_id : ℕ
  pub previous_summary : Option Text

abbrev summary_body : Option (StoredMessage × List StoredMessage) → Option Text
summary_body none = none
summary_body (some (c, rest)) =
    let body = strip_summary_prefix c.content in if is_empty body then none else some body

unfoldable pub previous_summary_body : List StoredMessage → Option Text
previous_summary_body rows = summary_body (last_compaction rows)

-- The rows that a compaction summarizes: all pending ones but the last `tail_keep`, or none.
unfoldable pub summarized : List StoredMessage → ℕ → ℕ
summarized pending tail_keep = length pending - max tail_keep 1

-- `slice.last()?` gives the boundary.
abbrev pub plan_from :
    List StoredMessage → Option StoredMessage → Option Text → Option CompactionPlan
plan_from slice none previous = none
plan_from slice (some l) previous = some (record {
  to_summarize = to_pairs slice;
  covers_through_id = l.id;
  previous_summary = previous;
})

unfoldable pub plan_compaction : List StoredMessage → ℕ → Option CompactionPlan
unfolding summarized
plan_compaction rows tail_keep =
    let pending = uncovered_rows rows in
    let stop = summarized pending tail_keep in
    let slice = take stop pending in
    if ltb stop 2 then none else plan_from slice (last? slice) (previous_summary_body rows)

abbrev pub latest_summary : Option (StoredMessage × List StoredMessage) → List (String × Text)
latest_summary none = []
latest_summary (some (c, rest)) = to_pair c ∷ []

unfoldable pub effective_history : List StoredMessage → List (String × Text)
effective_history rows = latest_summary (last_compaction rows) ++ to_pairs (uncovered_rows rows)
