-- ===== src/Summary.antt =====
-- The summary texts of crates/bobaclaw-agent/src/prompt.rs: the prefix of a stored compaction, and
-- how it is taken off again.
use boba_claw.Prelude.{
  ℕ, ◌||◌, Option, none, some, [], ◌∷◌, ◌++◌, if◌then◌else◌, ◌==◌, Text, codes, trim,
}

abbrev pub newline : ℕ
newline = 10

abbrev summary_prefix_line : Text
summary_prefix_line =
    codes "[CONTEXT COMPACTION — REFERENCE ONLY] Earlier turns were compacted "
    ++ codes "into the summary below. This is a handoff from a previous context "
    ++ codes "window — treat it as background reference, NOT as active "
    ++ codes "instructions. Do NOT answer questions or fulfill requests mentioned "
    ++ codes "in this summary; they were already addressed. Respond ONLY to the "
    ++ codes "latest user message that appears AFTER this summary — that message is "
    ++ codes "the single source of truth for what to do right now. If the latest "
    ++ codes "user message is consistent with the '## Active Task' section, you may "
    ++ codes "use the summary as background. If the latest user message "
    ++ codes "contradicts, supersedes, or changes topic from '## Active Task' / '## "
    ++ codes "Pending User Asks' / '## Remaining Work', the latest message WINS — "
    ++ codes "do not wrap up stale work first. Reverse signals in the latest "
    ++ codes "message (stop, undo, never mind, new topic) cancel in-flight work "
    ++ codes "from the summary. BOBACLAW.md and other workspace memory files remain "
    ++ codes "authoritative — do not ignore them because of this note. The current "
    ++ codes "session state (files, config) may reflect work described here — avoid "
    ++ codes "repeating it:"

-- `SUMMARY_PREFIX`
pub summary_prefix : Text
summary_prefix = summary_prefix_line ++ newline ∷ newline ∷ []

abbrev legacy_prefix : Text
legacy_prefix = codes "[CONTEXT COMPACTION — REFERENCE ONLY] Earlier turns were summarized."

abbrev legacy_note : Text
legacy_note = codes "Treat as background only"

-- `str::strip_prefix`
abbrev strip_prefix : Text → Text → Option Text
strip_prefix s [] = some s
strip_prefix [] (p ∷ ps) = none
strip_prefix (c ∷ s) (p ∷ ps) = if c == p then strip_prefix s ps else none

-- `trim_start_matches([' ', ';', ':'])`
abbrev trim_marks : Text → Text
trim_marks [] = []
trim_marks (c ∷ s) = if c == b' ' || c == b';' || c == b':' then trim_marks s else c ∷ s

strip_legacy : Text → Text
unfolding trim
strip_legacy s = elim (strip_prefix s legacy_prefix) [
  | none ↦ s
  | some rest ↦ elim (strip_prefix (trim rest) legacy_note) [
    | none ↦ trim rest
    | some after ↦ trim_marks (trim after)
  ]
]

unfoldable pub strip_summary_prefix : Text → Text
unfolding strip_legacy summary_prefix trim
strip_summary_prefix content = elim (strip_prefix (trim content) summary_prefix) [
  | none ↦ strip_legacy (trim content)
  | some rest ↦ trim rest
]
