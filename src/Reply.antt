-- ===== src/Reply.antt =====
-- What a turn shows and what it stores: the text functions of crates/bobaclaw-agent/src/turn.rs.
--
-- Texts are lists of characters. The markers are ASCII, so a byte position at which one is found is the
-- position of a character, and positions are counted in characters.
pub mod Search
pub mod Lines
pub mod Hidden
pub mod Stored
pub mod Tests
use boba_claw.Prelude.{
  ℕ, suc, ◌+◌, min, Bool, true, false, ◌&&◌, ◌||◌, ◌==◌, Option, none, some, List, [], ◌∷◌, ◌++◌,
  if◌then◌else◌, length, take, is_empty, Text, codes, starts_with, contains, trim, trim_end,
  reverse, ltb, ◌-◌, ◌^◌,
}
use boba_claw.Summary.{newline}
use boba_claw.ToolLoop.{decimal, ToolPersistEntry}

abbrev pub tool_results_html_comment : Text
tool_results_html_comment = codes "<!-- tool-results -->"

abbrev pub tool_results_marker : Text
tool_results_marker = newline ∷ newline ∷ (tool_results_html_comment ++ newline ∷ [])

abbrev pub leaked_tool_xml_markers : List Text
leaked_tool_xml_markers =
    codes "<invoke "
    ∷ codes "<invoke>"
    ∷ codes "<tool_call"
    ∷ codes "<minimax:tool_call"
    ∷ codes "</parameter>"
    ∷ codes "</invoke>"
    ∷ codes "</minimax:tool_call>"
    ∷ []

abbrev pub next_index : Option ℕ → Option ℕ
next_index none = none
next_index (some i) = some (suc i)

-- `str::find`
unfoldable pub index_of : Text → Text → Option ℕ
index_of [] p = if starts_with [] p then some 0 else none
index_of (c ∷ s) p =
    let later = next_index (index_of s p) in if starts_with (c ∷ s) p then some 0 else later

abbrev pub cut_at : Text → Option ℕ → Text
cut_at s none = s
cut_at s (some i) = take i s

abbrev pub earlier : ℕ → Option ℕ → ℕ
earlier cut none = cut
earlier cut (some i) = min cut i

abbrev pub first_marker : Text → ℕ → List Text → ℕ
first_marker s cut [] = cut
first_marker s cut (m ∷ ms) = first_marker s (earlier cut (index_of s m)) ms

unfoldable pub strip_leaked_tool_xml : Text → Text
strip_leaked_tool_xml s = trim_end (take (first_marker s (length s) leaked_tool_xml_markers) s)

abbrev pub push : ℕ → List Text → List Text
push c [] = (c ∷ []) ∷ []
push c (l ∷ ls) = (c ∷ l) ∷ ls

-- `str::lines`: a line ends before a line feed, or before a carriage return and a line feed.
unfoldable pub lines : Text → List Text
lines [] = []
lines (c ∷ s) =
    let rest = lines s in
    if c == newline
    then [] ∷ rest
    else if c == 13 && starts_with s (newline ∷ [])
    then rest
    else push c rest

abbrev pub join : List Text → Text
join [] = []
join (l ∷ []) = l
join (l ∷ m ∷ ls) = l ++ newline ∷ join (m ∷ ls)

abbrev pub ends_with_char : Text → ℕ → Bool
ends_with_char s c = starts_with (reverse s) (c ∷ [])

abbrev pub is_dropped : Text → Bool
is_dropped line =
    let t = trim line in
    is_empty t
    || (starts_with t (codes "[") && (contains t (codes " exit=") && ends_with_char t 93))

-- The loop takes lines off the end until one stays.
abbrev pub put_line : Text → List Text → List Text
put_line l [] = if is_dropped l then [] else l ∷ []
put_line l (m ∷ ls) = l ∷ m ∷ ls

unfoldable pub drop_trailing : List Text → List Text
drop_trailing [] = []
drop_trailing (l ∷ ls) = put_line l (drop_trailing ls)

unfoldable pub trim_trailing_tool_persist_lines : Text → Text
trim_trailing_tool_persist_lines s = trim_end (join (drop_trailing (lines s)))

unfoldable pub sanitize_user_reply : Text → Text
sanitize_user_reply text =
    trim_trailing_tool_persist_lines
      (strip_leaked_tool_xml (cut_at text (index_of text tool_results_html_comment)))

-- The `i32` of 32 bits, as it is printed.
abbrev pub signed : ℕ → Text
signed code = if ltb code (2 ^ 31) then decimal code else 45 ∷ decimal (2 ^ 32 - code)

abbrev pub ended : Text → Text
ended body = if ends_with_char body newline then body else body ++ newline ∷ []

abbrev pub entry_text : ToolPersistEntry → Text
entry_text t =
    codes "["
    ++ (codes t.name ++ (codes " exit=" ++ (signed t.exit_code ++ (93 ∷ newline ∷ ended t.body))))

abbrev pub entries_text : List ToolPersistEntry → Text
entries_text [] = []
entries_text (t ∷ ts) = entry_text t ++ entries_text ts

unfoldable pub build_persisted_assistant : Text → List ToolPersistEntry → Text
build_persisted_assistant final_text [] = final_text
build_persisted_assistant final_text (t ∷ ts) =
    final_text ++ (tool_results_marker ++ entries_text (t ∷ ts))
