-- ===== src/Split.antt =====
-- crates/bobaclaw-channel-telegram/src/split.rs: a long reply cut into messages for Telegram.
--
-- Positions in a text are byte offsets, as in the code. `none` stands for the panic of `split_at` off a
-- character's boundary, and for fuel that runs out.
pub mod Positions
pub mod Chunks
pub mod Tests
use boba_claw.Prelude.{
  ℕ, zero, suc, ◌+◌, ◌-◌, max, Bool, true, false, Option, none, some, List, [], ◌∷◌, ◌++◌,
  if◌then◌else◌, ltb, leb, ◌==◌, length, Text, is_empty, is_whitespace, len_utf8, len_utf16,
  byte_len,
}
use boba_claw.Summary.{newline}

unfoldable pub utf16_len : Text → ℕ
utf16_len [] = 0
utf16_len (c ∷ s) = len_utf16 c + utf16_len s

-- `last_paragraph_break`, `last_line_break`, `last_space_break`
pub record Breaks : Type 0 where
  pub paragraph : Option ℕ
  pub line : Option ℕ
  pub space : Option ℕ

abbrev pub no_breaks : Breaks
no_breaks = record { paragraph = none; line = none; space = none }

abbrev pub is_newline? : Option ℕ → Bool
is_newline? none = false
is_newline? (some c) = c == newline

abbrev pub note_break : Breaks → ℕ → Option ℕ → ℕ → Breaks
note_break breaks c prev after =
    if c == newline
    then record breaks {
      paragraph = if is_newline? prev then some after else breaks.paragraph;
      line = some after;
    }
    else if is_whitespace c
    then record breaks { space = some after }
    else breaks

-- The first pass, from a place in the text: the units counted, the byte offset, the breaks so far.
abbrev pub scan : ℕ → ℕ → ℕ → Breaks → Option ℕ → Text → Breaks
scan limit count byte_idx breaks prev [] = breaks
scan limit count byte_idx breaks prev (c ∷ s) =
    let after = byte_idx + len_utf8 c in
    let rest = scan limit (count + len_utf16 c) after (note_break breaks c prev after) (some c) s in
    if ltb limit (count + len_utf16 c) then breaks else rest

-- The second pass.
abbrev pub overflow_at : ℕ → ℕ → ℕ → Text → ℕ
overflow_at limit count byte_idx [] = byte_idx
overflow_at limit count byte_idx (c ∷ s) =
    let rest = overflow_at limit (count + len_utf16 c) (byte_idx + len_utf8 c) s in
    if ltb limit (count + len_utf16 c) then max byte_idx 1 else rest

abbrev pub or_else? : Option ℕ → Option ℕ → Option ℕ
or_else? none d = d
or_else? (some n) d = some n

-- `.filter(|idx| *idx > 0)`, and the second pass if nothing is left.
abbrev pub chosen : Option ℕ → ℕ → ℕ
chosen none d = d
chosen (some zero) d = d
chosen (some (suc n)) d = suc n

unfoldable pub find_split_byte_index : Text → ℕ → ℕ
find_split_byte_index text limit =
    let breaks = scan limit 0 0 no_breaks none text in
    chosen (or_else? (or_else? breaks.paragraph breaks.line) breaks.space)
      (overflow_at limit 0 0 text)

abbrev pub with_first : ℕ → Option (Text × Text) → Option (Text × Text)
with_first c none = none
with_first c (some (s, t)) = some (c ∷ s, t)

-- `str::split_at`
abbrev pub split_at : Text → ℕ → Option (Text × Text)
split_at s zero = some ([], s)
split_at [] (suc n) = none
split_at (c ∷ s) (suc n) =
    let rest = with_first c (split_at s (suc n - len_utf8 c)) in
    if ltb (suc n) (len_utf8 c) then none else rest

abbrev pub push_front : Text → Option (List Text) → Option (List Text)
push_front s none = none
push_front s (some ss) = some (s ∷ ss)

abbrev pub cut_with : (Text → Option (List Text)) → Option (Text × Text) → Option (List Text)
cut_with again none = none
cut_with again (some (head, tail)) = push_front head (again tail)

unfoldable pub chunks_within : ℕ → Text → ℕ → Option (List Text)
chunks_within fuel [] limit = some []
chunks_within zero (c ∷ s) limit = none
chunks_within (suc fuel) (c ∷ s) limit =
    let text = c ∷ s in
    let again = λ (t : Text). chunks_within fuel t limit in
    if leb (utf16_len text) limit
    then some (text ∷ [])
    else cut_with again (split_at text (find_split_byte_index text limit))

-- Every round takes a character, so as many rounds as characters are enough.
unfoldable pub split_for_telegram : Text → ℕ → Option (List Text)
unfolding chunks_within
split_for_telegram text limit =
    if is_empty text
    then some ([] ∷ [])
    else if leb (utf16_len text) limit
    then some (text ∷ [])
    else chunks_within (length text) text limit
