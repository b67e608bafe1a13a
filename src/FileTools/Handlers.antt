-- ===== src/FileTools/Handlers.antt =====
-- The handlers of crates/bobaclaw-agent/src/tools/files.rs, with the cut of a long output from
-- crates/bobaclaw-core/src/truncate.rs.
use boba_claw.Prelude.{
  ℕ, zero, suc, ◌+◌, ◌-◌, ◌*◌, ◌/◌, Bool, not, ◌&&◌, ◌==◌, Option, none, some, List, [], ◌∷◌, ◌++◌,
  if◌then◌else◌, ltb, leb, take, drop, length, reverse, max, min, Text, codes, is_empty,
  starts_with, byte_len, Result, ok, err, ◌>>=◌,
}
use boba_claw.Summary.{newline}
use boba_claw.ToolLoop.{decimal}
use boba_claw.Reply.{lines, join as join_lines}
use boba_claw.FileSystem.{FilePath, Files, parent, create_dir_all, replace_once}
use boba_claw.FileTools.{
  validate_relative_path, System, resolve_in_workspace, is_file, read_to_string, fs_write,
}

module _ (sys : System) where
  abbrev pub max_read_chars : ℕ
  max_read_chars = 24000

  -- `head_tail_with_hint`. The factor 0.65 of the code gives a whole number at the limit in use.
  unfoldable pub head_tail_with_hint : Text → ℕ → Text → Text
  head_tail_with_hint content max_chars hint =
      let head_chars = max_chars * 65 / 100 in
      let tail_chars = (max_chars - head_chars) - (length hint + 40) in
      if leb (length content) max_chars
      then content
      else take head_chars content
        ++ newline ∷ newline ∷ codes "[... "
        ++ hint
        ++ codes " ...]"
        ++ newline ∷ newline ∷ reverse (take tail_chars (reverse content))

  abbrev or_one : Option ℕ → ℕ
  or_one none = 1
  or_one (some offset) = max offset 1

  abbrev end_of : List Text → ℕ → Option ℕ → ℕ
  end_of ls idx none = length ls
  end_of ls idx (some limit) = min (idx + limit) (length ls)

  abbrev window : List Text → ℕ → Option ℕ → Text
  window ls idx limit =
      if leb (length ls) idx then [] else join_lines (drop idx (take (end_of ls idx limit) ls))

  unfoldable pub selected : Text → Option ℕ → Option ℕ → Text
  selected content none none = content
  selected content none (some limit) = window (lines content) 0 (some limit)
  selected content (some offset) limit = window (lines content) (or_one (some offset) - 1) limit

  unfoldable pub shown : Text → Text → Text
  shown output rel =
      if ltb max_read_chars (length output)
      then head_tail_with_hint output max_read_chars
          (codes "truncated '" ++ rel ++ codes "' — use offset/limit for more")
      else output

  unfoldable pub handle_file_read : Files → FilePath → Text → Option ℕ → Option ℕ → Result Text Text
  handle_file_read fs workspace path offset limit = do
    target ← resolve_in_workspace sys fs workspace path
    content ←
        (if is_file sys fs target
          then read_to_string sys fs target
          else err (codes "not a file: " ++ path))
    rel ← validate_relative_path path
    ok (shown (selected content offset limit) rel)

  -- `target.parent()` with `create_dir_all`
  abbrev pub parent_made : Files → Option FilePath → Result Text Files
  parent_made fs none = ok fs
  parent_made fs (some dir) = create_dir_all sys.disk fs (sys.real dir)

  unfoldable pub handle_file_write : Files → FilePath → Text → Text → Result Text (Files × Text)
  handle_file_write fs workspace path contents = do
    rel ← validate_relative_path path
    target ← resolve_in_workspace sys fs workspace rel
    made ← parent_made fs (parent target)
    written ← fs_write sys made target contents
    ok (
      written,
      codes "Wrote " ++ decimal (byte_len contents) ++ codes " bytes to '" ++ rel ++ codes "'.",
    )

-- `str::matches(..).count()` and `str::replace`: matches from the left that do not overlap, with the
-- number of characters of the last one still to pass.
unfoldable pub count_matches : ℕ → Text → Text → ℕ
count_matches skip [] p = 0
count_matches zero (c ∷ s) p =
    let here = suc (count_matches (length p - 1) s p) in
    let later = count_matches 0 s p in if starts_with (c ∷ s) p then here else later
count_matches (suc skip) (c ∷ s) p = count_matches skip s p

unfoldable pub replace_all_from : ℕ → Text → Text → Text → Text
replace_all_from skip [] p new = []
replace_all_from zero (c ∷ s) p new =
    let here = new ++ replace_all_from (length p - 1) s p new in
    let later = c ∷ replace_all_from 0 s p new in if starts_with (c ∷ s) p then here else later
replace_all_from (suc skip) (c ∷ s) p new = replace_all_from skip s p new

pub record FileEditArgs : Type 0 where
  pub path : Text
  pub old_string : Text
  pub new_string : Text
  pub replace_all : Bool

module _ (sys : System) where
  abbrev pub check_count : FileEditArgs → Text → ℕ → Result Text (Unit {0})
  check_count args rel count =
      if count == 0
      then err (codes "old_string not found in '" ++ rel ++ codes "'")
      else if ltb 1 count && not args.replace_all
      then err (
          codes "old_string matches "
          ++ decimal count
          ++ codes " times in '"
          ++ rel
          ++ codes "' — set replace_all=true or use a unique old_string")
      else ok tt

  abbrev pub updated : FileEditArgs → Text → Text
  updated args content =
      if args.replace_all
      then replace_all_from 0 content args.old_string args.new_string
      else replace_once content args.old_string args.new_string

  -- The edit of a target that was resolved.
  abbrev pub edit_target : Files → FileEditArgs → Text → FilePath → Result Text (Files × Text)
  edit_target fs args rel target = do
    content ←
        (if is_file sys fs target
          then read_to_string sys fs target
          else err (codes "not a file: " ++ rel))
    let count = count_matches 0 content args.old_string
    counted ← check_count args rel count
    written ← fs_write sys fs target (updated args content)
    ok (
      written,
      codes "Replaced "
          ++ decimal (if args.replace_all then count else 1)
          ++ codes " occurrence(s) in '"
          ++ rel
          ++ codes "'.",
    )

  abbrev pub edit_at : Files → FilePath → FileEditArgs → Result Text (Files × Text)
  edit_at fs workspace args = do
    rel ← validate_relative_path args.path
    target ← resolve_in_workspace sys fs workspace rel
    edit_target fs args rel target

  unfoldable pub handle_file_edit : Files → FilePath → FileEditArgs → Result Text (Files × Text)
  handle_file_edit fs workspace args =
      if is_empty args.old_string
      then err (codes "old_string must not be empty")
      else edit_at fs workspace args
