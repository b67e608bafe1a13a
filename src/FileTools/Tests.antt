-- ===== src/FileTools/Tests.antt =====
-- The file tools at a small workspace, one with a symbolic link in it.
use boba_claw.Prelude.{
  ◌++◌, ◌≡◌, refl, true, false, none, some, [], ◌∷◌, codes, byte_len, len_utf8, trim, trim_start,
  trim_end, is_whitespace, ok, err, if◌then◌else◌,
}
use boba_claw.Reply.{lines}
use boba_claw.ToolLoop.{digits_within}
use boba_claw.FileSystem.{
  file, directory, with_dir, FilePath, Files, path_eq, split_on, components, join, below, read,
  write, create_dir_all, write_text, read_text,
}
use boba_claw.FileTools.{System, validate_relative_path, canonicalize, resolve_in_workspace}
use boba_claw.FileTools.Handlers.{
  handle_file_read, handle_file_write, FileEditArgs, replace_all_from, selected, shown,
}
use boba_claw.FileTools.Placed.{file_write_lands}

abbrev ws : FilePath
ws = codes "w" ∷ []

abbrev link : FilePath
link = codes "w" ∷ codes "link" ∷ []

abbrev outside : FilePath
outside = codes "etc" ∷ codes "new" ∷ []

abbrev sys : System
sys = record {
  disk = record { denied = λ p. none; unreadable = codes "unreadable" };
  real = λ p. if path_eq p link then outside else p;
}

abbrev note : FilePath
note = codes "w" ∷ codes "a" ∷ []

abbrev fs0 : Files
fs0 = (note, file (codes "one two")) ∷ []

traversal_refused :
    resolve_in_workspace sys fs0 ws (codes "b/../../x")
    ≡ err (codes "path must not contain '..' or absolute segments")
unfolding resolve_in_workspace validate_relative_path components split_on trim trim_start trim_end
    is_whitespace
traversal_refused = refl

abbrev fs1 : Files
fs1 = (note, file (codes "new")) ∷ []

note_written :
    handle_file_write sys fs0 ws (codes "a") (codes "new") ≡ ok (fs1, codes "Wrote 3 bytes to 'a'.")
unfolding handle_file_write resolve_in_workspace validate_relative_path canonicalize components join
    split_on create_dir_all with_dir write_text write trim trim_start trim_end is_whitespace
    byte_len len_utf8 digits_within
note_written = refl

file_write_lands_example :
    (q : FilePath) × (below ws q ≡ true)
    × (read fs1 (sys.real q) ≡ some (codes "new"))
    × ((p : FilePath) → path_eq (sys.real q) p ≡ false → read fs1 p ≡ read fs0 p)
file_write_lands_example =
    file_write_lands sys fs0 fs1 ws (codes "a") (codes "new") (codes "Wrote 3 bytes to 'a'.")
      note_written

-- A link whose target is missing is written through.
dangling_link_written :
    handle_file_write sys fs0 ws (codes "link") (codes "x")
    ≡ ok (
      (note, file (codes "one two")) ∷ (outside, file (codes "x")) ∷ [],
      codes "Wrote 1 bytes to 'link'.",
    )
unfolding handle_file_write resolve_in_workspace validate_relative_path canonicalize components join
    split_on create_dir_all with_dir write_text write trim trim_start trim_end is_whitespace
    byte_len len_utf8 digits_within
dangling_link_written = refl

abbrev edit_args : FileEditArgs
edit_args = record {
  path = codes "a";
  old_string = codes "two";
  new_string = codes "three";
  replace_all = false;
}

abbrev fs2 : Files
fs2 = (note, file (codes "one three")) ∷ []

every_match_replaced :
    replace_all_from 0 (codes "aaa b aa") (codes "aa") (codes "c") ≡ codes "ca b c"
unfolding replace_all_from
every_match_replaced = refl

second_line_read :
    handle_file_read sys
      ((note, file (codes "one\ntwo\nthree")) ∷ [])
      ws
      (codes "a")
      (some 2)
      (some 1)
    ≡ ok (codes "two")
unfolding handle_file_read resolve_in_workspace validate_relative_path canonicalize components join
    split_on read_text read trim trim_start trim_end is_whitespace lines selected shown
second_line_read = refl

-- A file is written into an empty directory, in the workspace or below it.
abbrev dirs : Files
dirs = (ws, directory) ∷ (codes "w" ∷ codes "sub" ∷ [], directory) ∷ []

into_empty_dir :
    handle_file_write sys dirs ws (codes "sub/a") (codes "new")
    ≡ ok (
      dirs ++ (codes "w" ∷ codes "sub" ∷ codes "a" ∷ [], file (codes "new")) ∷ [],
      codes "Wrote 3 bytes to 'sub/a'.",
    )
unfolding handle_file_write resolve_in_workspace validate_relative_path canonicalize components join
    split_on create_dir_all with_dir write_text write trim trim_start trim_end is_whitespace
    byte_len len_utf8 digits_within
into_empty_dir = refl

into_empty_workspace :
    handle_file_write sys ((ws, directory) ∷ []) ws (codes "a") (codes "new")
    ≡ ok ((ws, directory) ∷ fs1, codes "Wrote 3 bytes to 'a'.")
unfolding handle_file_write resolve_in_workspace validate_relative_path canonicalize components join
    split_on create_dir_all with_dir write_text write trim trim_start trim_end is_whitespace
    byte_len len_utf8 digits_within
into_empty_workspace = refl
