-- ===== src/FileTools.antt =====
-- The tools on the files of a workspace: crates/bobaclaw-agent/src/tools/files.rs, workspace_path.rs
-- beside it and crates/bobaclaw-core/src/truncate.rs.
--
-- Where a path leads once its symbolic links are followed is a parameter of the system, for the paths
-- of missing files too: a link whose target is missing leads there when it is written to. The JSON of
-- the arguments is the data it holds, and paths are those of Unix.
pub mod Handlers
pub mod Placed
pub mod Edited
pub mod Tests
use boba_claw.Prelude.{
  ℕ, zero, suc, ◌+◌, ◌-◌, ◌*◌, ◌/◌, Bool, true, false, not, ◌&&◌, ◌||◌, ◌==◌, Option, none, some,
  List, [], ◌∷◌, ◌++◌, if◌then◌else◌, ltb, leb, map, any, take, drop, length, reverse, max, min,
  Text, codes, is_empty, text_eq, starts_with, byte_len, trim, Result, ok, err, ◌>>=◌,
}
use boba_claw.Summary.{newline}
use boba_claw.ToolLoop.{decimal}
use boba_claw.Reply.{lines, join as join_lines}
use boba_claw.FileSystem.{
  FilePath, Files, Disk, slash, components, join, below, parent, file_name, exists, read,
  create_dir_all, write_text, read_text, found_or, replace_once,
}

-- `str::replace` of a backslash by a slash, and `char::to_ascii_lowercase`
abbrev pub to_slash : ℕ → ℕ
to_slash c = if c == 92 then slash else c

abbrev to_ascii_lowercase : ℕ → ℕ
to_ascii_lowercase c = if leb 65 c && leb c 90 then c + 32 else c

abbrev is_url : Text → Bool
is_url lower = starts_with lower (codes "http://") || starts_with lower (codes "https://")

abbrev pub is_parent_dir : Text → Bool
is_parent_dir c = text_eq c (codes "..")

abbrev pub validate_trimmed : Text → Result Text Text
validate_trimmed trimmed =
    if is_empty trimmed
    then err (codes "path must not be empty")
    else if is_url (map to_ascii_lowercase trimmed)
    then err (
        codes "looks like a URL — use web_fetch for web pages, or exec (e.g. yt-dlp) for video; "
        ++ codes "file_read is workspace files only")
    else if starts_with trimmed (slash ∷ [])
    then err (
        codes "path must be workspace-relative (not an absolute or URL path); for http(s) links "
        ++ codes "use web_fetch")
    else if any is_parent_dir (components trimmed)
    then err (codes "path must not contain '..' or absolute segments")
    else ok trimmed

unfoldable pub validate_relative_path : Text → Result Text Text
validate_relative_path path = validate_trimmed (map to_slash (trim path))

-- The system: what the disk refuses, and where a path leads.
pub record System : Type 0 where
  pub disk : Disk
  pub real : FilePath → FilePath

-- `anyhow::anyhow!` around an error
abbrev pub map_err : {A : Type 0} → Text → Result Text A → Result Text A
map_err message (ok a) = ok a
map_err message (err e) = err (message ++ e)

module _ (sys : System) where
  abbrev pub is_there : Files → FilePath → Bool
  is_there fs p = exists fs (sys.real p)

  -- `std::fs::canonicalize`
  unfoldable pub canonicalize : Files → FilePath → Result Text FilePath
  canonicalize fs p = if is_there fs p then ok (sys.real p) else err sys.disk.unreadable

  abbrev pub parent_or : Files → Option FilePath → FilePath → FilePath
  parent_or fs none workspace = workspace
  parent_or fs (some dir) workspace = if is_there fs dir then sys.real dir else workspace

  abbrev pub new_place : FilePath → Option Text → Text → Result Text FilePath
  new_place dir none rel = err (codes "invalid path '" ++ rel ++ codes "'")
  new_place dir (some name) rel = ok (dir ++ name ∷ [])

  -- The two branches on whether the target exists. A parent that exists can be resolved.
  abbrev pub resolve_target : Files → FilePath → FilePath → Text → Result Text FilePath
  resolve_target fs workspace target rel =
      if is_there fs target
      then map_err (codes "cannot resolve path '" ++ rel ++ codes "': ") (canonicalize fs target)
      else new_place (parent_or fs (parent target) workspace) (file_name target) rel

  abbrev pub kept_inside : FilePath → Text → FilePath → Result Text FilePath
  kept_inside workspace rel resolved =
      if below workspace resolved
      then ok resolved
      else err (codes "path escapes workspace: " ++ rel)

  unfoldable pub resolve_in_workspace : Files → FilePath → Text → Result Text FilePath
  resolve_in_workspace fs workspace path = do
    rel ← validate_relative_path path
    canonical_ws ← map_err (codes "workspace unavailable: ") (canonicalize fs workspace)
    resolved ← resolve_target fs canonical_ws (join workspace rel) rel
    kept_inside canonical_ws rel resolved

  -- `Path::is_file` and `read_to_string`, which follow links
  abbrev pub is_some : Option Text → Bool
  is_some none = false
  is_some (some _) = true

  abbrev pub is_file : Files → FilePath → Bool
  is_file fs p = is_some (read fs (sys.real p))

  abbrev pub read_to_string : Files → FilePath → Result Text Text
  read_to_string fs p = read_text sys.disk fs (sys.real p)

  abbrev pub fs_write : Files → FilePath → Text → Result Text Files
  fs_write fs p contents = write_text sys.disk fs (sys.real p) contents
