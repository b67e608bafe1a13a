-- ===== src/FileSystem.antt =====
-- Rust's `Path` and `std::fs`, as crates/bobaclaw-skills/src/manager.rs and
-- crates/bobaclaw-agent/src/tools/files.rs use them.
--
-- A path is the list of its components from the root, and a tree is the list of its files and
-- directories in the order in which they are walked. A directory that holds something need not be
-- listed: it is there as long as something below it is. What the system refuses, with its message, is a
-- parameter. Symbolic links are in FileTools alone, which follows them before it comes here.
pub mod Reads
use boba_claw.Prelude.{
  ℕ, ◌≡◌, refl, Bool, true, false, not, ◌&&◌, ◌||◌, ◌==◌, Option, none, some, List, [], ◌∷◌, ◌++◌,
  if◌then◌else◌, Text, codes, is_empty, text_eq, starts_with, keep, any, last?, take, drop, length,
  ◌+◌, Result, ok, err, arith,
}
use boba_claw.Reply.{push, index_of}

abbrev pub slash : ℕ
slash = 47

-- `str::split` at a character
unfoldable pub split_on : ℕ → Text → List Text
split_on d [] = [] ∷ []
split_on d (c ∷ s) = let rest = split_on d s in if c == d then [] ∷ rest else push c rest

abbrev pub FilePath : Type 0
FilePath = List Text

abbrev pub is_component : Text → Bool
is_component p = not (is_empty p) && not (text_eq p (codes "."))

-- `Path::components`
unfoldable pub components : Text → FilePath
components s = keep is_component (split_on slash s)

-- `Path::join`: an absolute path takes the place of the base.
unfoldable pub join : FilePath → Text → FilePath
join base rel = if starts_with rel (slash ∷ []) then components rel else base ++ components rel

abbrev pub path_eq : FilePath → FilePath → Bool
path_eq [] [] = true
path_eq [] (_ ∷ _) = false
path_eq (_ ∷ _) [] = false
path_eq (a ∷ p) (b ∷ q) = text_eq a b && path_eq p q

-- `Path::starts_with`: the second path is the first one or lies below it.
abbrev pub below : FilePath → FilePath → Bool
below [] q = true
below (_ ∷ _) [] = false
below (a ∷ p) (b ∷ q) = text_eq a b && below p q

-- `Path::parent`, `Path::file_name` and `Path::display`
abbrev pub within : Text → Option FilePath → Option FilePath
within a none = none
within a (some q) = some (a ∷ q)

abbrev pub parent : FilePath → Option FilePath
parent [] = none
parent (a ∷ []) = some []
parent (a ∷ b ∷ p) = within a (parent (b ∷ p))

abbrev pub is_named : Text → Option Text → Bool
is_named name none = false
is_named name (some file_name) = text_eq file_name name

abbrev pub file_name : FilePath → Option Text
file_name = last?

unfoldable pub display : FilePath → Text
display [] = []
display (a ∷ p) = slash ∷ a ++ display p

pub data Node : Type 0 where
  file : Text → Node
  directory : Node

abbrev pub Files : Type 0
Files = List (FilePath × Node)

abbrev pub text_of : Node → Option Text
text_of (file content) = some content
text_of directory = none

abbrev is_directory : Node → Bool
is_directory (file content) = false
is_directory directory = true

unfoldable pub read : Files → FilePath → Option Text
read [] p = none
read ((q, node) ∷ fs) p = let rest = read fs p in if path_eq q p then text_of node else rest

unfoldable pub write : Files → FilePath → Text → Files
write [] p content = (p, file content) ∷ []
write ((q, before) ∷ fs) p content =
    let rest = write fs p content in
    if path_eq q p then (p, file content) ∷ fs else (q, before) ∷ rest

-- `Path::exists`
abbrev pub exists : Files → FilePath → Bool
exists fs p = any (λ f. below p f.0) fs

-- A directory is listed where it is not there.
unfoldable pub with_dir : Files → FilePath → Files
with_dir fs dir = if exists fs dir then fs else fs ++ (dir, directory) ∷ []

unfoldable pub with_parent : Files → Option FilePath → Files
unfolding with_dir
with_parent fs none = fs
with_parent fs (some dir) = with_dir fs dir

-- `std::fs::remove_file` and `std::fs::remove_dir_all`: the directory above stays, empty or not.
unfoldable pub without : Files → FilePath → Files
unfolding with_parent
without fs p = with_parent (keep (λ f. not (path_eq f.0 p)) fs) (parent p)

abbrev pub kept_outside : Files → FilePath → Files
kept_outside fs dir = keep (λ f. not (below dir f.0)) fs

unfoldable pub without_dir : Files → FilePath → Files
unfolding with_parent
without_dir fs dir = with_parent (kept_outside fs dir) (parent dir)

-- A directory stands at the path; a file stands at the path or above it.
abbrev pub is_dir : Files → FilePath → Bool
is_dir fs p = any (λ f. below p f.0 && (not (path_eq f.0 p) || is_directory f.1)) fs

abbrev pub under_file : Files → FilePath → Bool
under_file fs p = any (λ f. below f.0 p && not (is_directory f.1)) fs

abbrev pub under_other_file : Files → FilePath → Bool
under_other_file fs p = any (λ f. below f.0 p && not (path_eq f.0 p) && not (is_directory f.1)) fs

abbrev pub refused : Option Text → Result Text (Unit {0})
refused none = ok tt
refused (some e) = err e

-- The system: the changes it refuses at a path, and its message where a path has the wrong kind.
pub record Disk : Type 0 where
  pub denied : FilePath → Option Text
  pub unreadable : Text

-- `std::fs::create_dir_all`, `std::fs::write` and `std::fs::read_to_string`
abbrev pub when_allowed : Files → Result Text (Unit {0}) → Result Text Files
when_allowed fs (ok _) = ok fs
when_allowed fs (err e) = err e

unfoldable pub create_dir_all : Disk → Files → FilePath → Result Text Files
unfolding with_dir
create_dir_all disk fs dir =
    if under_file fs dir
    then err disk.unreadable
    else when_allowed (with_dir fs dir) (if exists fs dir then ok tt else refused (disk.denied dir))

unfoldable pub write_text : Disk → Files → FilePath → Text → Result Text Files
write_text disk fs p content =
    if is_dir fs p || under_other_file fs p
    then err disk.unreadable
    else when_allowed (write fs p content) (refused (disk.denied p))

abbrev pub found_or : Text → Option Text → Result Text Text
found_or e none = err e
found_or e (some content) = ok content

unfoldable pub read_text : Disk → Files → FilePath → Result Text Text
read_text disk fs p = found_or disk.unreadable (read fs p)

-- `str::replacen` once, at a text that is there
abbrev pub replaced_at : Text → Text → Text → Option ℕ → Text
replaced_at content old_string new_string none = content
replaced_at content old_string new_string (some i) =
    take i content ++ new_string ++ drop (i + length old_string) content

abbrev pub replace_once : Text → Text → Text → Text
replace_once content old_string new_string =
    replaced_at content old_string new_string (index_of content old_string)
