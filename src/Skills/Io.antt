-- ===== src/Skills/Io.antt =====
-- The steps of the operations in crates/bobaclaw-skills/src/manager.rs: what they read of their
-- surroundings, how they fail, and the calls that several of them share. A step takes the workspace and
-- returns it as it then is, in an error too, so that what was written before a later step failed stays.
use boba_claw.Prelude.{
  ℕ, Bool, false, ◌&&◌, Option, none, some, List, [], ◌∷◌, ◌++◌, if◌then◌else◌, Text, codes,
  is_empty, Result, ok, err,
}
use boba_claw.FileSystem.{
  FilePath, Files, Disk, join, below, parent, is_named, file_name, create_dir_all, write_text,
  read_text,
}
use boba_claw.Skills.Validate.{Yaml}
use boba_claw.Skills.Guard.{GuardReport, GuardVerdict, safe, caution, dangerous, guard_skill_dir}
use boba_claw.Skills.State.{Workspace, StateFile, Records, load, save}

-- A step on the workspace that may fail.
abbrev pub Step : Type 0 → Type 0
Step A = Workspace → Workspace × Result Text A

abbrev pub then_run :
    {A B : Type 0} → (A → Step B) → Workspace × Result Text A → Workspace × Result Text B
then_run f (w, ok a) = f a w
then_run f (w, err e) = (w, err e)

infixl 5 ◌>>=◌ ◌>>◌
abbrev pub ◌>>=◌ : {A B : Type 0} → Step A → (A → Step B) → Step B
◌>>=◌ m f w = then_run f (m w)

abbrev pub ◌>>◌ : {B : Type 0} → Step (Unit {0}) → Step B → Step B
m >> k = m >>= λ _. k

abbrev pub return : {A : Type 0} → A → Step A
return a w = (w, ok a)

abbrev pub fail : {A : Type 0} → Text → Step A
fail e w = (w, err e)

-- `if let Some(e) = ... { return Err(e); }`
abbrev pub check : Option Text → Step (Unit {0})
check none = return tt
check (some e) = fail e

-- What the steps read of their surroundings: the system, the YAML parser, the regular expressions, the
-- text of a list for an error, the directory of the skills and the clock.
pub record Env : Type 0 where
  pub disk : Disk
  pub from_str : Text → Result Text Yaml
  pub is_match : Text → Text → Bool
  pub debug : List Text → Text
  pub skills_dir : FilePath
  pub now : ℕ

abbrev pub skill_md : Text
skill_md = codes "SKILL.md"

module _ (env : Env) where
  abbrev pub parent_named : Text → Option FilePath → Bool
  parent_named name none = false
  parent_named name (some dir) = is_named name (file_name dir)

  abbrev pub is_skill : Text → FilePath → Bool
  is_skill name p =
      below env.skills_dir p && is_named skill_md (file_name p) && parent_named name (parent p)

  unfoldable pub find_skill_dir : Files → Text → Option FilePath
  find_skill_dir [] name = none
  find_skill_dir ((p, node) ∷ fs) name =
      let rest = find_skill_dir fs name in if is_skill name p then parent p else rest

  abbrev pub resolve_new_dir : Text → Option Text → FilePath
  resolve_new_dir name none = join env.skills_dir name
  resolve_new_dir name (some cat) =
      if is_empty cat then join env.skills_dir name else join (join env.skills_dir cat) name

  -- `find_skill_dir(name).ok_or_else(...)`
  abbrev pub found_dir : Text → Option FilePath → Step FilePath
  found_dir name none = fail (codes "Skill '" ++ name ++ codes "' not found.")
  found_dir name (some dir) = return dir

  abbrev pub skill_dir : Text → Step FilePath
  skill_dir name w = found_dir name (find_skill_dir w.files name) w

  abbrev pub is_new : Text → Option FilePath → Step (Unit {0})
  is_new name none = return tt
  is_new name (some dir) = fail (codes "Skill '" ++ name ++ codes "' already exists.")

  abbrev pub check_new : Text → Step (Unit {0})
  check_new name w = is_new name (find_skill_dir w.files name) w

  abbrev pub with_files : Workspace → Result Text Files → Workspace × Result Text (Unit {0})
  with_files w (ok fs) = (record w { files = fs }, ok tt)
  with_files w (err e) = (w, err e)

  abbrev pub create_dirs : FilePath → Step (Unit {0})
  create_dirs dir w = with_files w (create_dir_all env.disk w.files dir)

  abbrev pub write_at : FilePath → Text → Step (Unit {0})
  write_at p content w = with_files w (write_text env.disk w.files p content)

  abbrev pub read_at : FilePath → Step Text
  read_at p w = (w, read_text env.disk w.files p)

  abbrev pub blocked : GuardReport → GuardVerdict → Result Text (Unit {0})
  blocked report safe = ok tt
  blocked report caution = ok tt
  blocked report dangerous =
      err (codes "Security guard blocked write: " ++ env.debug report.findings)

  unfoldable pub guard_after_write : FilePath → Step (Unit {0})
  guard_after_write dir w =
      let report = guard_skill_dir env.is_match w.files dir in (w, blocked report report.verdict)

  abbrev pub with_state : Workspace → Result Text StateFile → Workspace × Result Text (Unit {0})
  with_state w (ok st) = (record w { state = st }, ok tt)
  with_state w (err e) = (w, err e)

  -- A change of the records: loaded, changed and saved.
  abbrev pub load_state : Step Records
  load_state w = (w, load w.state)

  abbrev pub save_state : Records → Step (Unit {0})
  save_state rs w = with_state w (save env.disk env.skills_dir rs)

  abbrev pub change_state : (Records → Records) → Step (Unit {0})
  change_state f = do rs ← load_state; save_state (f rs)

  -- The end of a write: the guard's look at the directory, and the change of the records.
  abbrev pub guarded : FilePath → (Records → Records) → Text → Step Text
  guarded dir f message = do guard_after_write dir; change_state f; return message

  abbrev pub write_guarded : FilePath → FilePath → Text → (Records → Records) → Text → Step Text
  write_guarded dir target content f message = do write_at target content; guarded dir f message
