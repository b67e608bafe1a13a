-- ===== src/Skills/Manager.antt =====
-- The operations on a workspace's skills: crates/bobaclaw-skills/src/manager.rs.
use boba_claw.Prelude.{
  Bool, Option, none, some, ◌++◌, if◌then◌else◌, Text, codes, text_eq, contains, ok, err,
}
use boba_claw.FileSystem.{
  replace_once, FilePath, Files, join, parent, display, exists, without, without_dir,
}
use boba_claw.Skills.Validate.{
  validate_name, validate_category, validate_frontmatter, validate_content_size,
  validate_support_path,
}
use boba_claw.Skills.State.{Records, is_pinned, mark_agent_created, bump_view, bump_patch, remove}
use boba_claw.Skills.Io.{
  Step, ◌>>=◌, ◌>>◌, return, check, Env, skill_md, resolve_new_dir, skill_dir, check_new,
  create_dirs, read_at, load_state, save_state, write_guarded,
}

module _ (env : Env) where
  -- The checks of `create`, and what it does behind them.
  abbrev pub content_valid : Text → Step (Unit {0})
  content_valid content = do
    check (validate_frontmatter env.from_str content)
    check (validate_content_size content skill_md)

  abbrev pub new_valid : Text → Text → Option Text → Step (Unit {0})
  new_valid name content category = do
    check (validate_name name)
    check (validate_category category)
    content_valid content

  abbrev pub install : Text → Text → FilePath → Step Text
  install name content dir = do
    create_dirs env dir
    write_guarded env dir (join dir skill_md) content (λ rs. mark_agent_created rs name)
        (codes "Created skill '" ++ name ++ codes "' at " ++ display dir)

  abbrev pub install_new : Text → Text → FilePath → Step Text
  install_new name content dir = do check_new env name; install name content dir

  unfoldable pub create : Text → Text → Option Text → Step Text
  create name content category = do
    new_valid name content category
    install_new name content (resolve_new_dir env name category)

  unfoldable pub edit : Text → Text → Step Text
  edit name content = do
    dir ← skill_dir env name
    content_valid content
    write_guarded env dir (join dir skill_md) content (λ rs. bump_patch env.now rs name)
        (codes "Updated skill '" ++ name ++ codes "'.")

  abbrev pub check_file : FilePath → Text → Step (Unit {0})
  check_file target rel w =
      (w, if exists w.files target then ok tt else err (codes "File not found: " ++ rel))

  abbrev or_skill_md : Option Text → Text
  or_skill_md none = skill_md
  or_skill_md (some rel) = rel

  unfoldable pub patch_at : Text → Text → Text → Text → Step Text
  patch_at name old_string new_string rel = do
    dir ← skill_dir env name
    check (if text_eq rel skill_md then none else validate_support_path rel)
    check_file (join dir rel) rel
    content ← read_at env (join dir rel)
    check (
        if contains content old_string
        then none
        else some (codes "old_string not found in target file."))
    check (
        if text_eq rel skill_md
        then validate_frontmatter env.from_str (replace_once content old_string new_string)
        else none)
    check (validate_content_size (replace_once content old_string new_string) rel)
    write_guarded env dir (join dir rel) (replace_once content old_string new_string)
        (λ rs. bump_patch env.now rs name)
        (codes "Patched '" ++ rel ++ codes "' in skill '" ++ name ++ codes "'.")

  unfoldable pub patch : Text → Text → Text → Option Text → Step Text
  patch name old_string new_string file_path =
      patch_at name old_string new_string (or_skill_md file_path)

  abbrev pub parent_dirs : Option FilePath → Step (Unit {0})
  parent_dirs none = return tt
  parent_dirs (some dir) = create_dirs env dir

  abbrev pub put_file : Text → Text → Text → FilePath → Step Text
  put_file name file_path file_content dir = do
    parent_dirs (parent (join dir file_path))
    write_guarded env dir (join dir file_path) file_content (λ rs. bump_patch env.now rs name)
        (codes "Wrote " ++ file_path ++ codes " in skill '" ++ name ++ codes "'.")

  abbrev pub checked_put : Text → Text → Text → FilePath → Step Text
  checked_put name file_path file_content dir = do
    check (validate_support_path file_path)
    check (validate_content_size file_content file_path)
    put_file name file_path file_content dir

  unfoldable pub write_file : Text → Text → Text → Step Text
  write_file name file_path file_content = do
    dir ← skill_dir env name
    checked_put name file_path file_content dir

  abbrev pub removed : (Files → Files) → Option Text → Step (Unit {0})
  removed f none w = (record w { files = f w.files }, ok tt)
  removed f (some e) w = (w, err e)

  -- `std::fs::remove_file` is for a file alone.
  abbrev pub remove_at : FilePath → Step (Unit {0})
  remove_at target = do
    content ← read_at env target
    removed (λ fs. without fs target) (env.disk.denied target)

  unfoldable pub remove_file : Text → Text → Step Text
  remove_file name file_path = do
    dir ← skill_dir env name
    check (
        if text_eq file_path skill_md
        then some (codes "Cannot remove SKILL.md; use delete to remove the whole skill.")
        else none)
    check (validate_support_path file_path)
    check_file (join dir file_path) file_path
    remove_at (join dir file_path)
    return (codes "Removed " ++ file_path ++ codes " from skill '" ++ name ++ codes "'.")

  abbrev pub erase : Text → Records → FilePath → Step Text
  erase name state dir = do
    removed (λ fs. without_dir fs dir) (env.disk.denied dir)
    save_state env (remove state name)
    return (codes "Deleted skill '" ++ name ++ codes "'.")

  abbrev pub unless_pinned : Text → Bool → Option Text
  unless_pinned name pinned =
      if pinned
      then some (
          codes "Skill '" ++ name ++ codes "' is pinned and cannot be deleted. Disable it instead.")
      else none

  abbrev pub erase_found : Text → Records → Step Text
  erase_found name state = do dir ← skill_dir env name; erase name state dir

  abbrev pub delete_unpinned : Text → Records → Step Text
  delete_unpinned name state = do
    check (unless_pinned name (is_pinned state name))
    erase_found name state

  unfoldable pub delete : Text → Step Text
  delete name = do state ← load_state env; delete_unpinned name state

  -- `.ok()`: an error is let go of.
  abbrev forgiven : Step (Unit {0}) → Step (Unit {0})
  forgiven m w = ((m w).0, ok tt)

  unfoldable pub view : Text → Step Text
  view name = do
    dir ← skill_dir env name
    content ← read_at env (join dir skill_md)
    state ← load_state env
    forgiven (save_state env (bump_view env.now state name))
    return content
