-- ===== src/Skills/Handler.antt =====
-- The tools on skills that the agent calls: crates/bobaclaw-agent/src/tools/skills.rs. The JSON of the
-- arguments is the record it holds.
use boba_claw.Prelude.{Option, none, some, ◌++◌, if◌then◌else◌, Text, codes, text_eq}
use boba_claw.Skills.Manager.{create, edit, patch, delete, write_file, remove_file}
use boba_claw.Skills.Io.{Step, Env, fail}

pub record SkillManageArgs : Type 0 where
  pub action : Text
  pub name : Text
  pub content : Option Text
  pub old_string : Option Text
  pub new_string : Option Text
  pub file_path : Option Text
  pub file_content : Option Text
  pub category : Option Text

-- `ok_or_else`
abbrev pub required : Option Text → Text → (Text → Step Text) → Step Text
required none message f = fail message
required (some a) message f = f a

unfoldable pub skill_manage : Env → SkillManageArgs → Step Text
skill_manage env args =
    if text_eq args.action (codes "create")
    then required args.content (codes "create requires content")
        (λ content. create env args.name content args.category)
    else if text_eq args.action (codes "edit")
    then required args.content (codes "edit requires content")
        (λ content. edit env args.name content)
    else if text_eq args.action (codes "patch")
    then required args.old_string (codes "patch requires old_string") (λ old.
      required args.new_string (codes "patch requires new_string")
        (λ new. patch env args.name old new args.file_path))
    else if text_eq args.action (codes "delete")
    then delete env args.name
    else if text_eq args.action (codes "write_file")
    then required args.file_path (codes "write_file requires file_path") (λ path.
      required args.file_content (codes "write_file requires file_content")
        (λ content. write_file env args.name path content))
    else if text_eq args.action (codes "remove_file")
    then required args.file_path (codes "remove_file requires file_path")
        (λ path. remove_file env args.name path)
    else fail (codes "unknown skill_manage action: " ++ args.action)
