-- ===== src/Skills/Registry.antt =====
-- The skills as the agent loads them: crates/bobaclaw-skills/src/registry.rs. What the front matter of
-- a file says is a parameter, the YAML parser's.
use boba_claw.Prelude.{
  ℕ, ◌+◌, Bool, true, false, not, ◌&&◌, Option, none, some, List, [], ◌∷◌, if◌then◌else◌, Text,
  codes, text_eq, starts_with, take, drop, trim, map, Result, ok, err, ◌>>=◌,
}
use boba_claw.Summary.{newline}
use boba_claw.Reply.{index_of}
use boba_claw.FileSystem.{file, directory, FilePath, Files, below, is_named, file_name, parent}
use boba_claw.Skills.State.{Workspace, Records, SkillRecord, load, record_of, is_enabled}

pub record SkillFrontmatter : Type 0 where
  pub name : Option Text
  pub description : Option Text
  pub tags : Option (List Text)

pub record SkillEntry : Type 0 where
  pub name : Text
  pub description : Text
  pub path : FilePath
  pub body : Text
  pub tags : List Text
  pub enabled : Bool

abbrev split_at_end : Text → Text → Option ℕ → Text × Text
split_at_end raw rest none = ([], raw)
split_at_end raw rest (some end) = (take end rest, drop (end + 4) rest)

unfoldable pub split_frontmatter : Text → Text × Text
split_frontmatter raw =
    if starts_with raw (codes "---")
    then split_at_end raw (drop 3 raw) (index_of (drop 3 raw) (newline ∷ codes "---"))
    else ([], raw)

abbrev or_text : Text → Option Text → Text
or_text s none = s
or_text s (some t) = t

abbrev or_tags : Option (List Text) → List Text
or_tags none = []
or_tags (some tags) = tags

abbrev dir_name : Option FilePath → Text
dir_name none = codes "unnamed"
dir_name (some dir) = or_text (codes "unnamed") (file_name dir)

abbrev pub pushed : Bool → Records → Result Text SkillEntry → List SkillEntry → List SkillEntry
pushed enabled_only state (err e) skills = skills
pushed enabled_only state (ok skill) skills =
    if enabled_only && not (is_enabled state skill.name)
    then skills
    else record skill { enabled = is_enabled state skill.name } ∷ skills

module _ (from_str : Text → Result Text SkillFrontmatter) (skills_dir : FilePath) where
  unfoldable pub parse_skill : FilePath → Text → Result Text SkillEntry
  parse_skill path raw = do
    fm ← from_str (split_frontmatter raw).0
    ok (record {
      name = or_text (dir_name (parent path)) fm.name;
      description = or_text [] fm.description;
      path = path;
      body = trim (split_frontmatter raw).1;
      tags = or_tags fm.tags;
      enabled = true;
    })

  abbrev pub is_skill_md : FilePath → Bool
  is_skill_md path = below skills_dir path && is_named (codes "SKILL.md") (file_name path)

  unfoldable pub load_entries : Bool → Records → Files → List SkillEntry
  load_entries enabled_only state [] = []
  load_entries enabled_only state ((path, directory) ∷ fs) = load_entries enabled_only state fs
  load_entries enabled_only state ((path, file raw) ∷ fs) =
      let rest = load_entries enabled_only state fs in
      if is_skill_md path then pushed enabled_only state (parse_skill path raw) rest else rest

  unfoldable pub load_filtered : Workspace → Bool → Result Text (List SkillEntry)
  load_filtered w enabled_only = do
    state ← load w.state
    ok (load_entries enabled_only state w.files)

  abbrev listing : Records → SkillEntry → SkillEntry × SkillRecord
  listing state entry = (entry, record_of state entry.name)

  unfoldable pub list_all : Workspace → Result Text (List (SkillEntry × SkillRecord))
  list_all w = do
    skills ← load_filtered w false
    state ← load w.state
    ok (map (listing state) skills)

-- `SkillRegistry::get`
unfoldable pub get : List SkillEntry → Text → Option SkillEntry
get [] name = none
get (skill ∷ skills) name =
    let rest = get skills name in if text_eq skill.name name then some skill else rest
