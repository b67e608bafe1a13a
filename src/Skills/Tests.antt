-- ===== src/Skills/Tests.antt =====
-- The operations on skills at a workspace with one skill.
use boba_claw.Prelude.{
  ◌≡◌, refl, true, false, none, some, [], ◌∷◌, ◌++◌, codes, Text, text_eq, contains, trim,
  trim_start, trim_end, is_whitespace, byte_len, len_utf8, Result, ok, err, if◌then◌else◌,
}
use boba_claw.Reply.{index_of}
use boba_claw.FileSystem.{
  file, directory, with_dir, with_parent, without, without_dir, FilePath, Files, components, join,
  split_on, read, write, create_dir_all, write_text, read_text, display, below, path_eq,
}
use boba_claw.Skills.Validate.{
  mapping, string, no_entry, an_entry, validate_name, validate_category, validate_frontmatter,
  validate_content_size, validate_support_path,
}
use boba_claw.Skills.Guard.{guard_skill_dir, should_allow_install, dangerous, community}
use boba_claw.Skills.State.{
  Workspace, Records, missing, stored, load, save, record_of, entry, mark_agent_created, bump_patch,
  set_enabled, remove, is_pinned,
}
use boba_claw.Skills.Manager.{create, patch, patch_at, write_file, remove_file, delete, view}
use boba_claw.Skills.Io.{Env, find_skill_dir, guard_after_write}
use boba_claw.Skills.Handler.{SkillManageArgs, skill_manage}
use boba_claw.Skills.Creation.{view-create, blocked_create_stays}
use boba_claw.Skills.Inside.{support_path_inside, with_file, slash_escapes, Forward}
use boba_claw.Skills.Deleted.{delete_exact}
use boba_claw.Skills.Registry.{SkillFrontmatter, load_entries, get, split_frontmatter, parse_skill}
use boba_claw.Skills.Enabled.{disabled_is_hidden}

abbrev env : Env
env = record {
  disk = record { denied = λ p. none; unreadable = codes "unreadable" };
  from_str = λ s. ok (
      mapping (
        an_entry (codes "name") (string s)
          (an_entry (codes "description") (string (codes "Demo")) no_entry)));
  is_match = λ pattern content. contains content (codes "rm -rf /");
  debug = λ findings. [];
  skills_dir = codes "w" ∷ codes "skills" ∷ [];
  now = 5;
}

abbrev empty : Workspace
empty = record { files = []; state = missing }

abbrev md : Text
md = codes "---\nname: demo\n---\nSteps"

abbrev bad_md : Text
bad_md = codes "---\nname: demo\n---\nrm -rf /"

abbrev demo_dir : FilePath
demo_dir = codes "w" ∷ codes "skills" ∷ codes "demo" ∷ []

abbrev demo_file : FilePath
demo_file = demo_dir ++ codes "SKILL.md" ∷ []

abbrev demo : Workspace
demo = record {
  files = (demo_dir, directory) ∷ (demo_file, file md) ∷ [];
  state = stored (mark_agent_created [] (codes "demo"));
}

demo_created :
    create env (codes "demo") md none empty
    ≡ (demo, ok (codes "Created skill 'demo' at /w/skills/demo"))
unfolding create validate_name validate_category validate_frontmatter validate_content_size
    find_skill_dir create_dir_all with_dir with_parent write_text guard_after_write guard_skill_dir
    load save join components split_on write display index_of trim trim_start trim_end is_whitespace
    byte_len len_utf8 contains
demo_created = refl

view-create_example :
    ((view env (codes "demo") demo).1 ≡ ok md)
    × ((q : FilePath) → path_eq demo_file q ≡ false → read demo.files q ≡ read [] q)
unfolding join components split_on
view-create_example =
    view-create env (codes "demo") md none empty demo
      (codes "Created skill 'demo' at /w/skills/demo") demo_created

abbrev bad_files : Files
bad_files = (demo_dir, directory) ∷ (demo_file, file bad_md) ∷ []

blocked_create_stays_example :
    (create env (codes "demo") bad_md none empty ≡ (
      record { files = bad_files; state = missing },
      err (codes "Security guard blocked write: "),
    ))
    × (find_skill_dir env bad_files (codes "demo") ≡ some demo_dir)
    × (read bad_files demo_file ≡ some bad_md)
unfolding validate_name validate_category validate_frontmatter validate_content_size find_skill_dir
    create_dir_all with_dir with_parent write_text guard_after_write guard_skill_dir join components
    split_on write index_of trim trim_start trim_end is_whitespace byte_len len_utf8 contains
blocked_create_stays_example =
    blocked_create_stays env (codes "demo") bad_md none empty ((demo_dir, directory) ∷ []) bad_files
      (codes "Security guard blocked write: ") refl refl refl refl refl

abbrev references : FilePath
references = demo_dir ++ codes "references" ∷ []

abbrev note_file : FilePath
note_file = demo_dir ++ codes "references" ∷ codes "note" ∷ []

abbrev noted : Workspace
noted = record {
  files = demo.files ++ (references, directory) ∷ (note_file, file (codes "text")) ∷ [];
  state = stored (bump_patch 5 (mark_agent_created [] (codes "demo")) (codes "demo"));
}

note_written :
    write_file env (codes "demo") (codes "references/note") (codes "text") demo
    ≡ (noted, ok (codes "Wrote references/note in skill 'demo'."))
unfolding write_file find_skill_dir validate_support_path validate_content_size create_dir_all
    with_dir with_parent write_text guard_after_write guard_skill_dir load save join components
    split_on write trim trim_start trim_end is_whitespace byte_len len_utf8 contains bump_patch
    mark_agent_created entry
note_written = refl

support_path_inside_example :
    (join demo_dir (codes "references/note") ≡ demo_dir ++ components (codes "references/note"))
    × (Forward (codes "references") × (Forward (codes "note") × Unit {0}))
unfolding validate_support_path components split_on trim trim_start trim_end is_whitespace contains
support_path_inside_example = support_path_inside demo_dir (codes "references/note") refl refl

abbrev outside_file : FilePath
outside_file = codes "references" ∷ codes "note" ∷ []

abbrev strayed : Workspace
strayed = record noted {
  files =
      demo.files ++ (codes "references" ∷ [], directory) ∷ (outside_file, file (codes "text")) ∷ [];
}

outside_written :
    write_file env (codes "demo") (codes "/references/note") (codes "text") demo
    ≡ (strayed, ok (codes "Wrote /references/note in skill 'demo'."))
unfolding write_file find_skill_dir validate_support_path validate_content_size create_dir_all
    with_dir with_parent write_text guard_after_write guard_skill_dir load save join components
    split_on write trim trim_start trim_end is_whitespace byte_len len_utf8 contains bump_patch
    mark_agent_created entry
outside_written = refl

slash_escapes_example : strayed.files ≡ with_file demo.files outside_file (codes "text")
unfolding components split_on
slash_escapes_example =
    slash_escapes env (codes "demo") (codes "references/note") (codes "text") demo strayed
      (codes "Wrote /references/note in skill 'demo'.") outside_written

abbrev deleted : Workspace
deleted = record {
  files =
      (codes "references" ∷ [], directory)
      ∷ (outside_file, file (codes "text"))
      ∷ (codes "w" ∷ codes "skills" ∷ [], directory)
      ∷ [];
  state = stored [];
}

demo_deleted : delete env (codes "demo") strayed ≡ (deleted, ok (codes "Deleted skill 'demo'."))
unfolding delete without_dir with_dir with_parent load find_skill_dir save remove record_of entry
    mark_agent_created bump_patch
demo_deleted = refl

delete_exact_example :
    (rs : Records) × (dir : FilePath) × (load strayed.state ≡ ok rs)
    × (is_pinned rs (codes "demo") ≡ false)
    × (find_skill_dir env strayed.files (codes "demo") ≡ some dir)
    × ((q : FilePath) → read deleted.files q ≡ (if below dir q then none else read strayed.files q))
    × (deleted.state ≡ stored (remove rs (codes "demo")))
delete_exact_example =
    delete_exact env (codes "demo") strayed deleted (codes "Deleted skill 'demo'.") demo_deleted

abbrev remove_args : SkillManageArgs
remove_args = record {
  action = codes "remove_file";
  name = codes "demo";
  content = none;
  old_string = none;
  new_string = none;
  file_path = some (codes "references/note");
  file_content = none;
  category = none;
}

note_removed : skill_manage env remove_args noted ≡ (
  record noted { files = demo.files ++ (references, directory) ∷ [] },
  ok (codes "Removed references/note from skill 'demo'."),
)
unfolding skill_manage remove_file without with_dir with_parent find_skill_dir validate_support_path
    read_text read load join components split_on trim trim_start trim_end is_whitespace contains
note_removed = refl

skill_md_kept :
    (remove_file env (codes "demo") (codes "SKILL.md") demo).1
    ≡ err (codes "Cannot remove SKILL.md; use delete to remove the whole skill.")
unfolding remove_file find_skill_dir
skill_md_kept = refl

demo_patched :
    (patch env (codes "demo") (codes "Steps") (codes "Rest") none demo).0.files
    ≡ (demo_dir, directory) ∷ (demo_file, file (codes "---\nname: demo\n---\nRest")) ∷ []
unfolding patch patch_at find_skill_dir validate_frontmatter validate_content_size write_text
    read_text read guard_after_write guard_skill_dir load save join components split_on write
    index_of trim trim_start trim_end is_whitespace byte_len len_utf8 contains bump_patch
    mark_agent_created entry
demo_patched = refl

community_is_kept_out : should_allow_install dangerous community ≡ false
unfolding should_allow_install
community_is_kept_out = refl

abbrev front : Text → Result Text SkillFrontmatter
front s = ok (record { name = some (codes "demo"); description = none; tags = none })

demo_loaded :
    get (load_entries front (codes "w" ∷ codes "skills" ∷ []) true [] demo.files) (codes "demo")
    ≡ some (record {
      name = codes "demo";
      description = [];
      path = demo_file;
      body = codes "Steps";
      tags = [];
      enabled = true;
    })
unfolding get load_entries split_frontmatter parse_skill index_of trim trim_start trim_end
    is_whitespace record_of
demo_loaded = refl

disabled_is_hidden_example :
    (get
        (load_entries front
          (codes "w" ∷ codes "skills" ∷ [])
          true
          (set_enabled [] (codes "demo") false)
          demo.files)
        (codes "demo")
      ≡ none)
    × ((other : Text)
        → text_eq (codes "demo") other ≡ false
        → get
            (load_entries front
              (codes "w" ∷ codes "skills" ∷ [])
              true
              (set_enabled [] (codes "demo") false)
              demo.files)
            other
          ≡ get (load_entries front (codes "w" ∷ codes "skills" ∷ []) true [] demo.files) other)
disabled_is_hidden_example =
    disabled_is_hidden front (codes "w" ∷ codes "skills" ∷ []) (codes "demo") [] demo.files
