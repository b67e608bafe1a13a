-- ===== src/Skills/Creation.antt =====
-- `create` as a whole: the skill can be viewed after it, and a write that the guard blocks is there all
-- the same.
use boba_claw.Prelude.{
  ◌≡◌, refl, sym, ap, ◌∙◌, subst, false, Option, none, some, ◌++◌, codes, Text, ok, err,
}
use boba_claw.FileSystem.{
  with_dir, FilePath, Files, display, path_eq, join, write, read, write_text, read_text,
  create_dir_all,
}
use boba_claw.Skills.Validate.{
  validate_name, validate_category, validate_frontmatter, validate_content_size,
}
use boba_claw.Skills.State.{Workspace, Records, stored, load, mark_agent_created}
use boba_claw.Skills.Manager.{new_valid, content_valid, install_new, install, create, view}
use boba_claw.Skills.Io.{
  Env, check, ◌>>◌, write_guarded, skill_md, find_skill_dir, resolve_new_dir, check_new,
  create_dirs, guard_after_write,
}
use boba_claw.FileSystem.Reads.{create_dir_all_ok, read-with_dir, write_text_ok, read-write_other}
use boba_claw.Skills.Steps.{
  Gives, bind_ok, passed, check_ok, write_guarded_ok, check_new_ok, create_dirs_ok,
}
use boba_claw.Skills.Created.{absent_in_dir, found_after_write}

module _ (env : Env) where
  -- The files with the new skill's directory, and with its file in it.
  abbrev pub with_skill : Files → FilePath → Text → Files
  with_skill fs dir content = write (with_dir fs dir) (join dir skill_md) content

  abbrev pub new_file : Text → Option Text → FilePath
  new_file name category = join (resolve_new_dir env name category) skill_md

  new_valid_ok :
      (name content : Text) (category : Option Text) (w v : Workspace) (u : Unit {0})
      → Gives (new_valid env name content category) w v u
      → (validate_name name ≡ none) × (validate_category category ≡ none) × (w ≡ v)
  new_valid_ok name content category w v u h =
      let fit = check (validate_category category) >> content_valid env content in
      let (valid, rest) = passed (validate_name name) fit w v u h in
      let (fits, checked) =
        passed (validate_category category) (content_valid env content) w v u rest in
      let size = validate_content_size content skill_md in
      let (_, last) =
        passed (validate_frontmatter env.from_str content) (check size) w v u checked in
      (valid, fits, (check_ok size w v u last).1)

  -- The skill was not there, and its file and its record are what changed.
  abbrev Installed : Text → Text → FilePath → Workspace → Workspace → Type 0
  Installed name content dir w w' =
      (find_skill_dir env w.files name ≡ none)
      × (rs : Records) × (load w.state ≡ ok rs)
      × (w' ≡ record {
        files = with_skill w.files dir content;
        state = stored (mark_agent_created rs name);
      })

  install_ok :
      (name content : Text) (dir : FilePath) (w w' : Workspace) (message : Text)
      → Gives (install_new env name content dir) w w' message
      → Installed name content dir w w'
  install_ok name content dir w w' message h =
      let (v, u, is_new, h1) =
        bind_ok (check_new env name) (λ _. install env name content dir) w w' message h in
      let (absent, same) = check_new_ok env name w v u is_new in
      let mark : Records → Records = λ rs. mark_agent_created rs name in
      let text : Text = codes "Created skill '" ++ name ++ codes "' at " ++ display dir in
      let (v1, u1, dirs, h2) =
        bind_ok (create_dirs env dir)
          (λ _. write_guarded env dir (join dir skill_md) content mark text) v w' message h1 in
      let unchanged : v ≡ w = sym same in
      let made : v1 ≡ record v { files = with_dir v.files dir } =
        create_dirs_ok env dir v v1 u1 dirs in
      let (rs, loaded, after) =
        write_guarded_ok env dir (join dir skill_md) content mark text v1 w' message h2 in
      (
        absent,
        rs,
        subst (λ x. load x.state ≡ ok rs) unchanged
            (subst (λ (x : Workspace). load x.state ≡ ok rs) made loaded),
        after
            ∙ ap {A = Workspace}
                (λ x. record {
                  files = write x.files (join dir skill_md) content;
                  state = stored (mark rs);
                })
                made
            ∙ ap {A = Workspace}
                (λ x. record { files = with_skill x.files dir content; state = stored (mark rs) })
                unchanged,
      )

  viewed :
      (name content : Text) (w : Workspace) (dir : FilePath) (rs : Records)
      → find_skill_dir env w.files name ≡ some dir
      → read w.files (join dir skill_md) ≡ some content
      → load w.state ≡ ok rs
      → (view env name w).1 ≡ ok content
  unfolding view read_text
  viewed name content w dir rs found there loaded = rw (found, there, loaded) refl

  created_is_found :
      (name content : Text) (category : Option Text) (w : Workspace) (rs : Records)
      → validate_name name ≡ none
      → validate_category category ≡ none
      → find_skill_dir env w.files name ≡ none
      → let w' : Workspace = record {
        files = with_skill w.files (resolve_new_dir env name category) content;
        state = stored (mark_agent_created rs name);
      } in
        (view env name w').1 ≡ ok content
  unfolding load
  created_is_found name content category w rs valid fits absent =
      let (found, there) =
        found_after_write env name content category
          (with_dir w.files (resolve_new_dir env name category)) valid fits
          (absent_in_dir env name category w.files valid fits absent) in
      viewed name content
        (record {
          files = with_skill w.files (resolve_new_dir env name category) content;
          state = stored (mark_agent_created rs name);
        })
        (resolve_new_dir env name category) (mark_agent_created rs name) found there refl

  -- After a `create` that succeeded, `view` of the same name succeeds with the text it was given, and
  -- every file but the new one reads as before.
  pub view-create :
      (name content : Text) (category : Option Text) (w w' : Workspace) (message : Text)
      → Gives (create env name content category) w w' message
      → ((view env name w').1 ≡ ok content)
        × ((q : FilePath)
            → path_eq (new_file name category) q ≡ false
            → read w'.files q ≡ read w.files q)
  unfolding create
  view-create name content category w w' message h =
      let dir = resolve_new_dir env name category in
      let (v, u, checks, h1) =
        bind_ok (new_valid env name content category) (λ _. install_new env name content dir) w w'
          message h in
      let (valid, fits, same) = new_valid_ok name content category w v u checks in
      let (absent, rs, loaded, after) = install_ok name content dir v w' message h1 in
      (
        subst (λ (x : Workspace). (view env name x).1 ≡ ok content) (sym after)
            (created_is_found name content category v rs valid fits absent),
        λ q other.
            ap (λ (x : Workspace). read x.files q) after
            ∙ (read-write_other (with_dir v.files dir) (new_file name category) q content other
                ∙ read-with_dir v.files dir q
                ∙ ap (λ (x : Workspace). read x.files q) (sym same)),
      )

  -- Where the checks of `create` pass, the name is new, the system writes the file and the guard then
  -- answers with an error, `create` fails with that error and the file stays: the skill is found under
  -- its name, with the text that the guard rejected.
  pub blocked_create_stays :
      (name content : Text) (category : Option Text) (w : Workspace) (made fs : Files) (e : Text)
      → Gives (new_valid env name content category) w w tt
      → find_skill_dir env w.files name ≡ none
      → create_dir_all env.disk w.files (resolve_new_dir env name category) ≡ ok made
      → write_text env.disk made (new_file name category) content ≡ ok fs
      → (guard_after_write env (resolve_new_dir env name category) (record w { files = fs })).1
        ≡ err e
      → (create env name content category w ≡ (record w { files = fs }, err e))
        × (find_skill_dir env fs name ≡ some (resolve_new_dir env name category))
        × (read fs (new_file name category) ≡ some content)
  unfolding create guard_after_write
  blocked_create_stays name content category w made fs e checks absent dirs writes blocks =
      let (valid, fits, _) = new_valid_ok name content category w w tt checks in
      let (found, there) = found_after_write env name content category made valid fits (
        subst (λ x. find_skill_dir env x name ≡ none)
          (create_dir_all_ok env.disk w.files made (resolve_new_dir env name category) dirs)
          (absent_in_dir env name category w.files valid fits absent)) in
      let same = write_text_ok env.disk made fs (new_file name category) content writes in
      (
        rw (checks, absent, dirs, writes, blocks) refl,
        subst (λ x. find_skill_dir env x name ≡ some (resolve_new_dir env name category)) same
            found,
        subst (λ x. read x (new_file name category) ≡ some content) same there,
      )
