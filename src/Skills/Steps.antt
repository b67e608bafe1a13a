-- ===== src/Skills/Steps.antt =====
-- What the steps of a skill operation did where they succeeded.
use boba_claw.Prelude.{
  ◌≡◌, refl, sym, ◌∙◌, ap, subst, Option, none, some, Text, Result, ok, err, arith,
}
use boba_claw.FileSystem.Reads.{create_dir_all_ok, write_text_ok}
use boba_claw.FileSystem.{with_dir, create_dir_all, FilePath, Files, write, write_text, refused}
use boba_claw.Skills.State.{Workspace, Records, state_path, stored, load, save, saved}
use boba_claw.Skills.Io.{
  Step, then_run, ◌>>=◌, check, Env, is_new, check_new, find_skill_dir, with_files, create_dirs,
  write_at, guard_after_write, with_state, load_state, save_state, change_state, write_guarded,
  guarded, return, ◌>>◌, found_dir, skill_dir,
}

-- The step succeeded, with this value and this workspace after it.
abbrev pub Gives : {A : Type 0} → Step A → Workspace → Workspace → A → Type 0
Gives m w v a = m w ≡ (v, ok a)

then_ok :
    {A B : Type 0} (f : A → Step B) (r : Workspace × Result Text A) (w' : Workspace) (b : B)
    → then_run f r ≡ (w', ok b)
    → (v : Workspace) × (a : A) × (r ≡ (v, ok a)) × Gives (f a) v w' b
then_ok f (v, ok a) w' b h = (v, a, refl, h)
then_ok f (v, err e) w' b h = absurd (ground (arith, ap (λ r. r.1) h))

pub bind_ok :
    {A B : Type 0} (m : Step A) (f : A → Step B) (w w' : Workspace) (b : B)
    → Gives (m >>= f) w w' b
    → (v : Workspace) × (a : A) × Gives m w v a × Gives (f a) v w' b
bind_ok m f w w' b h = then_ok f (m w) w' b h

pub check_ok :
    (o : Option Text) (w v : Workspace) (u : Unit {0})
    → Gives (check o) w v u
    → (o ≡ none) × (w ≡ v)
check_ok none w v u h = (refl, ap (λ r. r.0) h)
check_ok (some e) w v u h = absurd (ground (arith, ap (λ r. r.1) h))

-- A check passed, and what follows it went on from the same workspace.
pub passed :
    {B : Type 0} (o : Option Text) (k : Step B) (w w' : Workspace) (b : B)
    → Gives (check o >>= λ _. k) w w' b
    → (o ≡ none) × Gives k w w' b
passed none k w w' b h = (refl, h)
passed (some e) k w w' b h = absurd (ground (arith, ap (λ r. r.1) h))

module _ (env : Env) where
  was_new :
      (name : Text) (o : Option FilePath) (w v : Workspace) (u : Unit {0})
      → Gives (is_new env name o) w v u
      → (o ≡ none) × (w ≡ v)
  was_new name none w v u h = (refl, ap (λ r. r.0) h)
  was_new name (some dir) w v u h = absurd (ground (arith, ap (λ r. r.1) h))

  pub check_new_ok :
      (name : Text) (w v : Workspace) (u : Unit {0})
      → Gives (check_new env name) w v u
      → (find_skill_dir env w.files name ≡ none) × (w ≡ v)
  check_new_ok name w v u h = was_new name (find_skill_dir env w.files name) w v u h

  written :
      (w v : Workspace) (r : Result Text Files) (u : Unit {0})
      → with_files env w r ≡ (v, ok u)
      → (fs : Files) × (r ≡ ok fs) × (v ≡ record w { files = fs })
  written w v (ok fs) u h = (fs, refl, ap (λ r. r.0) (sym h))
  written w v (err e) u h = absurd (ground (arith, ap (λ r. r.1) h))

  pub write_at_ok :
      (p : FilePath) (content : Text) (w v : Workspace) (u : Unit {0})
      → Gives (write_at env p content) w v u
      → v ≡ record w { files = write w.files p content }
  write_at_ok p content w v u h =
      let (fs, e, same) = written w v (write_text env.disk w.files p content) u h in
      same
      ∙ ap (λ fs'. record w { files = fs' }) (sym (write_text_ok env.disk w.files fs p content e))

  pub create_dirs_ok :
      (p : FilePath) (w v : Workspace) (u : Unit {0})
      → Gives (create_dirs env p) w v u
      → v ≡ record w { files = with_dir w.files p }
  create_dirs_ok p w v u h =
      let (fs, made, same) = written w v (create_dir_all env.disk w.files p) u h in
      same
      ∙ ap {A = Files} (λ fs'. record w { files = fs' })
          (sym (create_dir_all_ok env.disk w.files fs p made))

  pub guard_after_write_ok :
      (p : FilePath) (w v : Workspace) (u : Unit {0})
      → Gives (guard_after_write env p) w v u
      → w ≡ v
  unfolding guard_after_write
  guard_after_write_ok p w v u h = ap (λ r. r.0) h

  state_saved :
      (w v : Workspace) (rs : Records) (r : Result Text (Unit {0})) (u : Unit {0})
      → with_state env w (saved rs r) ≡ (v, ok u)
      → v ≡ record w { state = stored rs }
  state_saved w v rs (ok _) u h = ap (λ r. r.0) (sym h)
  state_saved w v rs (err e) u h = absurd (ground (arith, ap (λ r. r.1) h))

  pub save_state_ok :
      (rs : Records) (w v : Workspace) (u : Unit {0})
      → Gives (save_state env rs) w v u
      → v ≡ record w { state = stored rs }
  unfolding save
  save_state_ok rs w v u h =
      state_saved w v rs (refused (env.disk.denied (state_path env.skills_dir))) u h

  pub load_state_ok :
      (w v : Workspace) (rs : Records)
      → Gives (load_state env) w v rs
      → (load w.state ≡ ok rs) × (w ≡ v)
  load_state_ok w v rs h = (ap (λ r. r.1) h, ap (λ r. r.0) h)

  pub change_state_ok :
      (f : Records → Records) (w v : Workspace) (u : Unit {0})
      → Gives (change_state env f) w v u
      → (rs : Records) × (load w.state ≡ ok rs) × (v ≡ record w { state = stored (f rs) })
  change_state_ok f w v u h =
      let (w', rs, l, s) = bind_ok (load_state env) (λ rs. save_state env (f rs)) w v u h in
      let (loaded, same) = load_state_ok w w' rs l in
      (
        rs,
        loaded,
        save_state_ok (f rs) w' v u s
            ∙ ap {A = Workspace} (λ x. record x { state = stored (f rs) }) (sym same),
      )

  pub write_guarded_ok :
      (dir target : FilePath) (content : Text) (f : Records → Records) (message : Text)
      (w w' : Workspace) (m : Text)
      → Gives (write_guarded env dir target content f message) w w' m
      → (rs : Records) × (load w.state ≡ ok rs)
        × (w' ≡ record { files = write w.files target content; state = stored (f rs) })
  write_guarded_ok dir target content f message w w' m h =
      let (v, _, write_it, h1) =
        bind_ok (write_at env target content) (λ _. guarded env dir f message) w w' m h in
      let (v1, _, look, h2) =
        bind_ok (guard_after_write env dir) (λ _. change_state env f >> return message) v w' m h1 in
      let (v2, u, change, h3) = bind_ok (change_state env f) (λ _. return message) v1 w' m h2 in
      let wrote : v1 ≡ record w { files = write w.files target content } =
        sym (guard_after_write_ok dir v v1 _ look) ∙ write_at_ok target content w v _ write_it in
      let (rs, loaded, same) = change_state_ok f v1 v2 u change in
      (
        rs,
        subst (λ x. load x.state ≡ ok rs) wrote loaded,
        ap {A = Workspace × Result Text Text} (λ r. r.0) (sym h3)
            ∙ (same ∙ ap {A = Workspace} (λ x. record x { state = stored (f rs) }) wrote),
      )

  -- The directory of a skill is the one found, and the workspace is as before.
  at_dir :
      (name : Text) (o : Option FilePath) (w v : Workspace) (dir : FilePath)
      → Gives (found_dir env name o) w v dir
      → (o ≡ some dir) × (w ≡ v)
  at_dir name none w v dir h = absurd (ground (arith, ap (λ r. r.1) h))
  at_dir name (some d) w v dir h = (ground (arith, ap (λ r. r.1) h), ap (λ r. r.0) h)

  pub skill_dir_ok :
      (name : Text) (w v : Workspace) (dir : FilePath)
      → Gives (skill_dir env name) w v dir
      → (find_skill_dir env w.files name ≡ some dir) × (w ≡ v)
  skill_dir_ok name w v dir h = at_dir name (find_skill_dir env w.files name) w v dir h
