-- ===== src/Skills/Deleted.antt =====
-- What `delete` takes away.
use boba_claw.Prelude.{
  ◌≡◌, refl, sym, ap, ◌∙◌, subst, Bool, true, false, Option, none, some, ◌++◌, codes, if◌then◌else◌,
  Text, Result, ok, arith,
}
use boba_claw.FileSystem.{FilePath, Files, below, read, without_dir}
use boba_claw.Skills.State.{Workspace, Records, stored, load, is_pinned, remove}
use boba_claw.Skills.Manager.{delete, delete_unpinned, unless_pinned, erase_found, erase, removed}
use boba_claw.Skills.Io.{Env, find_skill_dir, skill_dir, load_state, save_state, return, ◌>>◌}
use boba_claw.FileSystem.Reads.{read-without_dir}
use boba_claw.Skills.Steps.{Gives, bind_ok, passed, skill_dir_ok, load_state_ok, save_state_ok}

unpinned :
    (env : Env) (name : Text) (pinned : Bool)
    → unless_pinned env name pinned ≡ none
    → pinned ≡ false
unpinned env name true h = absurd (ground arith)
unpinned env name false h = refl

module _ (env : Env) where
  removed_ok :
      (f : Files → Files) (o : Option Text) (w v : Workspace) (u : Unit {0})
      → Gives (removed env f o) w v u
      → v ≡ record w { files = f w.files }
  removed_ok f none w v u h = ap (λ r. r.0) (sym h)
  removed_ok f (some e) w v u h = absurd (ground (arith, ap (λ r. r.1) h))

  erase_ok :
      (name : Text) (rs : Records) (dir : FilePath) (w w' : Workspace) (message : Text)
      → Gives (erase env name rs dir) w w' message
      → w' ≡ record { files = without_dir w.files dir; state = stored (remove rs name) }
  erase_ok name rs dir w w' message h =
      let text : Text = codes "Deleted skill '" ++ name ++ codes "'." in
      let gone : Files → Files = λ fs. without_dir fs dir in
      let (v, u, take_off, h1) =
        bind_ok (removed env gone (env.disk.denied dir))
          (λ _. save_state env (remove rs name) >> return text) w w' message h in
      let (v1, u1, keep_rest, h2) =
        bind_ok (save_state env (remove rs name)) (λ _. return text) v w' message h1 in
      ap {A = Workspace × Result Text Text} (λ r. r.0) (sym h2)
      ∙ (save_state_ok env (remove rs name) v v1 u1 keep_rest
          ∙ ap {A = Workspace} (λ x. record x { state = stored (remove rs name) })
              (removed_ok gone (env.disk.denied dir) w v u take_off))

  -- A `delete` that succeeds was not of a pinned skill. It takes away every file below the directory
  -- that the name was found in, leaves every other file as it was, and forgets the skill's record.
  pub delete_exact :
      (name : Text) (w w' : Workspace) (message : Text)
      → Gives (delete env name) w w' message
      → (rs : Records) × (dir : FilePath) × (load w.state ≡ ok rs)
        × (is_pinned rs name ≡ false)
        × (find_skill_dir env w.files name ≡ some dir)
        × ((q : FilePath) → read w'.files q ≡ (if below dir q then none else read w.files q))
        × (w'.state ≡ stored (remove rs name))
  unfolding delete
  delete_exact name w w' message h =
      let (v, rs, loads, h1) = bind_ok (load_state env) (delete_unpinned env name) w w' message h in
      let (loaded, same) = load_state_ok env w v rs loads in
      let (passes, h2) =
        passed (unless_pinned env name (is_pinned rs name)) (erase_found env name rs) v w' message
          h1 in
      let (v1, dir, looks, h3) = bind_ok (skill_dir env name) (erase env name rs) v w' message h2 in
      let (found, still) = skill_dir_ok env name v v1 dir looks in
      let unchanged : v1 ≡ w = sym (same ∙ still) in
      let after = erase_ok name rs dir v1 w' message h3 in
      (
        rs,
        dir,
        loaded,
        unpinned env name (is_pinned rs name) passes,
        subst (λ (x : Workspace). find_skill_dir env x.files name ≡ some dir) (sym same) found,
        λ q.
            ap (λ (x : Workspace). read x.files q) after
            ∙ (ap (λ (x : Workspace). read (without_dir x.files dir) q) unchanged
                ∙ read-without_dir w.files dir q),
        ap (λ (x : Workspace). x.state) after,
      )
