-- ===== src/Skills/Paths.antt =====
-- Under which name a skill is found after its file is written.
use boba_claw.Prelude.{
  refl, ◌++◌, ◌≡◌, inl, inr, true, false, ◌&&◌, none, some, [], ◌∷◌, Text, last?, Bool-cases,
  Option-cases, arith,
}
use boba_claw.FileSystem.{
  with_dir, directory, exists, FilePath, Files, path_eq, below, parent, is_named, write,
}
use boba_claw.Skills.Io.{Env, is_skill, find_skill_dir, skill_md}

module _ (env : Env) where
  find_listed :
      (fs : Files) (name : Text) (d : FilePath)
      → find_skill_dir env fs name ≡ none
      → is_skill env name d ≡ false
      → find_skill_dir env (fs ++ (d, directory) ∷ []) name ≡ none
  unfolding find_skill_dir
  find_listed [] name d h other = rw other refl
  find_listed ((q, node) ∷ fs) name d h other = elim (Bool-cases (is_skill env name q)) [
    | inl first ↦ let no_parent : parent q ≡ none = rw first at h in rw first no_parent
    | inr later ↦ rw later (find_listed fs name d (rw later at h) other)
  ]

  -- A directory that is no skill's file changes nothing for the search.
  pub find_skill_dir-with_dir :
      (fs : Files) (name : Text) (d : FilePath)
      → find_skill_dir env fs name ≡ none
      → is_skill env name d ≡ false
      → find_skill_dir env (with_dir fs d) name ≡ none
  unfolding with_dir
  find_skill_dir-with_dir fs name d h other = elim (Bool-cases (exists fs d)) [
    | inl there ↦ rw there h
    | inr missing ↦ rw missing (find_listed fs name d h other)
  ]

  -- A file of the name that was not there is found after it was written.
  pub find_skill_dir-write :
      (fs : Files) (name : Text) (p : FilePath) (content : Text)
      → find_skill_dir env fs name ≡ none
      → is_skill env name p ≡ true
      → (dir : FilePath) → parent p ≡ some dir
      → find_skill_dir env (write fs p content) name ≡ some dir
  unfolding find_skill_dir write
  find_skill_dir-write [] name p content h skill dir e = rw (skill, e)
  find_skill_dir-write ((q, before) ∷ fs) name p content h skill dir e =
      elim (Bool-cases (path_eq q p)) [
        | inl here ↦ rw (here, skill, e)
        | inr later ↦ elim (Bool-cases (is_skill env name q)) [
          | inl first ↦ elim (Option-cases (parent q)) [
            | inl rootless ↦
                let none_named : (below env.skills_dir q && is_named skill_md (last? q) && false)
                    ≡ true =
                  rw rootless at first in
                absurd (ground arith)
            | inr (d, found) ↦ absurd (ground (arith, rw (first, found) at h))
          ]
          | inr other ↦
              rw (later, other) (find_skill_dir-write fs name p content (rw other at h) skill dir e)
        ]
      ]
