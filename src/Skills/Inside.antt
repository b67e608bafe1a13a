-- ===== src/Skills/Inside.antt =====
-- Where the path that `write_file` is given leads by its name: below the directory of the skill, unless it
-- begins with a slash.
use boba_claw.Prelude.{
  ℕ, ◌≡◌, refl, sym, ap, ◌∙◌, subst, inl, inr, true, false, ◌==◌, Option, none, some, List, [], ◌∷◌,
  ◌++◌, if◌then◌else◌, Text, codes, text_eq, starts_with, contains, trim, is_whitespace, keep, All,
  Bool-cases, arith,
}
use boba_claw.FileSystem.{
  with_parent, Files, FilePath, slash, split_on, components, is_component, join, parent, write,
}
use boba_claw.Skills.Validate.{
  two_dots, trim_start_matches, validate_trimmed, validate_support_path, validate_content_size,
}
use boba_claw.Skills.State.{Workspace, Records, bump_patch}
use boba_claw.Skills.Manager.{checked_put, put_file, parent_dirs, write_file}
use boba_claw.Skills.Io.{Env, check, find_skill_dir, skill_dir, write_guarded, ◌>>◌}
use boba_claw.Skills.Trimmed.{contains-trim}
use boba_claw.Skills.Steps.{Gives, bind_ok, passed, skill_dir_ok, create_dirs_ok, write_guarded_ok}

-- A component that does not lead to the directory above.
abbrev pub Forward : Text → Type 0
Forward c = text_eq c two_dots ≡ false

split_on_first :
    (s : Text)
    → (l : Text) × (ls : List Text) × (t : Text) × (split_on slash s ≡ l ∷ ls) × (s ≡ l ++ t)
unfolding split_on
split_on_first [] = ([], [], [], refl, refl)
split_on_first (c ∷ s) =
    let (l, ls, t, e, whole) = split_on_first s in
    elim (Bool-cases (c == slash)) [
      | inl ends ↦ ([], split_on slash s, c ∷ s, rw ends refl, refl)
      | inr inside ↦ (c ∷ l, ls, t, rw (inside, e) refl, ap (λ r. c ∷ r) whole)
    ]

whole_dots : (l t : Text) → text_eq l two_dots ≡ true → contains (l ++ t) two_dots ≡ true
unfolding contains
whole_dots [] t h = absurd (ground arith)
whole_dots (a ∷ []) t h = absurd (ground arith)
whole_dots (a ∷ b ∷ []) t h = ground arith
whole_dots (a ∷ b ∷ c ∷ l) t h = absurd (ground arith)

first_piece :
    (c : ℕ) (s l t : Text) → s ≡ l ++ t → contains (c ∷ s) two_dots ≡ false → Forward (c ∷ l)
first_piece c s l t whole h = elim (Bool-cases (text_eq (c ∷ l) two_dots)) [
  | inl dots ↦
      let there = whole_dots (c ∷ l) t dots in
      let here = subst (λ r. contains (c ∷ r) two_dots ≡ false) whole h in
      absurd (ground (arith, there, here))
  | inr forward ↦ forward
]

split_on-Forward : (s : Text) → contains s two_dots ≡ false → All Forward (split_on slash s)
unfolding split_on contains
split_on-Forward [] h = (refl, tt)
split_on-Forward (c ∷ s) h =
    let rest : contains s two_dots ≡ false = ground arith in
    let ih = split_on-Forward s rest in
    let (l, ls, t, e, whole) = split_on_first s in
    elim (Bool-cases (c == slash)) [
      | inl ends ↦ rw ends (refl, ih)
      | inr inside ↦
          let tail : All Forward (l ∷ ls) = subst (All Forward) e ih in
          rw (inside, e) (first_piece c s l t whole h, tail.1)
    ]

keep-All : (cs : List Text) → All Forward cs → All Forward (keep is_component cs)
keep-All [] h = tt
keep-All (c ∷ cs) h = elim (Bool-cases (is_component c)) [
  | inl kept ↦ rw kept (h.0, keep-All cs h.1)
  | inr dropped ↦ rw dropped (keep-All cs h.1)
]

contains-trim_start_matches :
    (s : Text) → contains s two_dots ≡ true → contains (trim_start_matches slash s) two_dots ≡ true
unfolding contains
contains-trim_start_matches [] h = h
contains-trim_start_matches (c ∷ s) h = elim (Bool-cases (c == slash)) [
  | inl dropped ↦
      let is_slash : c ≡ slash = ground arith in
      let rest : contains s two_dots ≡ true = rw is_slash at h in
      rw dropped (contains-trim_start_matches s rest)
  | inr kept ↦ rw kept h
]

trimmed_free : (t : Text) → validate_trimmed t ≡ none → contains t two_dots ≡ false
trimmed_free t h = ground arith

validated_free : (p : Text) → validate_support_path p ≡ none → contains p two_dots ≡ false
unfolding validate_support_path is_whitespace
validated_free p h = elim (Bool-cases (contains p two_dots)) [
  | inl there ↦
      let left =
        contains-trim_start_matches (trim p)
          (contains-trim p (46 ∷ []) 46 (refl, (refl, tt)) there) in
      absurd (ground (arith, left, trimmed_free (trim_start_matches slash (trim p)) h))
  | inr free ↦ free
]

-- A path that the check of the skills' files passes and that does not begin with a slash is joined to a
-- directory as the components of the path behind those of the directory, and none of them is `..`: by
-- its name it lies below the directory. This is the path that `write_file`, `patch` and `remove_file`
-- hand to the system, which may follow symbolic links from there.
pub support_path_inside :
    (dir : FilePath) (p : Text)
    → starts_with p (slash ∷ []) ≡ false
    → validate_support_path p ≡ none
    → (join dir p ≡ dir ++ components p) × All Forward (components p)
unfolding join components
support_path_inside dir p relative valid = (
  ap (λ b. if b then components p else dir ++ components p) relative,
  keep-All (split_on slash p) (split_on-Forward p (validated_free p valid)),
)

-- The files with the directories above the path, and with its file.
abbrev pub with_file : Files → FilePath → Text → Files
with_file fs p content = write (with_parent fs (parent p)) p content

module _ (env : Env) where
  parent_dirs_ok :
      (o : Option FilePath) (w v : Workspace) (u : Unit {0})
      → Gives (parent_dirs env o) w v u
      → v ≡ record w { files = with_parent w.files o }
  unfolding with_parent
  parent_dirs_ok none w v u h = ap (λ r. r.0) (sym h)
  parent_dirs_ok (some d) w v u h = create_dirs_ok env d w v u h

  put_file_ok :
      (name p content : Text) (dir : FilePath) (w w' : Workspace) (message : Text)
      → Gives (put_file env name p content dir) w w' message
      → w'.files ≡ with_file w.files (join dir p) content
  put_file_ok name p content dir w w' message h =
      let bump : Records → Records = λ rs. bump_patch env.now rs name in
      let text : Text = codes "Wrote " ++ p ++ codes " in skill '" ++ name ++ codes "'." in
      let (v, u, dirs, h1) =
        bind_ok (parent_dirs env (parent (join dir p)))
          (λ _. write_guarded env dir (join dir p) content bump text) w w' message h in
      let (rs, loaded, after) =
        write_guarded_ok env dir (join dir p) content bump text v w' message h1 in
      ap (λ (x : Workspace). x.files) after
      ∙ ap (λ (x : Workspace). write x.files (join dir p) content)
          (parent_dirs_ok (parent (join dir p)) w v u dirs)

  pub write_file_ok :
      (name p content : Text) (w w' : Workspace) (message : Text)
      → Gives (write_file env name p content) w w' message
      → (dir : FilePath) × (find_skill_dir env w.files name ≡ some dir)
        × (validate_support_path p ≡ none)
        × (w'.files ≡ with_file w.files (join dir p) content)
  unfolding write_file
  write_file_ok name p content w w' message h =
      let (v, dir, looked, h1) =
        bind_ok (skill_dir env name) (checked_put env name p content) w w' message h in
      let (found, same) = skill_dir_ok env name w v dir looked in
      let size = check (validate_content_size content p) >> put_file env name p content dir in
      let (valid, h2) = passed (validate_support_path p) size v w' message h1 in
      let (_, h3) =
        passed (validate_content_size content p) (put_file env name p content dir) v w' message
          h2 in
      (
        dir,
        found,
        valid,
        put_file_ok name p content dir v w' message h3
            ∙ ap (λ (x : Workspace). with_file x.files (join dir p) content) (sym same),
      )

  -- A `write_file` that succeeds, under a path that begins with a slash, writes the file at the path
  -- itself, read from the root, whatever directory the skill has.
  pub slash_escapes :
      (name p content : Text) (w w' : Workspace) (message : Text)
      → Gives (write_file env name (slash ∷ p) content) w w' message
      → w'.files ≡ with_file w.files (components (slash ∷ p)) content
  unfolding join
  slash_escapes name p content w w' message h =
      let (dir, found, valid, after) = write_file_ok name (slash ∷ p) content w w' message h in
      after
