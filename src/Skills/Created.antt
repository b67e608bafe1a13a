-- ===== src/Skills/Created.antt =====
-- What `create` leaves behind, when it succeeds and when the guard stops it.
use boba_claw.Prelude.{
  text_eq, ◌≡◌, refl, sym, ap, ◌∙◌, inl, inr, true, false, ◌==◌, Option, none, some, [], ◌∷◌, ◌++◌,
  append-nil, if◌then◌else◌, Text, text_eq_refl, starts_with, contains, trim, is_whitespace,
  Bool-cases, arith,
}
use boba_claw.FileSystem.{
  with_dir, FilePath, Files, slash, split_on, components, join, parent, write, read,
}
use boba_claw.Skills.Validate.{
  validate_name, valid_name, is_name_start, all_name_chars, validate_category, validate_given,
}
use boba_claw.Skills.Io.{Env, is_skill, skill_md, find_skill_dir, resolve_new_dir}
use boba_claw.FileSystem.Reads.{
  below-append, below-append_more, parent-append, last-append, read-write,
}
use boba_claw.Skills.Paths.{find_skill_dir-with_dir, find_skill_dir-write}
use boba_claw.Skills.Trimmed.{contains-trim}

split_on_plain : (s : Text) → contains s (slash ∷ []) ≡ false → split_on slash s ≡ s ∷ []
unfolding split_on contains
split_on_plain [] h = refl
split_on_plain (c ∷ s) h =
    let other : (c == slash) ≡ false = ground arith in
    let rest : contains s (slash ∷ []) ≡ false = ground arith in
    rw (other, split_on_plain s rest) refl

name_chars : (s : Text) → all_name_chars s ≡ true → contains s (slash ∷ []) ≡ false
unfolding contains
name_chars [] h = refl
name_chars (c ∷ s) h = ground (arith, name_chars s)

named_validly : (name : Text) → validate_name name ≡ none → valid_name name ≡ true
unfolding validate_name
named_validly name h = ground arith

-- A valid name is one component of a path.
one_component :
    (name : Text) → validate_name name ≡ none → (d : FilePath) → join d name ≡ d ++ name ∷ []
unfolding validate_name components join contains
one_component [] h d = absurd (ground arith)
one_component (c ∷ s) h d =
    let valid = named_validly (c ∷ s) h in
    let start : is_name_start c ≡ true = ground arith in
    let no_slash : (c == slash) ≡ false = ground arith in
    let no_dot : (c == 46) ≡ false = ground arith in
    let chars : contains (c ∷ s) (slash ∷ []) ≡ false = ground (arith, name_chars s, valid) in
    rw (no_slash, split_on_plain (c ∷ s) chars, no_dot) refl

given_relative : (t : Text) → validate_given t ≡ none → contains t (slash ∷ []) ≡ false
unfolding contains
given_relative [] h = refl
given_relative (c ∷ t) h = ground (arith, contains)

relative :
    (category : Text)
    → validate_category (some category) ≡ none
    → starts_with category (slash ∷ []) ≡ false
unfolding validate_category contains is_whitespace
relative [] h = refl
relative (c ∷ s) h = elim (Bool-cases (c == slash)) [
  | inl absolute ↦
      let slash_there : contains (c ∷ s) (slash ∷ []) ≡ true = rw absolute refl in
      let kept = contains-trim (c ∷ s) [] slash (refl, tt) slash_there in
      absurd (ground (arith, kept, given_relative (trim (c ∷ s)) h))
  | inr other ↦ rw other refl
]

module _ (env : Env) where
  -- The new directory lies below that of the skills and has the skill's name.
  resolved :
      (name : Text) (category : Option Text)
      → validate_name name ≡ none
      → validate_category category ≡ none
      → (x : FilePath) × (resolve_new_dir env name category ≡ (env.skills_dir ++ x) ++ name ∷ [])
  unfolding join
  resolved name none valid fits = (
    [],
    one_component name valid env.skills_dir
        ∙ ap (λ d. d ++ name ∷ []) (sym (append-nil env.skills_dir)),
  )
  resolved name (some []) valid fits = (
    [],
    one_component name valid env.skills_dir
        ∙ ap (λ d. d ++ name ∷ []) (sym (append-nil env.skills_dir)),
  )
  resolved name (some (c ∷ s)) valid fits = (
    components (c ∷ s),
    one_component name valid (join env.skills_dir (c ∷ s))
        ∙ ap
            (λ b.
              (if b then components (c ∷ s) else env.skills_dir ++ components (c ∷ s)) ++ name ∷ [])
            (relative (c ∷ s) fits),
  )

  md_file : (d : FilePath) → join d skill_md ≡ d ++ skill_md ∷ []
  unfolding join components split_on
  md_file d = refl

  -- The file of a new skill is one that is found under the skill's name.
  is_skill_new :
      (name : Text) (x : FilePath)
      → is_skill env name (((env.skills_dir ++ x) ++ name ∷ []) ++ skill_md ∷ []) ≡ true
  is_skill_new name x =
      rw
        (
          last-append ((env.skills_dir ++ x) ++ name ∷ []) skill_md,
          parent-append ((env.skills_dir ++ x) ++ name ∷ []) skill_md,
          last-append (env.skills_dir ++ x) name,
          text_eq_refl name,
          below-append_more env.skills_dir ((env.skills_dir ++ x) ++ name ∷ []) (skill_md ∷ []) (
              below-append_more env.skills_dir (env.skills_dir ++ x) (name ∷ [])
                (below-append env.skills_dir x)),
        )
        refl

  not_skill_md : (name : Text) → validate_name name ≡ none → text_eq name skill_md ≡ false
  not_skill_md [] h = refl
  not_skill_md (c ∷ s) h =
      let valid = named_validly (c ∷ s) h in
      let start : is_name_start c ≡ true = ground arith in ground (arith, start)

  -- The directory of a new skill is not taken for a skill's file.
  dir_is_no_skill :
      (name : Text) (x : FilePath)
      → validate_name name ≡ none
      → is_skill env name ((env.skills_dir ++ x) ++ name ∷ []) ≡ false
  dir_is_no_skill name x valid =
      rw (last-append (env.skills_dir ++ x) name, not_skill_md name valid) (ground (arith))

  -- The search finds nothing yet once the directory is made.
  pub absent_in_dir :
      (name : Text) (category : Option Text) (fs : Files)
      → validate_name name ≡ none
      → validate_category category ≡ none
      → find_skill_dir env fs name ≡ none
      → find_skill_dir env (with_dir fs (resolve_new_dir env name category)) name ≡ none
  absent_in_dir name category fs valid fits absent =
      let (x, e) = resolved name category valid fits in
      find_skill_dir-with_dir env fs name (resolve_new_dir env name category) absent
        (ap (is_skill env name) e ∙ dir_is_no_skill name x valid)

  -- Once the file is written, it is the one that is found under the name, and its text is there.
  pub found_after_write :
      (name content : Text) (category : Option Text) (fs : Files)
      → validate_name name ≡ none
      → validate_category category ≡ none
      → find_skill_dir env fs name ≡ none
      → let dir = resolve_new_dir env name category in
        let fs' = write fs (join dir skill_md) content in
        (find_skill_dir env fs' name ≡ some dir) × (read fs' (join dir skill_md) ≡ some content)
  found_after_write name content category fs valid fits absent =
      let dir = resolve_new_dir env name category in
      let (x, e) = resolved name category valid fits in
      let place : join dir skill_md ≡ ((env.skills_dir ++ x) ++ name ∷ []) ++ skill_md ∷ [] =
        md_file dir ∙ ap (λ d. d ++ skill_md ∷ []) e in
      (
        find_skill_dir-write env fs name (join dir skill_md) content absent
            (ap (is_skill env name) place ∙ is_skill_new name x) dir
            (ap parent (md_file dir) ∙ parent-append dir skill_md),
        read-write fs (join dir skill_md) content,
      )
