-- ===== src/Skills/Enabled.antt =====
-- What switching a skill off, or on, does to the skills that are loaded.
use boba_claw.Prelude.{
  ◌≡◌, refl, sym, ap, ◌∙◌, subst, inl, inr, Bool, true, false, none, List, [], ◌∷◌, Text, text_eq,
  text_eq_refl, text_eq_sound, Bool-cases, Result, ok, err,
}
use boba_claw.FileSystem.{file, directory, FilePath, Files}
use boba_claw.Skills.State.{Records, SkillRecord, record_of, entry, set_enabled, is_enabled}
use boba_claw.Skills.Registry.{
  SkillFrontmatter, SkillEntry, parse_skill, pushed, is_skill_md, load_entries, get,
}

pub record_of-entry :
    (rs : Records) (name : Text) (f : SkillRecord → SkillRecord)
    → record_of (entry rs name f) name ≡ f (record_of rs name)
unfolding record_of entry
record_of-entry [] name f = rw (text_eq_refl name) refl
record_of-entry ((n, r) ∷ rs) name f = elim (Bool-cases (text_eq n name)) [
  | inl here ↦ rw (here, here) refl
  | inr later ↦ rw (later, later) (record_of-entry rs name f)
]

pub record_of-entry_other :
    (rs : Records) (name other : Text) (f : SkillRecord → SkillRecord)
    → text_eq name other ≡ false
    → record_of (entry rs name f) other ≡ record_of rs other
unfolding record_of entry
record_of-entry_other [] name other f differs = rw differs refl
record_of-entry_other ((n, r) ∷ rs) name other f differs = elim (Bool-cases (text_eq n name)) [
  | inl here ↦
      let elsewhere : text_eq n other ≡ false =
        subst (λ x. text_eq x other ≡ false) (sym (text_eq_sound n name here)) differs in
      rw (here, elsewhere) refl
  | inr later ↦ rw (later, record_of-entry_other rs name other f differs) refl
]

module _ (name : Text) (state : Records) where
  -- A skill of the name that is switched off is not pushed.
  off_is_skipped :
      (r : Result Text SkillEntry) (skills : List SkillEntry)
      → is_enabled state name ≡ false
      → get skills name ≡ none
      → get (pushed true state r skills) name ≡ none
  unfolding get
  off_is_skipped (err e) skills off h = h
  off_is_skipped (ok skill) skills off h = elim (Bool-cases (text_eq skill.name name)) [
    | inl here ↦
        let skipped : is_enabled state skill.name ≡ false =
          subst (λ n. is_enabled state n ≡ false) (sym (text_eq_sound skill.name name here)) off in
        rw skipped h
    | inr other ↦ elim (Bool-cases (is_enabled state skill.name)) [
      | inl on ↦ rw (on, other) h
      | inr skipped ↦ rw skipped h
    ]
  ]

passed_over :
    (state : Records) (skill : SkillEntry) (other : Text) (skills : List SkillEntry)
    → text_eq skill.name other ≡ false
    → get (pushed true state (ok skill) skills) other ≡ get skills other
unfolding get
passed_over state skill other skills elsewhere = elim (Bool-cases (is_enabled state skill.name)) [
  | inl on ↦ rw (on, elsewhere) refl
  | inr skipped ↦ rw skipped refl
]

module _ (name other : Text) (differs : text_eq name other ≡ false) (rs rs' : Records)
    (agree : (n : Text) → text_eq name n ≡ false → is_enabled rs' n ≡ is_enabled rs n) where
  -- What is found under another name is the same.
  others_pushed :
      (r : Result Text SkillEntry) (skills skills' : List SkillEntry)
      → get skills' other ≡ get skills other
      → get (pushed true rs' r skills') other ≡ get (pushed true rs r skills) other
  unfolding get
  others_pushed (err e) skills skills' h = h
  others_pushed (ok skill) skills skills' h = elim (Bool-cases (text_eq name skill.name)) [
    | inl named ↦
        let elsewhere : text_eq skill.name other ≡ false =
          subst (λ n. text_eq n other ≡ false) (text_eq_sound name skill.name named) differs in
        passed_over rs' skill other skills' elsewhere
        ∙ (h ∙ sym (passed_over rs skill other skills elsewhere))
    | inr free ↦ elim (Bool-cases (is_enabled rs skill.name)) [
      | inl on ↦ rw (agree skill.name free, on, h) refl
      | inr skipped ↦ rw (agree skill.name free, skipped) h
    ]
  ]

module _ (from_str : Text → Result Text SkillFrontmatter) (skills_dir : FilePath) (name : Text)
    (rs : Records) where
  stays_hidden :
      (fs : Files)
      → get (load_entries from_str skills_dir true (set_enabled rs name false) fs) name ≡ none
  unfolding get load_entries set_enabled
  stays_hidden [] = refl
  stays_hidden ((path, directory) ∷ fs) = stays_hidden fs
  stays_hidden ((path, file raw) ∷ fs) = elim (Bool-cases (is_skill_md from_str skills_dir path)) [
    | inl md ↦ rw md (
        off_is_skipped name (set_enabled rs name false) (parse_skill from_str skills_dir path raw)
          (load_entries from_str skills_dir true (set_enabled rs name false) fs)
          (ap (λ r. r.enabled) (record_of-entry rs name (λ r. record r { enabled = false })))
          (stays_hidden fs))
    | inr other ↦ rw other (stays_hidden fs)
  ]

  others_stay :
      (enabled : Bool) (other : Text)
      → text_eq name other ≡ false
      → (fs : Files)
      → get (load_entries from_str skills_dir true (set_enabled rs name enabled) fs) other
        ≡ get (load_entries from_str skills_dir true rs fs) other
  unfolding get load_entries set_enabled
  others_stay enabled other differs [] = refl
  others_stay enabled other differs ((path, directory) ∷ fs) = others_stay enabled other differs fs
  others_stay enabled other differs ((path, file raw) ∷ fs) =
      elim (Bool-cases (is_skill_md from_str skills_dir path)) [
        | inl md ↦ rw md (
            others_pushed name other differs rs (set_enabled rs name enabled)
              (λ n free.
                ap (λ r. r.enabled)
                  (record_of-entry_other rs name n (λ r. record r { enabled = enabled }) free))
              (parse_skill from_str skills_dir path raw)
              (load_entries from_str skills_dir true rs fs)
              (load_entries from_str skills_dir true (set_enabled rs name enabled) fs)
              (others_stay enabled other differs fs))
        | inr plain ↦ rw plain (others_stay enabled other differs fs)
      ]

-- After a skill is disabled, `load_enabled` gives no skill of its name, whatever the files say, and the
-- skill that it gives for any other name is the one that it gave before.
pub disabled_is_hidden :
    (from_str : Text → Result Text SkillFrontmatter) (skills_dir : FilePath) (name : Text)
    (rs : Records) (fs : Files)
    → (get (load_entries from_str skills_dir true (set_enabled rs name false) fs) name ≡ none)
      × ((other : Text)
          → text_eq name other ≡ false
          → get (load_entries from_str skills_dir true (set_enabled rs name false) fs) other
            ≡ get (load_entries from_str skills_dir true rs fs) other)
disabled_is_hidden from_str skills_dir name rs fs = (
  stays_hidden from_str skills_dir name rs fs,
  λ other differs. others_stay from_str skills_dir name rs false other differs fs,
)
