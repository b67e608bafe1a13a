-- ===== src/Skills/State.antt =====
-- The records of the skills, kept in a file: crates/bobaclaw-skills/src/state.rs. The file's JSON is
-- the data it holds, and a time is counted in milliseconds.
use boba_claw.Prelude.{
  ℕ, ◌+◌, ◌-◌, ◌^◌, min, Bool, true, false, Option, none, some, List, [], ◌∷◌, if◌then◌else◌, Text,
  text_eq, codes, Result, ok, err, ◌++◌, keep, not,
}
use boba_claw.FileSystem.{FilePath, Files, Disk, refused}

pub record SkillRecord : Type 0 where
  pub enabled : Bool
  pub agent_created : Bool
  pub pinned : Bool
  pub view_count : ℕ
  pub patch_count : ℕ
  pub last_used_at : Option ℕ

abbrev pub default_record : SkillRecord
default_record = record {
  enabled = true;
  agent_created = false;
  pinned = false;
  view_count = 0;
  patch_count = 0;
  last_used_at = none;
}

abbrev pub Records : Type 0
Records = List (Text × SkillRecord)

-- The state file: not there, there with its records, there with another text, or not to be read.
pub data StateFile : Type 0 where
  missing : StateFile
  stored : Records → StateFile
  garbled : StateFile
  unreadable : Text → StateFile

pub record Workspace : Type 0 where
  pub files : Files
  pub state : StateFile

unfoldable pub load : StateFile → Result Text Records
load missing = ok []
load (stored records) = ok records
load garbled = ok []
load (unreadable e) = err e

abbrev pub state_path : FilePath → FilePath
state_path skills_dir = skills_dir ++ codes ".skills-state.json" ∷ []

unfoldable pub record_of : Records → Text → SkillRecord
record_of [] name = default_record
record_of ((n, r) ∷ rs) name = let rest = record_of rs name in if text_eq n name then r else rest

-- `entry(name).or_default()`, and its change
unfoldable pub entry : Records → Text → (SkillRecord → SkillRecord) → Records
entry [] name f = (name, f default_record) ∷ []
entry ((n, r) ∷ rs) name f =
    let rest = entry rs name f in if text_eq n name then (n, f r) ∷ rs else (n, r) ∷ rest

abbrev pub is_enabled : Records → Text → Bool
is_enabled rs name = (record_of rs name).enabled

abbrev pub is_pinned : Records → Text → Bool
is_pinned rs name = (record_of rs name).pinned

unfoldable pub set_enabled : Records → Text → Bool → Records
set_enabled rs name enabled = entry rs name (λ r. record r { enabled = enabled })

unfoldable pub mark_agent_created : Records → Text → Records
mark_agent_created rs name = entry rs name (λ r. record r { agent_created = true })

-- `u32::saturating_add`
abbrev saturating_add : ℕ → ℕ → ℕ
saturating_add a b = min (a + b) (2 ^ 32 - 1)

unfoldable pub bump_view : ℕ → Records → Text → Records
bump_view now rs name =
    entry rs name
      (λ r. record r { view_count = saturating_add r.view_count 1; last_used_at = some now })

unfoldable pub bump_patch : ℕ → Records → Text → Records
bump_patch now rs name =
    entry rs name
      (λ r. record r { patch_count = saturating_add r.patch_count 1; last_used_at = some now })

unfoldable pub remove : Records → Text → Records
remove rs name = keep (λ r. not (text_eq r.0 name)) rs

-- `save`: the records as stored, where the system lets the file be written.
abbrev pub saved : Records → Result Text (Unit {0}) → Result Text StateFile
saved rs (ok _) = ok (stored rs)
saved rs (err e) = err e

unfoldable pub save : Disk → FilePath → Records → Result Text StateFile
save disk skills_dir rs = saved rs (refused (disk.denied (state_path skills_dir)))
