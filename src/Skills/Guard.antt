-- ===== src/Skills/Guard.antt =====
-- The guard that looks through a skill's files: crates/bobaclaw-skills/src/guard.rs. Whether a regular
-- expression matches a text is a parameter.
use boba_claw.Prelude.{
  Bool, true, false, List, [], ◌∷◌, ◌++◌, if◌then◌else◌, leb, Text, codes, is_empty, length,
}
use boba_claw.FileSystem.{file, directory, FilePath, Files, below, display}

pub data TrustLevel : Type 0 where
  builtin trusted community agent_created : TrustLevel

pub data GuardVerdict : Type 0 where
  safe caution dangerous : GuardVerdict

pub record GuardReport : Type 0 where
  pub verdict : GuardVerdict
  pub findings : List Text

abbrev patterns : List (Text × Text)
patterns =
    (codes "\\$HOME/\\.ssh|\\~/\\.ssh", codes "ssh directory access")
    ∷ (codes "ignore\\s+.*instructions", codes "prompt injection pattern")
    ∷ (codes "rm\\s+-rf\\s+/", codes "destructive root delete")
    ∷ (codes "curl\\s+[^\\n]*\\$\\{?\\w*(KEY|TOKEN|SECRET)", codes "secret exfil via curl")
    ∷ []

module _ (is_match : Text → Text → Bool) where
  abbrev file_findings : FilePath → Text → List (Text × Text) → List Text
  file_findings path content [] = []
  file_findings path content ((pat, desc) ∷ ps) =
      let rest = file_findings path content ps in
      if is_match pat content then (display path ++ codes ": " ++ desc) ∷ rest else rest

  abbrev dir_findings : FilePath → Files → List Text
  dir_findings dir [] = []
  dir_findings dir ((path, directory) ∷ fs) = dir_findings dir fs
  dir_findings dir ((path, file content) ∷ fs) =
      let rest = dir_findings dir fs in
      if below dir path then file_findings path content patterns ++ rest else rest

  abbrev pub verdict_of : List Text → GuardVerdict
  verdict_of findings =
      if is_empty findings then safe else if leb (length findings) 2 then caution else dangerous

  unfoldable pub guard_skill_dir : Files → FilePath → GuardReport
  guard_skill_dir fs dir =
      let found = dir_findings dir fs in record { verdict = verdict_of found; findings = found }

unfoldable pub should_allow_install : GuardVerdict → TrustLevel → Bool
should_allow_install verdict builtin = true
should_allow_install dangerous trusted = false
should_allow_install safe trusted = true
should_allow_install caution trusted = true
should_allow_install safe community = true
should_allow_install caution community = false
should_allow_install dangerous community = false
should_allow_install dangerous agent_created = false
should_allow_install safe agent_created = true
should_allow_install caution agent_created = true
