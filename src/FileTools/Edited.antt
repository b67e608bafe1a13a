-- ===== src/FileTools/Edited.antt =====
-- What `file_edit` replaces.
use boba_claw.Prelude.{ℕ, ◌+◌, ◌≡◌, true, some, ◌++◌, take, drop, length, Text}
use boba_claw.Reply.{index_of}
use boba_claw.FileSystem.{FilePath, Files, below, read, write}
use boba_claw.FileTools.{System}
use boba_claw.FileTools.Handlers.{count_matches, FileEditArgs, updated}

-- Where a text is found in another, it stands between what is before it and what is behind it.
abbrev Between : Text → Text → Type 0
Between s p = (i : ℕ) × (index_of s p ≡ some i) × (s ≡ take i s ++ p ++ drop (i + length p) s)

module _ (sys : System) where
  -- The one place of the old text, and the text with the new one there.
  abbrev Replaced : FileEditArgs → Text → Type 0
  Replaced args content =
      (before : Text) × (after : Text) × (content ≡ before ++ args.old_string ++ after)
      × (updated sys args content ≡ before ++ args.new_string ++ after)

  -- The one file below the workspace that an edit changed, with the one place of the old text in it.
  abbrev pub EditedOnce : Files → Files → FilePath → FileEditArgs → Type 0
  EditedOnce fs fs' workspace args =
      (q : FilePath) × (below (sys.real workspace) q ≡ true)
      × (before : Text) × (after : Text) × (read fs (sys.real q)
          ≡ some (before ++ args.old_string ++ after))
      × (count_matches 0 (before ++ args.old_string ++ after) args.old_string ≡ 1)
      × (fs' ≡ write fs (sys.real q) (before ++ args.new_string ++ after))
