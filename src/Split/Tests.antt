-- ===== src/Split/Tests.antt =====
-- Splitting: the theorem at a text that is too long by a word.
use boba_claw.Prelude.{◌≤◌, ◌≡◌, ◌≢◌, ◌⊎◌, some, List, [], ◌∷◌, All, Text, codes, arith}
use boba_claw.Split.{utf16_len, split_for_telegram}
use boba_claw.Split.Chunks.{join, split_for_telegram_lem}

split_for_telegram_lem_example :
    (ss : List Text) × (split_for_telegram (codes "some words 😀") 6 ≡ some ss)
    × (join ss ≡ codes "some words 😀")
    × All (λ s. utf16_len s ≤ 6) ss
    × ((ss ≡ [] ∷ []) ⊎ All (λ s. s ≢ []) ss)
split_for_telegram_lem_example = split_for_telegram_lem (codes "some words 😀") 6 (omega arith)
