-- ===== src/Split/Chunks.antt =====
-- What the chunks of a text are.
use boba_claw.Prelude.{
  ℕ, zero, suc, ◌≤◌, ◌≡◌, refl, sym, ap, ◌≢◌, ◌∙◌, inl, inr, ◌⊎◌, true, false, Option, some, List,
  [], ◌∷◌, ◌++◌, append-nil, leb, length, length-append, All, All-map, byte_len, Bool-cases, Text,
  arith,
}
use boba_claw.Split.{
  utf16_len, find_split_byte_index, split_at, push_front, cut_with, chunks_within,
  split_for_telegram,
}
use boba_claw.Split.Positions.{index-Fits, split-front, no_units}

abbrev pub join : List Text → Text
join [] = []
join (s ∷ ss) = s ++ join ss

-- Messages that make up the text, in order, each within the limit and none empty.
abbrev pub IsSplit : Text → ℕ → List Text → Type 0
IsSplit text limit ss = (join ss ≡ text) × All (λ s. (utf16_len s ≤ limit) × (s ≢ [])) ss

-- A cut behind a first part that fits, when the rest is split.
cut_lem :
    (again : Text → Option (List Text)) (text : Text) (limit n : ℕ) (head tail : Text)
    → text ≡ head ++ tail
    → n ≡ byte_len head
    → utf16_len head ≤ limit
    → head ≢ []
    → (ss : List Text) × (again tail ≡ some ss) × IsSplit tail limit ss
    → (ss : List Text) × (cut_with again (split_at text n) ≡ some ss) × IsSplit text limit ss
cut_lem again text limit n head tail e at fits filled (ss, made, (whole, within)) =
    let cut : split_at text n ≡ some (head, tail) =
      ap (λ t. split_at t n) e ∙ ap (split_at (head ++ tail)) at ∙ split-front head tail in
    (
      head ∷ ss,
      ap (cut_with again) cut ∙ ap (push_front head) made,
      (ap (◌++◌ head) whole ∙ sym e, ((fits, filled), within)),
    )

shorter :
    (text head tail : Text) (fuel : ℕ)
    → text ≡ head ++ tail
    → head ≢ []
    → length text ≤ suc fuel
    → length tail ≤ fuel
shorter text [] tail fuel e filled h = absurd (filled refl)
shorter text (c ∷ head) tail fuel e filled h =
    omega (arith, ap length e, length-append (c ∷ head) tail)

cons_nonempty : (c : ℕ) (s : Text) → c ∷ s ≢ []
cons_nonempty c s h = absurd (ground arith)

chunks_lem :
    (fuel : ℕ) (text : Text) (limit : ℕ)
    → 2 ≤ limit
    → length text ≤ fuel
    → (ss : List Text) × (chunks_within fuel text limit ≡ some ss) × IsSplit text limit ss
unfolding chunks_within
chunks_lem zero [] limit two h = ([], refl, (refl, tt))
chunks_lem (suc fuel) [] limit two h = ([], refl, (refl, tt))
chunks_lem zero (c ∷ s) limit two h = absurd (omega arith)
chunks_lem (suc fuel) (c ∷ s) limit two h = elim (Bool-cases (leb (utf16_len (c ∷ s)) limit)) [
  | inl short ↦
      ((c ∷ s) ∷ [], rw short refl, (append-nil (c ∷ s), ((ground arith, cons_nonempty c s), tt)))
  | inr long ↦
      let (head, tail, e, n, fits, filled) = index-Fits (c ∷ s) limit two (ground arith) in
      rw long (
        cut_lem (λ t. chunks_within fuel t limit) (c ∷ s) limit
          (find_split_byte_index (c ∷ s) limit) head tail e n fits filled
          (chunks_lem fuel tail limit two (shorter (c ∷ s) head tail fuel e filled h)))
]

split-long :
    (c : ℕ) (s : Text) (limit : ℕ)
    → leb (utf16_len (c ∷ s)) limit ≡ false
    → split_for_telegram (c ∷ s) limit ≡ chunks_within (length (c ∷ s)) (c ∷ s) limit
unfolding split_for_telegram
split-long c s limit h = rw h refl

split-short :
    (c : ℕ) (s : Text) (limit : ℕ)
    → leb (utf16_len (c ∷ s)) limit ≡ true
    → split_for_telegram (c ∷ s) limit ≡ some ((c ∷ s) ∷ [])
unfolding split_for_telegram
split-short c s limit h = rw h refl

-- With room for at least two UTF-16 units a text is always split, without a panic: the messages make up
-- the text, in order, and each is within the limit; and none is empty, unless the text is, of which one
-- empty message is sent.
pub split_for_telegram_lem :
    (text : Text) (limit : ℕ)
    → 2 ≤ limit
    → (ss : List Text) × (split_for_telegram text limit ≡ some ss)
      × (join ss ≡ text)
      × All (λ s. utf16_len s ≤ limit) ss
      × ((ss ≡ [] ∷ []) ⊎ All (λ s. s ≢ []) ss)
unfolding split_for_telegram
split_for_telegram_lem [] limit two = ([] ∷ [], refl, refl, (omega (arith, no_units), tt), inl refl)
split_for_telegram_lem (c ∷ s) limit two = elim (Bool-cases (leb (utf16_len (c ∷ s)) limit)) [
  | inl short ↦ (
    (c ∷ s) ∷ [],
    split-short c s limit short,
    append-nil (c ∷ s),
    (ground arith, tt),
    inr (cons_nonempty c s, tt),
  )
  | inr long ↦
      let (ss, made, (whole, each)) = chunks_lem (length (c ∷ s)) (c ∷ s) limit two (omega arith) in
      (
        ss,
        split-long c s limit long ∙ made,
        whole,
        All-map _ (λ s. utf16_len s ≤ limit) ss (λ s h. h.0) each,
        inr (All-map _ (λ s. s ≢ []) ss (λ s h. h.1) each),
      )
]
