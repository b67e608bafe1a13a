-- ===== src/Compaction/Plan.antt =====
-- Rows in id order: what lies before a boundary and what behind it.
use boba_claw.Prelude.{
  ℕ, ◌+◌, ◌≤◌, ◌<◌, ◌≡◌, refl, sym, ap, subst, ◌∙◌, inl, inr, Bool, true, Option, none, some, List,
  [], ◌∷◌, ◌++◌, ltb, keep, keep-append, last?, All, Bool-cases, Option-cases, arith,
}
use boba_claw.Sessions.{StoredMessage}
use boba_claw.Compaction.{
  is_compaction, not_compaction, last_compaction, uncovered_by, uncovered_from, uncovered_rows,
}

-- The ids rise along the list, from `n` on.
abbrev pub Ascends : ℕ → List StoredMessage → Type 0
Ascends n [] = Unit
Ascends n (r ∷ rs) = (n ≤ r.id) × Ascends (r.id + 1) rs

abbrev pub above : ℕ → StoredMessage → Bool
above b r = ltb b r.id

Ascends-mono : (m n : ℕ) (rs : List StoredMessage) → m ≤ n → Ascends n rs → Ascends m rs
Ascends-mono m n [] h a = tt
Ascends-mono m n (r ∷ rs) h a = (omega arith, a.1)

pub Ascends-keep :
    (p : StoredMessage → Bool) (n : ℕ) (rs : List StoredMessage)
    → Ascends n rs
    → Ascends n (keep p rs)
Ascends-keep p n [] a = tt
Ascends-keep p n (r ∷ rs) a =
    ground (arith, Ascends-keep p (r.id + 1) rs a.1, Ascends-mono n (r.id + 1) (keep p rs))

pub Ascends-front : (n : ℕ) (xs ys : List StoredMessage) → Ascends n (xs ++ ys) → Ascends n xs
Ascends-front n [] ys a = tt
Ascends-front n (x ∷ xs) ys a = (a.0, Ascends-front (x.id + 1) xs ys a.1)

pub keep-above : (b n : ℕ) (rs : List StoredMessage) → b < n → Ascends n rs → keep (above b) rs ≡ rs
keep-above b n [] h a = refl
keep-above b n (r ∷ rs) h a = ground (arith, keep-above b (r.id + 1) rs)

keep-above_none :
    (b : ℕ) (rs : List StoredMessage) → All (λ r. r.id ≤ b) rs → keep (above b) rs ≡ []
keep-above_none b [] a = refl
keep-above_none b (r ∷ rs) a = ground (arith, keep-above_none b rs a.1)

-- The last row of a part bounds the part, and the rest lies behind it.
last_bounds :
    (n : ℕ) (xs ys : List StoredMessage) (l : StoredMessage)
    → Ascends n (xs ++ ys)
    → last? xs ≡ some l
    → All (λ r. r.id ≤ l.id) xs × Ascends (l.id + 1) ys × (n ≤ l.id)
last_bounds n [] ys l a h = absurd (ground arith)
last_bounds n (x ∷ []) ys l a h =
    ((ground arith, tt), subst (λ k. Ascends (k + 1) ys) (ground arith) a.1, ground arith)
last_bounds n (x ∷ y ∷ xs) ys l a h =
    let (b, r, m) = last_bounds (x.id + 1) (y ∷ xs) ys l a.1 h in ((omega arith, b), r, omega arith)

pub keep-above_last :
    (n : ℕ) (xs ys : List StoredMessage) (l : StoredMessage)
    → Ascends n (xs ++ ys)
    → last? xs ≡ some l
    → keep (above l.id) (xs ++ ys) ≡ ys
keep-above_last n xs ys l a h =
    let (b, r, m) = last_bounds n xs ys l a h in
    rw (keep-append (above l.id) xs ys, keep-above_none l.id xs b)
      (keep-above l.id (l.id + 1) ys (omega arith) r)

pub last?-append :
    (xs ys : List StoredMessage) (l : StoredMessage) → last? ys ≡ some l → last? (xs ++ ys) ≡ some l
last?-append [] ys l h = h
last?-append (x ∷ []) [] l h = absurd (ground arith)
last?-append (x ∷ []) (y ∷ ys) l h = h
last?-append (x ∷ z ∷ xs) ys l h = last?-append (z ∷ xs) ys l h

-- A boundary cuts off a first part.
above_suffix :
    (b n : ℕ) (rs : List StoredMessage)
    → Ascends n rs
    → (before : List StoredMessage) × (rs ≡ before ++ keep (above b) rs)
above_suffix b n [] a = ([], refl)
above_suffix b n (r ∷ rs) a = elim (Bool-cases (above b r)) [
  | inl hit ↦ ([], rw hit (ap (◌∷◌ r) (sym (keep-above b (r.id + 1) rs (ground arith) a.1))))
  | inr miss ↦
      let (before, e) = above_suffix b (r.id + 1) rs a.1 in (r ∷ before, rw miss (ap (◌∷◌ r) e))
]

pub last_compaction_split :
    (rows : List StoredMessage) (c : StoredMessage) (rest : List StoredMessage)
    → last_compaction rows ≡ some (c, rest)
    → (before : List StoredMessage) × (rows ≡ before ++ c ∷ rest) × (is_compaction c ≡ true)
last_compaction_split [] c rest h = absurd (ground arith)
last_compaction_split (r ∷ rs) c rest h = elim (Option-cases (last_compaction rs)) [
  | inl e ↦ ([], ground arith, ground arith)
  | inr ((c', rest'), e) ↦
      let (before, f, g) = last_compaction_split rs c' rest' e in
      (r ∷ before, ground arith, ground arith)
]

behind_summary :
    (before rest : List StoredMessage) (c : StoredMessage)
    → is_compaction c ≡ true
    → keep not_compaction (before ++ c ∷ rest)
      ≡ keep not_compaction before ++ keep not_compaction rest
behind_summary before rest c h = rw (keep-append not_compaction before (c ∷ rest), h) refl

suffix_by :
    (o : Option ℕ) (rows before rest : List StoredMessage) (c : StoredMessage)
    → Ascends 0 rows
    → rows ≡ before ++ c ∷ rest
    → is_compaction c ≡ true
    → (front : List StoredMessage) × (keep not_compaction rows ≡ front ++ uncovered_by o rows rest)
suffix_by (some b) rows before rest c a e k =
    above_suffix b 0 (keep not_compaction rows) (Ascends-keep not_compaction 0 rows a)
suffix_by none rows before rest c a e k =
    (keep not_compaction before, ap (keep not_compaction) e ∙ behind_summary before rest c k)

-- The uncovered rows are the last part of those that are no summaries.
pub uncovered_suffix :
    (rows : List StoredMessage)
    → Ascends 0 rows
    → (front : List StoredMessage) × (keep not_compaction rows ≡ front ++ uncovered_rows rows)
unfolding uncovered_rows
uncovered_suffix rows a = elim (Option-cases (last_compaction rows)) [
  | inl e ↦ ([], rw (e, uncovered_from))
  | inr ((c, rest), e) ↦
      let (before, f, k) = last_compaction_split rows c rest e in
      rw (e, uncovered_from) (suffix_by c.covers_through_id rows before rest c a f k)
]

pub last_compaction-append :
    (rows : List StoredMessage) (c : StoredMessage)
    → is_compaction c ≡ true
    → last_compaction (rows ++ c ∷ []) ≡ some (c, [])
last_compaction-append [] c h = rw h
last_compaction-append (r ∷ rows) c h = rw (last_compaction-append rows c h)
