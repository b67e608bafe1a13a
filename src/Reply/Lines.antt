-- ===== src/Reply/Lines.antt =====
-- Lines taken off the end of a text leave a prefix of it, up to its carriage returns.
use boba_claw.Prelude.{
  ℕ, ◌≡◌, refl, sym, ap, ◌∙◌, subst, inl, inr, Bool, true, false, ◌&&◌, ◌==◌, List, [], ◌∷◌, ◌++◌,
  if◌then◌else◌, append_assoc, append-nil, Text, starts_with, contains, Bool-cases, All, arith,
}
use boba_claw.Summary.{newline}
use boba_claw.Reply.{
  lines, push, join, is_dropped, put_line, drop_trailing, trim_trailing_tool_persist_lines,
}
use boba_claw.Reply.Search.{Lacks, prefix-Lacks, trim_end-Lacks}

-- No character is a line feed or a carriage return.
abbrev pub IsPlain : Text → Type 0
IsPlain p = All (λ c. ((c == newline) ≡ false) × ((c == 13) ≡ false)) p

abbrev at_line_end : ℕ → Text → Bool
at_line_end c s = c == 13 && starts_with s (newline ∷ [])

-- The text with the carriage returns at the ends of its lines taken out.
abbrev unified : Text → Text
unified [] = []
unified (c ∷ s) = if at_line_end c s then unified s else c ∷ unified s

no-newline :
    (s p : Text) (a : ℕ)
    → starts_with s (newline ∷ []) ≡ true
    → (a == newline) ≡ false
    → starts_with (unified s) (a ∷ p) ≡ false
no-newline [] p a h other = absurd (ground arith)
no-newline (d ∷ s) p a h other =
    let is_newline : d ≡ newline = ground arith in rw is_newline (ground arith)

starts-unified :
    (s p : Text) → IsPlain p → starts_with (unified s) p ≡ true → starts_with s p ≡ true
starts-unified s [] plain h = refl
starts-unified [] (a ∷ p) plain h = absurd (ground arith)
starts-unified (c ∷ s) (a ∷ p) plain h = elim (Bool-cases (at_line_end c s)) [
  | inl ends ↦
      let rest : starts_with (unified s) (a ∷ p) ≡ true = rw ends at h in
      absurd (ground (arith, no-newline s p a, plain.0.0, rest))
  | inr goes_on ↦ let here = rw goes_on at h in ground (arith, here, starts-unified s p plain.1)
]

pub unified-Lacks :
    (s p : Text) (a : ℕ) → IsPlain (a ∷ p) → Lacks (a ∷ p) s → Lacks (a ∷ p) (unified s)
unfolding contains
unified-Lacks [] p a plain h = h
unified-Lacks (c ∷ s) p a plain h =
    let ih = unified-Lacks s p a plain in
    let starts = starts-unified (c ∷ s) (a ∷ p) plain in
    elim (Bool-cases (at_line_end c s)) [
      | inl ends ↦ rw ends (ih (ground arith))
      | inr goes_on ↦ rw goes_on (ground (arith, goes_on, starts, ih))
    ]

join-push : (c : ℕ) (ls : List Text) → join (push c ls) ≡ c ∷ join ls
join-push c [] = refl
join-push c (l ∷ []) = refl
join-push c (l ∷ m ∷ ls) = refl

first-line :
    (t : Text) (ls : List Text) (w : Text)
    → t ≡ join ls ++ w
    → (x : Text) × (newline ∷ t ≡ join ([] ∷ ls) ++ x)
first-line t [] w e = (newline ∷ t, refl)
first-line t (l ∷ ls) w e = (w, ap (λ r. newline ∷ r) e)

-- The lines, joined again, are a prefix of the unified text.
lines-prefix : (s : Text) → (w : Text) × (unified s ≡ join (lines s) ++ w)
unfolding lines
lines-prefix [] = ([], refl)
lines-prefix (c ∷ s) =
    let (w, e) = lines-prefix s in
    elim (Bool-cases (c == newline)) [
      | inl ends ↦
          let is_newline : c ≡ newline = ground arith in
          rw is_newline (first-line (unified s) (lines s) w e)
      | inr inside ↦ elim (Bool-cases (at_line_end c s)) [
        | inl return ↦ (w, rw (inside, return) e)
        | inr plain ↦ (w, rw (inside, plain, join-push c (lines s)) (ap (λ r. c ∷ r) e))
      ]
    ]

put-prefix :
    (l t : Text) (ls : List Text) (w : Text)
    → t ≡ join ls ++ w
    → (x : Text) × (l ++ newline ∷ t ≡ join (put_line l ls) ++ x)
put-prefix l t [] w e = elim (Bool-cases (is_dropped l)) [
  | inl goes ↦ (l ++ newline ∷ t, rw goes refl)
  | inr stays ↦ (newline ∷ t, rw stays refl)
]
put-prefix l t (m ∷ ls) w e =
    (w, ap (λ r. l ++ newline ∷ r) e ∙ sym (append_assoc l (newline ∷ join (m ∷ ls)) w))

dropped-prefix : (ls : List Text) → (w : Text) × (join ls ≡ join (drop_trailing ls) ++ w)
unfolding drop_trailing
dropped-prefix [] = ([], refl)
dropped-prefix (l ∷ []) = elim (Bool-cases (is_dropped l)) [
  | inl goes ↦ (l, rw goes refl)
  | inr stays ↦ ([], rw (stays, append-nil l) refl)
]
dropped-prefix (l ∷ m ∷ ls) =
    let (w, e) = dropped-prefix (m ∷ ls) in
    put-prefix l (join (m ∷ ls)) (drop_trailing (m ∷ ls)) w e

pub trimmed-Lacks :
    (s p : Text) (a : ℕ)
    → IsPlain (a ∷ p)
    → Lacks (a ∷ p) s
    → Lacks (a ∷ p) (trim_trailing_tool_persist_lines s)
unfolding trim_trailing_tool_persist_lines
trimmed-Lacks s p a plain h =
    let (w, e) = lines-prefix s in
    let (v, f) = dropped-prefix (lines s) in
    let whole : Lacks (a ∷ p) (join (lines s)) =
      prefix-Lacks (join (lines s)) w (a ∷ p)
        (subst (Lacks (a ∷ p)) e (unified-Lacks s p a plain h)) in
    trim_end-Lacks (join (drop_trailing (lines s))) (a ∷ p)
      (prefix-Lacks (join (drop_trailing (lines s))) v (a ∷ p) (subst (Lacks (a ∷ p)) f whole))
