-- ===== src/Skills/Trimmed.antt =====
-- Trimming a text takes away no character but blanks.
use boba_claw.Prelude.{
  ℕ, ◌≡◌, refl, sym, ap, ◌∙◌, subst, inl, inr, true, false, ◌==◌, [], ◌∷◌, ◌++◌, reverse,
  reverse_aux, Text, starts_with, contains, trim, trim_start, trim_end, is_whitespace, Bool-cases,
  All, arith,
}
use mathlib.Core.List.{reverse-append, reverse-reverse}

abbrev pub Blank : ℕ → Type 0
Blank c = is_whitespace c ≡ true

abbrev pub Solid : ℕ → Type 0
Solid c = is_whitespace c ≡ false

differ : (b c : ℕ) → Blank b → Solid c → (b == c) ≡ false
differ b c blank solid = elim (Bool-cases (b == c)) [
  | inl same ↦
      let equal : b ≡ c = ground arith in
      let clash : is_whitespace c ≡ true = subst Blank equal blank in
      absurd (ground (arith, clash, solid))
  | inr other ↦ other
]

blanks_start : (w p : Text) (c : ℕ) → All Blank w → Solid c → starts_with w (c ∷ p) ≡ false
blanks_start [] p c blank solid = refl
blanks_start (b ∷ w) p c blank solid = rw (differ b c blank.0 solid) refl

starts-Solid :
    (a w p : Text)
    → All Blank w
    → All Solid p
    → starts_with (a ++ w) p ≡ true
    → starts_with a p ≡ true
starts-Solid a w [] blank solid h = refl
starts-Solid [] w (c ∷ p) blank solid h =
    absurd (ground (arith, blanks_start w p c blank solid.0, h))
starts-Solid (b ∷ a) w (c ∷ p) blank solid h = ground (arith, starts-Solid a w p blank solid.1)

blanks_contain : (w p : Text) (c : ℕ) → All Blank w → Solid c → contains w (c ∷ p) ≡ false
unfolding contains
blanks_contain [] p c blank solid = refl
blanks_contain (b ∷ w) p c blank solid =
    rw (differ b c blank.0 solid) (blanks_contain w p c blank.1 solid)

contains-Solid :
    (a w p : Text) (c : ℕ)
    → All Blank w
    → All Solid (c ∷ p)
    → contains (a ++ w) (c ∷ p) ≡ true
    → contains a (c ∷ p) ≡ true
unfolding contains
contains-Solid [] w p c blank solid h =
    absurd (ground (arith, blanks_contain w p c blank solid.0, h))
contains-Solid (b ∷ a) w p c blank solid h =
    ground (arith, starts-Solid (b ∷ a) w (c ∷ p) blank solid, contains-Solid a w p c blank solid)

contains-trim_start :
    (s p : Text) (c : ℕ)
    → Solid c
    → contains s (c ∷ p) ≡ true
    → contains (trim_start s) (c ∷ p) ≡ true
unfolding contains trim_start
contains-trim_start [] p c solid h = h
contains-trim_start (b ∷ s) p c solid h = elim (Bool-cases (is_whitespace b)) [
  | inl blank ↦ rw blank (contains-trim_start s p c solid (rw (differ b c blank solid) at h))
  | inr other ↦ rw other h
]

trim_start-Blank : (s : Text) → (w : Text) × (s ≡ w ++ trim_start s) × All Blank w
unfolding trim_start
trim_start-Blank [] = ([], refl, tt)
trim_start-Blank (c ∷ s) = elim (Bool-cases (is_whitespace c)) [
  | inl blank ↦
      let (w, e, all) = trim_start-Blank s in (c ∷ w, rw blank (ap (λ r. c ∷ r) e), (blank, all))
  | inr solid ↦ ([], rw solid refl, tt)
]

reverse_aux-Blank : (w r : Text) → All Blank w → All Blank r → All Blank (reverse_aux w r)
reverse_aux-Blank [] r h k = k
reverse_aux-Blank (c ∷ w) r h k = reverse_aux-Blank w (c ∷ r) h.1 (h.0, k)

reverse-Blank : (w : Text) → All Blank w → All Blank (reverse w)
reverse-Blank w h = reverse_aux-Blank w [] h tt

trim_end-Blank : (s : Text) → (w : Text) × (s ≡ trim_end s ++ w) × All Blank w
unfolding trim_end
trim_end-Blank s =
    let (w, e, blank) = trim_start-Blank (reverse s) in
    (
      reverse w,
      sym (reverse-reverse s) ∙ (ap reverse e ∙ reverse-append w (trim_start (reverse s))),
      reverse-Blank w blank,
    )

-- What a text has that is no blank, the trimmed text has too.
pub contains-trim :
    (s p : Text) (c : ℕ)
    → All Solid (c ∷ p)
    → contains s (c ∷ p) ≡ true
    → contains (trim s) (c ∷ p) ≡ true
unfolding trim
contains-trim s p c solid h =
    let (w, e, blank) = trim_end-Blank (trim_start s) in
    contains-Solid (trim_end (trim_start s)) w p c blank solid
      (subst (λ t. contains t (c ∷ p) ≡ true) e (contains-trim_start s p c solid.0 h))
