-- ===== src/Reply/Search.antt =====
-- Where a text is found in another, and what a prefix keeps out (`str::find` and `str::contains`).
use boba_claw.Prelude.{
  ℕ, zero, suc, ◌≤◌, ◌≡◌, refl, sym, ap, ◌∙◌, subst, inl, inr, Bool, true, false, Option, none,
  some, [], ◌∷◌, ◌++◌, if◌then◌else◌, take, reverse, Text, starts_with, contains, trim_start,
  trim_end, is_whitespace, Bool-cases, Option-cases, arith,
}
use mathlib.Core.List.{reverse-append, reverse-reverse}
use boba_claw.Reply.{index_of, next_index, cut_at}

-- A text that is nowhere in another.
abbrev pub Lacks : Text → Text → Type 0
Lacks p s = contains s p ≡ false

pub starts-append : (s t p : Text) → starts_with s p ≡ true → starts_with (s ++ t) p ≡ true
starts-append s t [] h = refl
starts-append [] t (a ∷ p) h = absurd (ground arith)
starts-append (c ∷ s) t (a ∷ p) h = ground (arith, starts-append s t p)

pub starts-take : (k : ℕ) (s p : Text) → starts_with (take k s) p ≡ true → starts_with s p ≡ true
starts-take k s [] h = refl
starts-take zero s (a ∷ p) h = absurd (ground arith)
starts-take (suc k) [] (a ∷ p) h = absurd (ground arith)
starts-take (suc k) (c ∷ s) (a ∷ p) h = ground (arith, starts-take k s p)

-- A prefix holds nothing that the whole lacks.
pub prefix-Lacks : (s t p : Text) → Lacks p (s ++ t) → Lacks p s
unfolding contains
prefix-Lacks [] [] p h = h
prefix-Lacks [] (c ∷ t) [] h = absurd (ground arith)
prefix-Lacks [] (c ∷ t) (a ∷ p) h = refl
prefix-Lacks (c ∷ s) t p h = ground (arith, starts-append (c ∷ s) t p, prefix-Lacks s t p)

-- The position is nowhere behind where the text is first found.
abbrev pub NotBehind : ℕ → Option ℕ → Type 0
NotBehind k none = Unit {0}
NotBehind k (some i) = k ≤ i

not-behind-next : (k : ℕ) (o : Option ℕ) → NotBehind (suc k) (next_index o) → NotBehind k o
not-behind-next k none h = tt
not-behind-next k (some i) h = omega arith

pub take-Lacks :
    (k : ℕ) (s p : Text) (a : ℕ) → NotBehind k (index_of s (a ∷ p)) → Lacks (a ∷ p) (take k s)
unfolding contains index_of
take-Lacks zero s p a before = refl
take-Lacks (suc k) [] p a before = refl
take-Lacks (suc k) (c ∷ s) p a before =
    let at_start =
      λ (b : Bool). NotBehind (suc k) (if b then some 0 else next_index (index_of s (a ∷ p))) in
    elim (Bool-cases (starts_with (c ∷ s) (a ∷ p))) [
      | inl here ↦ let zero_le : suc k ≤ 0 = subst at_start here before in absurd (omega arith)
      | inr later ↦ ground (
        arith,
        starts-take (suc k) (c ∷ s) (a ∷ p),
        take-Lacks k s p a (not-behind-next k (index_of s (a ∷ p)) (subst at_start later before)),
      )
    ]

next-none : (o : Option ℕ) → next_index o ≡ none → o ≡ none
next-none none h = refl
next-none (some i) h = absurd (ground arith)

lacking : (s p : Text) (a : ℕ) → index_of s (a ∷ p) ≡ none → Lacks (a ∷ p) s
unfolding contains index_of
lacking [] p a h = refl
lacking (c ∷ s) p a h = elim (Bool-cases (starts_with (c ∷ s) (a ∷ p))) [
  | inl here ↦ absurd (ground (arith, here))
  | inr later ↦
      let rest : next_index (index_of s (a ∷ p)) ≡ none =
        subst (λ b. (if b then some 0 else next_index (index_of s (a ∷ p))) ≡ none) later h in
      ground (arith, later, lacking s p a (next-none (index_of s (a ∷ p)) rest))
]

pub cut-Lacks : (s p : Text) (a : ℕ) → Lacks (a ∷ p) (cut_at s (index_of s (a ∷ p)))
cut-Lacks s p a = elim (Option-cases (index_of s (a ∷ p))) [
  | inl nowhere ↦ rw nowhere (lacking s p a nowhere)
  | inr (i, there) ↦ rw there (take-Lacks i s p a (rw there (omega arith)))
]

-- `trim_end` takes a suffix off.
trim_start-suffix : (s : Text) → (w : Text) × (s ≡ w ++ trim_start s)
unfolding trim_start
trim_start-suffix [] = ([], refl)
trim_start-suffix (c ∷ s) = elim (Bool-cases (is_whitespace c)) [
  | inl blank ↦ let (w, e) = trim_start-suffix s in (c ∷ w, rw blank (ap (λ r. c ∷ r) e))
  | inr solid ↦ ([], rw solid refl)
]

pub trim_end-prefix : (s : Text) → (w : Text) × (s ≡ trim_end s ++ w)
unfolding trim_end
trim_end-prefix s =
    let (w, e) = trim_start-suffix (reverse s) in
    (
      reverse w,
      sym (reverse-reverse s) ∙ (ap reverse e ∙ reverse-append w (trim_start (reverse s))),
    )

pub trim_end-Lacks : (s p : Text) → Lacks p s → Lacks p (trim_end s)
trim_end-Lacks s p h =
    let (w, e) = trim_end-prefix s in prefix-Lacks (trim_end s) w p (subst (Lacks p) e h)
