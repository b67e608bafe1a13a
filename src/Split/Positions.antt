-- ===== src/Split/Positions.antt =====
-- Where a text may be cut.
use boba_claw.Prelude.{
  ℕ, zero, suc, ◌+◌, ◌-◌, max, ◌≤◌, ◌<◌, ◌≡◌, refl, sym, ap, subst, ◌≢◌, ◌∙◌, inl, inr, true, false,
  Option, none, some, [], ◌∷◌, ◌++◌, append_assoc, ltb, ◌==◌, Bool-cases, Text, is_whitespace,
  len_utf8, len_utf16, byte_len, arith,
}
use boba_claw.Summary.{newline}
use boba_claw.Split.{
  utf16_len, Breaks, no_breaks, is_newline?, note_break, scan, overflow_at, or_else?, chosen,
  find_split_byte_index, with_first, split_at,
}

len8-pos : (c : ℕ) → 1 ≤ len_utf8 c
unfolding len_utf8
len8-pos c = ground arith

pub len16-bounds : (c : ℕ) → (1 ≤ len_utf16 c) × (len_utf16 c ≤ 2)
unfolding len_utf16
len16-bounds c = (ground arith, ground arith)

bytes-append : (s t : Text) → byte_len (s ++ t) ≡ byte_len s + byte_len t
unfolding byte_len
bytes-append [] t = omega arith
bytes-append (c ∷ s) t = omega (arith, bytes-append s t)

pub units-append : (s t : Text) → utf16_len (s ++ t) ≡ utf16_len s + utf16_len t
unfolding utf16_len
units-append [] t = omega arith
units-append (c ∷ s) t = omega (arith, units-append s t)

split-suc :
    (n k c : ℕ) (s : Text) → n ≡ len_utf8 c + k → split_at (c ∷ s) n ≡ with_first c (split_at s k)
split-suc zero k c s h = absurd (omega (arith, len8-pos c))
split-suc (suc m) k c s h =
    let fits : ltb (suc m) (len_utf8 c) ≡ false = ground arith in
    let left : suc m - len_utf8 c ≡ k = omega arith in
    rw fits (ap (λ n. with_first c (split_at s n)) left)

pub split-front : (s t : Text) → split_at (s ++ t) (byte_len s) ≡ some (s, t)
unfolding byte_len
split-front [] t = refl
split-front (x ∷ s) t =
    split-suc (byte_len (x ∷ s)) (byte_len s) x (s ++ t) refl ∙ ap (with_first x) (split-front s t)

-- A place at which the first part is not empty and fits.
abbrev pub Fits : Text → ℕ → ℕ → Type 0
Fits text limit n =
    (s : Text) × (t : Text) × (text ≡ s ++ t) × (n ≡ byte_len s) × (utf16_len s ≤ limit) × (s ≢ [])

abbrev Fits? : Text → ℕ → Option ℕ → Type 0
Fits? text limit none = Unit
Fits? text limit (some n) = Fits text limit n

abbrev BreaksFit : Text → ℕ → Breaks → Type 0
BreaksFit text limit b =
    Fits? text limit b.paragraph × Fits? text limit b.line × Fits? text limit b.space

note-Fits :
    (text : Text) (limit : ℕ) (b : Breaks) (c after : ℕ) (prev : Option ℕ)
    → BreaksFit text limit b
    → Fits text limit after
    → BreaksFit text limit (note_break b c prev after)
note-Fits text limit b c after prev h f = elim (Bool-cases (c == newline)) [
  | inl line ↦ elim (Bool-cases (is_newline? prev)) [
    | inl again ↦ rw (line, again) (f, f, h.2)
    | inr once ↦ rw (line, once) (h.0, f, h.2)
  ]
  | inr other ↦ elim (Bool-cases (is_whitespace c)) [
    | inl white ↦ rw (other, white) (h.0, h.1, f)
    | inr mark ↦ rw (other, mark) h
  ]
]

units-snoc : (s : Text) (c : ℕ) → utf16_len (s ++ c ∷ []) ≡ utf16_len s + len_utf16 c
unfolding utf16_len
units-snoc s c = omega (arith, units-append s (c ∷ []))

bytes-snoc : (s : Text) (c : ℕ) → byte_len (s ++ c ∷ []) ≡ byte_len s + len_utf8 c
unfolding byte_len
bytes-snoc s c = omega (arith, bytes-append s (c ∷ []))

snoc_nonempty : (s : Text) (c : ℕ) → s ++ c ∷ [] ≢ []
snoc_nonempty [] c h = absurd (ground arith)
snoc_nonempty (x ∷ s) c h = absurd (ground arith)

scan_fits :
    (text : Text) (limit : ℕ) (seen rest : Text) (b : Breaks) (prev : Option ℕ)
    → text ≡ seen ++ rest
    → utf16_len seen ≤ limit
    → BreaksFit text limit b
    → BreaksFit text limit (scan limit (utf16_len seen) (byte_len seen) b prev rest)
scan_fits text limit seen [] b prev e u h = h
scan_fits text limit seen (c ∷ s) b prev e u h =
    elim (Bool-cases (ltb limit (utf16_len seen + len_utf16 c))) [
      | inl over ↦ rw over h
      | inr within ↦
          let grown : text ≡ (seen ++ c ∷ []) ++ s = e ∙ sym (append_assoc seen (c ∷ []) s) in
          let units : utf16_len (seen ++ c ∷ []) ≡ utf16_len seen + len_utf16 c =
            units-snoc seen c in
          let bytes : byte_len (seen ++ c ∷ []) ≡ byte_len seen + len_utf8 c = bytes-snoc seen c in
          let after = byte_len seen + len_utf8 c in
          let fits : Fits text limit after = (
            seen ++ c ∷ [],
            s,
            grown,
            sym bytes,
            ground (arith, units, within),
            snoc_nonempty seen c,
          ) in
          rw within (
            subst
              (λ n.
                BreaksFit text limit (scan limit n after (note_break b c prev after) (some c) s))
              units
              (subst
                (λ n. BreaksFit text limit (
                  scan limit (utf16_len (seen ++ c ∷ [])) n (note_break b c prev after) (some c) s))
                bytes
                (scan_fits text limit (seen ++ c ∷ []) s (note_break b c prev after) (some c) grown
                  (ground (arith, units, within)) (note-Fits text limit b c after prev h fits))))
    ]

pub no_units : utf16_len [] ≡ 0
unfolding utf16_len
no_units = refl

no_overflow : (limit c : ℕ) → 2 ≤ limit → ltb limit (utf16_len [] + len_utf16 c) ≢ true
no_overflow limit c two h = ground (arith, no_units, (len16-bounds c).1)

bytes-pos : (s : Text) → s ≢ [] → 1 ≤ byte_len s
unfolding byte_len
bytes-pos [] h = absurd (h refl)
bytes-pos (c ∷ s) h = omega (arith, len8-pos c)

overflow-Fits :
    (text : Text) (limit : ℕ) (seen rest : Text)
    → 2 ≤ limit
    → text ≡ seen ++ rest
    → utf16_len seen ≤ limit
    → limit < utf16_len text
    → Fits text limit (overflow_at limit (utf16_len seen) (byte_len seen) rest)
overflow-Fits text limit seen [] two e u long =
    absurd (omega (arith, units-append seen [], ap utf16_len e, no_units))
overflow-Fits text limit seen (c ∷ s) two e u long =
    elim (Bool-cases (ltb limit (utf16_len seen + len_utf16 c))) [
      | inl over ↦
          let some_seen : seen ≢ [] = λ h.
            no_overflow limit c two
              (subst (λ x. ltb limit (utf16_len x + len_utf16 c) ≡ true) h over) in
          let at : max (byte_len seen) 1 ≡ byte_len seen =
            omega (arith, bytes-pos seen some_seen) in
          rw over (seen, c ∷ s, e, at, u, some_seen)
      | inr within ↦
          let grown : text ≡ (seen ++ c ∷ []) ++ s = e ∙ sym (append_assoc seen (c ∷ []) s) in
          rw within (
            subst (λ n. Fits text limit (overflow_at limit n (byte_len seen + len_utf8 c) s))
              (units-snoc seen c)
              (subst (λ n. Fits text limit (overflow_at limit (utf16_len (seen ++ c ∷ [])) n s))
                (bytes-snoc seen c)
                (overflow-Fits text limit (seen ++ c ∷ []) s two grown
                  (ground (arith, units-snoc seen c, within)) long)))
    ]

chosen-Fits :
    (text : Text) (limit : ℕ) (o : Option ℕ) (d : ℕ)
    → Fits? text limit o
    → Fits text limit d
    → Fits text limit (chosen o d)
chosen-Fits text limit none d h f = f
chosen-Fits text limit (some zero) d h f = f
chosen-Fits text limit (some (suc n)) d h f = h

or_fits :
    (text : Text) (limit : ℕ) (o p : Option ℕ)
    → Fits? text limit o
    → Fits? text limit p
    → Fits? text limit (or_else? o p)
or_fits text limit none p h f = f
or_fits text limit (some n) p h f = h

-- With room for two units, a text that does not fit is cut behind a first part that does.
pub index-Fits :
    (text : Text) (limit : ℕ)
    → 2 ≤ limit
    → limit < utf16_len text
    → Fits text limit (find_split_byte_index text limit)
unfolding find_split_byte_index utf16_len byte_len
index-Fits text limit two long =
    let b = scan limit 0 0 no_breaks none text in
    let (p, l, w) = scan_fits text limit [] text no_breaks none refl (omega arith) (tt, tt, tt) in
    chosen-Fits text limit (or_else? (or_else? b.paragraph b.line) b.space)
      (overflow_at limit 0 0 text)
      (or_fits text limit (or_else? b.paragraph b.line) b.space
        (or_fits text limit b.paragraph b.line p l) w)
      (overflow-Fits text limit [] text two refl (omega arith) long)
