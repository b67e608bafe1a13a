-- ===== src/Prelude/Chars.antt =====
-- Text as the list of its Unicode scalar values: what Rust's `str::chars` yields. The tests on a
-- character and the trimming functions are those of Rust's standard library.
use Prim.Native.Char.{code}
use Prim.Native.Nat.{ℕ, ◌+◌}
use Prim.Native.String.{String}
use mathlib.Core.Bool.{Bool, true, false, ◌&&◌, ◌||◌}
use mathlib.Core.List.{List, [], ◌∷◌, reverse}
use mathlib.Core.Path.{◌≡◌, refl}
use native.Mathlib.Omega.{arith}
use boba_claw.Prelude.Tests.{leb, ltb, ◌==◌, if◌then◌else◌, ==_refl}

abbrev pub Text : Type 0
Text = List ℕ

abbrev pub codes : String → Text
codes String.[] = []
codes (String.◌∷◌ c s) = code c ∷ codes s

-- `char::is_whitespace`: the Unicode property White_Space.
unfoldable pub is_whitespace : ℕ → Bool
is_whitespace c =
    (leb 9 c && leb c 13)
    || c == 32
    || c == 133
    || c == 160
    || c == 5760
    || (leb 8192 c && leb c 8202)
    || c == 8232
    || c == 8233
    || c == 8239
    || c == 8287
    || c == 12288

-- `char::len_utf8` and `char::len_utf16`.
unfoldable pub len_utf8 : ℕ → ℕ
len_utf8 c = if ltb c 128 then 1 else if ltb c 2048 then 2 else if ltb c 65536 then 3 else 4

unfoldable pub len_utf16 : ℕ → ℕ
len_utf16 c = if ltb c 65536 then 1 else 2

-- `str::len`: the number of bytes.
unfoldable pub byte_len : Text → ℕ
unfolding len_utf8
byte_len [] = 0
byte_len (c ∷ s) = len_utf8 c + byte_len s

unfoldable pub trim_start : Text → Text
unfolding is_whitespace
trim_start [] = []
trim_start (c ∷ s) = if is_whitespace c then trim_start s else c ∷ s

unfoldable pub trim_end : Text → Text
unfolding trim_start
trim_end s = reverse (trim_start (reverse s))

unfoldable pub trim : Text → Text
unfolding trim_start trim_end
trim s = trim_end (trim_start s)

abbrev pub is_empty {ℓ} : {A : Type ℓ} → List A → Bool
is_empty [] = true
is_empty (_ ∷ _) = false

abbrev pub text_eq : Text → Text → Bool
text_eq [] [] = true
text_eq [] (_ ∷ _) = false
text_eq (_ ∷ _) [] = false
text_eq (a ∷ s) (b ∷ t) = a == b && text_eq s t

pub text_eq_refl : (s : Text) → text_eq s s ≡ true
text_eq_refl [] = refl
text_eq_refl (c ∷ s) = rw (==_refl c) (text_eq_refl s)

pub text_eq_sound : (s t : Text) → text_eq s t ≡ true → s ≡ t
text_eq_sound [] [] h = refl
text_eq_sound [] (b ∷ t) h = absurd (ground arith)
text_eq_sound (a ∷ s) [] h = absurd (ground arith)
text_eq_sound (a ∷ s) (b ∷ t) h =
    let rest : s ≡ t = text_eq_sound s t (ground arith) in
    let first : a ≡ b = ground arith in rw (first, rest)

-- `str::starts_with` and `str::contains`.
abbrev pub starts_with : Text → Text → Bool
starts_with s [] = true
starts_with [] (p ∷ ps) = false
starts_with (c ∷ s) (p ∷ ps) = c == p && starts_with s ps

unfoldable pub contains : Text → Text → Bool
contains [] p = starts_with [] p
contains (c ∷ s) p = starts_with (c ∷ s) p || contains s p
