-- ===== src/Reply/Stored.antt =====
-- The tool results that a turn stores behind its reply are not shown
-- (`build_persisted_assistant` and `sanitize_user_reply` of crates/bobaclaw-agent/src/turn.rs).
use boba_claw.Prelude.{
  ℕ, zero, suc, ◌+◌, ◌≤◌, ◌≡◌, ◌⊎◌, refl, ap, subst, inl, inr, true, false, ◌==◌, Option, none,
  some, List, [], ◌∷◌, ◌++◌, if◌then◌else◌, length, length-append, take, Text, starts_with,
  trim_start, trim_end, is_whitespace, All, arith, Option-cases, Bool-cases,
}
use mathlib.Core.List.{reverse-append}
use native.Mathlib.Nat.{zero-add, suc-add}
use boba_claw.Summary.{newline}
use boba_claw.ToolLoop.{ToolPersistEntry}
use boba_claw.Reply.{
  leaked_tool_xml_markers, index_of, next_index, cut_at, earlier, first_marker,
  strip_leaked_tool_xml, trim_trailing_tool_persist_lines, sanitize_user_reply,
  build_persisted_assistant, entries_text,
}
use boba_claw.Reply.Lines.{IsPlain}
use boba_claw.Reply.Hidden.{IsMarker, leaked-IsMarker, comment-IsPlain}

-- A text without line ends does not reach over one.
starts_before : (s t p : Text) → IsPlain p → starts_with (s ++ newline ∷ t) p ≡ starts_with s p
starts_before s t [] plain = refl
starts_before [] t (a ∷ p) plain = ground (arith, plain.0.0)
starts_before (c ∷ s) t (a ∷ p) plain = rw (starts_before s t p plain.1) refl

abbrev or_later : Option ℕ → Option ℕ → Option ℕ
or_later none o = o
or_later (some i) o = some i

abbrev shifted : ℕ → Option ℕ → Option ℕ
shifted n none = none
shifted n (some i) = some (n + i)

next-shifted : (o : Option ℕ) → next_index o ≡ shifted 1 o
next-shifted none = refl
next-shifted (some i) = ap some (omega arith)

later-shifted :
    (o : Option ℕ) (n : ℕ) (q : Option ℕ)
    → next_index (or_later o (shifted (n + 1) q)) ≡ or_later (next_index o) (shifted (suc n + 1) q)
later-shifted none n none = refl
later-shifted none n (some i) = ap some (omega arith)
later-shifted (some j) n q = refl

index_before :
    (s t p : Text) (a : ℕ)
    → IsPlain (a ∷ p)
    → index_of (s ++ newline ∷ t) (a ∷ p)
      ≡ or_later (index_of s (a ∷ p)) (shifted (length s + 1) (index_of t (a ∷ p)))
unfolding index_of
index_before [] t p a plain =
    let apart : (newline == a) ≡ false = ground (arith, plain.0.0) in
    rw apart (next-shifted (index_of t (a ∷ p)))
index_before (c ∷ s) t p a plain =
    rw (starts_before s t p plain.1, index_before s t p a plain)
      (elim (Bool-cases (starts_with (c ∷ s) (a ∷ p))) [
        | inl here ↦ rw here refl
        | inr later ↦ rw later (later-shifted (index_of s (a ∷ p)) (length s) (index_of t (a ∷ p)))
      ])

index-le : (s p : Text) (i : ℕ) → index_of s p ≡ some i → i ≤ length s
unfolding index_of
index-le [] p i h = ground arith
index-le (c ∷ s) p i h = elim (Bool-cases (starts_with (c ∷ s) p)) [
  | inl here ↦
      let zero_index : some 0 ≡ some i =
        subst (λ b. (if b then some 0 else next_index (index_of s p)) ≡ some i) here h in
      ground arith
  | inr later ↦
      let next : next_index (index_of s p) ≡ some i =
        subst (λ b. (if b then some 0 else next_index (index_of s p)) ≡ some i) later h in
      elim (Option-cases (index_of s p)) [
        | inl nowhere ↦ absurd (ground (arith, nowhere))
        | inr (j, there) ↦ ground (arith, there, index-le s p j there)
      ]
]

-- Behind its comment an appendix is cut off, and two line ends are left.
index-starts : (s p : Text) → starts_with s p ≡ true → index_of s p ≡ some 0
unfolding index_of
index-starts [] p h = rw h refl
index-starts (c ∷ s) p h = rw h refl

starts_self : (p t : Text) → starts_with (p ++ t) p ≡ true
starts_self [] t = refl
starts_self (a ∷ p) t = ground (arith, starts_self p t)

take-prefix : (i : ℕ) (s t : Text) → i ≤ length s → take i (s ++ t) ≡ take i s
take-prefix zero s t h = refl
take-prefix (suc i) [] t h = absurd (omega arith)
take-prefix (suc i) (c ∷ s) t h = ap (λ r. c ∷ r) (take-prefix i s t (omega arith))

take-more : (s t : Text) (k : ℕ) → take (length s + k) (s ++ t) ≡ s ++ take k t
take-more [] t k = rw (zero-add k) refl
take-more (c ∷ s) t k = rw (suc-add (length s) k) (ap (λ r. c ∷ r) (take-more s t k))

take-all : (s : Text) → take (length s) s ≡ s
take-all [] = refl
take-all (c ∷ s) = ap (λ r. c ∷ r) (take-all s)

abbrev two_ends : Text
two_ends = newline ∷ newline ∷ []

-- Line ends at the end do not change `trim_end`.
trim_end-ends : (s : Text) → trim_end (s ++ two_ends) ≡ trim_end s
unfolding trim_end trim_start is_whitespace
trim_end-ends s = rw (reverse-append s two_ends) refl

or_later-none : (o : Option ℕ) → or_later o none ≡ o
or_later-none none = refl
or_later-none (some i) = refl

index_ends : (s m : Text) → IsMarker m → index_of (s ++ two_ends) m ≡ index_of s m
index_ends s m (a, p, e, plain) =
    rw (e, index_before s (newline ∷ []) p a plain, index_before [] [] p a plain)
      (unfold index_of in or_later-none (index_of s (a ∷ p)))

first_marker-ends :
    (s : Text) (cut : ℕ) (ms : List Text)
    → All IsMarker ms
    → first_marker (s ++ two_ends) cut ms ≡ first_marker s cut ms
first_marker-ends s cut [] markers = refl
first_marker-ends s cut (m ∷ ms) (marker, markers) =
    rw (index_ends s m marker) (first_marker-ends s (earlier cut (index_of s m)) ms markers)

-- Two positions in a text with and without the two line ends that are cut alike.
abbrev Alike : Text → ℕ → ℕ → Type 0
Alike s j k = ((j ≡ k) × (k ≤ length s)) ⊎ ((j ≡ length s + 2) × (k ≡ length s))

earlier-Alike :
    (s m : Text) (j k : ℕ)
    → Alike s j k
    → Alike s (earlier j (index_of s m)) (earlier k (index_of s m))
earlier-Alike s m j k alike = elim (Option-cases (index_of s m)) [
  | inl nowhere ↦ rw nowhere alike
  | inr (i, there) ↦
      let bound = index-le s m i there in
      rw there (elim alike [
        | inl (e, h) ↦ inl (omega arith, omega arith)
        | inr (e, f) ↦ inl (omega arith, omega arith)
      ])
]

first_marker-Alike :
    (s : Text) (ms : List Text) (j k : ℕ)
    → Alike s j k
    → Alike s (first_marker s j ms) (first_marker s k ms)
first_marker-Alike s [] j k alike = alike
first_marker-Alike s (m ∷ ms) j k alike =
    first_marker-Alike s ms (earlier j (index_of s m)) (earlier k (index_of s m))
      (earlier-Alike s m j k alike)

take-Alike :
    (s : Text) (j k : ℕ) → Alike s j k → trim_end (take j (s ++ two_ends)) ≡ trim_end (take k s)
take-Alike s j k (inl (e, h)) = rw (e, take-prefix k s two_ends h) refl
take-Alike s j k (inr (e, f)) = rw (e, f, take-more s two_ends 2, take-all s) (trim_end-ends s)

strip-ends : (s : Text) → strip_leaked_tool_xml (s ++ two_ends) ≡ strip_leaked_tool_xml s
unfolding strip_leaked_tool_xml
strip-ends s =
    let j = first_marker s (length s + 2) leaked_tool_xml_markers in
    let k = first_marker s (length s) leaked_tool_xml_markers in
    rw
      (
        length-append s two_ends,
        first_marker-ends s (length s + 2) leaked_tool_xml_markers leaked-IsMarker,
      )
      (take-Alike s j k
        (first_marker-Alike s leaked_tool_xml_markers (length s + 2) (length s) (inr (refl, refl))))

comment_index :
    (s t p : Text) (a : ℕ)
    → IsPlain (a ∷ p)
    → index_of (s ++ newline ∷ newline ∷ ((a ∷ p) ++ t)) (a ∷ p)
      ≡ or_later (index_of s (a ∷ p)) (some (length s + 2))
comment_index s t p a plain =
    rw
      (
        index_before s (newline ∷ ((a ∷ p) ++ t)) p a plain,
        index_before [] ((a ∷ p) ++ t) p a plain,
        index-starts ((a ∷ p) ++ t) (a ∷ p) (starts_self (a ∷ p) t),
      )
      (unfold index_of in ap (λ (n : ℕ). or_later (index_of s (a ∷ p)) (some n)) (omega arith))

-- With no comment in the reply, the cut leaves the two line ends; otherwise it is that of the reply alone.
cut_appendix :
    (s t p : Text) (a : ℕ)
    → IsPlain (a ∷ p)
    → strip_leaked_tool_xml (
        cut_at
          (s ++ newline ∷ newline ∷ ((a ∷ p) ++ t))
          (index_of (s ++ newline ∷ newline ∷ ((a ∷ p) ++ t)) (a ∷ p)))
      ≡ strip_leaked_tool_xml (cut_at s (index_of s (a ∷ p)))
cut_appendix s t p a plain = elim (Option-cases (index_of s (a ∷ p))) [
  | inl nowhere ↦
      rw (comment_index s t p a plain, nowhere, take-more s (newline ∷ newline ∷ ((a ∷ p) ++ t)) 2)
        (strip-ends s)
  | inr (i, there) ↦
      rw
        (
          comment_index s t p a plain,
          there,
          take-prefix i s (newline ∷ newline ∷ ((a ∷ p) ++ t)) (index-le s (a ∷ p) i there),
        )
        refl
]

-- The stored form of a reply, with the results of its tools behind it, is shown as the reply alone is,
-- whatever the results hold.
pub stored_shows_reply :
    (final_text : Text) (tools : List ToolPersistEntry)
    → sanitize_user_reply (build_persisted_assistant final_text tools)
      ≡ sanitize_user_reply final_text
unfolding sanitize_user_reply build_persisted_assistant
stored_shows_reply final_text [] = refl
stored_shows_reply final_text (t ∷ ts) =
    ap trim_trailing_tool_persist_lines
      (cut_appendix final_text (newline ∷ entries_text (t ∷ ts)) _ _ comment-IsPlain)
