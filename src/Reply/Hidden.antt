-- ===== src/Reply/Hidden.antt =====
-- What no reply shows (`sanitize_user_reply` of crates/bobaclaw-agent/src/turn.rs).
use boba_claw.Prelude.{
  not, ◌&&◌, ◌==◌, drop, take-append-drop, trim_end, ℕ, min, ◌≤◌, ◌≡◌, refl, inl, inr, Bool, true,
  false, List, [], ◌∷◌, length, take, Text, contains, All, arith, Option-cases,
}
use boba_claw.Summary.{newline}
use boba_claw.Reply.{
  tool_results_html_comment, leaked_tool_xml_markers, index_of, cut_at, earlier, first_marker,
  strip_leaked_tool_xml, trim_trailing_tool_persist_lines, sanitize_user_reply,
}
use boba_claw.Reply.Search.{Lacks, NotBehind, prefix-Lacks, take-Lacks, cut-Lacks, trim_end-Lacks}
use boba_claw.Reply.Lines.{IsPlain, trimmed-Lacks}

-- A marker: some characters, none of which ends a line.
abbrev pub IsMarker : Text → Type 0
IsMarker p = (a : ℕ) × (q : Text) × (p ≡ a ∷ q) × IsPlain (a ∷ q)

pub first_marker-le : (s : Text) (cut : ℕ) (ms : List Text) → first_marker s cut ms ≤ cut
first_marker-le s cut [] = omega arith
first_marker-le s cut (m ∷ ms) = elim (Option-cases (index_of s m)) [
  | inl nowhere ↦ rw nowhere (first_marker-le s cut ms)
  | inr (i, there) ↦ rw there (omega (arith, first_marker-le s (min cut i) ms))
]

abbrev pub Before : Text → ℕ → Text → Type 0
Before s k m = NotBehind k (index_of s m)

first_marker-Before :
    (s : Text) (cut : ℕ) (ms : List Text) → All (Before s (first_marker s cut ms)) ms
first_marker-Before s cut [] = tt
first_marker-Before s cut (m ∷ ms) = (
  elim (Option-cases (index_of s m)) [
    | inl nowhere ↦ rw nowhere tt
    | inr (i, there) ↦ rw there (omega (arith, first_marker-le s (min cut i) ms))
  ],
  first_marker-Before s (earlier cut (index_of s m)) ms,
)

plain_test : Text → Bool
plain_test [] = true
plain_test (c ∷ p) = not (c == newline) && (not (c == 13) && plain_test p)

IsPlain-sound : (p : Text) → plain_test p ≡ true → IsPlain p
unfolding plain_test
IsPlain-sound [] h = tt
IsPlain-sound (c ∷ p) h = ((ground arith, ground arith), IsPlain-sound p (ground arith))

marker_test : List Text → Bool
unfolding plain_test
marker_test [] = true
marker_test ([] ∷ ms) = false
marker_test ((a ∷ p) ∷ ms) = plain_test (a ∷ p) && marker_test ms

IsMarker-sound : (ms : List Text) → marker_test ms ≡ true → All IsMarker ms
unfolding marker_test
IsMarker-sound [] h = tt
IsMarker-sound ([] ∷ ms) h = absurd (ground arith)
IsMarker-sound ((a ∷ p) ∷ ms) h =
    ((a, p, refl, IsPlain-sound (a ∷ p) (ground arith)), IsMarker-sound ms (ground arith))

pub leaked-IsMarker : All IsMarker leaked_tool_xml_markers
unfolding marker_test
leaked-IsMarker = IsMarker-sound leaked_tool_xml_markers refl

pub comment-IsPlain : IsPlain tool_results_html_comment
unfolding plain_test
comment-IsPlain = IsPlain-sound tool_results_html_comment refl

strip-Lacks :
    (s : Text) (ms : List Text) (k : ℕ)
    → All IsMarker ms
    → All (Before s k) ms
    → All (λ m. Lacks m (trim_trailing_tool_persist_lines (trim_end (take k s)))) ms
strip-Lacks s [] k markers before = tt
strip-Lacks s (m ∷ ms) k ((a, p, e, plain), markers) (here, before) = (
  rw e (
      trimmed-Lacks (trim_end (take k s)) p a plain
        (trim_end-Lacks (take k s) (a ∷ p) (take-Lacks k s p a (rw e at here)))),
  strip-Lacks s ms k markers before,
)

stays-Lacks :
    (s p : Text) (a k : ℕ)
    → IsPlain (a ∷ p)
    → Lacks (a ∷ p) s
    → Lacks (a ∷ p) (trim_trailing_tool_persist_lines (trim_end (take k s)))
stays-Lacks s p a k plain h = trimmed-Lacks (trim_end (take k s)) p a plain (
    trim_end-Lacks (take k s) (a ∷ p)
      (prefix-Lacks (take k s) (drop k s) (a ∷ p) (rw (take-append-drop k s) h)))

-- Whatever the model answers, the reply that is shown holds neither the comment in front of stored tool
-- results nor any of the markers of leaked tool calls.
pub reply_hides :
    (text : Text)
    → All
        (λ m. contains (sanitize_user_reply text) m ≡ false)
        (tool_results_html_comment ∷ leaked_tool_xml_markers)
unfolding sanitize_user_reply strip_leaked_tool_xml
reply_hides text =
    let s = cut_at text (index_of text tool_results_html_comment) in
    let k = first_marker s (length s) leaked_tool_xml_markers in
    (
      stays-Lacks s _ _ k comment-IsPlain (cut-Lacks text _ _),
      strip-Lacks s leaked_tool_xml_markers k leaked-IsMarker
          (first_marker-Before s (length s) leaked_tool_xml_markers),
    )
