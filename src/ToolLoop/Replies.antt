-- ===== src/ToolLoop/Replies.antt =====
-- What the user gets to read.
use boba_claw.Prelude.{
  ℕ, ◌≡◌, refl, ap, ◌∙◌, inl, inr, Bool, true, false, not, ◌&&◌, ◌||◌, List, [], ◌∷◌, ◌++◌, reverse,
  reverse_aux, if◌then◌else◌, length, any, Bool-cases, Text, codes, is_whitespace, trim, trim_start,
  trim_end, is_empty, contains, ok, Holds-ok, Holds-bind, Holds-any, arith,
}
use boba_claw.Conversation.{ConversationMessage}
use boba_claw.ToolLoop.{ToolLoopState, new_state, Surroundings, Settings, is_parent, is_blank}
use boba_claw.ToolLoop.Loop.{reply, finish, iterate, retry_empty, run_tool_loop}

abbrev is_mark : ℕ → Bool
is_mark c = not (is_whitespace c)

any-append : (p : ℕ → Bool) (s t : Text) → any p (s ++ t) ≡ (any p s || any p t)
any-append p [] t = refl
any-append p (c ∷ s) t = ground (arith, any-append p s t)

any-reverse_aux : (p : ℕ → Bool) (s t : Text) → any p (reverse_aux s t) ≡ (any p s || any p t)
any-reverse_aux p [] t = refl
any-reverse_aux p (c ∷ s) t = any-reverse_aux p s (c ∷ t) ∙ ground arith

any-reverse : (p : ℕ → Bool) (s : Text) → any p (reverse s) ≡ any p s
any-reverse p s = any-reverse_aux p s [] ∙ ground arith

start-empty : (s : Text) → is_empty (trim_start s) ≡ not (any is_mark s)
unfolding trim_start
start-empty [] = refl
start-empty (c ∷ s) = elim (Bool-cases (is_whitespace c)) [
  | inl h ↦ rw h (start-empty s)
  | inr h ↦ rw h refl
]

start-marks : (s : Text) → any is_mark (trim_start s) ≡ any is_mark s
unfolding trim_start
start-marks [] = refl
start-marks (c ∷ s) = elim (Bool-cases (is_whitespace c)) [
  | inl h ↦ rw h (start-marks s)
  | inr h ↦ let kept : trim_start (c ∷ s) ≡ c ∷ s = rw h refl in ap (any is_mark) kept
]

empty-reverse_aux : (s t : Text) → is_empty (reverse_aux s t) ≡ (is_empty s && is_empty t)
empty-reverse_aux [] t = refl
empty-reverse_aux (c ∷ s) t = empty-reverse_aux s (c ∷ t) ∙ ground arith

empty-reverse : (s : Text) → is_empty (reverse s) ≡ is_empty s
empty-reverse s = empty-reverse_aux s [] ∙ ground arith

-- A text is blank if it has no mark.
pub blank_iff : (s : Text) → is_blank s ≡ not (any is_mark s)
unfolding is_blank trim trim_end
blank_iff s =
    empty-reverse (trim_start (reverse (trim_start s)))
    ∙ start-empty (reverse (trim_start s))
    ∙ ap not (any-reverse is_mark (trim_start s) ∙ start-marks s)

marked_front : (s t : Text) → is_blank s ≡ false → is_blank (s ++ t) ≡ false
marked_front s t h =
    blank_iff (s ++ t) ∙ ap not (any-append is_mark s t) ∙ ground (arith, blank_iff s)

marked_first : (c : ℕ) (s : Text) → is_whitespace c ≡ false → is_blank (c ∷ s) ≡ false
marked_first c s h =
    let marked : any is_mark (c ∷ s) ≡ true = rw h in blank_iff (c ∷ s) ∙ ap not marked

either_visible :
    (b : Bool) (s t : Text)
    → is_blank s ≡ false
    → is_blank t ≡ false
    → is_blank (if b then s else t) ≡ false
either_visible true s t h k = h
either_visible false s t h k = k

module _ {W Source Tool : Type 0} (env : Surroundings W Source Tool) (set : Settings Tool) where
  reply_visible : (text : Text) (limited : Bool) → is_blank (reply env set text limited) ≡ false
  unfolding reply is_whitespace
  reply_visible text limited = elim (Bool-cases (is_blank text)) [
    | inl blank ↦ elim (Bool-cases limited) [
      | inl l ↦ rw (blank, l) (marked_first 82 _ refl)
      | inr l ↦ rw (blank, l) (marked_first 40 _ refl)
    ]
    | inr visible ↦
        elim (Bool-cases
          (limited && is_parent set.mode && not (contains text (codes "tool step limit")))) [
            | inl l ↦ rw (visible, l) (marked_front text _ visible)
            | inr l ↦ rw (visible, l) visible
          ]
  ]

  abbrev EndsVisible : W × List ConversationMessage × ToolLoopState Source × Bool → Type 0
  EndsVisible (w, ms, st, limited) = is_blank st.final_text ≡ false

  finish_visible :
      (st : ToolLoopState Source) (limited : Bool)
      → ((text : Text) (sources : List Source)
          → is_blank text ≡ false
          → is_blank (env.append_sources text sources) ≡ false)
      → is_blank (finish env set st limited).final_text ≡ false
  unfolding finish
  finish_visible st limited keeps =
      let text = reply env set st.final_text limited in
      let visible = reply_visible st.final_text limited in
      either_visible (is_parent set.mode) (env.append_sources text st.sources) text
        (keeps text st.sources visible) visible

  -- Where the sources footer makes no text blank, a turn that comes to its end has a final text that is
  -- not blank, whatever the model said or did not say.
  pub final_text_visible :
      (w w' : W) (messages ms' : List ConversationMessage) (st : ToolLoopState Source)
      (limited : Bool)
      → ((text : Text) (sources : List Source)
          → is_blank text ≡ false
          → is_blank (env.append_sources text sources) ≡ false)
      → run_tool_loop env set w messages ≡ ok (w', ms', st, limited)
      → is_blank st.final_text ≡ false
  unfolding run_tool_loop
  final_text_visible w w' messages ms' st limited keeps h =
      let started =
        iterate env set set.max_iterations w messages (length messages) (new_state Source) in
      Holds-ok EndsVisible (λ e. Unit) (run_tool_loop env set w messages) (w', ms', st, limited)
        (Holds-bind (λ x. Unit) EndsVisible (λ e. Unit) started _ (Holds-any started)
          (λ x u.
            let retried =
              if is_parent set.mode
              then retry_empty env set set.max_empty_response_retries x.0 x.1 x.2 x.3
              else ok (x.0, x.1, x.2, x.3) in
            Holds-bind (λ y. Unit) EndsVisible (λ e. Unit) retried _ (Holds-any retried)
              (λ y v. finish_visible y.3 (is_empty x.3.final_text) keeps)))
        h
