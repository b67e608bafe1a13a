-- ===== src/Gate/Entries.antt =====
-- Lemmas on the list of live entries.
use boba_claw.Prelude.{
  ℕ, ◌+◌, ◌<◌, ◌≡◌, refl, ◌≢◌, inl, inr, subst, Bool-cases, String, str_eq, Bool, false, not, ◌&&◌,
  ◌||◌, some, List, [], ◌∷◌, ◌++◌, if◌then◌else◌, ◌==◌, keep, count, All, All-append, arith,
}
use boba_claw.Gate.{
  Entry, ScopeState, Phase, find, set_phase, discard, cancel_preemptible, preemptible,
}
use boba_claw.Gate.Steps.{pending}

abbrev pub one_if : Bool → ℕ
one_if b = if b then 1 else 0

-- A count moves by what the changed entry was and is.
pub count-set_phase :
    (p : Entry → Bool) (i : ℕ) (ph : Phase) (es : List Entry) (e : Entry)
    → find i es ≡ some e
    → count p (set_phase i ph es) + one_if (p e) ≡ count p es + one_if (p (record e { phase = ph }))
count-set_phase p i ph [] e h = absurd (ground arith)
count-set_phase p i ph (x ∷ es) e h = ground (arith, count-set_phase p i ph es e)

pub count-discard :
    (p : Entry → Bool) (i : ℕ) (es : List Entry) (e : Entry)
    → find i es ≡ some e
    → count p (discard i es) + one_if (p e) ≡ count p es
count-discard p i [] e h = absurd (ground arith)
count-discard p i (x ∷ es) e h = ground (arith, count-discard p i es e)

pub count-cancel :
    (p : Entry → Bool) (st : ScopeState) (es : List Entry)
    → ((e : Entry) (b : Bool) → p (record e { cancelled = b }) ≡ p e)
    → count p (cancel_preemptible st es) ≡ count p es
unfolding cancel_preemptible
count-cancel p st [] h = refl
count-cancel p st (x ∷ es) h =
    ground (arith, h x (x.cancelled || preemptible st x.id), count-cancel p st es h)

module _ {κ} (P : Entry → Type κ) where
  pub All-find : (i : ℕ) (es : List Entry) (e : Entry) → find i es ≡ some e → All P es → P e
  All-find i [] e h a = absurd (ground arith)
  All-find i (x ∷ es) e h a = elim (Bool-cases (x.id == i)) [
    | inl hit ↦ subst P (ground arith) a.0
    | inr miss ↦ All-find i es e (ground arith) a.1
  ]

  pub All-discard : (i : ℕ) (es : List Entry) → All P es → All P (discard i es)
  All-discard i [] a = tt
  All-discard i (x ∷ es) a = ground (arith, All-discard i es a.1)

  pub All-set_phase :
      (i : ℕ) (ph : Phase) (es : List Entry) (e : Entry)
      → find i es ≡ some e
      → (P e → P (record e { phase = ph }))
      → All P es
      → All P (set_phase i ph es)
  All-set_phase i ph [] e h f a = tt
  All-set_phase i ph (x ∷ es) e h f a = ground (arith, All-set_phase i ph es e)

  pub All-cancel :
      (st : ScopeState) (es : List Entry)
      → ((e : Entry) (b : Bool) → P e → P (record e { cancelled = b }))
      → All P es
      → All P (cancel_preemptible st es)
  unfolding cancel_preemptible
  All-cancel st [] f a = tt
  All-cancel st (x ∷ es) f a = (f x _ a.0, All-cancel st es f a.1)

-- No entry has this id; no two entries have one id.
abbrev pub Absent : ℕ → List Entry → Type 0
Absent i = All (λ e. e.id ≢ i)

abbrev pub Distinct : List Entry → Type 0
Distinct [] = Unit
Distinct (e ∷ es) = Absent e.id es × Distinct es

pub Distinct-discard : (i : ℕ) (es : List Entry) → Distinct es → Distinct (discard i es)
Distinct-discard i [] d = tt
Distinct-discard i (x ∷ es) d =
    ground (arith, Distinct-discard i es d.1, All-discard (λ (e : Entry). e.id ≢ x.id) i es d.0)

pub Absent-set_phase :
    (j i : ℕ) (ph : Phase) (es : List Entry) → Absent j es → Absent j (set_phase i ph es)
Absent-set_phase j i ph [] a = tt
Absent-set_phase j i ph (x ∷ es) a = ground (arith, Absent-set_phase j i ph es a.1)

pub Distinct-set_phase :
    (i : ℕ) (ph : Phase) (es : List Entry) → Distinct es → Distinct (set_phase i ph es)
Distinct-set_phase i ph [] d = tt
Distinct-set_phase i ph (x ∷ es) d =
    ground (arith, Distinct-set_phase i ph es d.1, Absent-set_phase x.id i ph es d.0)

pub Distinct-cancel :
    (st : ScopeState) (es : List Entry) → Distinct es → Distinct (cancel_preemptible st es)
unfolding cancel_preemptible
Distinct-cancel st [] d = tt
Distinct-cancel st (x ∷ es) d =
    (All-cancel (λ e. e.id ≢ x.id) st es (λ e b h. h) d.0, Distinct-cancel st es d.1)

pub Distinct-append :
    (es : List Entry) (e : Entry)
    → All (λ x. x.id < e.id) es
    → Distinct es
    → Distinct (es ++ e ∷ [])
Distinct-append [] e b d = (tt, tt)
Distinct-append (x ∷ es) e b d = (
  All-append (λ y. y.id ≢ x.id) es (e ∷ []) d.0 (λ h. absurd (omega arith), tt),
  Distinct-append es e b.1 d.1,
)

pub Absent-discard : (i : ℕ) (es : List Entry) → Distinct es → Absent i (discard i es)
Absent-discard i [] d = tt
Absent-discard i (x ∷ es) d = elim (Bool-cases (x.id == i)) [
  | inl hit ↦ rw hit (subst (λ k. Absent k es) (ground arith) d.0)
  | inr miss ↦ rw miss (ground arith, Absent-discard i es d.1)
]

-- The queued preempting entries of a scope, in the order of their arrival.
abbrev pub queued_ids : String → List Entry → List ℕ
queued_ids s [] = []
queued_ids s (e ∷ es) =
    if str_eq e.scope s && (e.preempt && pending e.phase)
    then e.id ∷ queued_ids s es
    else queued_ids s es

abbrev pub without : ℕ → List ℕ → List ℕ
without i = keep (λ q. not (q == i))

pub queued_ids-append :
    (s : String) (xs ys : List Entry) → queued_ids s (xs ++ ys) ≡ queued_ids s xs ++ queued_ids s ys
queued_ids-append s [] ys = refl
queued_ids-append s (x ∷ xs) ys = ground (arith, queued_ids-append s xs ys)

pub queued_ids-cancel :
    (s : String) (st : ScopeState) (es : List Entry)
    → queued_ids s (cancel_preemptible st es) ≡ queued_ids s es
unfolding cancel_preemptible
queued_ids-cancel s st [] = refl
queued_ids-cancel s st (x ∷ es) = ground (arith, queued_ids-cancel s st es)

pub queued_ids-set_phase :
    (s : String) (i : ℕ) (ph : Phase) (es : List Entry) (e : Entry)
    → find i es ≡ some e
    → pending ph ≡ pending e.phase
    → queued_ids s (set_phase i ph es) ≡ queued_ids s es
queued_ids-set_phase s i ph [] e h k = refl
queued_ids-set_phase s i ph (x ∷ es) e h k = ground (arith, queued_ids-set_phase s i ph es e)

queued_ids-without :
    (s : String) (i : ℕ) (es : List Entry)
    → Absent i es
    → without i (queued_ids s es) ≡ queued_ids s es
queued_ids-without s i [] a = refl
queued_ids-without s i (x ∷ es) a = ground (arith, queued_ids-without s i es a.1)

pub queued_ids-set_phase_started :
    (s : String) (i : ℕ) (ph : Phase) (es : List Entry)
    → Distinct es
    → pending ph ≡ false
    → queued_ids s (set_phase i ph es) ≡ without i (queued_ids s es)
queued_ids-set_phase_started s i ph [] d k = refl
queued_ids-set_phase_started s i ph (x ∷ es) d k = elim (Bool-cases (x.id == i)) [
  | inl hit ↦
      rw (hit, k)
        (ground (arith, queued_ids-without s i es (subst (λ k. Absent k es) (ground arith) d.0)))
  | inr miss ↦ rw miss (ground (arith, queued_ids-set_phase_started s i ph es d.1))
]

pub queued_ids-discard :
    (s : String) (i : ℕ) (es : List Entry)
    → Distinct es
    → queued_ids s (discard i es) ≡ without i (queued_ids s es)
queued_ids-discard s i [] d = refl
queued_ids-discard s i (x ∷ es) d =
    ground (arith, queued_ids-discard s i es d.1, queued_ids-without s x.id es d.0)

-- An entry of another scope does not matter to a queue.
pub queued_ids-set_phase_other :
    (s : String) (i : ℕ) (ph : Phase) (es : List Entry) (e : Entry)
    → find i es ≡ some e
    → str_eq e.scope s ≡ false
    → queued_ids s (set_phase i ph es) ≡ queued_ids s es
queued_ids-set_phase_other s i ph [] e h k = refl
queued_ids-set_phase_other s i ph (x ∷ es) e h k =
    ground (arith, queued_ids-set_phase_other s i ph es e)

pub queued_ids-discard_other :
    (s : String) (i : ℕ) (es : List Entry) (e : Entry)
    → find i es ≡ some e
    → str_eq e.scope s ≡ false
    → queued_ids s (discard i es) ≡ queued_ids s es
queued_ids-discard_other s i [] e h k = refl
queued_ids-discard_other s i (x ∷ es) e h k = ground (arith, queued_ids-discard_other s i es e)
