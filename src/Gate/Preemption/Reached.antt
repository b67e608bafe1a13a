-- ===== src/Gate/Preemption/Reached.antt =====
-- What the cancellations mean for the turns, in every state that a gate can come to.
use boba_claw.Prelude.{
  inl, inr, Bool-cases, ◌==◌, ℕ, ◌≡◌, refl, ◌≢◌, subst, String, Bool, true, false, ◌&&◌, ◌||◌,
  Option, none, some, List, [], ◌∷◌, ◌++◌, All, All-append, arith,
}
use boba_claw.Gate.{
  Gate, Entry, Phase, ScopeState, queued, unlocked, find, set_phase, discard, cancel_preemptible,
  preemptible, or_default, cancel_if,
}
use boba_claw.Gate
use boba_claw.Gate.Entries.{All-discard, All-set_phase, All-find}
use boba_claw.Gate.Steps.{
  Step, arrive, take_lock, start, release_permit, release_lock, abandon, unregister, interrupt,
  Reach, fresh, next, pending,
}
use boba_claw.Gate.Tracking.{Inv}
use boba_claw.Gate.Tracking.Reached.{Reach-Inv}
use boba_claw.Gate.Preemption.{IsQuiet, must_yield}
use boba_claw.Gate.Preemption.Exact.{All_of_find, default_exact, find-cancel}

find-append :
    (i : ℕ) (xs ys : List Entry) (e : Entry) → find i xs ≡ some e → find i (xs ++ ys) ≡ some e
find-append i [] ys e f = cc
find-append i (x ∷ xs) ys e f = ground (arith, find-append i xs ys e)

find-cancel_if :
    (p : Bool) (st : ScopeState) (es : List Entry) (e : Entry)
    → find e.id es ≡ some e
    → find e.id (cancel_if p st es)
      ≡ some (record e { cancelled = e.cancelled || (p && preemptible st e.id) })
find-cancel_if true st es e f = find-cancel e.id st es e f
find-cancel_if false st es e f = ground arith

-- In a reachable state, an arrival leaves every live entry as it was but for its token. A background
-- arrival cancels none; a preempting one cancels those of its scope's turn and of the preempting
-- entries that wait there. (A turn that has given its lock back is left out: it may be cancelled.)
pub arrive_cancels :
    {n : ℕ} {g : Gate}
    → Reach n g
    → (scope : String) (preempt : Bool) (e : Entry) → find e.id g.entries ≡ some e
    → e.phase ≢ unlocked
    → find e.id (Gate.arrive g scope preempt).entries
      ≡ some (record e { cancelled = e.cancelled || (preempt && must_yield scope e) })
unfolding Gate.arrive
arrive_cancels {g = g} r scope preempt e found live =
    let v = Reach-Inv r in
    let st = or_default (g.scopes scope) g.next_id in
    find-append e.id (cancel_if preempt st g.entries) _ _ (
      rw
        (← default_exact scope (g.scopes scope) g.next_id g.entries e (v.agrees scope) v.distinct
          found live)
        (find-cancel_if preempt st g.entries e found))

pub flagged :
    (P : Entry → Type 0) (st : ScopeState) (es : List Entry)
    → All (λ e. P (record e { cancelled = e.cancelled || preemptible st e.id })) es
    → All P (cancel_preemptible st es)
unfolding cancel_preemptible
flagged P st [] a = tt
flagged P st (x ∷ es) a = (a.0, flagged P st es a.1)

cancel-IsQuiet :
    {n : ℕ} {g : Gate}
    → Inv n g
    → (scope : String) → All IsQuiet g.entries
    → All IsQuiet (cancel_preemptible (or_default (g.scopes scope) g.next_id) g.entries)
cancel-IsQuiet {g = g} v scope q = flagged IsQuiet _ g.entries (
    All_of_find _ g.entries v.distinct λ e found background waits. ground (
      arith,
      default_exact scope (g.scopes scope) g.next_id g.entries e (v.agrees scope) v.distinct found
          (waiting_live e waits),
      All-find IsQuiet e.id g.entries e found q,
    ))
  where
    waiting_live : (e : Entry) → pending e.phase ≡ true → e.phase ≢ unlocked
    waiting_live e w = ground arith

cancel_if-IsQuiet :
    {n : ℕ} {g : Gate} (p : Bool)
    → Inv n g
    → (scope : String) → All IsQuiet g.entries
    → All IsQuiet (cancel_if p (or_default (g.scopes scope) g.next_id) g.entries)
cancel_if-IsQuiet true v scope q = cancel-IsQuiet v scope q
cancel_if-IsQuiet false v scope q = q

interrupted-IsQuiet :
    {n : ℕ} {g : Gate}
    → Inv n g
    → (scope : String) (o : Option ScopeState) → g.scopes scope ≡ o
    → All IsQuiet g.entries
    → All IsQuiet (Gate.interrupt_state g o).0.entries
interrupted-IsQuiet v scope none e q = q
interrupted-IsQuiet {g = g} v scope (some st) e q =
    subst (λ o. All IsQuiet (cancel_preemptible (or_default o g.next_id) g.entries)) e
      (cancel-IsQuiet v scope q)

-- Every step keeps the waiting background entries uncancelled.
Step-IsQuiet :
    {n : ℕ} {g h : Gate} → Step g h → Inv n g → All IsQuiet g.entries → All IsQuiet h.entries
unfolding Gate.arrive Gate.take_lock Gate.start Gate.release_permit Gate.release_lock Gate.abandon
    Gate.unregister Gate.interrupt
Step-IsQuiet {g = g} (arrive scope preempt small) v q =
    All-append IsQuiet (cancel_if preempt (or_default (g.scopes scope) g.next_id) g.entries) _
      (cancel_if-IsQuiet preempt v scope q) (λ b w. refl, tt)
Step-IsQuiet {g = g} (take_lock e f k free) v q =
    All-set_phase IsQuiet e.id Gate.locked g.entries e f (ground arith) q
Step-IsQuiet {g = g} (start e f k free) v q =
    All-set_phase IsQuiet e.id Gate.turn g.entries e f (λ h b w. cc) q
Step-IsQuiet {g = g} (release_permit e f k) v q =
    All-set_phase IsQuiet e.id Gate.unpermitted g.entries e f (λ h b w. cc) q
Step-IsQuiet {g = g} (release_lock e f k) v q =
    All-set_phase IsQuiet e.id Gate.unlocked g.entries e f (λ h b w. cc) q
Step-IsQuiet {g = g} (abandon e f k) v q =
    All-set_phase IsQuiet e.id Gate.abandoned g.entries e f (ground arith) q
Step-IsQuiet {g = g} (unregister e f k) v q = All-discard IsQuiet e.id g.entries q
Step-IsQuiet {g = g} (interrupt scope) v q = interrupted-IsQuiet v scope (g.scopes scope) refl q

pub Reach-IsQuiet : {n : ℕ} {g : Gate} → Reach n g → All IsQuiet g.entries
unfolding Gate.new
Reach-IsQuiet fresh = tt
Reach-IsQuiet (next r s) = Step-IsQuiet s (Reach-Inv r) (Reach-IsQuiet r)

IsQuiet-found :
    (i : ℕ) (es : List Entry) (e : Entry) → All IsQuiet es → Gate.find i es ≡ some e → IsQuiet e
IsQuiet-found i [] e q h = absurd (ground arith)
IsQuiet-found i (x ∷ es) e q h = elim (Bool-cases (x.id == i)) [
  | inl own ↦ let same : x ≡ e = ground (arith, own) in subst IsQuiet same q.0
  | inr other ↦ IsQuiet-found i es e q.1 (ground (arith, other))
]

-- In every reachable state, whatever arrived, was interrupted or left before, a background entry
-- that still waits for its turn has a token that nobody cancelled.
pub background_is_quiet :
    {n : ℕ} {g : Gate} (i : ℕ) (e : Entry)
    → Reach n g
    → Gate.find i g.entries ≡ some e
    → e.preempt ≡ false
    → pending e.phase ≡ true
    → e.cancelled ≡ false
background_is_quiet {g = g} i e r h p w = IsQuiet-found i g.entries e (Reach-IsQuiet r) h p w
