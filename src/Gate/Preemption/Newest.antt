-- ===== src/Gate/Preemption/Newest.antt =====
-- The newest user message wins.
use boba_claw.Prelude.{
  subst, ℕ, ◌≡◌, refl, ◌≢◌, String, str_eq, eq_iff, eq_refl, Bool, true, false, ◌&&◌, ◌||◌, Option,
  none, some, List, [], ◌∷◌, ◌++◌, any, All, arith,
}
use boba_claw.Gate.{
  Gate, Entry, Phase, ScopeState, queued, unlocked, find, set_phase, discard, cancel_preemptible,
  preemptible, or_default, cancel_if,
}
use boba_claw.Gate
use boba_claw.Gate.Steps.{
  Step, arrive, take_lock, start, release_permit, release_lock, abandon, unregister, interrupt,
  Reach, fresh, next,
}
use boba_claw.Gate.Tracking.{Inv}
use boba_claw.Gate.Tracking.Reached.{Reach-Inv}
use boba_claw.Gate.Preemption.{preempts_in, NewestWins}
use boba_claw.Gate.Preemption.Exact.{All_of_find, default_exact}
use boba_claw.Gate.Preemption.Reached.{flagged}

any-set_phase :
    (s : String) (i : ℕ) (ph : Phase) (es : List Entry)
    → any (preempts_in s) (set_phase i ph es) ≡ any (preempts_in s) es
any-set_phase s i ph [] = refl
any-set_phase s i ph (x ∷ es) = ground (arith, any-set_phase s i ph es)

any-cancel :
    (s : String) (st : ScopeState) (es : List Entry)
    → any (preempts_in s) (cancel_preemptible st es) ≡ any (preempts_in s) es
unfolding cancel_preemptible
any-cancel s st [] = refl
any-cancel s st (x ∷ es) = ground (arith, any-cancel s st es)

any-discard :
    (s : String) (i : ℕ) (es : List Entry)
    → any (preempts_in s) (discard i es) ≡ true
    → any (preempts_in s) es ≡ true
any-discard s i [] h = h
any-discard s i (x ∷ es) h = ground (arith, any-discard s i es)

any-append :
    (s : String) (es : List Entry) (e : Entry)
    → any (preempts_in s) (es ++ e ∷ []) ≡ (any (preempts_in s) es || preempts_in s e)
any-append s [] e = ground arith
any-append s (x ∷ es) e = ground (arith, any-append s es e)

NewestWins-set_phase :
    (i : ℕ) (ph : Phase) (es : List Entry) (e : Entry)
    → find i es ≡ some e
    → e.phase ≢ unlocked
    → NewestWins es
    → NewestWins (set_phase i ph es)
NewestWins-set_phase i ph [] e f k w = tt
NewestWins-set_phase i ph (x ∷ es) e f k w =
    ground (arith, any-set_phase x.scope i ph es, NewestWins-set_phase i ph es e)

NewestWins-discard : (i : ℕ) (es : List Entry) → NewestWins es → NewestWins (discard i es)
NewestWins-discard i [] w = tt
NewestWins-discard i (x ∷ es) w =
    ground (arith, any-discard x.scope i es, NewestWins-discard i es w.1)

NewestWins-cancel :
    (st : ScopeState) (es : List Entry) → NewestWins es → NewestWins (cancel_preemptible st es)
unfolding cancel_preemptible
NewestWins-cancel st [] w = tt
NewestWins-cancel st (x ∷ es) w =
    (ground (arith, any-cancel x.scope st es), NewestWins-cancel st es w.1)

-- Before a preempting entry arrives, the tokens of its scope have been cancelled.
abbrev Yields : String → Bool → Entry → Type 0
Yields s p x =
    (str_eq s x.scope && p) ≡ true → x.preempt ≡ true → x.phase ≢ unlocked → x.cancelled ≡ true

NewestWins-append :
    (es : List Entry) (e : Entry)
    → All (Yields e.scope e.preempt) es
    → NewestWins es
    → NewestWins (es ++ e ∷ [])
NewestWins-append [] e a w = (λ p l h. cc, tt)
NewestWins-append (x ∷ es) e a w =
    (ground (arith, any-append x.scope es e), NewestWins-append es e a.1 w.1)

yields :
    {n : ℕ} {g : Gate}
    → Inv n g
    → (s : String) (p : Bool)
    → All (Yields s p) (cancel_if p (or_default (g.scopes s) g.next_id) g.entries)
yields {g = g} v s true = flagged (Yields s true) _ g.entries (
    All_of_find _ g.entries v.distinct λ x found same preempts live. ground (
      arith,
      default_exact s (g.scopes s) g.next_id g.entries x (v.agrees s) v.distinct found live,
      eq_iff s x.scope,
      eq_refl x.scope,
    ))
yields {g = g} v s false = All_of_find _ g.entries v.distinct λ x found same. ground arith

cancel_if-NewestWins :
    (p : Bool) (st : ScopeState) (es : List Entry) → NewestWins es → NewestWins (cancel_if p st es)
cancel_if-NewestWins true st es w = NewestWins-cancel st es w
cancel_if-NewestWins false st es w = w

interrupted-NewestWins :
    (g : Gate) (o : Option ScopeState)
    → NewestWins g.entries
    → NewestWins (Gate.interrupt_state g o).0.entries
interrupted-NewestWins g none w = w
interrupted-NewestWins g (some st) w = NewestWins-cancel st g.entries w

Step-NewestWins :
    {n : ℕ} {g h : Gate} → Step g h → Inv n g → NewestWins g.entries → NewestWins h.entries
unfolding Gate.arrive Gate.take_lock Gate.start Gate.release_permit Gate.release_lock Gate.abandon
    Gate.unregister Gate.interrupt
Step-NewestWins {g = g} (arrive scope preempt small) v w =
    let st = or_default (g.scopes scope) g.next_id in
    NewestWins-append (cancel_if preempt st g.entries) _ (yields v scope preempt)
      (cancel_if-NewestWins preempt st g.entries w)
Step-NewestWins {g = g} (take_lock e f k free) v w =
    NewestWins-set_phase e.id Gate.locked g.entries e f (ground arith) w
Step-NewestWins {g = g} (start e f k free) v w =
    NewestWins-set_phase e.id Gate.turn g.entries e f (ground arith) w
Step-NewestWins {g = g} (release_permit e f k) v w =
    NewestWins-set_phase e.id Gate.unpermitted g.entries e f (ground arith) w
Step-NewestWins {g = g} (release_lock e f k) v w =
    NewestWins-set_phase e.id Gate.unlocked g.entries e f (ground arith) w
Step-NewestWins {g = g} (abandon e f k) v w =
    NewestWins-set_phase e.id Gate.abandoned g.entries e f (ground arith) w
Step-NewestWins {g = g} (unregister e f k) v w = NewestWins-discard e.id g.entries w
Step-NewestWins {g = g} (interrupt scope) v w = interrupted-NewestWins g (g.scopes scope) w

pub Reach-NewestWins : {n : ℕ} {g : Gate} → Reach n g → NewestWins g.entries
unfolding Gate.new
Reach-NewestWins fresh = tt
Reach-NewestWins (next r s) = Step-NewestWins s (Reach-Inv r) (Reach-NewestWins r)

newest-at :
    (before after : List Entry) (e : Entry)
    → NewestWins (before ++ e ∷ after)
    → NewestWins (e ∷ after)
newest-at [] after e w = w
newest-at (x ∷ before) after e w = newest-at before after e w.1

-- In every reachable state a preempting entry that has not given up the lock has a cancelled token if a
-- preempting entry of its scope came after it: of the user's messages in a scope only the newest is
-- still wanted.
pub newest_wins :
    {n : ℕ} {g : Gate} (before after : List Entry) (e : Entry)
    → Reach n g
    → g.entries ≡ before ++ e ∷ after
    → e.preempt ≡ true
    → e.phase ≢ unlocked
    → any (preempts_in e.scope) after ≡ true
    → e.cancelled ≡ true
newest_wins before after e r split p u later =
    (newest-at before after e (subst NewestWins split (Reach-NewestWins r))).0 p u later
