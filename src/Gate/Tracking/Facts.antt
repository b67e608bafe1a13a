-- ===== src/Gate/Tracking/Facts.antt =====
-- What the bookkeeping means for the callers of a gate.
use boba_claw.Prelude.{
  ℕ, ◌+◌, ◌≤◌, ◌≡◌, ◌↔◌, refl, String, not, max, Option, none, some, List, count, ◌==◌, arith,
}
use boba_claw.Gate.{Gate, Entry, ScopeState}
use boba_claw.Gate
use boba_claw.Gate.Steps.{Reach}
use boba_claw.Gate.Tracking.{in_scope, holder, in_turn, Agrees}
use boba_claw.Gate.Tracking.Reached.{Reach-Inv}

-- In every reachable state, of the entries of one scope at most one has the scope's lock, so at most
-- one runs: all of them were given the same lock.
pub one_turn :
    {n : ℕ} {g : Gate} → Reach n g → (scope : String) → count (holder scope) g.entries ≤ 1
one_turn r scope = (Reach-Inv r).exclusive scope

-- In every reachable state the free permits and the running turns add up to the limit given (at
-- least 1): no permit is lost or made up, and queued entries hold none.
pub permits_add_up : {n : ℕ} {g : Gate} → Reach n g → g.permits + count in_turn g.entries ≡ max n 1
permits_add_up r = (Reach-Inv r).permitted

tracked :
    (scope : String) (es : List Entry) (o : Option ScopeState)
    → Agrees scope o es
    → (o ≡ none) ↔ (count (in_scope scope) es ≡ 0)
tracked scope es none t = (λ e. t, λ e. refl)
tracked scope es (some st) t = (λ e. cc, λ e. absurd (omega (arith, t.0.users, t.1)))

-- In every reachable state the map has an entry for a scope exactly if a call references the scope:
-- nothing is left behind, also by waiters that were abandoned.
pub no_leak :
    {n : ℕ} {g : Gate}
    → Reach n g
    → (scope : String) → (g.scopes scope ≡ none) ↔ (count (in_scope scope) g.entries ≡ 0)
no_leak {g = g} r scope = tracked scope g.entries (g.scopes scope) ((Reach-Inv r).agrees scope)

busy :
    (scope : String) (es : List Entry) (o : Option ScopeState)
    → Agrees scope o es
    → Gate.has_users o ≡ not (count (in_scope scope) es == 0)
busy scope es none t = ground arith
busy scope es (some st) t = ground (arith, t.0.users, t.1)

-- In every reachable state `is_busy` answers whether some call of the scope waits, runs or is being
-- dropped.
pub is_busy_exact :
    {n : ℕ} {g : Gate}
    → Reach n g
    → (scope : String) → Gate.is_busy g scope ≡ not (count (in_scope scope) g.entries == 0)
unfolding Gate.is_busy
is_busy_exact {g = g} r scope = busy scope g.entries (g.scopes scope) ((Reach-Inv r).agrees scope)
