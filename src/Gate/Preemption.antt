-- ===== src/Gate/Preemption.antt =====
-- Which tokens `ScopeGate` cancels: the predicates.
pub mod Exact
pub mod Reached
pub mod Newest
use boba_claw.Prelude.{◌≡◌, ◌≢◌, Bool, true, false, ◌&&◌, ◌||◌, List, [], ◌∷◌, any, String, str_eq}
use boba_claw.Gate.{Entry, unlocked}
use boba_claw.Gate.Steps.{pending}
use boba_claw.Gate.Tracking.{in_scope, started}

-- A background entry that waits has its token uncancelled.
abbrev pub IsQuiet : Entry → Type 0
IsQuiet e = e.preempt ≡ false → pending e.phase ≡ true → e.cancelled ≡ false

-- Whether a preempting arrival in scope `s` has to cancel this entry's token.
abbrev pub must_yield : String → Entry → Bool
must_yield s e = in_scope s e && (started e.phase || (e.preempt && pending e.phase))

abbrev pub preempts_in : String → Entry → Bool
preempts_in s e = in_scope s e && e.preempt

-- Of the preempting entries of a scope that still wait or run, all but the last to arrive have a
-- cancelled token.
abbrev pub NewestWins : List Entry → Type 0
NewestWins [] = Unit
NewestWins (e ∷ es) =
    (e.preempt ≡ true
      → e.phase ≢ unlocked
      → any (preempts_in e.scope) es ≡ true
      → e.cancelled ≡ true)
    × NewestWins es
