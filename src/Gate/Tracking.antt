-- ===== src/Gate/Tracking.antt =====
-- The bookkeeping of `ScopeGate` agrees with the live entries after every interleaving: what a
-- scope's state says, entry by entry.
pub mod Changes
pub mod Removal
pub mod Arrival
pub mod Kept
pub mod Reached
pub mod Facts
use boba_claw.Prelude.{
  ℕ, ◌+◌, ◌≤◌, ◌<◌, ◌≡◌, String, str_eq, Bool, true, false, ◌&&◌, Option, none, some, List, count,
  All, ◌==◌,
}
use boba_claw.Gate.{Entry, ScopeState, Gate, Phase, turn, unpermitted}
use boba_claw.Gate.Entries.{Distinct, queued_ids}
use boba_claw.Gate.Steps.{holds_lock, holds_permit, pending}

abbrev pub in_scope : String → Entry → Bool
in_scope s e = str_eq e.scope s

abbrev pub holder : String → Entry → Bool
holder s e = in_scope s e && holds_lock e.phase

abbrev pub in_turn : Entry → Bool
in_turn e = holds_permit e.phase

-- The guard exists and still has the lock.
abbrev pub started : Phase → Bool
started turn = true
started unpermitted = true
started _ = false

abbrev pub LockIs : String → ℕ → Entry → Type 0
LockIs s l e = in_scope s e ≡ true → e.lock ≡ l

-- The scope's `running` is the entry that has the lock and has started.
abbrev pub RunningIs : String → Option ℕ → Entry → Type 0
RunningIs s r e = in_scope s e ≡ true → started e.phase ≡ true → r ≡ some e.id

-- What `running` names has started, and belongs to the scope.
abbrev pub HasStarted : String → Option ℕ → Entry → Type 0
HasStarted s r e = r ≡ some e.id → (pending e.phase ≡ false) × (in_scope s e ≡ true)

abbrev pub has_id : ℕ → Entry → Bool
has_id i e = e.id == i

pub record Tracks (s : String) (st : ScopeState) (es : List Entry) : Type 0 where
  pub users : st.users ≡ count (in_scope s) es
  pub locks : All (LockIs s st.lock) es
  pub queue : st.queued_preemptible ≡ queued_ids s es
  pub running : All (RunningIs s st.running) es
  pub present : (i : ℕ) → st.running ≡ some i → 0 < count (has_id i) es
  pub has_started : All (HasStarted s st.running) es

abbrev pub Agrees : String → Option ScopeState → List Entry → Type 0
Agrees s none es = count (in_scope s) es ≡ 0
Agrees s (some st) es = Tracks s st es × (0 < st.users)

pub record Inv (permits : ℕ) (g : Gate) : Type 0 where
  pub below : All (λ e. e.id < g.next_id) g.entries
  pub distinct : Distinct g.entries
  pub agrees : (s : String) → Agrees s (g.scopes s) g.entries
  pub exclusive : (s : String) → count (holder s) g.entries ≤ 1
  pub permitted : g.permits + count in_turn g.entries ≡ permits
