-- ===== src/Gate/Steps.antt =====
-- The interleavings of the calls to a `ScopeGate`. The premises of `take_lock` and `start` are what
-- tokio documents of `Mutex` (one guard at a time for a lock) and `Semaphore` (a permit is handed
-- out only if one is free); which waiter is served is left open.
use boba_claw.Prelude.{ℕ, ◌+◌, ◌<◌, ◌≡◌, ◌⊎◌, String, Bool, true, false, some, All}
use boba_claw.Gate.{
  Gate, Entry, Phase, queued, locked, abandoned, turn, unpermitted, unlocked, new, u64_mod, find,
}
use boba_claw.Gate

abbrev pub holds_lock : Phase → Bool
holds_lock locked = true
holds_lock turn = true
holds_lock unpermitted = true
holds_lock _ = false

abbrev pub holds_permit : Phase → Bool
holds_permit turn = true
holds_permit _ = false

-- Registered, and `enter` has not returned.
abbrev pub pending : Phase → Bool
pending queued = true
pending locked = true
pending abandoned = true
pending _ = false

pub data Step (g : Gate) : Gate → Type 0 where
  arrive :
      (scope : String) (preempt : Bool)
      → g.next_id + 1 < u64_mod
      → Step g (Gate.arrive g scope preempt)
  take_lock :
      (e : Entry)
      → find e.id g.entries ≡ some e
      → e.phase ≡ queued
      → All (λ x. x.lock ≡ e.lock → holds_lock x.phase ≡ false) g.entries
      → Step g (Gate.take_lock g e.id)
  start :
      (e : Entry)
      → find e.id g.entries ≡ some e
      → e.phase ≡ locked
      → 0 < g.permits
      → Step g (Gate.start g e)
  release_permit :
      (e : Entry)
      → find e.id g.entries ≡ some e
      → e.phase ≡ turn
      → Step g (Gate.release_permit g e.id)
  release_lock :
      (e : Entry)
      → find e.id g.entries ≡ some e
      → e.phase ≡ unpermitted
      → Step g (Gate.release_lock g e.id)
  abandon :
      (e : Entry) → find e.id g.entries ≡ some e → e.phase ≡ locked → Step g (Gate.abandon g e.id)
  unregister :
      (e : Entry)
      → find e.id g.entries ≡ some e
      → (e.phase ≡ queued) ⊎ (e.phase ≡ abandoned) ⊎ (e.phase ≡ unlocked)
      → Step g (Gate.unregister g e)
  interrupt : (scope : String) → Step g (Gate.interrupt g scope).0

-- The states that a gate for `max_parallel` turns can come to.
pub data Reach (max_parallel : ℕ) : Gate → Type 0 where
  fresh : Reach max_parallel (new max_parallel)
  next : {g h : Gate} → Reach max_parallel g → Step g h → Reach max_parallel h
