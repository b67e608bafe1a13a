-- ===== src/Gate/Tracking/Reached.antt =====
-- The invariant of `ScopeGate` holds in every state that it can come to.
use boba_claw.Prelude.{
  ℕ, ◌+◌, ◌<◌, ◌≡◌, refl, String, eq_refl, Bool, true, false, max, some, List, [], ◌∷◌, ◌++◌, count,
  count-append, All, All-append, All-map, arith, mod-eq_of_lt,
}
use boba_claw.Gate.{Gate, Entry, ScopeState, find, update, u64_mod, or_default, register, cancel_if}
use boba_claw.Gate
use boba_claw.Gate.Entries.{Distinct-append}
use boba_claw.Gate.Steps.{
  Step, arrive, take_lock, start, release_permit, release_lock, abandon, unregister, interrupt,
  Reach, fresh, next,
}
use boba_claw.Gate.Tracking.{holder, in_turn, has_id, Inv, Agrees}
use boba_claw.Gate.Tracking.Changes.{update_cases}
use boba_claw.Gate.Tracking.Arrival.{Agrees-append, Agrees-append_other}
use boba_claw.Gate.Tracking.Kept.{
  new-Inv, take_lock-Inv, start-Inv, release_permit-Inv, release_lock-Inv, abandon-Inv,
  unregister-Inv, cancel-Inv, interrupt-Inv,
}

absent : (i : ℕ) (es : List Entry) → All (λ e. e.id < i) es → count (has_id i) es ≡ 0
absent i [] a = refl
absent i (x ∷ es) a = ground (arith, absent i es a.1)

module _ {n : ℕ} (g : Gate) (v : Inv n g) where
  append-Inv :
      (e : Entry)
      → e.id ≡ g.next_id
      → e.phase ≡ Gate.queued
      → e.lock ≡ (or_default (g.scopes e.scope) e.id).lock
      → Inv n (record g {
        scopes =
            update g.scopes e.scope
              (some (register (or_default (g.scopes e.scope) e.id) e.id e.preempt));
        next_id = e.id + 1;
        entries = g.entries ++ e ∷ [];
      })
  append-Inv e new waits lock = record {
    below =
        All-append (λ x. x.id < e.id + 1) g.entries (e ∷ [])
          (All-map (λ x. x.id < g.next_id) (λ x. x.id < e.id + 1) g.entries (λ x h. omega arith)
            v.below)
          (omega arith);
    distinct =
        Distinct-append g.entries e
          (All-map (λ x. x.id < g.next_id) (λ x. x.id < e.id) g.entries (λ x h. omega arith)
            v.below)
          v.distinct;
    agrees =
        update_cases (λ s o. Agrees s o (g.entries ++ e ∷ [])) g.scopes e.scope _
          (Agrees-append e.scope e.id (g.scopes e.scope) g.entries e (eq_refl e.scope) unused waits
            lock (v.agrees e.scope))
          λ s other. Agrees-append_other s (g.scopes s) g.entries e other unused (v.agrees s);
    exclusive = λ s. ground (arith, v.exclusive s, count-append (holder s) g.entries (e ∷ []));
    permitted = ground (arith, v.permitted, count-append in_turn g.entries (e ∷ []));
  }
    where
      unused : count (has_id e.id) g.entries ≡ 0
      unused = absent e.id g.entries (
          All-map (λ x. x.id < g.next_id) (λ x. x.id < e.id) g.entries (λ x h. omega arith) v.below)

cancel_if-Inv :
    {n : ℕ} (g : Gate) (preempt : Bool) (st : ScopeState)
    → Inv n g
    → Inv n (record g { entries = cancel_if preempt st g.entries })
cancel_if-Inv g true st v = cancel-Inv g v st
cancel_if-Inv g false st v = v

arrive-Inv :
    {n : ℕ} (g : Gate) (scope : String) (preempt : Bool)
    → Inv n g
    → g.next_id + 1 < u64_mod
    → Inv n (Gate.arrive g scope preempt)
unfolding Gate.arrive
arrive-Inv g scope preempt v small = rw (mod-eq_of_lt small) (
    append-Inv _ (cancel_if-Inv g preempt _ v)
      (record {
        id = g.next_id;
        scope = scope;
        preempt = preempt;
        lock = (or_default (g.scopes scope) g.next_id).lock;
        phase = Gate.queued;
        cancelled = false;
      })
      refl refl refl)

-- Every step keeps the invariant.
pub Step-Inv : {n : ℕ} {g h : Gate} → Step g h → Inv n g → Inv n h
Step-Inv {g = g} (arrive scope preempt small) v = arrive-Inv g scope preempt v small
Step-Inv {g = g} (take_lock e found q free) v = take_lock-Inv g v e found q free
Step-Inv {g = g} (start e found q free) v = start-Inv g v e found q free
Step-Inv {g = g} (release_permit e found q) v = release_permit-Inv g v e found q
Step-Inv {g = g} (release_lock e found q) v = release_lock-Inv g v e found q
Step-Inv {g = g} (abandon e found q) v = abandon-Inv g v e found q
Step-Inv {g = g} (unregister e found q) v = unregister-Inv g v e found (ground arith)
Step-Inv {g = g} (interrupt scope) v = interrupt-Inv g v scope

pub Reach-Inv : {n : ℕ} {g : Gate} → Reach n g → Inv (max n 1) g
Reach-Inv {n} fresh = new-Inv n
Reach-Inv (next r s) = Step-Inv s (Reach-Inv r)
