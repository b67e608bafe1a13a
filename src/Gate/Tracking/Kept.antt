-- ===== src/Gate/Tracking/Kept.antt =====
-- Each operation of `ScopeGate` keeps the invariant.
use boba_claw.Prelude.{
  ℕ, ◌+◌, ◌≤◌, ◌<◌, ◌≡◌, refl, sym, subst, inl, inr, String, eq_refl, true, false, max, Option,
  none, some, List, [], ◌∷◌, Bool-cases, count, All, arith,
}
use boba_claw.Gate.{
  Gate, Entry, ScopeState, Phase, find, set_phase, discard, cancel_preemptible, or_default, update,
  u64_mod,
}
use boba_claw.Gate
use boba_claw.Gate.Entries.{
  count-set_phase, count-discard, count-cancel, All-find, All-discard, All-set_phase, All-cancel,
  Distinct-set_phase, Distinct-discard, Distinct-cancel,
}
use boba_claw.Gate.Steps.{holds_lock, holds_permit, pending}
use boba_claw.Gate.Tracking.{in_scope, holder, in_turn, started, Inv, Agrees, LockIs}
use boba_claw.Gate.Tracking.Changes.{
  update_cases, Agrees-set_phase, Agrees-start, Agrees-start_other,
}
use boba_claw.Gate.Tracking.Removal.{Agrees-discard, Agrees-discard_other}
use boba_claw.Gate.Tracking.Arrival.{Agrees-cancel}

pub new-Inv : (n : ℕ) → Inv (max n 1) (Gate.new n)
unfolding Gate.new
new-Inv n = record {
  below = tt;
  distinct = tt;
  agrees = λ s. refl;
  exclusive = λ s. omega arith;
  permitted = omega arith;
}

module _ {n : ℕ} (g : Gate) (v : Inv n g) where
  -- A change of phase with no start.
  module _ (e : Entry) (found : find e.id g.entries ≡ some e) (ph : Phase)
      (same_queue : pending ph ≡ pending e.phase)
      (no_start : started ph ≡ true → started e.phase ≡ true) where
    moves :
        (permits : ℕ)
        → permits + count in_turn (set_phase e.id ph g.entries) ≡ n
        → ((s : String) → count (holder s) (set_phase e.id ph g.entries) ≤ 1)
        → Inv n (record g { permits = permits; entries = set_phase e.id ph g.entries })
    moves permits free one = record {
      below = All-set_phase (λ x. x.id < g.next_id) e.id ph g.entries e found (λ h. h) v.below;
      distinct = Distinct-set_phase e.id ph g.entries v.distinct;
      agrees = λ s.
          Agrees-set_phase s ph g.entries e found same_queue no_start (g.scopes s) (v.agrees s);
      exclusive = one;
      permitted = free;
    }

  -- All entries of a scope share its lock, so a free lock has no holder in the scope.
  none_holds :
      (s : String) (l : ℕ) (es : List Entry)
      → All (LockIs s l) es
      → All (λ x. x.lock ≡ l → holds_lock x.phase ≡ false) es
      → count (holder s) es ≡ 0
  none_holds s l [] a b = refl
  none_holds s l (x ∷ es) a b = ground (arith, none_holds s l es a.1 b.1)

  lock_free :
      (s : String) (e : Entry) (o : Option ScopeState)
      → find e.id g.entries ≡ some e
      → in_scope s e ≡ true
      → All (λ x. x.lock ≡ e.lock → holds_lock x.phase ≡ false) g.entries
      → Agrees s o g.entries
      → count (holder s) g.entries ≡ 0
  lock_free s e none found own free t =
      absurd (ground (arith, count-discard (in_scope s) e.id g.entries e))
  lock_free s e (some st) found own free t =
      none_holds s e.lock g.entries
        (subst (λ l. All (LockIs s l) g.entries)
          (sym (All-find (LockIs s st.lock) e.id g.entries e found t.0.locks own)) t.0.locks)
        free

  pub take_lock-Inv :
      (e : Entry)
      → find e.id g.entries ≡ some e
      → e.phase ≡ Gate.queued
      → All (λ x. x.lock ≡ e.lock → holds_lock x.phase ≡ false) g.entries
      → Inv n (Gate.take_lock g e.id)
  unfolding Gate.take_lock
  take_lock-Inv e found q free =
      moves e found Gate.locked (ground arith) (λ h. cc) g.permits
        (ground (arith, v.permitted, count-set_phase in_turn e.id Gate.locked g.entries e))
        λ s. elim (Bool-cases (in_scope s e)) [
          | inl own ↦ ground (
            arith,
            lock_free s e (g.scopes s) found own free (v.agrees s),
            count-set_phase (holder s) e.id Gate.locked g.entries e,
          )
          | inr other ↦
              ground (arith, v.exclusive s, count-set_phase (holder s) e.id Gate.locked g.entries e)
        ]

  pub release_permit-Inv :
      (e : Entry)
      → find e.id g.entries ≡ some e
      → e.phase ≡ Gate.turn
      → Inv n (Gate.release_permit g e.id)
  unfolding Gate.release_permit
  release_permit-Inv e found q =
      moves e found Gate.unpermitted (ground arith) (ground arith) (g.permits + 1)
        (ground (arith, v.permitted, count-set_phase in_turn e.id Gate.unpermitted g.entries e))
        (λ s.
          ground
            (arith, v.exclusive s, count-set_phase (holder s) e.id Gate.unpermitted g.entries e))

  pub release_lock-Inv :
      (e : Entry)
      → find e.id g.entries ≡ some e
      → e.phase ≡ Gate.unpermitted
      → Inv n (Gate.release_lock g e.id)
  unfolding Gate.release_lock
  release_lock-Inv e found q =
      moves e found Gate.unlocked (ground arith) (ground arith) g.permits
        (ground (arith, v.permitted, count-set_phase in_turn e.id Gate.unlocked g.entries e))
        (λ s.
          ground (arith, v.exclusive s, count-set_phase (holder s) e.id Gate.unlocked g.entries e))

  pub abandon-Inv :
      (e : Entry)
      → find e.id g.entries ≡ some e
      → e.phase ≡ Gate.locked
      → Inv n (Gate.abandon g e.id)
  unfolding Gate.abandon
  abandon-Inv e found q =
      moves e found Gate.abandoned (ground arith) (ground arith) g.permits
        (ground (arith, v.permitted, count-set_phase in_turn e.id Gate.abandoned g.entries e))
        (λ s.
          ground (arith, v.exclusive s, count-set_phase (holder s) e.id Gate.abandoned g.entries e))

  pub start-Inv :
      (e : Entry)
      → find e.id g.entries ≡ some e
      → e.phase ≡ Gate.locked
      → 0 < g.permits
      → Inv n (Gate.start g e)
  unfolding Gate.start
  start-Inv e found q free = record {
    below = All-set_phase (λ x. x.id < g.next_id) e.id Gate.turn g.entries e found (λ h. h) v.below;
    distinct = Distinct-set_phase e.id Gate.turn g.entries v.distinct;
    agrees =
        update_cases (λ s o. Agrees s o (set_phase e.id Gate.turn g.entries)) g.scopes e.scope _
          (Agrees-start e.scope g.entries e found (g.scopes e.scope) (eq_refl e.scope)
            (ground arith) v.distinct (v.exclusive e.scope) (v.agrees e.scope))
          λ s other. Agrees-start_other s g.entries e found (g.scopes s) other (v.agrees s);
    exclusive =
        λ s. ground (arith, v.exclusive s, count-set_phase (holder s) e.id Gate.turn g.entries e);
    permitted = ground (arith, v.permitted, count-set_phase in_turn e.id Gate.turn g.entries e);
  }

  pub unregister-Inv :
      (e : Entry)
      → find e.id g.entries ≡ some e
      → holds_permit e.phase ≡ false
      → Inv n (Gate.unregister g e)
  unfolding Gate.unregister
  unregister-Inv e found q = record {
    below = All-discard (λ x. x.id < g.next_id) e.id g.entries v.below;
    distinct = Distinct-discard e.id g.entries v.distinct;
    agrees =
        update_cases (λ s o. Agrees s o (discard e.id g.entries)) g.scopes e.scope _
          (Agrees-discard e.scope g.entries e found v.distinct (g.scopes e.scope) (eq_refl e.scope)
            (v.agrees e.scope))
          λ s other.
            Agrees-discard_other s g.entries e found v.distinct (g.scopes s) other (v.agrees s);
    exclusive = λ s. ground (arith, v.exclusive s, count-discard (holder s) e.id g.entries e);
    permitted = ground (arith, v.permitted, count-discard in_turn e.id g.entries e);
  }

  pub cancel-Inv :
      (st : ScopeState) → Inv n (record g { entries = cancel_preemptible st g.entries })
  cancel-Inv st = record {
    below = All-cancel (λ x. x.id < g.next_id) st g.entries (λ e b h. h) v.below;
    distinct = Distinct-cancel st g.entries v.distinct;
    agrees = λ s. Agrees-cancel s st (g.scopes s) g.entries (v.agrees s);
    exclusive =
        λ s. ground (arith, v.exclusive s, count-cancel (holder s) st g.entries (λ e b. refl));
    permitted = ground (arith, v.permitted, count-cancel in_turn st g.entries (λ e b. refl));
  }

  interrupted : (o : Option ScopeState) → Inv n (Gate.interrupt_state g o).0
  interrupted none = v
  interrupted (some st) = cancel-Inv st

  pub interrupt-Inv : (s : String) → Inv n (Gate.interrupt g s).0
  unfolding Gate.interrupt
  interrupt-Inv s = interrupted (g.scopes s)
