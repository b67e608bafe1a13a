-- ===== src/Gate/Tracking/Arrival.antt =====
-- What the registration of an entry, and a cancellation, keep of `Agrees`.
use boba_claw.Prelude.{
  ℕ, ◌≡◌, refl, sym, String, true, false, Option, none, some, List, [], ◌∷◌, ◌++◌, count,
  count-append, append-nil, All, All-append, arith,
}
use boba_claw.Gate.{Entry, ScopeState, queued, cancel_preemptible, or_default, register}
use boba_claw.Gate.Entries.{
  count-cancel, All-cancel, queued_ids, queued_ids-append, queued_ids-cancel,
}
use boba_claw.Gate.Tracking.{in_scope, has_id, LockIs, RunningIs, HasStarted, Tracks, Agrees}

-- Flags do not matter.
Tracks-cancel :
    (s : String) (st' st : ScopeState) (es : List Entry)
    → Tracks s st es
    → Tracks s st (cancel_preemptible st' es)
Tracks-cancel s st' st es t = record {
  users = ground (arith, t.users, count-cancel (in_scope s) st' es (λ e b. refl));
  locks = All-cancel (LockIs s st.lock) st' es (λ e b h. h) t.locks;
  queue = ground (arith, t.queue, queued_ids-cancel s st' es);
  running = All-cancel (RunningIs s st.running) st' es (λ e b h. h) t.running;
  present = λ i r. ground (arith, t.present i, count-cancel (has_id i) st' es (λ e b. refl));
  has_started = All-cancel (HasStarted s st.running) st' es (λ e b h. h) t.has_started;
}

pub Agrees-cancel :
    (s : String) (st : ScopeState) (o : Option ScopeState) (es : List Entry)
    → Agrees s o es
    → Agrees s o (cancel_preemptible st es)
Agrees-cancel s st none es t = ground (arith, count-cancel (in_scope s) st es (λ e b. refl))
Agrees-cancel s st (some st') es t = (Tracks-cancel s st st' es t.0, t.1)

-- A new entry of another scope.
pub Agrees-append_other :
    (s : String) (o : Option ScopeState) (es : List Entry) (e : Entry)
    → in_scope s e ≡ false
    → count (has_id e.id) es ≡ 0
    → Agrees s o es
    → Agrees s o (es ++ e ∷ [])
Agrees-append_other s none es e other fresh t =
    ground (arith, count-append (in_scope s) es (e ∷ []))
Agrees-append_other s (some st) es e other fresh (t, used) = (
  record {
    users = ground (arith, t.users, count-append (in_scope s) es (e ∷ []));
    locks = All-append (LockIs s st.lock) es (e ∷ []) t.locks (ground arith, tt);
    queue = ground (arith, t.queue, queued_ids-append s es (e ∷ []), append-nil (queued_ids s es));
    running = All-append (RunningIs s st.running) es (e ∷ []) t.running (ground arith, tt);
    present = λ i r. ground (arith, t.present i, count-append (has_id i) es (e ∷ []));
    has_started =
        All-append (HasStarted s st.running) es (e ∷ []) t.has_started
          (λ r. absurd (ground (arith, t.present e.id)), tt);
  },
  used,
)

-- A new entry in its own scope.
module _ (s : String) (es : List Entry) (e : Entry) (own : in_scope s e ≡ true)
    (fresh : count (has_id e.id) es ≡ 0) (waits : e.phase ≡ queued) where
  Tracks-append :
      (st : ScopeState)
      → e.lock ≡ st.lock
      → Tracks s st es
      → Tracks s (register st e.id e.preempt) (es ++ e ∷ [])
  Tracks-append st lock t = record {
    users = ground (arith, t.users, count-append (in_scope s) es (e ∷ []));
    locks = All-append (LockIs s st.lock) es (e ∷ []) t.locks (λ i. lock, tt);
    queue = ground (arith, t.queue, queued_ids-append s es (e ∷ []), append-nil (queued_ids s es));
    running = All-append (RunningIs s st.running) es (e ∷ []) t.running (ground arith, tt);
    present = λ i r. ground (arith, t.present i, count-append (has_id i) es (e ∷ []));
    has_started =
        All-append (HasStarted s st.running) es (e ∷ []) t.has_started
          (λ r. absurd (ground (arith, t.present e.id)), tt);
  }

nobody :
    (s : String) (P : Entry → Type 0) (es : List Entry)
    → ((x : Entry) → in_scope s x ≡ false → P x)
    → count (in_scope s) es ≡ 0
    → All P es
nobody s P [] f c = tt
nobody s P (x ∷ es) f c = (f x (ground arith), nobody s P es f (ground arith))

no_queue : (s : String) (es : List Entry) → count (in_scope s) es ≡ 0 → [] ≡ queued_ids s es
no_queue s [] c = refl
no_queue s (x ∷ es) c = ground (arith, no_queue s es)

-- The default state tracks a scope with no entry.
module _ (s : String) (fresh : ℕ) where
  Tracks-default :
      (es : List Entry) → count (in_scope s) es ≡ 0 → Tracks s (or_default none fresh) es
  Tracks-default es c = record {
    users = sym c;
    locks = nobody s (LockIs s fresh) es (λ x f g. cc) c;
    queue = no_queue s es c;
    running = nobody s (RunningIs s none) es (λ x f g h. cc) c;
    present = λ i r. cc;
    has_started = nobody s (HasStarted s none) es (λ x f r. cc) c;
  }

  pub Agrees-append :
      (o : Option ScopeState) (es : List Entry) (e : Entry)
      → in_scope s e ≡ true
      → count (has_id e.id) es ≡ 0
      → e.phase ≡ queued
      → e.lock ≡ (or_default o fresh).lock
      → Agrees s o es
      → Agrees s (some (register (or_default o fresh) e.id e.preempt)) (es ++ e ∷ [])
  Agrees-append none es e own new waits lock t =
      (Tracks-append s es e own new waits _ lock (Tracks-default es t), omega arith)
  Agrees-append (some st) es e own new waits lock t =
      (Tracks-append s es e own new waits st lock t.0, omega arith)
