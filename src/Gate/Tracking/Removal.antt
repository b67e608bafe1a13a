-- ===== src/Gate/Tracking/Removal.antt =====
-- What `Registration::drop` keeps of `Agrees`, and what a registration keeps.
use boba_claw.Prelude.{
  ℕ, ◌-◌, ◌<◌, ◌≡◌, inl, inr, String, true, false, Option, none, some, List, [], ◌∷◌, Bool-cases,
  ◌==◌, All, arith, if◌then◌else◌,
}
use boba_claw.Gate.{Entry, ScopeState, find, discard, forget, forget_scope, is_id}
use boba_claw.Gate.Entries.{
  Distinct, Absent, count-discard, All-discard, All-find, queued_ids-discard,
  queued_ids-discard_other, Absent-discard,
}
use boba_claw.Gate.Tracking.{in_scope, has_id, LockIs, RunningIs, HasStarted, Tracks, Agrees}

-- `running` is cleared only if it names the entry that goes.
abbrev cleared : ℕ → Option ℕ → Option ℕ
cleared i r = if is_id r i then none else r

clears_running :
    (s : String) (i : ℕ) (r : Option ℕ) (es : List Entry)
    → Absent i es
    → All (RunningIs s r) es
    → All (RunningIs s (cleared i r)) es
clears_running s i r [] a h = tt
clears_running s i r (x ∷ es) a h = (ground arith, clears_running s i r es a.1 h.1)

clears_started :
    (s : String) (i : ℕ) (r : Option ℕ) (es : List Entry)
    → All (HasStarted s r) es
    → All (HasStarted s (cleared i r)) es
clears_started s i r [] h = tt
clears_started s i r (x ∷ es) h = (ground arith, clears_started s i r es h.1)

-- `Registration::drop`, seen from its scope and from another.
module _ (s : String) (es : List Entry) (e : Entry) (found : find e.id es ≡ some e)
    (distinct : Distinct es) where
  Tracks-discard :
      (st : ScopeState)
      → in_scope s e ≡ true
      → Tracks s st es
      → 0 < st.users
      → Agrees s (forget e.id st) (discard e.id es)
  Tracks-discard st own t used = elim (Bool-cases (st.users - 1 == 0)) [
    | inl last ↦ rw last (ground (arith, t.users, count-discard (in_scope s) e.id es e))
    | inr more ↦ rw more (
      record {
        users = ground (arith, t.users, count-discard (in_scope s) e.id es e);
        locks = All-discard (LockIs s st.lock) e.id es t.locks;
        queue = ground (arith, t.queue, queued_ids-discard s e.id es distinct);
        running =
            clears_running s e.id st.running (discard e.id es) (Absent-discard e.id es distinct)
              (All-discard (RunningIs s st.running) e.id es t.running);
        present = λ i r. ground (arith, t.present i, count-discard (has_id i) e.id es e);
        has_started =
            clears_started s e.id st.running (discard e.id es)
              (All-discard (HasStarted s st.running) e.id es t.has_started);
      },
      ground arith,
    )
  ]

  pub Agrees-discard :
      (o : Option ScopeState)
      → in_scope s e ≡ true
      → Agrees s o es
      → Agrees s (forget_scope e.id o) (discard e.id es)
  Agrees-discard none own t = omega (arith, count-discard (in_scope s) e.id es e found)
  Agrees-discard (some st) own t = Tracks-discard st own t.0 t.1

  Tracks-discard_other :
      (st : ScopeState) → in_scope s e ≡ false → Tracks s st es → Tracks s st (discard e.id es)
  Tracks-discard_other st other t = record {
    users = ground (arith, t.users, count-discard (in_scope s) e.id es e);
    locks = All-discard (LockIs s st.lock) e.id es t.locks;
    queue = ground (arith, queued_ids-discard_other s e.id es e found other, t.queue);
    running = All-discard (RunningIs s st.running) e.id es t.running;
    present = λ i r. ground (
      arith,
      t.present i,
      count-discard (has_id i) e.id es e,
      All-find (HasStarted s st.running) e.id es e found t.has_started,
    );
    has_started = All-discard (HasStarted s st.running) e.id es t.has_started;
  }

  pub Agrees-discard_other :
      (o : Option ScopeState) → in_scope s e ≡ false → Agrees s o es → Agrees s o (discard e.id es)
  Agrees-discard_other none other t = omega (arith, count-discard (in_scope s) e.id es e found)
  Agrees-discard_other (some st) other t = (Tracks-discard_other st other t.0, t.1)
