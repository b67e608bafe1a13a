-- ===== src/Gate/Tracking/Changes.antt =====
-- What each change of one entry, or of one scope's state, keeps of `Agrees`.
use boba_claw.Prelude.{
  ℕ, ◌≤◌, ◌≡◌, refl, subst, inl, inr, String, str_eq, eq_iff, true, false, Option, none, some, List,
  [], ◌∷◌, Bool-cases, ◌==◌, count, All, arith,
}
use boba_claw.Gate.{
  Entry, ScopeState, Phase, turn, update, find, set_phase, start_scope, started_scope,
}
use boba_claw.Gate.Entries.{
  Distinct, Absent, count-set_phase, count-discard, All-set_phase, queued_ids-set_phase,
  queued_ids-set_phase_started, queued_ids-set_phase_other,
}
use boba_claw.Gate.Steps.{holds_lock, pending}
use boba_claw.Gate.Tracking.{
  in_scope, holder, has_id, started, LockIs, RunningIs, HasStarted, Tracks, Agrees,
}

-- An updated map is described by its new value and by the old ones elsewhere.
pub update_cases :
    (P : String → Option ScopeState → Type 0) (m : String → Option ScopeState) (k : String)
    (v : Option ScopeState)
    → P k v
    → ((s : String) → str_eq k s ≡ false → P s (m s))
    → (s : String) → P s (update m k v s)
update_cases P m k v own other s = elim (Bool-cases (str_eq k s)) [
  | inl e ↦ rw e (subst (λ t. P t v) ((eq_iff k s).0 e) own)
  | inr e ↦ rw e (other s e)
]

-- A change of phase that `running` and the queue do not see.
module _ (s : String) (ph : Phase) (es : List Entry) (e : Entry) (found : find e.id es ≡ some e)
    (same_queue : pending ph ≡ pending e.phase)
    (no_start : started ph ≡ true → started e.phase ≡ true) where
  Tracks-set_phase : (st : ScopeState) → Tracks s st es → Tracks s st (set_phase e.id ph es)
  Tracks-set_phase st t = record {
    users = omega (arith, t.users, count-set_phase (in_scope s) e.id ph es e found);
    locks = All-set_phase (LockIs s st.lock) e.id ph es e found (λ h. h) t.locks;
    queue = ground (arith, queued_ids-set_phase s e.id ph es e found same_queue, t.queue);
    running =
        All-set_phase (RunningIs s st.running) e.id ph es e found (λ h i k. h i (no_start k))
          t.running;
    present = λ i r. omega (arith, t.present i r, count-set_phase (has_id i) e.id ph es e found);
    has_started =
        All-set_phase (HasStarted s st.running) e.id ph es e found (λ h r. rw same_queue (h r))
          t.has_started;
  }

  pub Agrees-set_phase : (o : Option ScopeState) → Agrees s o es → Agrees s o (set_phase e.id ph es)
  Agrees-set_phase none t = omega (arith, count-set_phase (in_scope s) e.id ph es e found)
  Agrees-set_phase (some st) t = (Tracks-set_phase st t.0, t.1)

-- With one holder of the lock at most, an entry that has it is the only one that has started.
alone :
    (s : String) (es : List Entry)
    → count (holder s) es ≡ 0
    → (r : Option ℕ) → All (RunningIs s r) es
alone s [] h r = tt
alone s (x ∷ es) h r = (ground arith, alone s es (ground arith) r)

starts :
    (s : String) (es : List Entry) (e : Entry)
    → find e.id es ≡ some e
    → in_scope s e ≡ true
    → holds_lock e.phase ≡ true
    → count (holder s) es ≤ 1
    → All (RunningIs s (some e.id)) (set_phase e.id turn es)
starts s [] e f i h c = tt
starts s (x ∷ es) e f i h c = elim (Bool-cases (x.id == e.id)) [
  | inl hit ↦ rw hit (ground arith, alone s es (ground arith) (some e.id))
  | inr miss ↦ rw miss (
    ground (arith, count-discard (holder s) e.id es e),
    starts s es e (ground arith) i h (ground arith),
  )
]

names_none : (s : String) (i : ℕ) (es : List Entry) → Absent i es → All (HasStarted s (some i)) es
names_none s i [] a = tt
names_none s i (x ∷ es) a = (ground arith, names_none s i es a.1)

names_started :
    (s : String) (es : List Entry) (e : Entry)
    → find e.id es ≡ some e
    → in_scope s e ≡ true
    → Distinct es
    → All (HasStarted s (some e.id)) (set_phase e.id turn es)
names_started s [] e f i d = tt
names_started s (x ∷ es) e f i d = elim (Bool-cases (x.id == e.id)) [
  | inl hit ↦
      rw hit (ground arith, names_none s e.id es (subst (λ k. Absent k es) (ground arith) d.0))
  | inr miss ↦ rw miss (ground arith, names_started s es e (ground arith) i d.1)
]

-- `start`, seen from its scope and from another.
module _ (s : String) (es : List Entry) (e : Entry) (found : find e.id es ≡ some e) where
  Tracks-start :
      (st : ScopeState)
      → in_scope s e ≡ true
      → holds_lock e.phase ≡ true
      → Distinct es
      → count (holder s) es ≤ 1
      → Tracks s st es
      → Tracks s (started_scope e.id st) (set_phase e.id turn es)
  Tracks-start st own lock d one t = record {
    users = omega (arith, t.users, count-set_phase (in_scope s) e.id turn es e found);
    locks = All-set_phase (LockIs s st.lock) e.id turn es e found (λ h. h) t.locks;
    queue = ground (arith, queued_ids-set_phase_started s e.id turn es d, t.queue);
    running = starts s es e found own lock one;
    present = λ i r. ground (
      arith,
      count-set_phase (has_id i) e.id turn es e found,
      count-discard (has_id i) e.id es e found,
    );
    has_started = names_started s es e found own d;
  }

  pub Agrees-start :
      (o : Option ScopeState)
      → in_scope s e ≡ true
      → holds_lock e.phase ≡ true
      → Distinct es
      → count (holder s) es ≤ 1
      → Agrees s o es
      → Agrees s (start_scope e.id o) (set_phase e.id turn es)
  Agrees-start none own lock d one t =
      omega (arith, count-set_phase (in_scope s) e.id turn es e found)
  Agrees-start (some st) own lock d one t = (Tracks-start st own lock d one t.0, t.1)

  Tracks-start_other :
      (st : ScopeState)
      → in_scope s e ≡ false
      → Tracks s st es
      → Tracks s st (set_phase e.id turn es)
  Tracks-start_other st other t = record {
    users = omega (arith, t.users, count-set_phase (in_scope s) e.id turn es e found);
    locks = All-set_phase (LockIs s st.lock) e.id turn es e found (λ h. h) t.locks;
    queue = ground (arith, queued_ids-set_phase_other s e.id turn es e found other, t.queue);
    running =
        All-set_phase (RunningIs s st.running) e.id turn es e found (λ h i k. ground arith)
          t.running;
    present = λ i r. omega (arith, t.present i r, count-set_phase (has_id i) e.id turn es e found);
    has_started =
        All-set_phase (HasStarted s st.running) e.id turn es e found (λ h r. (refl, (h r).1))
          t.has_started;
  }

  pub Agrees-start_other :
      (o : Option ScopeState)
      → in_scope s e ≡ false
      → Agrees s o es
      → Agrees s o (set_phase e.id turn es)
  Agrees-start_other none other t = omega (arith, count-set_phase (in_scope s) e.id turn es e found)
  Agrees-start_other (some st) other t = (Tracks-start_other st other t.0, t.1)
