-- ===== src/Gate/Preemption/Exact.antt =====
-- `cancel_preemptible` cancels the tokens that have to yield, and no others but a leaving turn's.
use boba_claw.Prelude.{
  ℕ, ◌≡◌, refl, ◌≢◌, String, Bool, true, false, ◌&&◌, ◌||◌, Option, none, some, List, [], ◌∷◌, ◌==◌,
  ==_refl, any, All, arith,
}
use boba_claw.Gate.{
  Entry, ScopeState, unlocked, find, cancel_preemptible, preemptible, is_id, or_default,
}
use boba_claw.Gate.Entries.{queued_ids, Absent, Distinct, All-find, count-discard}
use boba_claw.Gate.Steps.{pending}
use boba_claw.Gate.Tracking.{in_scope, Agrees, Tracks, HasStarted, RunningIs}
use boba_claw.Gate.Preemption.{must_yield}

abbrev names : ℕ → List ℕ → Bool
names i = any (λ j. j == i)

not_named : (s : String) (i : ℕ) (es : List Entry) → Absent i es → names i (queued_ids s es) ≡ false
not_named s i [] a = refl
not_named s i (x ∷ es) a = ground (arith, not_named s i es a.1)

-- The queue names a live entry exactly if it is a waiting preempting entry of the scope.
abbrev Named : String → List Entry → Entry → Type 0
Named s all e = names e.id (queued_ids s all) ≡ (in_scope s e && (e.preempt && pending e.phase))

Named-below :
    (s : String) (x : Entry) (all es : List Entry)
    → Absent x.id es
    → All (Named s all) es
    → All (Named s (x ∷ all)) es
Named-below s x all [] a h = tt
Named-below s x all (y ∷ es) a h = (ground arith, Named-below s x all es a.1 h.1)

queue_exact : (s : String) (es : List Entry) → Distinct es → All (Named s es) es
queue_exact s [] d = tt
queue_exact s (x ∷ es) d =
    (ground (arith, not_named s x.id es d.0), Named-below s x es es d.0 (queue_exact s es d.1))

is_id→eq : (r : Option ℕ) (i : ℕ) → is_id r i ≡ true → r ≡ some i
is_id→eq none i h = cc
is_id→eq (some j) i h = ground arith

-- What the scope's state says of an entry that is not a leaving turn.
pub preemptible_exact :
    (s : String) (st : ScopeState) (es : List Entry) (e : Entry)
    → Tracks s st es
    → Distinct es
    → find e.id es ≡ some e
    → e.phase ≢ unlocked
    → preemptible st e.id ≡ must_yield s e
preemptible_exact s st es e t d found live = ground (
  arith,
  t.queue,
  is_id→eq st.running e.id,
  All-find (Named s es) e.id es e found (queue_exact s es d),
  All-find (RunningIs s st.running) e.id es e found t.running,
  All-find (HasStarted s st.running) e.id es e found t.has_started,
)

-- A property of each entry that can be found holds of all.
pub All_of_find :
    (P : Entry → Type 0) (es : List Entry)
    → Distinct es
    → ((e : Entry) → find e.id es ≡ some e → P e)
    → All P es
All_of_find P [] d f = tt
All_of_find P (x ∷ es) d f = (
  f x (rw (==_refl x.id)),
  All_of_find P es d.1
      λ e found. f e (ground (arith, found, All-find (λ y. y.id ≢ x.id) e.id es e found d.0)),
)

-- The same, in terms of the map's value for the scope.
pub default_exact :
    (s : String) (o : Option ScopeState) (fresh : ℕ) (es : List Entry) (e : Entry)
    → Agrees s o es
    → Distinct es
    → find e.id es ≡ some e
    → e.phase ≢ unlocked
    → preemptible (or_default o fresh) e.id ≡ must_yield s e
default_exact s none fresh es e t d found live =
    ground (arith, t, count-discard (in_scope s) e.id es e)
default_exact s (some st) fresh es e t d found live = preemptible_exact s st es e t.0 d found live

pub find-cancel :
    (i : ℕ) (st : ScopeState) (es : List Entry) (e : Entry)
    → find i es ≡ some e
    → find i (cancel_preemptible st es)
      ≡ some (record e { cancelled = e.cancelled || preemptible st e.id })
unfolding cancel_preemptible
find-cancel i st [] e f = cc
find-cancel i st (x ∷ es) e f = ground (arith, find-cancel i st es e)
