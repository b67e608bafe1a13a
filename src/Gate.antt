-- ===== src/Gate.antt =====
-- crates/bobaclaw-agent/src/scope_gate.rs: one turn at a time in each scope, preemption by user
-- messages, and a global limit on running turns.
--
-- `Gate` holds what `ScopeGate` holds: the scope map (a function from keys, `none` where the map
-- has no entry), the id counter and the free permits of the semaphore. A cancellation token is
-- known by the id of the entry that made it, and its flag is the field `cancelled` of that entry.
-- An `Entry` is a live call of `enter` with the guard that it returns; its phase says how far it is.
-- Each function below is one stretch of code that runs under the map's mutex, or one effect of an
-- awaited call.
pub mod Steps
pub mod Entries
pub mod Tracking
pub mod Preemption
pub mod Tests
use boba_claw.Prelude.{
  ℕ, ◌+◌, ◌-◌, ◌%◌, ◌^◌, max, String, str_eq, Bool, true, false, not, ◌&&◌, ◌||◌, Option, none,
  some, List, [], ◌∷◌, ◌++◌, if◌then◌else◌, ◌==◌, any, keep, is_empty,
}

pub record ScopeState : Type 0 where
  pub lock : ℕ
  pub users : ℕ
  pub running : Option ℕ
  pub queued_preemptible : List ℕ

-- queued: waits for the scope's lock; locked: has it and waits for a permit; abandoned: its future
-- was dropped while it had the lock; turn: the guard is held; unpermitted, unlocked: the guard is
-- being dropped, field by field.
pub data Phase : Type 0 where
  queued locked abandoned turn unpermitted unlocked : Phase

pub record Entry : Type 0 where
  pub id : ℕ
  pub scope : String
  pub preempt : Bool
  pub lock : ℕ
  pub phase : Phase
  pub cancelled : Bool

pub record Gate : Type 0 where
  pub permits : ℕ
  pub scopes : String → Option ScopeState
  pub next_id : ℕ
  pub entries : List Entry

unfoldable pub new : ℕ → Gate
new max_parallel = record {
  permits = max max_parallel 1;
  scopes = λ _. none;
  next_id = 0;
  entries = [];
}

abbrev pub update :
    (String → Option ScopeState) → String → Option ScopeState → String → Option ScopeState
update m k v j = if str_eq k j then v else m j

abbrev pub is_id : Option ℕ → ℕ → Bool
is_id none i = false
is_id (some j) i = j == i

-- Whether `cancel_preemptible` of this scope state cancels the token of entry `i`.
abbrev pub preemptible : ScopeState → ℕ → Bool
preemptible st i = is_id st.running i || any (λ j. j == i) st.queued_preemptible

-- `ScopeState::cancel_preemptible`: the tokens, and the result.
unfoldable pub cancel_preemptible : ScopeState → List Entry → List Entry
cancel_preemptible st [] = []
cancel_preemptible st (e ∷ es) =
    (record e { cancelled = e.cancelled || preemptible st e.id }) ∷ cancel_preemptible st es

abbrev pub is_some {ℓ} : {A : Type ℓ} → Option A → Bool
is_some none = false
is_some (some _) = true

unfoldable pub cancels_any : ScopeState → Bool
cancels_any st = is_some st.running || not (is_empty st.queued_preemptible)

-- `map.entry(scope).or_default()`: a fresh scope state has a fresh lock.
abbrev pub or_default : Option ScopeState → ℕ → ScopeState
or_default (some st) fresh = st
or_default none fresh = record { lock = fresh; users = 0; running = none; queued_preemptible = [] }

-- The counter is an `AtomicU64`.
abbrev pub u64_mod : ℕ
u64_mod = 2 ^ 64

-- `state.users += 1`, and `queued_preemptible.push` for a preempting entry.
abbrev pub register : ScopeState → ℕ → Bool → ScopeState
register st id preempt = record st {
  users = st.users + 1;
  queued_preemptible = if preempt then st.queued_preemptible ++ id ∷ [] else st.queued_preemptible;
}

abbrev pub cancel_if : Bool → ScopeState → List Entry → List Entry
cancel_if false st es = es
cancel_if true st es = cancel_preemptible st es

-- `enter` up to its first await: the registration.
unfoldable pub arrive : Gate → String → Bool → Gate
unfolding cancel_preemptible
arrive g scope preempt =
    let id = g.next_id in
    let st = or_default (g.scopes scope) id in
    let entry : Entry = record {
      id = id;
      scope = scope;
      preempt = preempt;
      lock = st.lock;
      phase = queued;
      cancelled = false;
    } in
    record g {
      scopes = update g.scopes scope (some (register st id preempt));
      next_id = (id + 1) % u64_mod;
      entries = cancel_if preempt st g.entries ++ entry ∷ [];
    }

-- The entry of an id, the entry in its next phase, and the entries without it.
abbrev pub find : ℕ → List Entry → Option Entry
find i [] = none
find i (e ∷ es) = if e.id == i then some e else find i es

abbrev pub set_phase : ℕ → Phase → List Entry → List Entry
set_phase i p [] = []
set_phase i p (e ∷ es) = if e.id == i then record e { phase = p } ∷ es else e ∷ set_phase i p es

abbrev pub discard : ℕ → List Entry → List Entry
discard i [] = []
discard i (e ∷ es) = if e.id == i then es else e ∷ discard i es

-- `lock_owned().await` returns.
unfoldable pub take_lock : Gate → ℕ → Gate
take_lock g i = record g { entries = set_phase i locked g.entries }

abbrev pub started_scope : ℕ → ScopeState → ScopeState
started_scope i st = record st {
  running = some i;
  queued_preemptible = keep (λ q. not (q == i)) st.queued_preemptible;
}

abbrev pub start_scope : ℕ → Option ScopeState → Option ScopeState
start_scope i none = none
start_scope i (some st) = some (started_scope i st)

-- `acquire_owned().await` returns, and the rest of `enter` runs.
unfoldable pub start : Gate → Entry → Gate
start g e = record g {
  permits = g.permits - 1;
  scopes = update g.scopes e.scope (start_scope e.id (g.scopes e.scope));
  entries = set_phase e.id turn g.entries;
}

-- The guard's fields are dropped in their order: the permit, the lock, the registration.
unfoldable pub release_permit : Gate → ℕ → Gate
release_permit g i = record g {
  permits = g.permits + 1;
  entries = set_phase i unpermitted g.entries;
}

unfoldable pub release_lock : Gate → ℕ → Gate
release_lock g i = record g { entries = set_phase i unlocked g.entries }

-- The future of `enter` is dropped while it has the lock and no permit.
unfoldable pub abandon : Gate → ℕ → Gate
abandon g i = record g { entries = set_phase i abandoned g.entries }

abbrev pub forget : ℕ → ScopeState → Option ScopeState
forget i st =
    let users = st.users - 1 in
    if users == 0
    then none
    else some (record st {
      users = users;
      running = if is_id st.running i then none else st.running;
      queued_preemptible = keep (λ q. not (q == i)) st.queued_preemptible;
    })

abbrev pub forget_scope : ℕ → Option ScopeState → Option ScopeState
forget_scope i none = none
forget_scope i (some st) = forget i st

-- `Registration::drop`, at the end of a guard or of an abandoned `enter`.
unfoldable pub unregister : Gate → Entry → Gate
unregister g e = record g {
  scopes = update g.scopes e.scope (forget_scope e.id (g.scopes e.scope));
  entries = discard e.id g.entries;
}

abbrev pub interrupt_state : Gate → Option ScopeState → Gate × Bool
interrupt_state g none = (g, false)
interrupt_state g (some st) =
    (record g { entries = cancel_preemptible st g.entries }, cancels_any st)

unfoldable pub interrupt : Gate → String → Gate × Bool
unfolding cancel_preemptible cancels_any
interrupt g scope = interrupt_state g (g.scopes scope)

abbrev pub has_users : Option ScopeState → Bool
has_users none = false
has_users (some st) = not (st.users == 0)

unfoldable pub is_busy : Gate → String → Bool
is_busy g scope = has_users (g.scopes scope)
