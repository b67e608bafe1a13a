-- ===== src/Scheduler.antt =====
-- One-shot tasks: the store of crates/bobaclaw-state/src/scheduled.rs.
--
-- The table is the list of its rows in the order of insertion, and each method runs its SQL on it.
-- Times, in the code seconds as `f64` read off a clock of milliseconds, are milliseconds. `status` is
-- a string in the code, and only the five words below are ever written to it. The clock and the fresh
-- uuid are arguments.
pub mod Rows
pub mod Runner
pub mod Workers
pub mod Claims
pub mod Reached
pub mod Order
pub mod Sleep
pub mod Runs
pub mod Tests
use boba_claw.Prelude.{
  ℕ, ◌+◌, String, str_eq, Bool, true, false, ◌&&◌, Option, none, some, List, [], ◌∷◌, ◌++◌, map,
  if◌then◌else◌, leb, take, keep, any, Text, Result, ok, err,
}
use boba_claw.Sessions.{SqlError, unique}

pub data Status : Type 0 where
  pending running done failed cancelled : Status

abbrev pub is_pending : Status → Bool
is_pending pending = true
is_pending running = false
is_pending done = false
is_pending failed = false
is_pending cancelled = false

pub record Task : Type 0 where
  pub id : String
  pub agent_group : String
  pub prompt : Text
  pub deliver_text : Option Text
  pub run_at : ℕ
  pub deliver_channel : Option String
  pub deliver_peer : Option String
  pub source_session_id : Option String
  pub status : Status
  pub created_at : ℕ
  pub completed_at : Option ℕ
  pub last_error : Option Text

-- `SELECT … WHERE id = ?1`
abbrev pub find : String → List Task → Option Task
find id [] = none
find id (t ∷ ts) = if str_eq t.id id then some t else find id ts

abbrev pub has_id : String → Task → Bool
has_id id t = str_eq t.id id

abbrev pub pending_id : String → Task → Bool
pending_id id t = str_eq t.id id && is_pending t.status

-- `UPDATE … WHERE …`
abbrev pub update_where : (Task → Bool) → (Task → Task) → List Task → List Task
update_where hit change [] = []
update_where hit change (t ∷ ts) = (if hit t then change t else t) ∷ update_where hit change ts

unfoldable pub insert :
    List Task
    → String
    → String
    → Text
    → Option Text
    → ℕ
    → Option String
    → Option String
    → Option String
    → ℕ
    → Result SqlError (List Task × Task)
insert ts id agent_group prompt deliver_text run_at channel peer session now =
    let task : Task = record {
      id = id;
      agent_group = agent_group;
      prompt = prompt;
      deliver_text = deliver_text;
      run_at = run_at;
      deliver_channel = channel;
      deliver_peer = peer;
      source_session_id = session;
      status = pending;
      created_at = now;
      completed_at = none;
      last_error = none;
    } in
    if any (has_id id) ts then err unique else ok (ts ++ task ∷ [], task)

-- `ORDER BY run_at ASC`; rows of one time stay in the order of insertion.
abbrev pub place : Task → List Task → List Task
place t [] = t ∷ []
place t (u ∷ us) = if leb t.run_at u.run_at then t ∷ u ∷ us else u ∷ place t us

abbrev pub order_by_run_at : List Task → List Task
order_by_run_at [] = []
order_by_run_at (t ∷ ts) = place t (order_by_run_at ts)

abbrev pub due : ℕ → Task → Bool
due now t = is_pending t.status && leb t.run_at now

abbrev pub due_limit : ℕ
due_limit = 20

unfoldable pub list_due : List Task → ℕ → List Task
list_due ts now = take due_limit (order_by_run_at (keep (due now) ts))

unfoldable pub list_pending : List Task → List Task
list_pending ts = order_by_run_at (keep (λ t. is_pending t.status) ts)

-- The flag is `rows_affected() > 0`.
unfoldable pub mark_running : List Task → String → List Task × Bool
mark_running ts id =
    (update_where (pending_id id) (λ t. record t { status = running }) ts, any (pending_id id) ts)

unfoldable pub mark_done : List Task → String → ℕ → List Task
mark_done ts id now =
    update_where (has_id id) (λ t. record t { status = done; completed_at = some now }) ts

unfoldable pub mark_failed : List Task → String → Text → ℕ → List Task
mark_failed ts id error now =
    update_where (has_id id)
      (λ t. record t { status = failed; completed_at = some now; last_error = some error }) ts

unfoldable pub cancel : List Task → String → ℕ → List Task × Bool
cancel ts id now = (
  update_where (pending_id id) (λ t. record t { status = cancelled; completed_at = some now }) ts,
  any (pending_id id) ts,
)

abbrev pub first_run_at : List Task → Option ℕ
first_run_at [] = none
first_run_at (t ∷ ts) = some t.run_at

unfoldable pub next_pending_run_at : List Task → Option ℕ
unfolding list_pending
next_pending_run_at ts = first_run_at (list_pending ts)
