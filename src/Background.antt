-- ===== src/Background.antt =====
-- Background jobs of subagents: the table of crates/bobaclaw-state/src/spawn_jobs.rs.
--
-- The table is the list of its rows in the order of insertion. Times, in the code `f64` seconds read
-- off a clock of milliseconds, are milliseconds, and with the fresh ids they are arguments.
pub mod Completer
pub mod Feedback
pub mod Wakes
pub mod Manager
pub mod Delegation
pub mod Tests
use boba_claw.Prelude.{
  ℕ, ◌+◌, String, str_eq, Bool, true, false, ◌&&◌, Option, none, some, List, [], ◌∷◌, ◌++◌,
  if◌then◌else◌, ltb, leb, ◌%◌, ◌^◌, take, keep, any, count, Text, Result, ok, err, ℤ,
}
use boba_claw.Sessions.{SqlError, foreign_key, unique, StateDb, has_session}

pub record SpawnJobRecord : Type 0 where
  pub id : String
  pub subagent_id : Option String
  pub session_id : String
  pub agent_group : String
  pub ingress : String
  pub deliver_channel : Option String
  pub deliver_peer : Option String
  pub deliver_thread_id : Option String
  pub label : Option String
  pub task_preview : Option Text
  pub backend : Option String
  pub status : String
  pub exit_code : Option ℤ
  pub result_preview : Option Text
  pub result_body : Option Text
  pub parent_request_id : Option String
  pub wake_parent : Bool
  pub notified_at : Option ℕ
  pub created_at : ℕ
  pub started_at : Option ℕ
  pub finished_at : Option ℕ

abbrev pub job_is : String → SpawnJobRecord → Bool
job_is id j = str_eq j.id id

-- `UPDATE … WHERE id = …`
abbrev pub update_job :
    String → (SpawnJobRecord → SpawnJobRecord) → List SpawnJobRecord → List SpawnJobRecord
update_job id f [] = []
update_job id f (j ∷ js) = (if job_is id j then f j else j) ∷ update_job id f js

-- The row that `insert_running` writes from its arguments, the fresh id and the clock.
abbrev pub running_job :
    String
    → String
    → String
    → String
    → Option String
    → Option String
    → Option String
    → Option String
    → Text
    → Option String
    → Option String
    → Bool
    → ℕ
    → SpawnJobRecord
running_job id session_id agent_group ingress deliver_channel deliver_peer deliver_thread_id label
      task_preview backend parent_request_id wake_parent now =
    record {
      id = id;
      subagent_id = none;
      session_id = session_id;
      agent_group = agent_group;
      ingress = ingress;
      deliver_channel = deliver_channel;
      deliver_peer = deliver_peer;
      deliver_thread_id = deliver_thread_id;
      label = label;
      task_preview = some task_preview;
      backend = backend;
      status = "running";
      exit_code = none;
      result_preview = none;
      result_body = none;
      parent_request_id = parent_request_id;
      wake_parent = wake_parent;
      notified_at = none;
      created_at = now;
      started_at = some now;
      finished_at = none;
    }

-- The table's keys: the id is new, and the session exists.
unfoldable pub insert_running :
    StateDb → List SpawnJobRecord → SpawnJobRecord → Result SqlError (List SpawnJobRecord)
insert_running db js job =
    if any (job_is job.id) js
    then err unique
    else if has_session job.session_id db.sessions
    then ok (js ++ job ∷ [])
    else err foreign_key

unfoldable pub link_subagent : List SpawnJobRecord → String → String → List SpawnJobRecord
link_subagent js id subagent_id =
    update_job id (λ j. record j { subagent_id = some subagent_id }) js

unfoldable pub finalize :
    List SpawnJobRecord
    → String
    → String
    → Option ℤ
    → Option Text
    → Option Text
    → ℕ
    → List SpawnJobRecord
finalize js id status exit_code result_preview result_body now =
    update_job id
      (λ j. record j {
        status = status;
        exit_code = exit_code;
        result_preview = result_preview;
        result_body = result_body;
        finished_at = some now;
      })
      js

unfoldable pub mark_notified : List SpawnJobRecord → String → ℕ → List SpawnJobRecord
mark_notified js id now = update_job id (λ j. record j { notified_at = some now }) js

unfoldable pub get : List SpawnJobRecord → String → Option SpawnJobRecord
get [] id = none
get (j ∷ js) id = if job_is id j then some j else get js id

-- `ORDER BY created_at DESC`: behind the rows that are not older.
abbrev pub place : SpawnJobRecord → List SpawnJobRecord → List SpawnJobRecord
place j [] = j ∷ []
place j (k ∷ ks) = if ltb k.created_at j.created_at then j ∷ k ∷ ks else k ∷ place j ks

abbrev pub newest_first : List SpawnJobRecord → List SpawnJobRecord → List SpawnJobRecord
newest_first [] sorted = sorted
newest_first (j ∷ js) sorted = newest_first js (place j sorted)

unfoldable pub list_by_session : List SpawnJobRecord → String → List SpawnJobRecord
list_by_session js sid = take 50 (newest_first (keep (λ j. str_eq j.session_id sid) js) [])

abbrev pub labelled : String → Option String → Bool
labelled label none = false
labelled label (some l) = str_eq l label

abbrev pub first_of : List SpawnJobRecord → Option SpawnJobRecord
first_of [] = none
first_of (j ∷ js) = some j

unfoldable pub find_by_label_in_session :
    List SpawnJobRecord → String → String → Option SpawnJobRecord
find_by_label_in_session js sid label =
    first_of (newest_first (keep (λ j. str_eq j.session_id sid && labelled label j.label) js) [])

abbrev pub finished_since : ℕ → Option ℕ → Bool
finished_since since none = false
finished_since since (some t) = leb since t

abbrev pub counts_as_wake : String → ℕ → SpawnJobRecord → Bool
counts_as_wake sid since j =
    str_eq j.session_id sid && (finished_since since j.finished_at && str_eq j.status "completed")

unfoldable pub count_recent_wakes : List SpawnJobRecord → String → ℕ → ℕ
count_recent_wakes js sid since = count (counts_as_wake sid since) js
