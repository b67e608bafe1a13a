-- ===== src/Runs.antt =====
-- The ledger of runs: crates/bobaclaw-state/src/ledger.rs and crates/bobaclaw-core/src/run.rs.
--
-- The two tables are the lists of their rows in the order of insertion, with the clock as an argument.
-- The JSON text of a payload is the data it is made of. A statement that breaks a key of migrations/ is
-- an error. An update of a run that is not there changes no row, and its event then has no run to refer
-- to: such an operation fails, and the ledger is as before.
pub mod Replay
pub mod Touch
pub mod Access
pub mod Tests
use boba_claw.Prelude.{
  ℕ, String, str_eq, Bool, true, false, Option, none, some, List, [], ◌∷◌, ◌++◌, if◌then◌else◌, any,
  Text, Result, ok, err, ◌>>=◌, ℤ, is_zero,
}
use boba_claw.Sessions.{SqlError, foreign_key, unique, SessionRow, has_session, session_is}

pub data RunStatus : Type 0 where
  created script_saved approved started completed failed timeout denied partial : RunStatus

pub data RunEventKind : Type 0 where
  created script_saved approved started stdout stderr artifact result_json completed failed timeout
        denied :
      RunEventKind

abbrev pub status_str : RunStatus → String
status_str RunStatus.created = "created"
status_str RunStatus.script_saved = "script_saved"
status_str RunStatus.approved = "approved"
status_str RunStatus.started = "started"
status_str RunStatus.completed = "completed"
status_str RunStatus.failed = "failed"
status_str RunStatus.timeout = "timeout"
status_str RunStatus.denied = "denied"
status_str partial = "partial"

abbrev pub parse_status : String → RunStatus
parse_status s =
    if str_eq s "script_saved"
    then RunStatus.script_saved
    else if str_eq s "approved"
    then RunStatus.approved
    else if str_eq s "started"
    then RunStatus.started
    else if str_eq s "completed"
    then RunStatus.completed
    else if str_eq s "failed"
    then RunStatus.failed
    else if str_eq s "timeout"
    then RunStatus.timeout
    else if str_eq s "denied"
    then RunStatus.denied
    else if str_eq s "partial"
    then partial
    else RunStatus.created

abbrev pub event_kind_str : RunEventKind → String
event_kind_str RunEventKind.created = "created"
event_kind_str RunEventKind.script_saved = "script_saved"
event_kind_str RunEventKind.approved = "approved"
event_kind_str RunEventKind.started = "started"
event_kind_str stdout = "stdout"
event_kind_str stderr = "stderr"
event_kind_str artifact = "artifact"
event_kind_str result_json = "result_json"
event_kind_str RunEventKind.completed = "completed"
event_kind_str RunEventKind.failed = "failed"
event_kind_str RunEventKind.timeout = "timeout"
event_kind_str RunEventKind.denied = "denied"

pub data Payload : Type 0 where
  nothing : Payload
  capsule : Text → Payload
  outcome : ℤ → Text → Payload
  reason : Text → Payload

pub record RunRow : Type 0 where
  pub id : String
  pub session_id : Option String
  pub request_id : Option String
  pub status : String
  pub executor_profile : Text
  pub capsule_dir : Option Text
  pub exit_code : Option ℤ
  pub summary : Option Text
  pub created_at : ℕ
  pub updated_at : ℕ

pub record EventRow : Type 0 where
  pub run_id : String
  pub kind : String
  pub payload : Payload
  pub created_at : ℕ

pub record RunLedger : Type 0 where
  pub runs : List RunRow
  pub events : List EventRow

pub record RunRecord : Type 0 where
  pub id : String
  pub status : RunStatus
  pub executor_profile : Text
  pub capsule_dir : Option Text
  pub exit_code : Option ℤ
  pub summary : Option Text

abbrev pub run_is : String → RunRow → Bool
run_is id r = str_eq r.id id

abbrev pub update_run : String → (RunRow → RunRow) → List RunRow → List RunRow
update_run id f [] = []
update_run id f (r ∷ rs) = (if run_is id r then f r else r) ∷ update_run id f rs

unfoldable pub append_event :
    RunLedger → String → RunEventKind → Payload → ℕ → Result SqlError RunLedger
append_event l run_id kind payload now =
    if any (run_is run_id) l.runs
    then ok (record l {
      events =
          l.events
          ++ record {
            run_id = run_id;
            kind = event_kind_str kind;
            payload = payload;
            created_at = now;
          }
            ∷ [];
    })
    else err foreign_key

abbrev pub in_table : Option String → List SessionRow → Bool
in_table none sessions = true
in_table (some sid) sessions = has_session sid sessions

unfoldable pub create_run :
    List SessionRow
    → RunLedger
    → String
    → Option String
    → Option String
    → Text
    → ℕ
    → Result SqlError RunLedger
create_run sessions l run_id session_id request_id executor_profile now =
    if any (run_is run_id) l.runs
    then err unique
    else if in_table session_id sessions
    then append_event
        (record l {
          runs =
              l.runs
              ++ record {
                id = run_id;
                session_id = session_id;
                request_id = request_id;
                status = status_str RunStatus.created;
                executor_profile = executor_profile;
                capsule_dir = none;
                exit_code = none;
                summary = none;
                created_at = now;
                updated_at = now;
              }
                ∷ [];
        })
        run_id RunEventKind.created nothing now
    else err foreign_key

unfoldable pub set_capsule_dir : RunLedger → String → Text → ℕ → Result SqlError RunLedger
set_capsule_dir l run_id dir now =
    append_event
      (record l {
        runs =
            update_run run_id
              (λ r. record r {
                status = status_str RunStatus.script_saved;
                capsule_dir = some dir;
                updated_at = now;
              })
              l.runs;
      })
      run_id RunEventKind.script_saved (capsule dir) now

unfoldable pub update_status :
    RunLedger → String → RunStatus → RunEventKind → Payload → ℕ → Result SqlError RunLedger
update_status l run_id status event payload now =
    append_event
      (record l {
        runs =
            update_run run_id (λ r. record r { status = status_str status; updated_at = now })
              l.runs;
      })
      run_id event payload now

unfoldable pub mark_started : RunLedger → String → ℕ → Result SqlError RunLedger
unfolding update_status
mark_started l run_id now =
    update_status l run_id RunStatus.started RunEventKind.started nothing now

abbrev pub final_status : ℤ → RunStatus
final_status exit_code = if is_zero exit_code then RunStatus.completed else RunStatus.failed

abbrev pub final_event : ℤ → RunEventKind
final_event exit_code = if is_zero exit_code then RunEventKind.completed else RunEventKind.failed

unfoldable pub mark_completed : RunLedger → String → ℤ → Text → ℕ → Result SqlError RunLedger
mark_completed l run_id exit_code summary now =
    append_event
      (record l {
        runs =
            update_run run_id
              (λ r. record r {
                status = status_str (final_status exit_code);
                exit_code = some exit_code;
                summary = some summary;
                updated_at = now;
              })
              l.runs;
      })
      run_id (final_event exit_code) (outcome exit_code summary) now

unfoldable pub mark_denied : RunLedger → String → Text → ℕ → Result SqlError RunLedger
mark_denied l run_id why now =
    append_event
      (record l {
        runs =
            update_run run_id
              (λ r. record r {
                status = status_str RunStatus.denied;
                summary = some why;
                updated_at = now;
              })
              l.runs;
      })
      run_id RunEventKind.denied (reason why) now

abbrev pub to_record : RunRow → RunRecord
to_record r = record {
  id = r.id;
  status = parse_status r.status;
  executor_profile = [];
  capsule_dir = r.capsule_dir;
  exit_code = r.exit_code;
  summary = r.summary;
}

abbrev pub find_run : List RunRow → String → Option RunRow
find_run [] id = none
find_run (r ∷ rs) id = if run_is id r then some r else find_run rs id

abbrev pub record_of : Option RunRow → Option RunRecord
record_of none = none
record_of (some r) = some (to_record r)

unfoldable pub get_run : RunLedger → String → Option RunRecord
get_run l run_id = record_of (find_run l.runs run_id)

abbrev pub group_of : Option String → List SessionRow → Option String
group_of none sessions = none
group_of (some sid) [] = none
group_of (some sid) (s ∷ ss) =
    if session_is sid s then some s.agent_group else group_of (some sid) ss

abbrev pub owner : Option RunRow → List SessionRow → Option String
owner none sessions = none
owner (some r) sessions = group_of r.session_id sessions

abbrev pub only : String → Option String → Option String
only agent_group none = none
only agent_group (some g) = if str_eq g agent_group then some g else none

unfoldable pub verify_run_agent_group :
    RunLedger → List SessionRow → String → String → Option String
verify_run_agent_group l sessions run_id agent_group =
    only agent_group (owner (find_run l.runs run_id) sessions)
