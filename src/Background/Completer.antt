-- ===== src/Background/Completer.antt =====
-- crates/bobaclaw-agent/src/spawn_completer.rs: what happens when a background job ends.
--
-- The deliveries of the channels and the dispatcher are arguments: `notify` is the delivery of a
-- channel that has one, with the flag whether its notice went out, and `dispatch` is a turn of the
-- dispatcher, which changes the database and may add jobs. The clock's readings are arguments too.
use boba_claw.Prelude.{
  ℕ, ◌-◌, ◌^◌, ◌%◌, String, str_eq, Bool, true, false, ◌&&◌, ◌||◌, Option, none, some, List, [],
  ◌∷◌, ◌++◌, if◌then◌else◌, ltb, leb, length, take, Text, codes, Result, ok, err, ℤ, is_zero,
}
use boba_claw.Sessions.{SqlError, StateDb, append_message}
use boba_claw.Sessions.Routes.{NormalizedRequest, ChannelPeer, spawn_wake}
use boba_claw.Background.{SpawnJobRecord, finalize, mark_notified, get, count_recent_wakes}

-- `SpawnFeedbackConfig`, less the days that jobs are kept.
pub record SpawnFeedbackConfig : Type 0 where
  pub notify_on_complete : Bool
  pub wake_parent_on_complete : Bool
  pub wake_on_failure : Bool
  pub wake_max_per_hour_per_session : ℕ
  pub result_persist_chars : ℕ

pub record SubagentRunResult : Type 0 where
  pub body : Text
  pub exit_code : ℤ
  pub subagent_id : String

-- The database, its table of jobs, the turns that were dispatched, and the replies that were presented.
pub record Feedback : Type 0 where
  pub db : StateDb
  pub jobs : List SpawnJobRecord
  pub woken : List (NormalizedRequest × Text)
  pub presented : List (String × String × Text)

pub record Clock : Type 0 where
  pub finished_at : ℕ
  pub appended_at : ℕ
  pub notified_at : ℕ
  pub wake_at : ℕ

-- A cut text ends in an ellipsis.
unfoldable pub truncate : Text → ℕ → Text
truncate s max = if leb (length s) max then s else take max s ++ 8230 ∷ []

abbrev pub status_label : ℤ → String
status_label code = if is_zero code then "completed" else "failed"

-- Status, exit code, preview, body, and whether the result is delivered.
pub record Ending : Type 0 where
  pub status : String
  pub exit_code : Option ℤ
  pub preview : Text
  pub body : Option Text
  pub deliver_result : Bool

abbrev pub ending_of : SpawnFeedbackConfig → Result Text SubagentRunResult → Ending
ending_of cfg (ok r) = record {
  status = status_label r.exit_code;
  exit_code = some r.exit_code;
  preview = truncate r.body 200;
  body = some (truncate r.body cfg.result_persist_chars);
  deliver_result = is_zero r.exit_code;
}
ending_of cfg (err e) = record {
  status = "failed";
  exit_code = none;
  preview = truncate e 200;
  body = none;
  deliver_result = false;
}

unfoldable pub ending : SpawnFeedbackConfig → Result Text SubagentRunResult → Bool → Ending
ending cfg result cancelled =
    if cancelled
    then record {
      status = "cancelled";
      exit_code = none;
      preview = codes "cancelled with parent turn";
      body = none;
      deliver_result = false;
    }
    else ending_of cfg result

abbrev pub label_or : Option String → String → String
label_or none job_id = job_id
label_or (some l) job_id = l

abbrev pub delivery_text : String → Text → Text
delivery_text label body =
    codes "[Subagent `" ++ (codes label ++ (codes "` completed]" ++ (10 ∷ 10 ∷ body)))

abbrev pub append_delivery :
    StateDb
    → SpawnJobRecord
    → String
    → Bool
    → Result Text SubagentRunResult
    → ℕ
    → Result SqlError StateDb
append_delivery db job job_id false result now = ok db
append_delivery db job job_id true (err e) now = ok db
append_delivery db job job_id true (ok r) now =
    append_message db job.session_id "assistant" (delivery_text (label_or job.label job_id) r.body)
      now

abbrev pub peer_of : SpawnJobRecord → Option String → String → Option ChannelPeer
peer_of job none channel = none
peer_of job (some peer) channel =
    if str_eq channel "telegram"
    then some (record { channel = "telegram"; peer = peer; thread_id = job.deliver_thread_id })
    else none

unfoldable pub build_channel_peer : SpawnJobRecord → Option ChannelPeer
build_channel_peer job = peer_of job job.deliver_peer (label_or job.deliver_channel "telegram")

abbrev pub wake_text : String → String → Text → Text
wake_text label job_id result_text =
    codes "[Background subagent `"
    ++ (codes label
        ++ (codes "` ("
            ++ (codes job_id
                ++ (codes ") completed]"
                    ++ (10
                        ∷ 10
                        ∷ (result_text
                            ++ (10
                                ∷ 10
                                ∷ codes
                                    "Integrate this result for the user. Do not spawn another background agent unless clearly needed.")))))))

abbrev pub wake_request : SpawnJobRecord → String → Text → NormalizedRequest × Text
wake_request job job_id preview = (
  record {
    session_id = some job.session_id;
    channel_peer = build_channel_peer job;
    agent_group = job.agent_group;
    ingress = spawn_wake;
  },
  wake_text (label_or job.label job_id) job_id preview,
)

abbrev pub hour : ℕ
hour = 3600000

module _ (cfg : SpawnFeedbackConfig) (notify : String → Option (SpawnJobRecord → Text → Bool))
    (dispatch : StateDb
      → List SpawnJobRecord
      → NormalizedRequest × Text
      → StateDb × List SpawnJobRecord × Result Text Text) where
  abbrev pub mark_if : Bool → List SpawnJobRecord → String → ℕ → List SpawnJobRecord
  mark_if told js id now = if told then mark_notified js id now else js

  abbrev pub told_by : Option (SpawnJobRecord → Text → Bool) → SpawnJobRecord → Text → Bool
  told_by none job summary = false
  told_by (some send) job summary = send job summary

  abbrev pub told : Option String → Option ℕ → SpawnJobRecord → Text → Bool
  told none notified_at job summary = false
  told (some channel) (some t) job summary = false
  told (some channel) none job summary =
      cfg.notify_on_complete && told_by (notify channel) job summary

  -- The row as finalized, which the steps behind go by.
  abbrev pub ended : SpawnJobRecord → Ending → SpawnJobRecord
  ended job e = record job {
    status = e.status;
    exit_code = e.exit_code;
    result_preview = some e.preview;
    result_body = e.body;
  }

  abbrev pub should_wake : SpawnJobRecord → String → Bool
  should_wake job status =
      job.wake_parent
      && (cfg.wake_parent_on_complete
          && (str_eq status "completed" || (cfg.wake_on_failure && str_eq status "failed")))

  abbrev pub present_by :
      Option (SpawnJobRecord → Text → Bool)
      → String
      → String
      → Text
      → List (String × String × Text)
      → List (String × String × Text)
  present_by none channel job_id text sent = sent
  present_by (some deliver) channel job_id text sent = sent ++ (channel, job_id, text) ∷ []

  abbrev pub present_reply :
      Option String
      → String
      → Result Text Text
      → List (String × String × Text)
      → List (String × String × Text)
  present_reply none job_id reply sent = sent
  present_reply (some channel) job_id (err e) sent = sent
  present_reply (some channel) job_id (ok text) sent =
      present_by (notify channel) channel job_id text sent

  abbrev pub wake : Feedback → SpawnJobRecord → NormalizedRequest × Text → Feedback
  wake w job req =
      let answer = dispatch w.db w.jobs req in
      record {
        db = answer.0;
        jobs = answer.1;
        woken = w.woken ++ req ∷ [];
        presented = present_reply job.deliver_channel job.id answer.2 w.presented;
      }

  -- `wake_count as u32 >= wake_max_per_hour_per_session`
  abbrev pub within_limit : Feedback → SpawnJobRecord → ℕ → Bool
  within_limit w job now =
      ltb (count_recent_wakes w.jobs job.session_id (now - hour) % 2 ^ 32)
        cfg.wake_max_per_hour_per_session

  abbrev pub wake_if : Feedback → SpawnJobRecord → String → Ending → ℕ → Feedback
  wake_if w job job_id e now =
      if should_wake job e.status && within_limit w job now
      then wake w job (wake_request job job_id e.preview)
      else w

  abbrev pub notified : Feedback → SpawnJobRecord → String → Ending → ℕ → Feedback
  notified w job job_id e now = record w {
    jobs =
        mark_if (told job.deliver_channel job.notified_at (ended job e) e.preview) w.jobs job_id
          now;
  }

  -- What was written before an error stays.
  abbrev pub behind :
      Feedback
      → Result SqlError StateDb
      → SpawnJobRecord
      → String
      → Ending
      → Clock
      → Feedback × Result SqlError (Unit {0})
  behind w (err x) job job_id e clock = (w, err x)
  behind w (ok db) job job_id e clock = (
    wake_if (notified (record w { db = db }) job job_id e clock.notified_at) (ended job e) job_id e
        clock.wake_at,
    ok tt,
  )

  abbrev pub finalized : Feedback → String → Ending → ℕ → Feedback
  finalized w job_id e now = record w {
    jobs = finalize w.jobs job_id e.status e.exit_code (some e.preview) e.body now;
  }

  abbrev pub complete :
      Feedback
      → Option SpawnJobRecord
      → String
      → Result Text SubagentRunResult
      → Ending
      → Clock
      → Feedback × Result SqlError (Unit {0})
  complete w none job_id result e clock = (w, ok tt)
  complete w (some job) job_id result e clock =
      behind (finalized w job_id e clock.finished_at)
        (append_delivery w.db job job_id e.deliver_result result clock.appended_at) job job_id e
        clock

  unfoldable pub on_complete :
      Feedback
      → String
      → Result Text SubagentRunResult
      → Bool
      → Clock
      → Feedback × Result SqlError (Unit {0})
  on_complete w job_id result cancelled clock =
      complete w (get w.jobs job_id) job_id result (ending cfg result cancelled) clock
