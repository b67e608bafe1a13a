-- ===== src/Cron.antt =====
-- Recurring jobs: crates/bobaclaw-state/src/cron.rs, and `run_due_cron` and `sync_cron_from_config` of
-- crates/bobaclaw-scheduler/src/runner.rs.
--
-- The tables are the lists of their rows in the order of insertion. Times, in the code `f64` seconds
-- read off a clock of milliseconds, are milliseconds. The cron library is the argument `schedule`: the
-- occurrences of an expression after a time, in order, and `none` for one that does not parse. What the
-- agent answers, what a delivery comes to, the targets of the configuration and the times at which the
-- run of a job is recorded are arguments too.
pub mod Last
pub mod Once
pub mod Table
pub mod Tests
use boba_claw.Prelude.{
  ℕ, ◌+◌, ◌-◌, ◌*◌, String, str_eq, Bool, true, false, Option, none, some, List, [], ◌∷◌, ◌++◌,
  if◌then◌else◌, ltb, leb, take, keep, any, Text, is_empty, Result, ok, err,
}
use boba_claw.Sessions.{SqlError, unique}

pub record CronJobRow : Type 0 where
  pub id : String
  pub cron_expr : String
  pub agent_group : String
  pub prompt : Text
  pub enabled : Bool
  pub created_at : ℕ
  pub deliver_channel : Option String
  pub deliver_peer : Option String
  pub deliver_text : Option Text
  pub source_session_id : Option String

pub record CronRun : Type 0 where
  pub job_id : String
  pub status : String
  pub created_at : ℕ

abbrev pub job_is : String → CronJobRow → Bool
job_is id j = str_eq j.id id

abbrev pub redefine : String → String → String → Text → List CronJobRow → List CronJobRow
redefine id expr group prompt [] = []
redefine id expr group prompt (j ∷ js) =
    (if job_is id j
      then record j { cron_expr = expr; agent_group = group; prompt = prompt; enabled = true }
      else j)
    ∷ redefine id expr group prompt js

abbrev pub new_job : String → String → String → Text → ℕ → CronJobRow
new_job id expr group prompt now = record {
  id = id;
  cron_expr = expr;
  agent_group = group;
  prompt = prompt;
  enabled = true;
  created_at = now;
  deliver_channel = none;
  deliver_peer = none;
  deliver_text = none;
  source_session_id = none;
}

-- `INSERT … ON CONFLICT(id) DO UPDATE`
unfoldable pub upsert_job : List CronJobRow → String → String → String → Text → ℕ → List CronJobRow
upsert_job js id expr group prompt now =
    if any (job_is id) js
    then redefine id expr group prompt js
    else js ++ new_job id expr group prompt now ∷ []

unfoldable pub insert_agent_job :
    List CronJobRow → CronJobRow → Result SqlError (List CronJobRow × CronJobRow)
insert_agent_job js job =
    if any (job_is job.id) js
    then err unique
    else ok (js ++ record job { enabled = true } ∷ [], record job { enabled = true })

unfoldable pub list_enabled : List CronJobRow → List CronJobRow
list_enabled js = keep (λ j. j.enabled) js

abbrev pub switch_off : String → List CronJobRow → List CronJobRow
switch_off id [] = []
switch_off id (j ∷ js) =
    (if job_is id j then record j { enabled = false } else j) ∷ switch_off id js

-- The flag is `rows_affected() > 0`.
unfoldable pub disable : List CronJobRow → String → List CronJobRow × Bool
disable js id = (switch_off id js, any (job_is id) (keep (λ j. j.enabled) js))

unfoldable pub record_run : List CronRun → String → String → ℕ → List CronRun
record_run runs job_id status now =
    runs ++ record { job_id = job_id; status = status; created_at = now } ∷ []

abbrev pub latest : ℕ → Option ℕ → Option ℕ
latest t none = some t
latest t (some u) = if ltb t u then some u else some t

-- `ORDER BY created_at DESC LIMIT 1`
unfoldable pub last_run_at : List CronRun → String → Option ℕ
last_run_at [] id = none
last_run_at (r ∷ rs) id =
    if str_eq r.job_id id then latest r.created_at (last_run_at rs id) else last_run_at rs id

-- A configured job: id, expression, group, prompt.
abbrev pub sync_cron_from_config :
    List CronJobRow → List (String × String × String × Text) → ℕ → List CronJobRow
sync_cron_from_config js [] now = js
sync_cron_from_config js ((id, expr, group, prompt) ∷ rest) now =
    sync_cron_from_config (upsert_job js id expr group prompt now) rest now

-- The table of runs, and the texts that were delivered.
pub record CronState : Type 0 where
  pub runs : List CronRun
  pub delivered : List (String × Option String × Text)

abbrev pub first_until : ℕ → List ℕ → Option ℕ
first_until now [] = none
first_until now (t ∷ ts) = if leb t now then some t else first_until now ts

abbrev pub or_configured : Option String → Option String → Option String
or_configured none configured = configured
or_configured (some s) configured = some s

module _ (schedule : String → Option (ℕ → List ℕ)) (handle : CronJobRow → Result Text Text)
    (deliver : String → Option String → Text → Result Text (Unit {0}))
    (configured_channel configured_peer : String → Option String)
    (started_at ended_at : CronJobRow → ℕ) (tick_secs : ℕ) where
  abbrev pub window : ℕ
  window = (tick_secs + 2) * 1000

  abbrev pub fire_in : Option (ℕ → List ℕ) → ℕ → Option ℕ
  fire_in none now = none
  fire_in (some after) now = first_until now (take 4 (after (now - window)))

  abbrev pub fire_at : CronJobRow → ℕ → Option ℕ
  fire_at job now = fire_in (schedule job.cron_expr) now

  -- `last.is_some_and(|l| l >= fire_ts - 1.0)`
  abbrev pub has_run : Option ℕ → ℕ → Bool
  has_run none fire = false
  has_run (some last) fire = leb fire (last + 1000)

  abbrev pub text_of : CronJobRow → Option Text → Result Text Text
  text_of job none = handle job
  text_of job (some fixed) = if is_empty fixed then handle job else ok fixed

  abbrev pub send_to :
      Option String
      → Option String
      → Text
      → List (String × Option String × Text)
      → List (String × Option String × Text)
  send_to none peer text sent = sent
  send_to (some channel) peer text sent = elim (deliver channel peer text) [
    | ok x ↦ sent ++ (channel, peer, text) ∷ []
    | err e ↦ sent
  ]

  abbrev pub close_run : CronState → CronJobRow → Result Text Text → CronState
  close_run st job (ok text) = record {
    runs = record_run st.runs job.id "done" (ended_at job);
    delivered =
        send_to (or_configured job.deliver_channel (configured_channel job.id))
          (or_configured job.deliver_peer (configured_peer job.id)) text st.delivered;
  }
  close_run st job (err e) = record st { runs = record_run st.runs job.id "failed" (ended_at job) }

  abbrev pub fire : CronState → CronJobRow → CronState
  fire st job =
      close_run (record st { runs = record_run st.runs job.id "started" (started_at job) }) job
        (text_of job job.deliver_text)

  abbrev pub fire_if : CronState → CronJobRow → Option ℕ → CronState
  fire_if st job none = st
  fire_if st job (some t) = if has_run (last_run_at st.runs job.id) t then st else fire st job

  unfoldable pub run_job : CronState → CronJobRow → ℕ → CronState
  run_job st job now = fire_if st job (fire_at job now)

  abbrev pub run_jobs : CronState → List CronJobRow → ℕ → CronState
  run_jobs st [] now = st
  run_jobs st (j ∷ js) now = run_jobs (run_job st j now) js now

  unfoldable pub run_due_cron : CronState → List CronJobRow → ℕ → CronState
  run_due_cron st js now = run_jobs st (list_enabled js) now
