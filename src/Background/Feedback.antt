-- ===== src/Background/Feedback.antt =====
-- What the end of a job leaves in the table (crates/bobaclaw-state/src/spawn_jobs.rs and
-- crates/bobaclaw-agent/src/spawn_completer.rs).
use boba_claw.Prelude.{
  ℕ, ◌≡◌, inl, inr, refl, String, str_eq, eq_iff, eq_refl, Bool, false, ◌&&◌, Option, none, some,
  List, [], ◌∷◌, if◌then◌else◌, Bool-cases, Text, Result, ok, err, ℤ, arith,
}
use boba_claw.Sessions.{SqlError, StateDb}
use boba_claw.Sessions.Routes.{NormalizedRequest}
use boba_claw.Background.{SpawnJobRecord, update_job, finalize, mark_notified, get}
use boba_claw.Background.Completer.{
  SpawnFeedbackConfig, SubagentRunResult, Feedback, Clock, Ending, ending, on_complete,
  append_delivery, notified, behind, told, ended, should_wake, within_limit, finalized,
  wake_request,
}

abbrev pub changed :
    (SpawnJobRecord → SpawnJobRecord) → Option SpawnJobRecord → Option SpawnJobRecord
changed f none = none
changed f (some j) = some (f j)

pub get-update :
    (js : List SpawnJobRecord) (id k : String) (f : SpawnJobRecord → SpawnJobRecord)
    → ((j : SpawnJobRecord) → (f j).id ≡ j.id)
    → get (update_job id f js) k ≡ (if str_eq k id then changed f (get js k) else get js k)
unfolding get
get-update [] id k f same = ground arith
get-update (j ∷ js) id k f same =
    ground (arith, same j, eq_iff k id, eq_iff j.id id, eq_iff j.id k, get-update js id k f same)

pub get-finalize :
    (js : List SpawnJobRecord) (id k status : String) (code : Option ℤ) (preview body : Option Text)
    (now : ℕ)
    → get (finalize js id status code preview body now) k ≡ (
        if str_eq k id
        then changed
            (λ j. record j {
              status = status;
              exit_code = code;
              result_preview = preview;
              result_body = body;
              finished_at = some now;
            })
            (get js k)
        else get js k)
unfolding finalize
get-finalize js id k status code preview body now = get-update js id k _ (λ j. refl)

pub get-mark_notified :
    (js : List SpawnJobRecord) (id k : String) (now : ℕ)
    → get (mark_notified js id now) k ≡ (
        if str_eq k id
        then changed (λ j. record j { notified_at = some now }) (get js k)
        else get js k)
unfolding mark_notified
get-mark_notified js id k now = get-update js id k _ (λ j. refl)

-- What the record of a job says once it has ended.
abbrev pub IsRecorded : SpawnJobRecord → Ending → ℕ → SpawnJobRecord → Type 0
IsRecorded job e finished_at j =
    (j.status ≡ e.status)
    × (j.exit_code ≡ e.exit_code)
    × (j.result_preview ≡ some e.preview)
    × (j.result_body ≡ e.body)
    × (j.finished_at ≡ some finished_at)
    × (j.session_id ≡ job.session_id)
    × (j.created_at ≡ job.created_at)

abbrev pub Shows : SpawnJobRecord → Ending → ℕ → String → List SpawnJobRecord → Type 0
Shows job e finished_at id js =
    (j : SpawnJobRecord) × (get js id ≡ some j) × IsRecorded job e finished_at j

abbrev ended_row : SpawnJobRecord → Ending → ℕ → SpawnJobRecord
ended_row job e now = record job {
  status = e.status;
  exit_code = e.exit_code;
  result_preview = some e.preview;
  result_body = e.body;
  finished_at = some now;
}

module _ (cfg : SpawnFeedbackConfig) (notify : String → Option (SpawnJobRecord → Text → Bool))
    (dispatch : StateDb
      → List SpawnJobRecord
      → NormalizedRequest × Text
      → StateDb × List SpawnJobRecord × Result Text Text) where
  -- What holds of the finalized table and is kept by a notice and by a turn holds in the end.
  jobs_rule :
      (P : List SpawnJobRecord → Type 0) (id : String) (e : Ending) (clock : Clock)
      → ((js : List SpawnJobRecord) → P js → P (mark_notified js id clock.notified_at))
      → ((db : StateDb) (js : List SpawnJobRecord) (req : NormalizedRequest × Text)
          → P js
          → P (dispatch db js req).1)
      → (w : Feedback) (r : Result SqlError StateDb) (job : SpawnJobRecord) → P w.jobs
      → P (behind cfg notify dispatch w r job id e clock).0.jobs
  jobs_rule P id e clock marks turns w (err x) job h = h
  jobs_rule P id e clock marks turns w (ok db) job h =
      let job' = ended cfg notify dispatch job e in
      let next = notified cfg notify dispatch (record w { db = db }) job id e clock.notified_at in
      let there : P next.jobs =
        elim (Bool-cases
          (told cfg notify dispatch job.deliver_channel job.notified_at job' e.preview)) [
            | inl sent ↦ rw sent (marks w.jobs h)
            | inr silent ↦ rw silent h
          ] in
      elim (Bool-cases (
        should_wake cfg notify dispatch job' e.status
        && within_limit cfg notify dispatch next job' clock.wake_at)) [
          | inl wakes ↦ rw wakes (turns next.db next.jobs (wake_request job' id e.preview) there)
          | inr sleeps ↦ rw sleeps there
        ]

  module _
      (keeps : (db : StateDb) (js : List SpawnJobRecord) (req : NormalizedRequest × Text)
          (k : String) (j : SpawnJobRecord)
        → get js k ≡ some j
        → get (dispatch db js req).1 k ≡ some j)
      (w : Feedback) (id : String) (result : Result Text SubagentRunResult) (cancelled : Bool)
      (clock : Clock) (job : SpawnJobRecord) where
    -- Let the turns of the dispatcher keep the rows that are there. When a job of the table ends, its row
    -- holds in the end the status, the exit code, the preview, the body and the time of the ending, for a
    -- success, a failure, a cancellation and an error of the database alike; its session and its time of
    -- creation are as before.
    pub ending_is_recorded :
        get w.jobs id ≡ some job
        → Shows job
            (ending cfg result cancelled)
            clock.finished_at
            id
            (on_complete cfg notify dispatch w id result cancelled clock).0.jobs
    unfolding on_complete
    ending_is_recorded found =
        let e = ending cfg result cancelled in
        rw found (
          jobs_rule (Shows job e clock.finished_at id) id e clock
            (λ js h. (
              record h.0 { notified_at = some clock.notified_at },
              rw (get-mark_notified js id id clock.notified_at, eq_refl id, h.1) refl,
              h.2,
            ))
            (λ db js req h. (h.0, keeps db js req id h.0 h.1, h.2))
            (finalized cfg notify dispatch w id e clock.finished_at)
            (append_delivery w.db job id e.deliver_result result clock.appended_at) job
            (
              ended_row job e clock.finished_at,
              rw
                  (
                    get-finalize w.jobs id id e.status e.exit_code (some e.preview) e.body
                        clock.finished_at,
                    eq_refl id,
                    found,
                  )
                  refl,
              (refl, refl, refl, refl, refl, refl, refl),
            ))

    -- The rows of the other jobs stay.
    others_stay :
        (k : String) (j : SpawnJobRecord)
        → get w.jobs id ≡ some job
        → str_eq k id ≡ false
        → get w.jobs k ≡ some j
        → get (on_complete cfg notify dispatch w id result cancelled clock).0.jobs k ≡ some j
    unfolding on_complete
    others_stay k j found other there =
        let e = ending cfg result cancelled in
        rw found (
          jobs_rule (λ js. get js k ≡ some j) id e clock
            (λ js h. rw (get-mark_notified js id k clock.notified_at, other) h)
            (λ db js req h. keeps db js req k j h)
            (finalized cfg notify dispatch w id e clock.finished_at)
            (append_delivery w.db job id e.deliver_result result clock.appended_at) job
            (rw
              (
                get-finalize w.jobs id k e.status e.exit_code (some e.preview) e.body
                    clock.finished_at,
                other,
              )
              there))
