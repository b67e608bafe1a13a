-- ===== src/Background/Wakes.antt =====
-- When the end of a background job wakes its parent (crates/bobaclaw-agent/src/spawn_completer.rs).
use boba_claw.Prelude.{
  ℕ, ◌+◌, ◌-◌, ◌%◌, ◌^◌, ◌≤◌, ◌<◌, ◌≡◌, ◌⊎◌, inl, inr, refl, ap, String, str_eq, eq_refl, Bool,
  true, false, ◌&&◌, ◌||◌, not, Option, none, some, List, [], ◌∷◌, ◌++◌, if◌then◌else◌, ltb,
  Bool-cases, Result-cases, Text, Result, ok, err, ℤ, is_zero, arith, count, mod-eq_of_lt, le→leb,
}
use boba_claw.Sessions.{StateDb, append_message, has_session, insert_message}
use boba_claw.Sessions.Routes.{NormalizedRequest}
use boba_claw.Background.{
  SpawnJobRecord, job_is, finalize, mark_notified, get, count_recent_wakes, counts_as_wake,
}
use boba_claw.Background.Completer.{
  SpawnFeedbackConfig, Feedback, Clock, Ending, ending, on_complete, notified, behind, told, ended,
  should_wake, within_limit, finalized, wake_request, complete, hour, label_or, delivery_text,
  build_channel_peer, SubagentRunResult,
}

-- The completed jobs of the session that ended since `since`, the job `id` left out.
abbrev pub others : String → String → ℕ → List SpawnJobRecord → ℕ
others id sid since js = count (λ j. not (job_is id j) && counts_as_wake sid since j) js

-- The rows of the job that are in the session.
abbrev own : String → String → List SpawnJobRecord → ℕ
own id sid js = count (λ j. job_is id j && str_eq j.session_id sid) js

count-mark_notified :
    (js : List SpawnJobRecord) (id : String) (now : ℕ) (sid : String) (since : ℕ)
    → count_recent_wakes (mark_notified js id now) sid since ≡ count_recent_wakes js sid since
unfolding count_recent_wakes mark_notified
count-mark_notified [] id now sid since = refl
count-mark_notified (j ∷ js) id now sid since = elim (Bool-cases (str_eq j.id id)) [
  | inl e ↦ rw (e, count-mark_notified js id now sid since) refl
  | inr e ↦ rw (e, count-mark_notified js id now sid since) refl
]

count-finalize :
    (js : List SpawnJobRecord) (id : String) (code : Option ℤ) (preview body : Option Text)
    (now : ℕ) (sid : String) (since : ℕ)
    → since ≤ now
    → count_recent_wakes (finalize js id "completed" code preview body now) sid since
      ≡ others id sid since js + own id sid js
unfolding count_recent_wakes finalize
count-finalize [] id code preview body now sid since h = omega arith
count-finalize (j ∷ js) id code preview body now sid since h =
    let rest = count-finalize js id code preview body now sid since h in
    let late = le→leb since now h in
    elim (Bool-cases (str_eq j.id id)) [
      | inl e ↦ elim (Bool-cases (str_eq j.session_id sid)) [
        | inl s ↦ rw (e, s, late) (omega arith)
        | inr s ↦ rw (e, s) (omega arith)
      ]
      | inr e ↦ rw e (omega arith)
    ]

own-none :
    (js : List SpawnJobRecord) (id sid : String) → count (job_is id) js ≡ 0 → own id sid js ≡ 0
own-none [] id sid h = refl
own-none (j ∷ js) id sid h = elim (Bool-cases (str_eq j.id id)) [
  | inl e ↦ absurd (ground arith)
  | inr e ↦ rw e (omega (arith, own-none js id sid (ground arith)))
]

own-one :
    (js : List SpawnJobRecord) (id : String) (job : SpawnJobRecord)
    → count (job_is id) js ≡ 1
    → get js id ≡ some job
    → own id job.session_id js ≡ 1
unfolding get
own-one [] id job one found = absurd (ground arith)
own-one (j ∷ js) id job one found = elim (Bool-cases (str_eq j.id id)) [
  | inl e ↦
      let same : j ≡ job = ground arith in
      rw
        (
          e,
          ap (λ (k : SpawnJobRecord). k.session_id) same,
          eq_refl job.session_id,
          own-none js id job.session_id (ground arith),
        )
        (omega arith)
  | inr e ↦ rw e (omega (arith, own-one js id job (ground arith) (ground arith)))
]

appends :
    (db : StateDb) (sid role : String) (content : Text) (now : ℕ)
    → has_session sid db.sessions ≡ true
    → (db' : StateDb) × (append_message db sid role content now ≡ ok db')
unfolding append_message insert_message
appends db sid role content now known =
    elim (Result-cases (append_message db sid role content now)) [
      | inl (db', e) ↦ (db', e)
      | inr (x, e) ↦ absurd (ground (arith, known, e))
    ]

ands : (a b c : Bool) → ((a && (b && true)) && c) ≡ (a && (b && c))
ands false b c = refl
ands true false c = refl
ands true true c = refl

never : (a b : Bool) → (a && (b && false)) ≡ false
never false b = refl
never true false = refl
never true true = refl

-- A limit that counts the job itself.
below :
    (others limit : ℕ)
    → others + 1 < 2 ^ 32
    → ltb ((others + 1) % 2 ^ 32) limit ≡ ltb (others + 1) limit
below others limit small = rw (mod-eq_of_lt small) refl

-- The database, the turns and the replies are as before.
abbrev pub IsQuiet : Feedback → Feedback → Type 0
IsQuiet w w' = (w'.db ≡ w.db) × (w'.woken ≡ w.woken) × (w'.presented ≡ w.presented)

abbrev pub Failed : Result Text SubagentRunResult → Type 0
Failed (ok r) = is_zero r.exit_code ≡ false
Failed (err e) = Unit {0}

module _ (cfg : SpawnFeedbackConfig) (notify : String → Option (SpawnJobRecord → Text → Bool))
    (dispatch : StateDb
      → List SpawnJobRecord
      → NormalizedRequest × Text
      → StateDb × List SpawnJobRecord × Result Text Text) where
  behind-woken :
      (w : Feedback) (db : StateDb) (job : SpawnJobRecord) (id : String) (e : Ending)
      (clock : Clock)
      → (behind cfg notify dispatch w (ok db) job id e clock).0.woken ≡ (
          if should_wake cfg notify dispatch (ended cfg notify dispatch job e) e.status
            && within_limit cfg notify dispatch
                (notified cfg notify dispatch (record w { db = db }) job id e clock.notified_at)
                (ended cfg notify dispatch job e)
                clock.wake_at
          then w.woken ++ wake_request (ended cfg notify dispatch job e) id e.preview ∷ []
          else w.woken)
  behind-woken w db job id e clock =
      elim (Bool-cases (
        should_wake cfg notify dispatch (ended cfg notify dispatch job e) e.status
        && within_limit cfg notify dispatch
            (notified cfg notify dispatch (record w { db = db }) job id e clock.notified_at)
            (ended cfg notify dispatch job e) clock.wake_at)) [
              | inl wakes ↦ rw wakes refl
              | inr sleeps ↦ rw sleeps refl
            ]

  count-notified :
      (w : Feedback) (job : SpawnJobRecord) (id : String) (e : Ending) (now : ℕ) (sid : String)
      (since : ℕ)
      → count_recent_wakes (notified cfg notify dispatch w job id e now).jobs sid since
        ≡ count_recent_wakes w.jobs sid since
  count-notified w job id e now sid since =
      elim (Bool-cases (
        told cfg notify dispatch job.deliver_channel job.notified_at
          (ended cfg notify dispatch job e) e.preview)) [
            | inl sent ↦ rw sent (count-mark_notified w.jobs id now sid since)
            | inr silent ↦ rw silent refl
          ]

  success_wakes :
      (w : Feedback) (db : StateDb) (id : String) (job : SpawnJobRecord) (e : Ending)
      (clock : Clock)
      → get w.jobs id ≡ some job
      → count (job_is id) w.jobs ≡ 1
      → clock.wake_at - hour ≤ clock.finished_at
      → others id job.session_id (clock.wake_at - hour) w.jobs + 1 < 2 ^ 32
      → e.status ≡ "completed"
      → (should_wake cfg notify dispatch (ended cfg notify dispatch job e) e.status
          && within_limit cfg notify dispatch
              (notified cfg notify dispatch
                (record (finalized cfg notify dispatch w id e clock.finished_at) { db = db })
                job
                id
                e
                clock.notified_at)
              (ended cfg notify dispatch job e)
              clock.wake_at)
        ≡ (job.wake_parent
            && (cfg.wake_parent_on_complete
                && ltb
                    (others id job.session_id (clock.wake_at - hour) w.jobs + 1)
                    cfg.wake_max_per_hour_per_session))
  success_wakes w db id job e clock found one late small status =
      let counted : count_recent_wakes
            (finalize w.jobs id e.status e.exit_code (some e.preview) e.body clock.finished_at)
            job.session_id (clock.wake_at - hour)
          ≡ others id job.session_id (clock.wake_at - hour) w.jobs + 1 =
        rw
          (
            status,
            count-finalize w.jobs id e.exit_code (some e.preview) e.body clock.finished_at
                job.session_id (clock.wake_at - hour) late,
            own-one w.jobs id job one found,
          )
          refl in
      rw
        (
          count-notified
              (record (finalized cfg notify dispatch w id e clock.finished_at) { db = db }) job id e
              clock.notified_at job.session_id (clock.wake_at - hour),
          counted,
          below (others id job.session_id (clock.wake_at - hour) w.jobs)
              cfg.wake_max_per_hour_per_session small,
          status,
        )
        (ands job.wake_parent cfg.wake_parent_on_complete (
          ltb (others id job.session_id (clock.wake_at - hour) w.jobs + 1)
            cfg.wake_max_per_hour_per_session))

  -- Let the job be in the table once and its session in the database, and let it end with a success, with
  -- the clock of the wake-up at most an hour ahead of the time of the ending. The code then hands the request
  -- that carries the result to the dispatcher exactly if the job asks for it, the settings allow it, and the
  -- number of completed jobs of the session in the last hour, this one included, is below the limit. It does
  -- so whether or not the session is busy, where harness/tools/subagent.md says that a busy session is
  -- skipped: nothing on that is asked here, and the dispatcher queues the request.
  pub wake_after_success :
      (w : Feedback) (id : String) (job : SpawnJobRecord) (r : SubagentRunResult) (clock : Clock)
      → get w.jobs id ≡ some job
      → count (job_is id) w.jobs ≡ 1
      → has_session job.session_id w.db.sessions ≡ true
      → clock.wake_at - hour ≤ clock.finished_at
      → others id job.session_id (clock.wake_at - hour) w.jobs + 1 < 2 ^ 32
      → is_zero r.exit_code ≡ true
      → (on_complete cfg notify dispatch w id (ok r) false clock).0.woken ≡ (
          if job.wake_parent
            && (cfg.wake_parent_on_complete
                && ltb
                    (others id job.session_id (clock.wake_at - hour) w.jobs + 1)
                    cfg.wake_max_per_hour_per_session)
          then w.woken ++ wake_request job id (ending cfg (ok r) false).preview ∷ []
          else w.woken)
  unfolding on_complete
  wake_after_success w id job r clock found one known late small zero_exit =
      let e = ending cfg (ok r) false in
      let (db, appended) =
        appends w.db job.session_id "assistant" (delivery_text (label_or job.label id) r.body)
          clock.appended_at known in
      let status : e.status ≡ "completed" = unfold ending in rw zero_exit refl in
      let delivers : e.deliver_result ≡ true = unfold ending in zero_exit in
      rw
        (
          found,
          delivers,
          appended,
          behind-woken (finalized cfg notify dispatch w id e clock.finished_at) db job id e clock,
          success_wakes w db id job e clock found one late small status,
        )
        (unfold build_channel_peer in refl)

  quiet :
      (w : Feedback) (o : Option SpawnJobRecord) (id : String)
      (result : Result Text SubagentRunResult) (e : Ending) (clock : Clock)
      → e.deliver_result ≡ false
      → (str_eq e.status "completed" || (cfg.wake_on_failure && str_eq e.status "failed")) ≡ false
      → IsQuiet w (complete cfg notify dispatch w o id result e clock).0
  quiet w none id result e clock silent calm = (refl, refl, refl)
  quiet w (some job) id result e clock silent calm =
      rw (silent, calm, never job.wake_parent cfg.wake_parent_on_complete) (refl, refl, refl)

  -- A job that was cancelled, and one that failed where failures do not wake the parent, adds nothing to the
  -- history of its session, dispatches no turn and presents no reply.
  pub failure_is_quiet :
      (w : Feedback) (id : String) (result : Result Text SubagentRunResult) (cancelled : Bool)
      (clock : Clock)
      → (cancelled ≡ true) ⊎ ((cfg.wake_on_failure ≡ false) × Failed result)
      → IsQuiet w (on_complete cfg notify dispatch w id result cancelled clock).0
  unfolding on_complete ending
  failure_is_quiet w id result cancelled clock (inl stopped) =
      quiet w (get w.jobs id) id result (ending cfg result cancelled) clock (rw stopped refl)
        (rw stopped (ground arith))
  failure_is_quiet w id (ok r) true clock (inr (never_wakes, failed)) =
      quiet w (get w.jobs id) id (ok r) (ending cfg (ok r) true) clock refl (ground arith)
  failure_is_quiet w id (ok r) false clock (inr (never_wakes, failed)) =
      quiet w (get w.jobs id) id (ok r) (ending cfg (ok r) false) clock failed
        (rw (failed, never_wakes) refl)
  failure_is_quiet w id (err e) true clock (inr (never_wakes, failed)) =
      quiet w (get w.jobs id) id (err e) (ending cfg (err e) true) clock refl (ground arith)
  failure_is_quiet w id (err e) false clock (inr (never_wakes, failed)) =
      quiet w (get w.jobs id) id (err e) (ending cfg (err e) false) clock refl (rw never_wakes refl)
