-- ===== src/Cron/Once.antt =====
-- One check after another of `run_due_cron` (crates/bobaclaw-scheduler/src/runner.rs).
use boba_claw.Prelude.{
  ℕ, ◌+◌, ◌≤◌, ◌≡◌, refl, inl, inr, String, true, Option, none, some, List, [], ◌∷◌, leb,
  Bool-cases, Text, Result, ok, err, arith, All, le→leb,
}
use boba_claw.Cron.{
  CronJobRow, record_run, last_run_at, CronState, fire_in, fire_at, has_run, text_of, close_run,
  fire, fire_if, run_job, run_jobs, run_due_cron, list_enabled,
}
use boba_claw.Cron.Last.{last-after, last-grows, first-before, earlier, past}

module _ (schedule : String → Option (ℕ → List ℕ)) (handle : CronJobRow → Result Text Text)
    (deliver : String → Option String → Text → Result Text (Unit {0}))
    (configured_channel configured_peer : String → Option String)
    (started_at ended_at : CronJobRow → ℕ) (tick_secs : ℕ) where
  -- A job that has run since its occurrence is left alone.
  fire_if-done :
      (st : CronState) (job : CronJobRow) (t l : ℕ)
      → last_run_at st.runs job.id ≡ some l
      → t ≤ l + 1000
      → fire_if schedule handle deliver configured_channel configured_peer started_at ended_at
          tick_secs st job
          (some t)
        ≡ st
  fire_if-done st job t l e le =
      let ran : leb t (l + 1000) ≡ true = le→leb t (l + 1000) le in rw (e, ran) refl

  fire_in-before :
      (after : Option (ℕ → List ℕ)) (now t : ℕ)
      → fire_in schedule handle deliver configured_channel configured_peer started_at ended_at
          tick_secs after now
        ≡ some t
      → t ≤ now
  fire_in-before none now t h = absurd (ground arith)
  fire_in-before (some after) now t h = first-before now _ t h

  -- A job whose occurrence, if there is one, is followed by a run.
  abbrev pub Settled : CronState → CronJobRow → Option ℕ → Type 0
  Settled st job o =
      (t : ℕ) → o ≡ some t → (l : ℕ) × (last_run_at st.runs job.id ≡ some l) × (t ≤ l + 1000)

  skip :
      (o : Option ℕ) (st : CronState) (job : CronJobRow)
      → Settled st job o
      → fire_if schedule handle deliver configured_channel configured_peer started_at ended_at
          tick_secs st job o
        ≡ st
  skip none st job settled = refl
  skip (some t) st job settled = let (l, e, le) = settled t refl in fire_if-done st job t l e le

  close_run-grows :
      (st : CronState) (job : CronJobRow) (id : String) (l : ℕ) (answer : Result Text Text)
      → last_run_at st.runs id ≡ some l
      → (m : ℕ) × (last_run_at
            (close_run schedule handle deliver configured_channel configured_peer started_at
              ended_at tick_secs st job answer).runs
            id
          ≡ some m)
        × (l ≤ m)
  close_run-grows st job id l (ok text) e = last-grows st.runs id job.id "done" (ended_at job) l e
  close_run-grows st job id l (err x) e = last-grows st.runs id job.id "failed" (ended_at job) l e

  run_done :
      (st : CronState) (job : CronJobRow) (answer : Result Text Text)
      → (l : ℕ) × (last_run_at
            (close_run schedule handle deliver configured_channel configured_peer started_at
              ended_at tick_secs
              (record st { runs = record_run st.runs job.id "started" (started_at job) })
              job
              answer).runs
            job.id
          ≡ some l)
        × (started_at job ≤ l)
  run_done st job answer =
      let (l, e, le) = last-after st.runs job.id "started" (started_at job) in
      let (m, em, lm) =
        close_run-grows (record st { runs = record_run st.runs job.id "started" (started_at job) })
          job job.id l answer e in
      (m, em, omega arith)

  fire-grows :
      (st : CronState) (job : CronJobRow) (id : String) (l : ℕ)
      → last_run_at st.runs id ≡ some l
      → (m : ℕ) × (last_run_at
            (fire schedule handle deliver configured_channel configured_peer started_at ended_at
              tick_secs st job).runs
            id
          ≡ some m)
        × (l ≤ m)
  fire-grows st job id l e =
      let (k, ek, lk) = last-grows st.runs id job.id "started" (started_at job) l e in
      let (m, em, lm) =
        close_run-grows (record st { runs = record_run st.runs job.id "started" (started_at job) })
          job id k
          (text_of schedule handle deliver configured_channel configured_peer started_at ended_at
            tick_secs job job.deliver_text)
          ek in
      (m, em, omega arith)

  fire_if-grows :
      (o : Option ℕ) (st : CronState) (job : CronJobRow) (id : String) (l : ℕ)
      → last_run_at st.runs id ≡ some l
      → (m : ℕ) × (last_run_at
            (fire_if schedule handle deliver configured_channel configured_peer started_at ended_at
              tick_secs st job o).runs
            id
          ≡ some m)
        × (l ≤ m)
  fire_if-grows none st job id l e = (l, e, omega arith)
  fire_if-grows (some t) st job id l e =
      elim (Bool-cases (
        has_run schedule handle deliver configured_channel configured_peer started_at ended_at
          tick_secs (last_run_at st.runs job.id) t)) [
            | inl ran ↦ (l, rw (ran) e, omega arith)
            | inr waits ↦ let (m, em, lm) = fire-grows st job id l e in (m, rw (waits) em, lm)
          ]

  stays :
      (o p : Option ℕ) (st : CronState) (job other : CronJobRow)
      → Settled st job o
      → Settled
          (fire_if schedule handle deliver configured_channel configured_peer started_at ended_at
            tick_secs st other p)
          job
          o
  stays o p st job other settled t e =
      let (l, el, le) = settled t e in
      let (m, em, lm) = fire_if-grows p st other job.id l el in (m, em, omega arith)

  has_run-found :
      (o : Option ℕ) (t : ℕ)
      → has_run schedule handle deliver configured_channel configured_peer started_at ended_at
          tick_secs o t
        ≡ true
      → (l : ℕ) × (o ≡ some l) × (t ≤ l + 1000)
  has_run-found none t h = absurd (ground arith)
  has_run-found (some l) t h = (l, refl, ground arith)

  settles :
      (o : Option ℕ) (st : CronState) (job : CronJobRow) (now : ℕ)
      → ((t : ℕ) → o ≡ some t → t ≤ now)
      → now ≤ started_at job
      → Settled
          (fire_if schedule handle deliver configured_channel configured_peer started_at ended_at
            tick_secs st job o)
          job
          o
  settles none st job now before late t e = absurd (ground arith)
  settles (some u) st job now before late t e =
      elim (Bool-cases (
        has_run schedule handle deliver configured_channel configured_peer started_at ended_at
          tick_secs (last_run_at st.runs job.id) u)) [
            | inl ran ↦
                let (l, el, le) = has_run-found (last_run_at st.runs job.id) u ran in
                (l, rw (ran) el, earlier u t (l + 1000) e le)
            | inr waits ↦
                let (m, em, lm) = run_done st job (
                  text_of schedule handle deliver configured_channel configured_peer started_at
                    ended_at tick_secs job job.deliver_text) in
                (m, rw (waits) em, past (before t e) late lm)
          ]

  -- Every job of the list is settled.
  abbrev pub AllSettled : CronState → List CronJobRow → ℕ → Type 0
  AllSettled st js now =
      All
        (λ j. Settled st j (
          fire_at schedule handle deliver configured_channel configured_peer started_at ended_at
            tick_secs j now))
        js

  run_jobs-stays :
      (js : List CronJobRow) (o : Option ℕ) (st : CronState) (job : CronJobRow) (now : ℕ)
      → Settled st job o
      → Settled
          (run_jobs schedule handle deliver configured_channel configured_peer started_at ended_at
            tick_secs st js now)
          job
          o
  unfolding run_job
  run_jobs-stays [] o st job now settled = settled
  run_jobs-stays (j ∷ js) o st job now settled =
      run_jobs-stays js o
        (run_job schedule handle deliver configured_channel configured_peer started_at ended_at
          tick_secs st j now)
        job now
        (stays o
          (fire_at schedule handle deliver configured_channel configured_peer started_at ended_at
            tick_secs j now)
          st job j settled)

  run_jobs-settles :
      (js : List CronJobRow) (st : CronState) (now : ℕ)
      → All (λ j. now ≤ started_at j) js
      → AllSettled
          (run_jobs schedule handle deliver configured_channel configured_peer started_at ended_at
            tick_secs st js now)
          js
          now
  unfolding run_job
  run_jobs-settles [] st now late = tt
  run_jobs-settles (j ∷ js) st now late = (
    run_jobs-stays js
        (fire_at schedule handle deliver configured_channel configured_peer started_at ended_at
          tick_secs j now)
        (run_job schedule handle deliver configured_channel configured_peer started_at ended_at
          tick_secs st j now)
        j now
        (settles
          (fire_at schedule handle deliver configured_channel configured_peer started_at ended_at
            tick_secs j now)
          st j now (fire_in-before (schedule j.cron_expr) now) late.0),
    run_jobs-settles js
        (run_job schedule handle deliver configured_channel configured_peer started_at ended_at
          tick_secs st j now)
        now late.1,
  )

  run_jobs-skips :
      (js : List CronJobRow) (st : CronState) (now later : ℕ)
      → All
          (λ j.
            fire_at schedule handle deliver configured_channel configured_peer started_at ended_at
              tick_secs j later
            ≡ fire_at schedule handle deliver configured_channel configured_peer started_at ended_at
                tick_secs j now)
          js
      → AllSettled st js now
      → run_jobs schedule handle deliver configured_channel configured_peer started_at ended_at
          tick_secs st js later
        ≡ st
  unfolding run_job
  run_jobs-skips [] st now later same settled = refl
  run_jobs-skips (j ∷ js) st now later same settled =
      rw
        (
          same.0,
          skip
              (fire_at schedule handle deliver configured_channel configured_peer started_at
                ended_at tick_secs j now)
              st j settled.0,
        )
        (run_jobs-skips js st now later same.1 settled.1)

  -- Let the start of every enabled job's run be recorded no earlier than the time of the first check, and
  -- let a later check find in its window, for every enabled job, what the first one found: the same
  -- occurrence, or none as well. The later check then changes nothing: whatever the agent answered and
  -- whether the delivery succeeded, no job runs or is delivered again.
  pub cron_fires_once :
      (st : CronState) (js : List CronJobRow) (now later : ℕ)
      → All (λ j. now ≤ started_at j) (list_enabled js)
      → All
          (λ j.
            fire_at schedule handle deliver configured_channel configured_peer started_at ended_at
              tick_secs j later
            ≡ fire_at schedule handle deliver configured_channel configured_peer started_at ended_at
                tick_secs j now)
          (list_enabled js)
      → run_due_cron schedule handle deliver configured_channel configured_peer started_at ended_at
          tick_secs
          (run_due_cron schedule handle deliver configured_channel configured_peer started_at
            ended_at tick_secs st js now)
          js
          later
        ≡ run_due_cron schedule handle deliver configured_channel configured_peer started_at
            ended_at tick_secs st js now
  unfolding run_due_cron
  cron_fires_once st js now later late same =
      run_jobs-skips (list_enabled js)
        (run_jobs schedule handle deliver configured_channel configured_peer started_at ended_at
          tick_secs st (list_enabled js) now)
        now later same (run_jobs-settles (list_enabled js) st now late)
