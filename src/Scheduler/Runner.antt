-- ===== src/Scheduler/Runner.antt =====
-- crates/bobaclaw-scheduler/src/runner.rs: the tick over the one-shot tasks, and the sleep between
-- ticks. What the agent answers to a task and what a delivery comes to are arguments; what other
-- processes and the agent itself do to the table meanwhile is in Workers.antt.
use boba_claw.Prelude.{
  ℕ, ◌-◌, ◌*◌, min, max, String, Bool, true, false, Option, none, some, List, [], ◌∷◌,
  if◌then◌else◌, Text, is_empty, Result, ok, err, ◌>>=◌,
}
use boba_claw.Scheduler.{Task, list_due, mark_running, mark_done, mark_failed, next_pending_run_at}

abbrev pub channel_or_cli : Option String → String
channel_or_cli none = "cli"
channel_or_cli (some channel) = channel

-- `finished_at` is the clock as `mark_done` or `mark_failed` reads it for the task.
module _ (handle : Task → Result Text Text)
    (deliver : String → Option String → Text → Result Text (Unit {0}))
    (finished_at : Task → ℕ) where
  -- The fixed text, if it is not empty, else the agent's answer.
  abbrev pub text_for : Task → Option Text → Result Text Text
  text_for task none = handle task
  text_for task (some fixed) = if is_empty fixed then handle task else ok fixed

  unfoldable pub execute_scheduled_task : List Task → Task → Result Text (List Task)
  execute_scheduled_task ts task = do
    text ← text_for task task.deliver_text
    sent ← deliver (channel_or_cli task.deliver_channel) task.deliver_peer text
    ok (mark_done ts task.id (finished_at task))

  abbrev pub or_failed : List Task → Task → Result Text (List Task) → List Task
  or_failed ts task (ok after) = after
  or_failed ts task (err e) = mark_failed ts task.id e (finished_at task)

  abbrev pub run_claimed : List Task → Task → Bool → List Task
  run_claimed ts task false = ts
  run_claimed ts task true = or_failed ts task (execute_scheduled_task ts task)

  abbrev pub run_one : List Task → Task → List Task
  run_one ts task = let (claimed, won) = mark_running ts task.id in run_claimed claimed task won

  abbrev pub run_each : List Task → List Task → List Task
  run_each ts [] = ts
  run_each ts (task ∷ rest) = run_each (run_one ts task) rest

  -- The clock at the start of the tick says which tasks are due.
  unfoldable pub run_due_scheduled : List Task → ℕ → List Task
  run_due_scheduled ts now = run_each ts (list_due ts now)

-- `Duration::from_secs(tick_secs.max(5))`, in milliseconds.
abbrev pub max_tick : ℕ → ℕ
max_tick tick_secs = max tick_secs 5 * 1000

abbrev pub min_sleep : ℕ
min_sleep = 1000

abbrev pub sleep_until : Option ℕ → ℕ → ℕ → ℕ
sleep_until none now tick = tick
sleep_until (some t) now tick = min (t - now) tick

-- `none` if the database cannot be opened or read.
unfoldable pub next_sleep_duration : Option (List Task) → ℕ → ℕ → ℕ
next_sleep_duration none now tick = max tick min_sleep
next_sleep_duration (some ts) now tick =
    max (sleep_until (next_pending_run_at ts) now tick) min_sleep
