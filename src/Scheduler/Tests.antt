-- ===== src/Scheduler/Tests.antt =====
-- The scheduler: the theorems at a concrete table.
use boba_claw.Prelude.{
  ℕ, ◌+◌, ◌≤◌, ◌≡◌, refl, String, Option, none, some, List, [], ◌∷◌, if◌then◌else◌, any, Text,
  codes, Result, ok, err,
}
use boba_claw.Scheduler.{
  Task, pending, running, find, has_id, insert, mark_running, cancel, list_due,
}
use boba_claw.Scheduler.Workers.{
  Board, empty_board, tally, add, claim, call_off, Reach, start, next,
}
use boba_claw.Scheduler.Claims.{ByStatus}
use boba_claw.Scheduler.Reached.{started_once, status_exact}
use boba_claw.Scheduler.Runner.{run_due_scheduled}
use boba_claw.Scheduler.Runs.{closed, run_due_scheduled_lem}

abbrev task : String → ℕ → Task
task id run_at = record {
  id = id;
  agent_group = "home";
  prompt = codes "ping";
  deliver_text = none;
  run_at = run_at;
  deliver_channel = none;
  deliver_peer = none;
  source_session_id = none;
  status = pending;
  created_at = 1;
  completed_at = none;
  last_error = none;
}

abbrev two_tasks : List Task
two_tasks = task "a" 5000 ∷ task "b" 9000 ∷ []

abbrev one_task : Board
one_task = record empty_board { tasks = task "a" 5000 ∷ [] }

abbrev claimed : Board
claimed = record one_task {
  tasks = record (task "a" 5000) { status = running } ∷ [];
  started = "a" ∷ [];
  working = "a" ∷ [];
}

-- A second worker comes too late, and so does a cancellation.
claimed-Reach : Reach claimed
unfolding insert mark_running cancel
claimed-Reach =
    next
      (next
        (next (next start (add "a" "home" (codes "ping") none 5000 none none none 1 refl))
          (claim "a"))
        (claim "a"))
      (call_off "a" 7)

started_once_example : tally "a" claimed.started + tally "a" claimed.called_off ≤ 1
started_once_example = started_once claimed-Reach "a"

status_exact_example :
    ByStatus
      (tally "a" claimed.started)
      (tally "a" claimed.working)
      (tally "a" claimed.called_off)
      running
status_exact_example =
    status_exact claimed-Reach "a" (record (task "a" 5000) { status = running }) refl

abbrev answer : Task → Result Text Text
answer t = ok (codes "pong")

abbrev no_outbox : String → Option String → Text → Result Text (Unit {0})
no_outbox channel peer text = err (codes "disk full")

some_time_later : Task → ℕ
some_time_later t = t.run_at + 4000

run_due_scheduled_lem_example :
    find "a" (run_due_scheduled answer no_outbox some_time_later two_tasks 6000)
    ≡ some (
        if any (has_id "a") (list_due two_tasks 6000)
        then closed answer no_outbox some_time_later (task "a" 5000)
        else task "a" 5000)
run_due_scheduled_lem_example =
    run_due_scheduled_lem answer no_outbox some_time_later two_tasks 6000 "a" (task "a" 5000)
      (refl, (refl, tt)) refl
