-- ===== src/Scheduler/Workers.antt =====
-- Several processes over one table of tasks: every statement of the store is a step, in any order.
-- A worker runs a task from the moment its `mark_running` has hit a row until it marks it done or
-- failed; `started`, `working` and `called_off` record the ids.
use boba_claw.Prelude.{
  ℕ, ◌≡◌, ◌≢◌, String, str_eq, Bool, Option, List, [], ◌∷◌, if◌then◌else◌, count, Text, ok,
}
use boba_claw.Scheduler.{Task, insert, mark_running, mark_done, mark_failed, cancel}

pub record Board : Type 0 where
  pub tasks : List Task
  pub started : List String
  pub working : List String
  pub called_off : List String

abbrev pub empty_board : Board
empty_board = record { tasks = []; started = []; working = []; called_off = [] }

abbrev pub log_if : Bool → String → List String → List String
log_if hit id ids = if hit then id ∷ ids else ids

-- Takes out the first occurrence.
abbrev pub without : String → List String → List String
without id [] = []
without id (k ∷ ks) = if str_eq k id then ks else k ∷ without id ks

abbrev pub tally : String → List String → ℕ
tally id = count (λ k. str_eq k id)

-- A claim comes from a `list_due` that may be stale: its id is any.
pub data Step : Board → Board → Type 0 where
  add :
      {b : Board} {tasks : List Task} {task : Task} (id agent_group : String) (prompt : Text)
      (deliver_text : Option Text) (run_at : ℕ) (channel peer session : Option String) (now : ℕ)
      → insert b.tasks id agent_group prompt deliver_text run_at channel peer session now
        ≡ ok (tasks, task)
      → Step b (record b { tasks = tasks })
  claim :
      {b : Board} (id : String)
      → Step b (record b {
        tasks = (mark_running b.tasks id).0;
        started = log_if (mark_running b.tasks id).1 id b.started;
        working = log_if (mark_running b.tasks id).1 id b.working;
      })
  complete :
      {b : Board} (id : String) (now : ℕ)
      → tally id b.working ≢ 0
      → Step b (record b { tasks = mark_done b.tasks id now; working = without id b.working })
  give_up :
      {b : Board} (id : String) (error : Text) (now : ℕ)
      → tally id b.working ≢ 0
      → Step b
          (record b { tasks = mark_failed b.tasks id error now; working = without id b.working })
  call_off :
      {b : Board} (id : String) (now : ℕ)
      → Step b (record b {
        tasks = (cancel b.tasks id now).0;
        called_off = log_if (cancel b.tasks id now).1 id b.called_off;
      })

pub data Reach : Board → Type 0 where
  start : Reach empty_board
  next : {b b' : Board} → Reach b → Step b b' → Reach b'
