-- ===== src/Background/Tests.antt =====
-- Background jobs: the theorems at a concrete table.
use boba_claw.Prelude.{
  trim, ℕ, ◌+◌, ◌-◌, ◌≡◌, refl, String, str_eq, Bool, true, false, ◌&&◌, Option, none, some, List,
  [], ◌∷◌, ◌++◌, if◌then◌else◌, ltb, Text, codes, Result, ok, err, arith, pos,
}
use boba_claw.Sessions.{SqlError, unique, StateDb, SessionRow, append_message}
use boba_claw.Sessions.Routes.{NormalizedRequest}
use boba_claw.Background.{
  SpawnJobRecord, running_job, insert_running, get, finalize, mark_notified, count_recent_wakes,
}
use boba_claw.Background.Completer.{
  SpawnFeedbackConfig, SubagentRunResult, Feedback, Clock, ending, on_complete, wake_request,
  truncate, hour,
}
use boba_claw.Background.Feedback.{Shows, ending_is_recorded}
use boba_claw.Background.Manager.{
  TurnContext, parent_context, SubagentConfig, Backend, native, Board, choose_backend, run_sync,
}
use boba_claw.Background.Delegation.{Ends, Strays, run_is_closed, rejected_backend-Strays}
use boba_claw.Background.Wakes.{others, wake_after_success}

abbrev session : SessionRow
session = record {
  id = "s";
  source = "cli";
  agent_group = "home";
  user_id = none;
  started_at = 1;
  ended_at = none;
  end_reason = none;
  message_count = 0;
}

abbrev database : StateDb
database = record { sessions = session ∷ []; messages = []; next_message_id = 1; routes = [] }

abbrev job : String → SpawnJobRecord
job id =
    running_job id "s" "home" "cli" (some "cli") none none (some "research") (codes "look") none
      none true 5000

abbrev board : Feedback
board = record { db = database; jobs = job "a" ∷ job "b" ∷ []; woken = []; presented = [] }

abbrev limit_of : ℕ → SpawnFeedbackConfig
limit_of n = record {
  notify_on_complete = true;
  wake_parent_on_complete = true;
  wake_on_failure = false;
  wake_max_per_hour_per_session = n;
  result_persist_chars = 4000;
}

abbrev outbox : String → Option (SpawnJobRecord → Text → Bool)
outbox channel = if str_eq channel "cli" then some (λ j text. true) else none

abbrev reply_turn :
    StateDb
    → List SpawnJobRecord
    → NormalizedRequest × Text
    → StateDb × List SpawnJobRecord × Result Text Text
reply_turn db js req = (db, js, ok (codes "thanks"))

abbrev clock : Clock
clock = record {
  finished_at = 4000000;
  appended_at = 4000001;
  notified_at = 4000002;
  wake_at = 4000003;
}

abbrev success : SubagentRunResult
success = record { body = codes "found"; exit_code = pos 0; subagent_id = "x" }

duplicate_key : insert_running database board.jobs (job "a") ≡ err unique
unfolding insert_running
duplicate_key = refl

ending_is_recorded_example :
    Shows
      (job "b")
      (ending (limit_of 10) (err (codes "no")) false)
      4000000
      "b"
      (on_complete (limit_of 10) outbox reply_turn board "b" (err (codes "no")) false clock).0.jobs
unfolding get
ending_is_recorded_example =
    ending_is_recorded (limit_of 10) outbox reply_turn (λ db js req k j h. h) board "b"
      (err (codes "no")) false clock (job "b") refl

-- With a limit of one, the first success of the hour does not wake the parent.
limit_one :
    (on_complete (limit_of 1) outbox reply_turn board "a" (ok success) false clock).0.woken ≡ []
unfolding on_complete ending get finalize mark_notified count_recent_wakes append_message truncate
limit_one = refl

wake_after_success_example :
    (on_complete (limit_of 2) outbox reply_turn board "a" (ok success) false clock).0.woken ≡ (
      if true && (true && ltb (others "a" "s" (4000003 - hour) board.jobs + 1) 2)
      then [] ++ wake_request (job "a") "a" (ending (limit_of 2) (ok success) false).preview ∷ []
      else [])
unfolding get
wake_after_success_example =
    wake_after_success (limit_of 2) outbox reply_turn board "a" (job "a") success clock refl refl
      refl (omega arith) (omega arith) refl

abbrev only_native : SubagentConfig
only_native = record {
  enabled = true;
  max_depth = 1;
  default_backend = codes "native";
  claude_code_enabled = false;
  codex_enabled = false;
  cursor_enabled = false;
}

abbrev empty_board : Board
empty_board = record { ledger = record { runs = []; events = [] }; jobs = [] }

abbrev failing : Backend → TurnContext → Board → Board × Result Text SubagentRunResult
failing backend ctx b = (b, err (codes "timed out"))

abbrev summary_of : Option String → Text → Text → Option String → Text
summary_of label task name parent = task

abbrev shown : SqlError → Text
shown e = codes "constraint failed"

run_is_closed_example : Ends "x" (
    run_sync only_native
      (session ∷ [])
      failing
      summary_of
      shown
      1
      2
      3
      4
      empty_board
      (parent_context "s")
      "s"
      none
      "x"
      (codes "look")
      none
      none
      none)
unfolding choose_backend parent_context
run_is_closed_example =
    run_is_closed only_native (session ∷ []) failing summary_of shown 1 2 3 4 empty_board
      (parent_context "s") "s" "x" none (codes "look") none none none refl (omega arith) refl refl
      native refl (λ c w h. h)

rejected_backend-Strays_example :
    Strays "x" (codes "codex subagent backend is disabled in config") (
      run_sync only_native
        (session ∷ [])
        failing
        summary_of
        shown
        1
        2
        3
        4
        empty_board
        (parent_context "s")
        "s"
        none
        "x"
        (codes "look")
        none
        (some (codes "codex"))
        none)
unfolding choose_backend parent_context trim
rejected_backend-Strays_example =
    rejected_backend-Strays only_native (session ∷ []) failing summary_of shown 1 2 3 4 empty_board
      (parent_context "s") "s" "x" none (codes "look") none (some (codes "codex")) none refl
      (omega arith) refl refl (codes "codex subagent backend is disabled in config") refl
