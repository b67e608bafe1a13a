-- ===== src/Background/Manager.antt =====
-- Running a subagent: crates/bobaclaw-agent/src/subagent/mod.rs and turn_context.rs.
--
-- The ledger of runs and the table of jobs are the state. The backends, with all that they start and what
-- that writes, are an argument. So are the fresh id, the clock's readings, the JSON text of
-- a summary and the text of a database error. The permit of the semaphore is at hand, and the events for
-- the display are left out.
use boba_claw.Prelude.{
  ℕ, ◌+◌, min, String, Bool, true, false, ◌||◌, not, Option, none, some, List, ◌++◌, if◌then◌else◌,
  leb, is_empty, Text, codes, text_eq, trim, Result, ok, err, pos,
}
use boba_claw.Sessions.{SqlError, SessionRow}
use boba_claw.ToolLoop.{decimal}
use boba_claw.Runs.{RunLedger, create_run, mark_started, mark_completed, mark_denied}
use boba_claw.Background.{SpawnJobRecord, link_subagent}
use boba_claw.Background.Completer.{SubagentRunResult, truncate}

pub record TurnContext : Type 0 where
  pub delegation_depth : ℕ
  pub parent_run_id : Option String
  pub run_id : Option String
  pub parent_session_id : String
  pub subagent_label : Option String

unfoldable pub parent_context : String → TurnContext
parent_context session_id = record {
  delegation_depth = 0;
  parent_run_id = none;
  run_id = none;
  parent_session_id = session_id;
  subagent_label = none;
}

-- `saturating_add` on a byte.
unfoldable pub child : TurnContext → Option String → TurnContext
child parent label = record {
  delegation_depth = min (parent.delegation_depth + 1) 255;
  parent_run_id = parent.run_id;
  run_id = none;
  parent_session_id = parent.parent_session_id;
  subagent_label = label;
}

abbrev pub or_active : Option String → Option String → Option String
or_active none active = active
or_active (some id) active = some id

unfoldable pub for_delegation : TurnContext → Option String → TurnContext
for_delegation ctx active_run_id = record ctx { run_id = or_active ctx.run_id active_run_id }

-- What the manager reads of `SubagentConfig`.
pub record SubagentConfig : Type 0 where
  pub enabled : Bool
  pub max_depth : ℕ
  pub default_backend : Text
  pub claude_code_enabled : Bool
  pub codex_enabled : Bool
  pub cursor_enabled : Bool

pub data Backend : Type 0 where
  native claude_code codex cursor : Backend

abbrev pub not_blank_or : Option Text → Text → Text
not_blank_or none default_backend = default_backend
not_blank_or (some name) default_backend =
    if is_empty (trim name) then default_backend else trim name

abbrev pub switched_on : Bool → Backend → Text → Result Text Backend
switched_on true b reason = ok b
switched_on false b reason = err reason

-- The `match` on the backend's name, up to the calls of the backends.
unfoldable pub choose_backend : SubagentConfig → Text → Result Text Backend
choose_backend cfg name =
    if text_eq name (codes "native")
    then ok native
    else if text_eq name (codes "claude-code") || text_eq name (codes "claude_code")
    then switched_on cfg.claude_code_enabled claude_code
        (codes "claude-code subagent backend is disabled in config")
    else if text_eq name (codes "codex")
    then switched_on cfg.codex_enabled codex (codes "codex subagent backend is disabled in config")
    else if text_eq name (codes "cursor")
    then switched_on cfg.cursor_enabled cursor
        (codes "cursor subagent backend is disabled in config")
    else err (codes "unknown subagent backend: " ++ name)

pub record Board : Type 0 where
  pub ledger : RunLedger
  pub jobs : List SpawnJobRecord

abbrev pub or_same : RunLedger → Result SqlError RunLedger → RunLedger
or_same l (ok l') = l'
or_same l (err e) = l

abbrev pub linked : List SpawnJobRecord → Option String → String → List SpawnJobRecord
linked js none subagent_id = js
linked js (some job_id) subagent_id = link_subagent js job_id subagent_id

module _ (cfg : SubagentConfig) (sessions : List SessionRow)
    (run_backend : Backend → TurnContext → Board → Board × Result Text SubagentRunResult)
    (summary_json : Option String → Text → Text → Option String → Text) (show : SqlError → Text)
    (created_at started_at closed_at denied_at : ℕ) where
  abbrev pub named : SubagentRunResult → String → SubagentRunResult
  named r subagent_id = record r {
    subagent_id = if is_empty (codes r.subagent_id) then subagent_id else r.subagent_id;
  }

  abbrev pub closed :
      Board
      → String
      → SubagentRunResult
      → Result SqlError RunLedger
      → Board × Result Text SubagentRunResult
  closed b subagent_id r (ok l) = (record b { ledger = l }, ok r)
  closed b subagent_id r (err e) = (
    record b {
      ledger =
          or_same b.ledger (
            mark_denied b.ledger subagent_id (codes "mark_completed failed: " ++ show e) denied_at);
    },
    err (show e),
  )

  unfoldable pub finalize_subagent_ledger :
      Board
      → String
      → Option String
      → Text
      → Text
      → Option String
      → Result Text SubagentRunResult
      → Board × Result Text SubagentRunResult
  finalize_subagent_ledger b subagent_id label task backend_name parent_run_id (ok r) =
      closed b subagent_id (named r subagent_id) (
        mark_completed b.ledger subagent_id r.exit_code
          (summary_json label (truncate task 200) backend_name parent_run_id) closed_at)
  finalize_subagent_ledger b subagent_id label task backend_name parent_run_id (err e) = (
    record b {
      ledger =
          or_same b.ledger
            (mark_denied b.ledger subagent_id (codes "subagent failed: " ++ e) denied_at);
    },
    ok (record {
      body = codes "subagent failed: " ++ e;
      exit_code = pos 1;
      subagent_id = subagent_id;
    }),
  )

  abbrev pub run_chosen :
      Board
      → TurnContext
      → String
      → Option String
      → Text
      → Text
      → Result Text Backend
      → Board × Result Text SubagentRunResult
  run_chosen b ctx subagent_id label task backend_name (err e) = (b, err e)
  run_chosen b ctx subagent_id label task backend_name (ok backend) =
      let child_ctx = record (child ctx label) { run_id = some subagent_id } in
      let outcome = run_backend backend child_ctx b in
      finalize_subagent_ledger outcome.0 subagent_id label task backend_name child_ctx.parent_run_id
        outcome.1

  abbrev pub run_started :
      Board
      → TurnContext
      → String
      → Option String
      → Text
      → Text
      → Option String
      → Result SqlError RunLedger
      → Board × Result Text SubagentRunResult
  run_started b ctx subagent_id label task backend_name job_id (err e) = (
    record b {
      ledger =
          or_same b.ledger
            (mark_denied b.ledger subagent_id (codes "mark_started failed: " ++ show e) denied_at);
    },
    err (show e),
  )
  run_started b ctx subagent_id label task backend_name job_id (ok l) =
      run_chosen (record { ledger = l; jobs = linked b.jobs job_id subagent_id }) ctx subagent_id
        label task backend_name (choose_backend cfg backend_name)

  abbrev pub run_created :
      Board
      → TurnContext
      → String
      → Option String
      → Text
      → Text
      → Option String
      → Result SqlError RunLedger
      → Board × Result Text SubagentRunResult
  run_created b ctx subagent_id label task backend_name job_id (err e) = (b, err (show e))
  run_created b ctx subagent_id label task backend_name job_id (ok l) =
      run_started (record b { ledger = l }) ctx subagent_id label task backend_name job_id
        (mark_started l subagent_id started_at)

  unfoldable pub run_sync :
      Board
      → TurnContext
      → String
      → Option String
      → String
      → Text
      → Option String
      → Option Text
      → Option String
      → Board × Result Text SubagentRunResult
  run_sync b ctx session_id request_id subagent_id task label backend job_id =
      let backend_name = not_blank_or backend cfg.default_backend in
      if not cfg.enabled
      then (b, err (codes "subagents are disabled in config (subagents.enabled: false)"))
      else if leb cfg.max_depth ctx.delegation_depth
      then (
        b,
        err (
            codes "nested subagents are not allowed (max_depth="
            ++ (decimal cfg.max_depth ++ codes ")")),
      )
      else run_created b ctx subagent_id label task backend_name job_id (
          create_run sessions b.ledger subagent_id (some session_id) request_id
            (codes "subagent-" ++ backend_name) created_at)
