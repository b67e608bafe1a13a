-- ===== src/Background/Delegation.antt =====
-- How the run of a subagent ends (crates/bobaclaw-agent/src/subagent/mod.rs).
use boba_claw.Prelude.{
  ℕ, ◌≤◌, ◌<◌, ◌≡◌, ◌⊎◌, refl, ap, inl, inr, String, true, false, not, Option, some, List, ◌++◌,
  leb, any, Text, codes, Result, ok, err, ℤ, is_zero, arith, Bool-cases,
}
use boba_claw.Sessions.{SqlError, SessionRow, has_session}
use boba_claw.Runs.{RunRecord, RunStatus, run_is, get_run, final_status}
use boba_claw.Runs.Touch.{started-Moves, completed-Moves, denied-Moves, create_succeeds}
use boba_claw.Background.Completer.{SubagentRunResult, truncate}
use boba_claw.Background.Manager.{
  TurnContext, parent_context, for_delegation, child, SubagentConfig, Backend, Board, not_blank_or,
  choose_backend, linked, finalize_subagent_ledger, run_sync,
}

-- The run is in the ledger with one of the statuses of an end.
abbrev pub IsClosed : RunStatus → Type 0
IsClosed s = (s ≡ RunStatus.completed) ⊎ ((s ≡ RunStatus.failed) ⊎ (s ≡ RunStatus.denied))

abbrev pub Ends : String → Board × Result Text SubagentRunResult → Type 0
Ends id (b, answer) =
    (r : RunRecord) × (get_run b.ledger id ≡ some r)
    × IsClosed r.status
    × ((s : SubagentRunResult) × (answer ≡ ok s))

abbrev pub Strays : String → Text → Board × Result Text SubagentRunResult → Type 0
Strays id why (b, answer) =
    (r : RunRecord) × (get_run b.ledger id ≡ some r)
    × (r.status ≡ RunStatus.started)
    × (answer ≡ err why)

final-IsClosed : (code : ℤ) → IsClosed (final_status code)
final-IsClosed code = elim (Bool-cases (is_zero code)) [
  | inl fine ↦ rw fine (inl refl)
  | inr bad ↦ rw bad (inr (inl refl))
]

module _ (cfg : SubagentConfig) (sessions : List SessionRow)
    (run_backend : Backend → TurnContext → Board → Board × Result Text SubagentRunResult)
    (summary_json : Option String → Text → Text → Option String → Text) (show : SqlError → Text)
    (created_at started_at closed_at denied_at : ℕ) where
  finalize-Ends :
      (b : Board) (id : String) (label : Option String) (task name : Text) (parent : Option String)
      (outcome : Result Text SubagentRunResult)
      → any (run_is id) b.ledger.runs ≡ true
      → Ends id (
          finalize_subagent_ledger cfg sessions run_backend summary_json show created_at started_at
            closed_at denied_at b id label task name parent outcome)
  unfolding finalize_subagent_ledger
  finalize-Ends b id label task name parent (ok r) there =
      let (l, done, still, (rec, row, status)) =
        completed-Moves b.ledger id r.exit_code (summary_json label (truncate task 200) name parent)
          closed_at there in
      rw done (rec, row, rw status (final-IsClosed r.exit_code), (_, refl))
  finalize-Ends b id label task name parent (err e) there =
      let (l, done, still, (rec, row, status)) =
        denied-Moves b.ledger id (codes "subagent failed: " ++ e) denied_at there in
      rw done (rec, row, inr (inr status), (_, refl))

  module _ (b : Board) (ctx : TurnContext) (session_id id : String) (request_id : Option String)
      (task : Text) (label : Option String) (backend : Option Text) (job_id : Option String)
      (on : cfg.enabled ≡ true) (shallow : ctx.delegation_depth < cfg.max_depth)
      (free : any (run_is id) b.ledger.runs ≡ false)
      (known : has_session session_id sessions ≡ true) where
    -- Where subagents are enabled and the depth allows one, for a new id and a session of the database,
    -- let the backend be one that may run and let it keep the run in the ledger. The run is then closed in
    -- the end, as completed, failed or denied, whether the backend succeeds or fails, and the caller has a
    -- result.
    pub run_is_closed :
        (chosen : Backend)
        → choose_backend cfg (not_blank_or backend cfg.default_backend) ≡ ok chosen
        → ((c : TurnContext) (w : Board)
            → any (run_is id) w.ledger.runs ≡ true
            → any (run_is id) (run_backend chosen c w).0.ledger.runs ≡ true)
        → Ends id (
            run_sync cfg sessions run_backend summary_json show created_at started_at closed_at
              denied_at b ctx session_id request_id id task label backend job_id)
    unfolding run_sync
    run_is_closed chosen choice keeps =
        let (l, made, there) =
          create_succeeds sessions b.ledger id session_id request_id
            (codes "subagent-" ++ not_blank_or backend cfg.default_backend) created_at free known in
        let (l', begun, still, status) = started-Moves l id started_at there in
        let off : not cfg.enabled ≡ false = ap not on in
        let deep : leb cfg.max_depth ctx.delegation_depth ≡ false = ground arith in
        rw (off, deep, made, begun, choice)
          (finalize-Ends
            (run_backend chosen (record (child ctx label) { run_id = some id })
              (record { ledger = l'; jobs = linked b.jobs job_id id })).0
            id label task (not_blank_or backend cfg.default_backend) (child ctx label).parent_run_id
            (run_backend chosen (record (child ctx label) { run_id = some id })
              (record { ledger = l'; jobs = linked b.jobs job_id id })).1
            (keeps (record (child ctx label) { run_id = some id })
              (record { ledger = l'; jobs = linked b.jobs job_id id }) still))

    -- In the same circumstances, let the backend be disabled or unknown. The caller has the error, and the
    -- run stays in the ledger as started.
    pub rejected_backend-Strays :
        (why : Text)
        → choose_backend cfg (not_blank_or backend cfg.default_backend) ≡ err why
        → Strays id why (
            run_sync cfg sessions run_backend summary_json show created_at started_at closed_at
              denied_at b ctx session_id request_id id task label backend job_id)
    unfolding run_sync
    rejected_backend-Strays why choice =
        let (l, made, there) =
          create_succeeds sessions b.ledger id session_id request_id
            (codes "subagent-" ++ not_blank_or backend cfg.default_backend) created_at free known in
        let (l', begun, still, (r, row, status)) = started-Moves l id started_at there in
        let off : not cfg.enabled ≡ false = ap not on in
        let deep : leb cfg.max_depth ctx.delegation_depth ≡ false = ground arith in
        rw (off, deep, made, begun, choice) (r, row, status, refl)

-- A context reached from a parent's by delegations that `run_sync` does not refuse.
pub data Delegated (max_depth : ℕ) : TurnContext → Type 0 where
  top : (session_id : String) → Delegated max_depth (parent_context session_id)
  down :
      {ctx : TurnContext} (label run_id active : Option String)
      → Delegated max_depth ctx
      → ctx.delegation_depth < max_depth
      → Delegated max_depth (record (child (for_delegation ctx active) label) { run_id = run_id })

-- With a limit that fits a byte, no turn is nested deeper than `max_depth`, however the turns delegate.
pub depth_bounded :
    {max_depth : ℕ} {ctx : TurnContext}
    → max_depth ≤ 255
    → Delegated max_depth ctx
    → ctx.delegation_depth ≤ max_depth
unfolding parent_context child for_delegation
depth_bounded byte (top session_id) = omega arith
depth_bounded byte (down label run_id active d shallow) = omega arith
