-- ===== src/Runs/Touch.antt =====
-- The operations on a run that is there succeed, and what its record says then
-- (crates/bobaclaw-state/src/ledger.rs).
use boba_claw.Prelude.{
  ℕ, ◌≡◌, refl, ◌∙◌, inl, inr, String, eq_refl, true, false, Option, none, some, List, [], ◌∷◌,
  ◌++◌, any, Text, Result, ok, ℤ, is_zero, Bool-cases, arith,
}
use boba_claw.Sessions.{SessionRow, SqlError, has_session}
use boba_claw.Runs.{
  RunStatus, RunEventKind, Payload, nothing, RunRow, RunLedger, RunRecord, run_is, update_run,
  append_event, create_run, update_status, mark_started, mark_completed, mark_denied, final_status,
  status_str, parse_status, to_record, get_run,
}
use boba_claw.Runs.Replay.{any-update, find-update, found, new_event}

-- The operation succeeds, the run is still there, and its record has the status.
abbrev pub Moves : Result SqlError RunLedger → String → RunStatus → Type 0
Moves m id status =
    (l' : RunLedger) × (m ≡ ok l')
    × (any (run_is id) l'.runs ≡ true)
    × ((r : RunRecord) × (get_run l' id ≡ some r) × (r.status ≡ status))

touch-Moves :
    (l : RunLedger) (id : String) (f : RunRow → RunRow) (kind : RunEventKind) (payload : Payload)
    (now : ℕ) (status : RunStatus)
    → ((r : RunRow) → (f r).id ≡ r.id)
    → ((r : RunRow) → parse_status (f r).status ≡ status)
    → any (run_is id) l.runs ≡ true
    → Moves
        (append_event (record l { runs = update_run id f l.runs }) id kind payload now)
        id
        status
unfolding append_event get_run
touch-Moves l id f kind payload now status same becomes there =
    let (r, row) = found l.runs id there in
    let still = any-update l.runs id id f same ∙ there in
    (
      record l {
        runs = update_run id f l.runs;
        events = l.events ++ new_event id kind payload now ∷ [];
      },
      rw still refl,
      still,
      (to_record (f r), rw (find-update l.runs id id f same, eq_refl id, row) refl, becomes r),
    )

final_status-parse : (code : ℤ) → parse_status (status_str (final_status code)) ≡ final_status code
final_status-parse code = elim (Bool-cases (is_zero code)) [
  | inl fine ↦ rw fine refl
  | inr bad ↦ rw bad refl
]

pub started-Moves :
    (l : RunLedger) (id : String) (now : ℕ)
    → any (run_is id) l.runs ≡ true
    → Moves (mark_started l id now) id RunStatus.started
unfolding mark_started update_status
started-Moves l id now there =
    touch-Moves l id _ _ _ now RunStatus.started (λ r. refl) (λ r. refl) there

pub completed-Moves :
    (l : RunLedger) (id : String) (code : ℤ) (summary : Text) (now : ℕ)
    → any (run_is id) l.runs ≡ true
    → Moves (mark_completed l id code summary now) id (final_status code)
unfolding mark_completed
completed-Moves l id code summary now there =
    touch-Moves l id _ _ _ now (final_status code) (λ r. refl) (λ r. final_status-parse code) there

pub denied-Moves :
    (l : RunLedger) (id : String) (why : Text) (now : ℕ)
    → any (run_is id) l.runs ≡ true
    → Moves (mark_denied l id why now) id RunStatus.denied
unfolding mark_denied
denied-Moves l id why now there =
    touch-Moves l id _ _ _ now RunStatus.denied (λ r. refl) (λ r. refl) there

any-last : (rs : List RunRow) (r : RunRow) → any (run_is r.id) (rs ++ r ∷ []) ≡ true
any-last [] r = rw (eq_refl r.id) refl
any-last (s ∷ rs) r = ground (arith, any-last rs r)

abbrev new_row : String → String → Option String → Text → ℕ → RunRow
new_row id sid request_id profile now = record {
  id = id;
  session_id = some sid;
  request_id = request_id;
  status = status_str RunStatus.created;
  executor_profile = profile;
  capsule_dir = none;
  exit_code = none;
  summary = none;
  created_at = now;
  updated_at = now;
}

pub create_succeeds :
    (sessions : List SessionRow) (l : RunLedger) (id sid : String) (request_id : Option String)
    (profile : Text) (now : ℕ)
    → any (run_is id) l.runs ≡ false
    → has_session sid sessions ≡ true
    → (l' : RunLedger) × (create_run sessions l id (some sid) request_id profile now ≡ ok l')
      × (any (run_is id) l'.runs ≡ true)
unfolding create_run append_event
create_succeeds sessions l id sid request_id profile now free known =
    let row : RunRow = new_row id sid request_id profile now in
    let there = any-last l.runs row in
    (
      record l {
        runs = l.runs ++ row ∷ [];
        events = l.events ++ new_event id RunEventKind.created nothing now ∷ [];
      },
      rw (free, known, there) refl,
      there,
    )
