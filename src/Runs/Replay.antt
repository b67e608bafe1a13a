-- ===== src/Runs/Replay.antt =====
-- The table of runs says what the log of events says (crates/bobaclaw-state/src/ledger.rs).
use boba_claw.Prelude.{
  append-nil, ℕ, ◌≡◌, refl, sym, ap, ◌∙◌, inl, inr, String, str_eq, eq_refl, eq_iff, Bool, true,
  false, Option, none, some, List, [], ◌∷◌, ◌++◌, if◌then◌else◌, any, keep, keep-append, Text, ok,
  ℤ, is_zero, Bool-cases, arith,
}
use boba_claw.Sessions.{SessionRow}
use boba_claw.Runs.{
  RunStatus, RunEventKind, Payload, nothing, capsule, outcome, reason, RunRow, EventRow, RunLedger,
  RunRecord, run_is, update_run, append_event, create_run, set_capsule_dir, update_status,
  mark_started, mark_completed, mark_denied, final_status, final_event, status_str, parse_status,
  event_kind_str, to_record, find_run, record_of, get_run, in_table,
}

-- The abstract view of a run: what its events, one after the other, make of it.
abbrev pub with_payload : Payload → RunRecord → RunRecord
with_payload nothing r = r
with_payload (capsule dir) r = record r { capsule_dir = some dir }
with_payload (outcome code summary) r = record r { exit_code = some code; summary = some summary }
with_payload (reason why) r = record r { summary = some why }

abbrev pub blank : String → RunRecord
blank id = record {
  id = id;
  status = RunStatus.created;
  executor_profile = [];
  capsule_dir = none;
  exit_code = none;
  summary = none;
}

abbrev pub absorb : String → Option RunRecord → EventRow → Option RunRecord
absorb id none e = some (blank id)
absorb id (some r) e = some (with_payload e.payload (record r { status = parse_status e.kind }))

abbrev pub replay_from : String → Option RunRecord → List EventRow → Option RunRecord
replay_from id o [] = o
replay_from id o (e ∷ es) = replay_from id (absorb id o e) es

abbrev pub event_of : String → EventRow → Bool
event_of id e = str_eq e.run_id id

abbrev pub replay : String → List EventRow → Option RunRecord
replay id events = replay_from id none (keep (event_of id) events)

-- One operation of the program on the ledger, with whatever arguments.
pub data Step (sessions : List SessionRow) : RunLedger → RunLedger → Type 0 where
  creates :
      {l l' : RunLedger} (run_id : String) (session_id request_id : Option String) (profile : Text)
      (now : ℕ)
      → create_run sessions l run_id session_id request_id profile now ≡ ok l'
      → Step sessions l l'
  saves :
      {l l' : RunLedger} (run_id : String) (dir : Text) (now : ℕ)
      → set_capsule_dir l run_id dir now ≡ ok l'
      → Step sessions l l'
  starts :
      {l l' : RunLedger} (run_id : String) (now : ℕ)
      → mark_started l run_id now ≡ ok l'
      → Step sessions l l'
  ends :
      {l l' : RunLedger} (run_id : String) (exit_code : ℤ) (summary : Text) (now : ℕ)
      → mark_completed l run_id exit_code summary now ≡ ok l'
      → Step sessions l l'
  denies :
      {l l' : RunLedger} (run_id : String) (why : Text) (now : ℕ)
      → mark_denied l run_id why now ≡ ok l'
      → Step sessions l l'

abbrev pub no_runs : RunLedger
no_runs = record { runs = []; events = [] }

pub data Reach (sessions : List SessionRow) : RunLedger → Type 0 where
  begin : Reach sessions no_runs
  then_step : {l l' : RunLedger} → Reach sessions l → Step sessions l l' → Reach sessions l'

abbrev pub modified : (RunRow → RunRow) → Option RunRow → Option RunRow
modified f none = none
modified f (some r) = some (f r)

pub find-update :
    (rs : List RunRow) (id k : String) (f : RunRow → RunRow)
    → ((r : RunRow) → (f r).id ≡ r.id)
    → find_run (update_run id f rs) k
      ≡ (if str_eq k id then modified f (find_run rs k) else find_run rs k)
find-update [] id k f same = ground arith
find-update (r ∷ rs) id k f same =
    ground (arith, same r, eq_iff k id, eq_iff r.id id, eq_iff r.id k, find-update rs id k f same)

pub any-update :
    (rs : List RunRow) (id k : String) (f : RunRow → RunRow)
    → ((r : RunRow) → (f r).id ≡ r.id)
    → any (run_is k) (update_run id f rs) ≡ any (run_is k) rs
any-update [] id k f same = refl
any-update (r ∷ rs) id k f same = ground (arith, same r, any-update rs id k f same)

pub found :
    (rs : List RunRow) (id : String)
    → any (run_is id) rs ≡ true
    → (r : RunRow) × (find_run rs id ≡ some r)
found [] id h = absurd (ground arith)
found (r ∷ rs) id h = elim (Bool-cases (str_eq r.id id)) [
  | inl own ↦ (r, rw own refl)
  | inr other ↦ let (s, e) = found rs id (ground arith) in (s, rw other e)
]

absent : (rs : List RunRow) (id : String) → any (run_is id) rs ≡ false → find_run rs id ≡ none
absent [] id h = refl
absent (r ∷ rs) id h = elim (Bool-cases (str_eq r.id id)) [
  | inl own ↦ absurd (ground arith)
  | inr other ↦ rw other (absent rs id (ground arith))
]

abbrev or_row : Option RunRow → Option RunRow → Option RunRow
or_row none d = d
or_row (some r) d = some r

find-append :
    (rs : List RunRow) (r : RunRow) (k : String)
    → find_run (rs ++ r ∷ []) k ≡ or_row (find_run rs k) (if str_eq r.id k then some r else none)
find-append [] r k = refl
find-append (s ∷ rs) r k = ground (arith, find-append rs r k)

replay_from-append :
    (id : String) (o : Option RunRecord) (es : List EventRow) (e : EventRow)
    → replay_from id o (es ++ e ∷ []) ≡ absorb id (replay_from id o es) e
replay_from-append id o [] e = refl
replay_from-append id o (x ∷ es) e = replay_from-append id (absorb id o x) es e

replay-append :
    (id : String) (es : List EventRow) (e : EventRow)
    → replay id (es ++ e ∷ [])
      ≡ (if str_eq e.run_id id then absorb id (replay id es) e else replay id es)
replay-append id es e = elim (Bool-cases (str_eq e.run_id id)) [
  | inl own ↦
      rw (keep-append (event_of id) es (e ∷ []), own)
        (replay_from-append id none (keep (event_of id) es) e)
  | inr other ↦
      rw (keep-append (event_of id) es (e ∷ []), other, append-nil (keep (event_of id) es)) refl
]

-- The table agrees with the log on a run.
abbrev pub Agrees : RunLedger → String → Type 0
Agrees l id = get_run l id ≡ replay id l.events

abbrev pub new_event : String → RunEventKind → Payload → ℕ → EventRow
new_event id kind payload now = record {
  run_id = id;
  kind = event_kind_str kind;
  payload = payload;
  created_at = now;
}

appended :
    (l l' : RunLedger) (id : String) (kind : RunEventKind) (payload : Payload) (now : ℕ)
    → append_event l id kind payload now ≡ ok l'
    → (any (run_is id) l.runs ≡ true)
      × (l' ≡ record l { events = l.events ++ new_event id kind payload now ∷ [] })
unfolding append_event
appended l l' id kind payload now h = elim (Bool-cases (any (run_is id) l.runs)) [
  | inl there ↦ (there, ground (arith, there))
  | inr missing ↦ absurd (ground (arith, missing))
]

str_ne_sym : (a b : String) → str_eq a b ≡ false → str_eq b a ≡ false
str_ne_sym a b h = ground (arith, eq_iff a b, eq_iff b a)

-- An update of a run together with its event.
touched :
    (l l' : RunLedger) (id : String) (f : RunRow → RunRow) (kind : RunEventKind) (payload : Payload)
    (now : ℕ)
    → ((r : RunRow) → (f r).id ≡ r.id)
    → ((r : RunRow)
        → to_record (f r)
          ≡ with_payload payload
              (record (to_record r) { status = parse_status (event_kind_str kind) }))
    → append_event (record l { runs = update_run id f l.runs }) id kind payload now ≡ ok l'
    → ((k : String) → Agrees l k)
    → (k : String) → Agrees l' k
unfolding get_run
touched l l' id f kind payload now same agree h before k =
    let (there, e) =
      appended (record l { runs = update_run id f l.runs }) l' id kind payload now h in
    let (r, row) = found l.runs id (sym (any-update l.runs id id f same) ∙ there) in
    rw (e, find-update l.runs id k f same, replay-append k l.events (new_event id kind payload now))
      (elim (Bool-cases (str_eq k id)) [
        | inl own ↦
            let same_id : k ≡ id = (eq_iff k id).0 own in
            rw (same_id, eq_refl id, ← before id, row) (ap some (agree r))
        | inr other ↦ rw (other, str_ne_sym k id other) (before k)
      ])

or_row-none : (o : Option RunRow) → record_of (or_row o none) ≡ record_of o
or_row-none none = refl
or_row-none (some r) = refl

fresh :
    (sessions : List SessionRow) (l l' : RunLedger) (id : String)
    (session_id request_id : Option String) (profile : Text) (now : ℕ)
    → create_run sessions l id session_id request_id profile now ≡ ok l'
    → ((k : String) → Agrees l k)
    → (k : String) → Agrees l' k
unfolding get_run create_run
fresh sessions l l' id session_id request_id profile now h before k =
    elim (Bool-cases (any (run_is id) l.runs)) [
      | inl there ↦ absurd (ground (arith, there))
      | inr free ↦ elim (Bool-cases (in_table session_id sessions)) [
        | inr unknown ↦ absurd (ground (arith, free, unknown))
        | inl known ↦
            let added = rw (free, known) at h in
            let (there, e) = appended _ l' id RunEventKind.created nothing now added in
            rw
              (
                e,
                find-append l.runs _ k,
                replay-append k l.events (new_event id RunEventKind.created nothing now),
              )
              (elim (Bool-cases (str_eq id k)) [
                | inl own ↦
                    let same_id : id ≡ k = (eq_iff id k).0 own in
                    let none_yet : find_run l.runs id ≡ none = absent l.runs id free in
                    let empty : replay id l.events ≡ none =
                      sym (before id) ∙ ap record_of none_yet in
                    rw (← same_id, eq_refl id, none_yet, empty) refl
                | inr other ↦ rw other (or_row-none (find_run l.runs k) ∙ before k)
              ])
      ]
    ]

ended_agrees :
    (r : RunRow) (exit_code : ℤ) (summary : Text) (now : ℕ)
    → to_record (record r {
      status = status_str (final_status exit_code);
      exit_code = some exit_code;
      summary = some summary;
      updated_at = now;
    })
      ≡ with_payload
          (outcome exit_code summary)
          (record (to_record r) { status = parse_status (event_kind_str (final_event exit_code)) })
ended_agrees r exit_code summary now = elim (Bool-cases (is_zero exit_code)) [
  | inl fine ↦ rw fine refl
  | inr bad ↦ rw bad refl
]

step-Agrees :
    {sessions : List SessionRow} {l l' : RunLedger}
    → Step sessions l l'
    → ((k : String) → Agrees l k)
    → (k : String) → Agrees l' k
unfolding set_capsule_dir mark_started update_status mark_completed mark_denied
step-Agrees {sessions} {l} {l'} (creates id session_id request_id profile now h) before =
    fresh sessions l l' id session_id request_id profile now h before
step-Agrees {l = l} {l' = l'} (saves id dir now h) before =
    touched l l' id _ RunEventKind.script_saved (capsule dir) now (λ r. refl) (λ r. refl) h before
step-Agrees {l = l} {l' = l'} (starts id now h) before =
    touched l l' id _ RunEventKind.started nothing now (λ r. refl) (λ r. refl) h before
step-Agrees {l = l} {l' = l'} (ends id exit_code summary now h) before =
    touched l l' id _ (final_event exit_code) (outcome exit_code summary) now (λ r. refl)
      (λ r. ended_agrees r exit_code summary now) h before
step-Agrees {l = l} {l' = l'} (denies id why now h) before =
    touched l l' id _ RunEventKind.denied (reason why) now (λ r. refl) (λ r. refl) h before

-- After any operations of the program on an empty ledger, what `get_run` answers for an id is what its
-- events of the log, taken one after the other, make of a run: its status is that of the last event, and
-- the capsule, the exit code and the summary are the last ones that an event reported. An id without
-- events has no run.
pub get_run-replay :
    {sessions : List SessionRow} {l : RunLedger}
    → Reach sessions l
    → (id : String) → get_run l id ≡ replay id l.events
unfolding get_run
get_run-replay begin id = refl
get_run-replay (then_step r st) id = step-Agrees st (get_run-replay r) id
