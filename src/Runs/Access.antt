-- ===== src/Runs/Access.antt =====
-- Which runs an operation finds, and which an agent group may see (crates/bobaclaw-state/src/ledger.rs).
use boba_claw.Prelude.{
  ℕ, ◌≡◌, ◌↔◌, ◌⊎◌, refl, sym, ap, ◌∙◌, inl, inr, String, str_eq, eq_iff, false, Option, none, some,
  List, [], ◌∷◌, any, Text, Result, err, ℤ, Bool-cases, Option-cases, arith,
}
use boba_claw.Sessions.{SessionRow, SqlError, foreign_key}
use boba_claw.Runs.{
  RunEventKind, Payload, RunRow, RunLedger, run_is, update_run, append_event, set_capsule_dir,
  update_status, mark_started, mark_completed, mark_denied, find_run, verify_run_agent_group,
  group_of, owner, only,
}
use boba_claw.Runs.Replay.{any-update}

abbrev pub FailsUnknown : RunLedger → String → Result SqlError RunLedger → Type 0
FailsUnknown l id r = (r ≡ err foreign_key) ↔ (any (run_is id) l.runs ≡ false)

touch_fails :
    (l : RunLedger) (id : String) (f : RunRow → RunRow) (kind : RunEventKind) (payload : Payload)
    (now : ℕ)
    → ((r : RunRow) → (f r).id ≡ r.id)
    → FailsUnknown l id
        (append_event (record l { runs = update_run id f l.runs }) id kind payload now)
unfolding append_event
touch_fails l id f kind payload now same =
    rw (any-update l.runs id id f same) (elim (Bool-cases (any (run_is id) l.runs)) [
      | inl there ↦ rw there (λ h. absurd (ground arith), λ h. absurd (ground arith))
      | inr missing ↦ rw missing (λ h. refl, λ h. refl)
    ])

-- Saving the capsule, the start, the end and the denial of a run fail exactly if the ledger has no run
-- with that id; the failure is that of the event's key.
pub unknown_run_fails :
    (l : RunLedger) (id : String) (dir why summary : Text) (exit_code : ℤ) (now : ℕ)
    → FailsUnknown l id (set_capsule_dir l id dir now)
      × FailsUnknown l id (mark_started l id now)
      × FailsUnknown l id (mark_completed l id exit_code summary now)
      × FailsUnknown l id (mark_denied l id why now)
unfolding set_capsule_dir mark_started update_status mark_completed mark_denied
unknown_run_fails l id dir why summary exit_code now = (
  touch_fails l id _ _ _ now (λ r. refl),
  touch_fails l id _ _ _ now (λ r. refl),
  touch_fails l id _ _ _ now (λ r. refl),
  touch_fails l id _ _ _ now (λ r. refl),
)

abbrev pub Among : SessionRow → List SessionRow → Type 0
Among s [] = ⊥
Among s (t ∷ ts) = (s ≡ t) ⊎ Among s ts

group-session :
    (sid g : String) (ss : List SessionRow)
    → group_of (some sid) ss ≡ some g
    → (s : SessionRow) × Among s ss × (s.id ≡ sid) × (s.agent_group ≡ g)
group-session sid g [] h = absurd (ground arith)
group-session sid g (s ∷ ss) h = elim (Bool-cases (str_eq s.id sid)) [
  | inl own ↦ (s, inl refl, (eq_iff s.id sid).0 own, ground (arith, own))
  | inr other ↦ let (t, a, e, f) = group-session sid g ss (rw other at h) in (t, inr a, e, f)
]

only-some :
    (agent_group g : String) (o : Option String)
    → only agent_group o ≡ some g
    → (o ≡ some g) × (g ≡ agent_group)
only-some agent_group g none h = absurd (ground arith)
only-some agent_group g (some k) h = elim (Bool-cases (str_eq k agent_group)) [
  | inl own ↦
      let e : some k ≡ some g = rw own at h in (e, ground (arith, (eq_iff k agent_group).0 own))
  | inr other ↦ absurd (ground (arith, other))
]

owner-some :
    (o : Option RunRow) (sessions : List SessionRow) (g : String)
    → owner o sessions ≡ some g
    → (r : RunRow) × (s : SessionRow) × (o ≡ some r)
      × Among s sessions
      × (r.session_id ≡ some s.id)
      × (s.agent_group ≡ g)
owner-some none sessions g h = absurd (ground arith)
owner-some (some r) sessions g h = elim (Option-cases r.session_id) [
  | inl free ↦ absurd (ground (arith, free))
  | inr (sid, e) ↦
      let (s, among, same, group) = group-session sid g sessions (rw e at h) in
      (r, s, refl, among, e ∙ ap some (sym same), group)
]

abbrev pub Owned : RunLedger → List SessionRow → String → String → Type 0
Owned l sessions id g =
    (r : RunRow) × (s : SessionRow) × (find_run l.runs id ≡ some r)
    × Among s sessions
    × (r.session_id ≡ some s.id)
    × (s.agent_group ≡ g)

-- A run is shown to an agent group only if it belongs to a session of that group.
pub verified_is-Owned :
    (l : RunLedger) (sessions : List SessionRow) (id agent_group g : String)
    → verify_run_agent_group l sessions id agent_group ≡ some g
    → (g ≡ agent_group) × Owned l sessions id agent_group
unfolding verify_run_agent_group
verified_is-Owned l sessions id agent_group g h =
    let (e, same) = only-some agent_group g (owner (find_run l.runs id) sessions) h in
    let (r, s, row, among, sid, group) = owner-some (find_run l.runs id) sessions g e in
    (same, (r, s, row, among, sid, group ∙ same))
