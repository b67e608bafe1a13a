-- ===== src/Scheduler/Reached.antt =====
-- What holds of every table that workers can reach.
use boba_claw.Prelude.{
  ℕ, ◌+◌, ◌≤◌, ◌≡◌, refl, subst, ◌≢◌, ◌∙◌, inl, inr, String, str_eq, eq_iff, eq_refl, Bool, true,
  Option, none, some, List, [], ◌∷◌, ◌++◌, if◌then◌else◌, any, Bool-cases, Option-cases, Text, ok,
  arith,
}
use boba_claw.Scheduler.{
  Task, Status, pending, running, done, failed, cancelled, is_pending, find, has_id, pending_id,
  update_where, insert, mark_done, mark_failed, cancel,
}
use boba_claw.Scheduler.Rows.{
  map?, change_if, Unique, find-id, find-update_where, update_where-Unique, found_pending, any_id,
  find-append, update_other,
}
use boba_claw.Scheduler.Workers.{
  Board, log_if, without, tally, Step, add, claim, complete, give_up, call_off, Reach, start, next,
}
use boba_claw.Scheduler.Claims.{
  ByStatus, Ledger, IsKept, one_if, tally-log_if, tally-without, Ledger-ap, same_id, log_own,
  log_other, hits_own, claim-Kept,
}

abbrev set_cancelled : ℕ → Task → Task
set_cancelled now t = record t { status = cancelled; completed_at = some now }

cancel_status :
    (s w c : ℕ) (t : Task) (st : Status)
    → t.status ≡ st
    → ByStatus s w c st
    → ByStatus s w
        (one_if (is_pending st) + c)
        (if is_pending t.status then cancelled else t.status)
cancel_status s w c t pending e h = rw e (ground arith)
cancel_status s w c t running e h = rw e (ground arith)
cancel_status s w c t done e h = rw e (ground arith)
cancel_status s w c t failed e h = rw e (ground arith)
cancel_status s w c t cancelled e h = rw e (ground arith)

cancel_own :
    (s w c now : ℕ) (id : String) (o : Option Task)
    → ((t : Task) → o ≡ some t → str_eq t.id id ≡ true)
    → Ledger s w c o
    → Ledger s w
        (one_if (found_pending o) + c)
        (map? (change_if (pending_id id) (set_cancelled now)) o)
cancel_own s w c now id none own h = ground arith
cancel_own s w c now id (some t) own h =
    let goal = λ (b : Bool). ByStatus s w (one_if b + c) (if b then cancelled else t.status) in
    let moved = cancel_status s w c t t.status refl h in
    elim (Bool-cases (is_pending t.status)) [
      | inl p ↦ rw (own t refl, p) (subst goal p moved)
      | inr p ↦ rw (own t refl, p) (subst goal p moved)
    ]

call_off-Kept :
    (b : Board) (id : String) (now : ℕ)
    → IsKept b
    → IsKept (record b {
      tasks = (cancel b.tasks id now).0;
      called_off = log_if (cancel b.tasks id now).1 id b.called_off;
    })
unfolding cancel
call_off-Kept b id now v =
    let hit = any (pending_id id) b.tasks in
    record {
      ids = update_where-Unique (pending_id id) (set_cancelled now) (λ t. refl) b.tasks v.ids;
      ledger = λ k.
          rw
            (
              find-update_where (pending_id id) (set_cancelled now) (λ t. refl) k b.tasks,
              tally-log_if hit id k b.called_off,
            )
            (elim (Bool-cases (str_eq id k)) [
              | inl own ↦ rw (log_own b id k v.ids own) (
                  cancel_own (tally k b.started) (tally k b.working) (tally k b.called_off) now id
                    (find k b.tasks) (λ t f. rw (same_id id k own) (find-id k b.tasks t f))
                    (v.ledger k))
              | inr other ↦
                  rw
                    (update_other (pending_id id) (set_cancelled now) id k b.tasks (hits_own id)
                      other)
                    (Ledger-ap _ _ _ _ _ _ (find k b.tasks) refl refl
                      (log_other hit id k (tally k b.called_off) other) (v.ledger k))
            ]);
    }

-- A task that is being worked on runs, so closing it is right.
closed_status : (s w c : ℕ) (st : Status) → w ≢ 0 → ByStatus s w c st → (s ≡ 1) × (w ≡ 1) × (c ≡ 0)
closed_status s w c pending n h = absurd (ground arith)
closed_status s w c running n h = h
closed_status s w c done n h = absurd (ground arith)
closed_status s w c failed n h = absurd (ground arith)
closed_status s w c cancelled n h = absurd (ground arith)

module _ (id : String) (change : Task → Task) (keeps_id : (t : Task) → (change t).id ≡ t.id)
    (closes : (t : Task) (s c : ℕ) → s ≡ 1 → c ≡ 0 → ByStatus s 0 c (change t).status) where
  close_own :
      (s w w' c : ℕ) (o : Option Task)
      → ((t : Task) → o ≡ some t → str_eq t.id id ≡ true)
      → w ≢ 0
      → w ≡ 1 + w'
      → Ledger s w c o
      → Ledger s w' c (map? (change_if (has_id id) change) o)
  close_own s w w' c none own n e h = absurd (ground arith)
  close_own s w w' c (some t) own n e h =
      let (es, ew, ec) = closed_status s w c t.status n h in
      let left : w' ≡ 0 = omega arith in rw (own t refl, left) (closes t s c es ec)

  close-Kept :
      (b : Board)
      → tally id b.working ≢ 0
      → IsKept b
      → IsKept (record b {
        tasks = update_where (has_id id) change b.tasks;
        working = without id b.working;
      })
  close-Kept b n v = record {
    ids = update_where-Unique (has_id id) change keeps_id b.tasks v.ids;
    ledger = λ k.
        rw (find-update_where (has_id id) change keeps_id k b.tasks)
          (elim (Bool-cases (str_eq id k)) [
            | inl own ↦
                let same = same_id id k own in
                close_own (tally k b.started) (tally k b.working) (tally k (without id b.working))
                  (tally k b.called_off) (find k b.tasks) (λ t f. rw same (find-id k b.tasks t f))
                  (subst (λ x. tally x b.working ≢ 0) same n)
                  (subst (λ h. tally k b.working ≡ one_if h + tally k (without id b.working)) own
                    (tally-without id k b.working n))
                  (v.ledger k)
            | inr other ↦ rw (update_other (has_id id) change id k b.tasks (λ t h. h) other) (
                Ledger-ap _ _ _ _ _ _ (find k b.tasks) refl
                  (subst (λ h. tally k b.working ≡ one_if h + tally k (without id b.working)) other
                      (tally-without id k b.working n)
                    ∙ omega arith)
                  refl (v.ledger k))
          ]);
  }

add_parts :
    (ts ts' : List Task) (t : Task) (id agent_group : String) (prompt : Text)
    (deliver_text : Option Text) (run_at : ℕ) (channel peer session : Option String) (now : ℕ)
    → insert ts id agent_group prompt deliver_text run_at channel peer session now ≡ ok (ts', t)
    → (find id ts ≡ none) × (ts' ≡ ts ++ t ∷ []) × (t.id ≡ id) × (t.status ≡ pending)
unfolding insert
add_parts ts ts' t id agent_group prompt deliver_text run_at channel peer session now h =
    elim (Bool-cases (any (has_id id) ts)) [
      | inl taken ↦ absurd (ground (arith, taken))
      | inr free ↦
          (any_id id ts free, ground (arith, free), ground (arith, free), ground (arith, free))
    ]

append-Unique :
    (ts : List Task) (t : Task) → Unique ts → find t.id ts ≡ none → Unique (ts ++ t ∷ [])
append-Unique [] t u h = (refl, tt)
append-Unique (x ∷ xs) t u h = elim (Bool-cases (str_eq x.id t.id)) [
  | inl own ↦ absurd (ground (arith, own))
  | inr other ↦ (
    find-append x.id xs t
        ∙ rw (u.0) (ground (arith, eq_iff x.id t.id, eq_iff t.id x.id, eq_refl t.id, other)),
    append-Unique xs t u.1 (ground (arith, other)),
  )
]

add-Kept :
    (b : Board) (ts : List Task) (t : Task)
    → find t.id b.tasks ≡ none
    → ts ≡ b.tasks ++ t ∷ []
    → t.status ≡ pending
    → IsKept b
    → IsKept (record b { tasks = ts })
add-Kept b ts t free e st v = record {
  ids = rw e (append-Unique b.tasks t v.ids free);
  ledger = λ k.
      rw (e, find-append k b.tasks t)
        (elim (Option-cases (find k b.tasks)) [
          | inr (u, f) ↦ rw f (subst (Ledger _ _ _) f (v.ledger k))
          | inl f ↦
              let old =
                subst (Ledger (tally k b.started) (tally k b.working) (tally k b.called_off)) f
                  (v.ledger k) in
              rw f (elim (Bool-cases (str_eq t.id k)) [
                | inl own ↦ rw (own, st) old
                | inr other ↦ rw other old
              ])
        ]);
}

step-Kept : {b b' : Board} → Step b b' → IsKept b → IsKept b'
unfolding mark_done mark_failed
step-Kept {b}
      (add {tasks} {task} id agent_group prompt deliver_text run_at channel peer session now h) v =
    let (free, e, same, st) =
      add_parts b.tasks tasks task id agent_group prompt deliver_text run_at channel peer session
        now h in
    add-Kept b tasks task (rw same free) e st v
step-Kept {b} (claim id) v = claim-Kept b id v
step-Kept {b} (complete id now n) v =
    close-Kept id (λ t. record t { status = done; completed_at = some now }) (λ t. refl)
      (λ t s c es ec. (es, refl, ec)) b n v
step-Kept {b} (give_up id error now n) v =
    close-Kept id
      (λ t. record t { status = failed; completed_at = some now; last_error = some error })
      (λ t. refl) (λ t s c es ec. (es, refl, ec)) b n v
step-Kept {b} (call_off id now) v = call_off-Kept b id now v

pub Reach-IsKept : {b : Board} → Reach b → IsKept b
Reach-IsKept start = record { ids = tt; ledger = λ id. (refl, refl, refl) }
Reach-IsKept (next r s) = step-Kept s (Reach-IsKept r)

at_most_once : (s w c : ℕ) (o : Option Task) → Ledger s w c o → s + c ≤ 1
at_most_once s w c none h = omega arith
at_most_once s w c (some t) h = by_status t.status h
  where
    by_status : (st : Status) → ByStatus s w c st → s + c ≤ 1
    by_status pending k = omega arith
    by_status running k = omega arith
    by_status done k = omega arith
    by_status failed k = omega arith
    by_status cancelled k = omega arith

-- Whatever the workers do, in whatever order: no task is started twice, and none that was started is
-- called off, nor the other way around.
pub started_once :
    {b : Board} → Reach b → (id : String) → tally id b.started + tally id b.called_off ≤ 1
started_once {b} r id =
    at_most_once (tally id b.started) (tally id b.working) (tally id b.called_off) (find id b.tasks)
      ((Reach-IsKept r).ledger id)

-- The status of a stored task says, in every reachable table, how often it was started, whether a
-- worker has it, and whether it was called off.
pub status_exact :
    {b : Board}
    → Reach b
    → (id : String) (t : Task) → find id b.tasks ≡ some t
    → ByStatus (tally id b.started) (tally id b.working) (tally id b.called_off) t.status
status_exact {b} r id t h =
    subst (Ledger (tally id b.started) (tally id b.working) (tally id b.called_off)) h
      ((Reach-IsKept r).ledger id)
