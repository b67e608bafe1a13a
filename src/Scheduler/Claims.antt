-- ===== src/Scheduler/Claims.antt =====
-- Workers over one table: who started what.
use boba_claw.Prelude.{
  ℕ, ◌+◌, ◌≡◌, refl, sym, subst, ◌≢◌, inl, inr, String, str_eq, eq_iff, Bool, true, false, ◌&&◌,
  Option, none, some, List, [], ◌∷◌, if◌then◌else◌, any, Bool-cases, arith,
}
use boba_claw.Scheduler.{
  Task, Status, pending, running, done, failed, cancelled, is_pending, find, pending_id,
  mark_running,
}
use boba_claw.Scheduler.Rows.{
  map?, change_if, Unique, find-id, find-update_where, update_where-Unique, found_pending,
  any_pending, update_other,
}
use boba_claw.Scheduler.Workers.{Board, log_if, without, tally}

-- How often a task of a status was started, is being worked on, and was called off.
abbrev pub ByStatus : ℕ → ℕ → ℕ → Status → Type 0
ByStatus s w c pending = (s ≡ 0) × (w ≡ 0) × (c ≡ 0)
ByStatus s w c running = (s ≡ 1) × (w ≡ 1) × (c ≡ 0)
ByStatus s w c done = (s ≡ 1) × (w ≡ 0) × (c ≡ 0)
ByStatus s w c failed = (s ≡ 1) × (w ≡ 0) × (c ≡ 0)
ByStatus s w c cancelled = (s ≡ 0) × (w ≡ 0) × (c ≡ 1)

abbrev pub Ledger : ℕ → ℕ → ℕ → Option Task → Type 0
Ledger s w c none = (s ≡ 0) × (w ≡ 0) × (c ≡ 0)
Ledger s w c (some t) = ByStatus s w c t.status

abbrev pub Kept : Board → String → Type 0
Kept b id =
    Ledger (tally id b.started) (tally id b.working) (tally id b.called_off) (find id b.tasks)

pub record IsKept (b : Board) : Type 0 where
  pub ids : Unique b.tasks
  pub ledger : (id : String) → Kept b id

abbrev pub one_if : Bool → ℕ
one_if true = 1
one_if false = 0

pub tally-log_if :
    (hit : Bool) (id k : String) (ids : List String)
    → tally k (log_if hit id ids) ≡ one_if (hit && str_eq id k) + tally k ids
tally-log_if true id k ids = ground arith
tally-log_if false id k ids = ground arith

pub tally-without :
    (id k : String) (ids : List String)
    → tally id ids ≢ 0
    → tally k ids ≡ one_if (str_eq id k) + tally k (without id ids)
tally-without id k [] h = absurd (h refl)
tally-without id k (x ∷ xs) h = elim (Bool-cases (str_eq x id)) [
  | inl own ↦ let same : x ≡ id = ground (arith, eq_iff x id) in rw (own, same) (ground arith)
  | inr other ↦ rw other (ground (arith, tally-without id k xs (λ e. h (ground (arith, other, e)))))
]

claim_status :
    (s w c : ℕ) (t : Task) (st : Status)
    → t.status ≡ st
    → ByStatus s w c st
    → ByStatus
        (one_if (is_pending st) + s)
        (one_if (is_pending st) + w)
        c
        (if is_pending t.status then running else t.status)
claim_status s w c t pending e h = rw e (ground arith)
claim_status s w c t running e h = rw e (ground arith)
claim_status s w c t done e h = rw e (ground arith)
claim_status s w c t failed e h = rw e (ground arith)
claim_status s w c t cancelled e h = rw e (ground arith)

abbrev pub set_running : Task → Task
set_running t = record t { status = running }

claim_own :
    (s w c : ℕ) (id : String) (o : Option Task)
    → ((t : Task) → o ≡ some t → str_eq t.id id ≡ true)
    → Ledger s w c o
    → Ledger
        (one_if (found_pending o) + s)
        (one_if (found_pending o) + w)
        c
        (map? (change_if (pending_id id) set_running) o)
claim_own s w c id none own h = ground arith
claim_own s w c id (some t) own h =
    let moved = claim_status s w c t t.status refl h in
    elim (Bool-cases (is_pending t.status)) [
      | inl p ↦
          rw (own t refl, p)
            (subst (λ b. ByStatus (one_if b + s) (one_if b + w) c (if b then running else t.status))
              p moved)
      | inr p ↦
          rw (own t refl, p)
            (subst (λ b. ByStatus (one_if b + s) (one_if b + w) c (if b then running else t.status))
              p moved)
    ]

pub Ledger-ap :
    (s s' w w' c c' : ℕ) (o : Option Task)
    → s ≡ s'
    → w ≡ w'
    → c ≡ c'
    → Ledger s w c o
    → Ledger s' w' c' o
Ledger-ap s s' w w' c c' o es ew ec h = rw (sym es, sym ew, sym ec) h

pub same_id : (id k : String) → str_eq id k ≡ true → id ≡ k
same_id id k h = ground (arith, eq_iff id k)

-- What a conditional update of the row `id` adds to the entries of `k`: one if it was pending.
pub log_own :
    (b : Board) (id k : String)
    → Unique b.tasks
    → str_eq id k ≡ true
    → (any (pending_id id) b.tasks && str_eq id k) ≡ found_pending (find k b.tasks)
log_own b id k u own =
    rw (own, any_pending id b.tasks u, same_id id k own)
      (elim (Bool-cases (found_pending (find k b.tasks))) [ inl h ↦ rw h | inr h ↦ rw h ])

pub log_other :
    (hit : Bool) (id k : String) (n : ℕ) → str_eq id k ≡ false → n ≡ one_if (hit && str_eq id k) + n
log_other true id k n h = rw h (omega arith)
log_other false id k n h = omega arith

pub hits_own : (id : String) (t : Task) → pending_id id t ≡ true → str_eq t.id id ≡ true
hits_own id t h = ground arith

pub claim-Kept :
    (b : Board) (id : String)
    → IsKept b
    → IsKept (record b {
      tasks = (mark_running b.tasks id).0;
      started = log_if (mark_running b.tasks id).1 id b.started;
      working = log_if (mark_running b.tasks id).1 id b.working;
    })
unfolding mark_running
claim-Kept b id v =
    let hit = any (pending_id id) b.tasks in
    record {
      ids = update_where-Unique (pending_id id) set_running (λ t. refl) b.tasks v.ids;
      ledger = λ k.
          rw
            (
              find-update_where (pending_id id) set_running (λ t. refl) k b.tasks,
              tally-log_if hit id k b.started,
              tally-log_if hit id k b.working,
            )
            (elim (Bool-cases (str_eq id k)) [
              | inl own ↦ rw (log_own b id k v.ids own) (
                  claim_own (tally k b.started) (tally k b.working) (tally k b.called_off) id
                    (find k b.tasks) (λ t f. rw (same_id id k own) (find-id k b.tasks t f))
                    (v.ledger k))
              | inr other ↦
                  rw (update_other (pending_id id) set_running id k b.tasks (hits_own id) other) (
                    Ledger-ap _ _ _ _ _ _ (find k b.tasks)
                      (log_other hit id k (tally k b.started) other)
                      (log_other hit id k (tally k b.working) other) refl (v.ledger k))
            ]);
    }
