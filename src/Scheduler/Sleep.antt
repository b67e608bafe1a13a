-- ===== src/Scheduler/Sleep.antt =====
-- How long the loop sleeps.
use boba_claw.Prelude.{
  [], ◌∷◌, Bool-cases, String, str_eq, subst, ℕ, ◌+◌, ◌*◌, max, ◌≤◌, ◌≡◌, inl, inr, true, Option,
  none, some, List, keep, All, All-map, Option-cases, arith,
}
use boba_claw.Scheduler.{
  find, Task, is_pending, order_by_run_at, first_run_at, list_pending, next_pending_run_at,
}
use boba_claw.Scheduler.Runner.{next_sleep_duration, sleep_until, max_tick}
use boba_claw.Scheduler.Order.{empty_order, first-earliest, All-unkeep}

until_bound : (o : Option ℕ) (now tick : ℕ) → sleep_until o now tick ≤ tick
until_bound none now tick = omega arith
until_bound (some t) now tick = omega arith

-- Whether or not the table can be read, the loop sleeps at least a second, and at most the tick, which
-- is `tick_secs` seconds or five.
pub sleep_bounds :
    (ts : Option (List Task)) (now tick_secs : ℕ)
    → let sleep = next_sleep_duration ts now (max_tick tick_secs) in
      (1000 ≤ sleep) × (sleep ≤ max tick_secs 5 * 1000)
unfolding next_sleep_duration
sleep_bounds none now tick_secs = (omega arith, omega arith)
sleep_bounds (some ts) now tick_secs =
    (omega arith, omega (arith, until_bound (next_pending_run_at ts) now (max_tick tick_secs)))

all_wake :
    (ts : List Task) (now tick : ℕ)
    → All
        (λ t.
          is_pending t.status ≡ true
          → now + next_sleep_duration (some ts) now tick ≤ max t.run_at (now + 1000))
        ts
unfolding next_sleep_duration next_pending_run_at list_pending
all_wake ts now tick =
    let P =
      λ (t : Task). now + next_sleep_duration (some ts) now tick ≤ max t.run_at (now + 1000) in
    let waiting = keep (λ (t : Task). is_pending t.status) ts in
    All-unkeep P (λ t. is_pending t.status) ts
      (elim (Option-cases (first_run_at (order_by_run_at waiting))) [
        | inl e ↦ rw (empty_order waiting e) tt
        | inr (r, e) ↦
            All-map (λ t. r ≤ t.run_at) P waiting (λ t h. rw e (omega arith))
              (first-earliest waiting r e)
      ])

found-all {ℓ} :
    (P : Task → Type ℓ) (id : String) (ts : List Task) (t : Task)
    → All P ts
    → find id ts ≡ some t
    → P t
found-all P id [] t a h = absurd (ground arith)
found-all P id (x ∷ ts) t a h = elim (Bool-cases (str_eq x.id id)) [
  | inl own ↦ let same : x ≡ t = ground (arith, own) in subst P same a.0
  | inr other ↦ found-all P id ts t a.1 (ground (arith, other))
]

-- The loop wakes for every pending task in time: not after the task's `run_at`, or, where that is less
-- than a second away or past, after one second.
pub wakes_in_time :
    (ts : List Task) (now tick : ℕ) (id : String) (t : Task)
    → find id ts ≡ some t
    → is_pending t.status ≡ true
    → now + next_sleep_duration (some ts) now tick ≤ max t.run_at (now + 1000)
wakes_in_time ts now tick id t h p =
    found-all
      (λ x.
        is_pending x.status ≡ true
        → now + next_sleep_duration (some ts) now tick ≤ max x.run_at (now + 1000))
      id ts t (all_wake ts now tick) h p
