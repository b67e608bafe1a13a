-- ===== src/Scheduler/Runs.antt =====
-- What one tick does to the one-shot tasks when no one else changes the table.
use boba_claw.Prelude.{
  ℕ, ◌≡◌, refl, ap, subst, ◌∙◌, inl, inr, String, str_eq, eq_iff, eq_refl, true, false, Option,
  some, List, [], ◌∷◌, if◌then◌else◌, keep, any, All, All-map, All-both, Bool-cases, Text, Result,
  ok, err, ◌>>=◌, Result-cases, arith,
}
use boba_claw.Scheduler.{
  Task, running, done, failed, is_pending, find, has_id, pending_id, due, due_limit, list_due,
  order_by_run_at, mark_running, mark_done, mark_failed, update_where,
}
use boba_claw.Scheduler.Rows.{
  map?, change_if, Unique, find-update_where, update_where-Unique, any_pending, update_other,
}
use boba_claw.Scheduler.Order.{
  All-keep, All-order, All-take, keep-Unique, order-Unique, take-Unique, all_found, find-none,
  Other, Other-sym,
}
use boba_claw.Scheduler.Runner.{
  text_for, channel_or_cli, execute_scheduled_task, or_failed, run_one, run_each, run_due_scheduled,
}

abbrev set_running : Task → Task
set_running t = record t { status = running }

-- The claim of a pending row, and then an update of the row under its id.
claim_update :
    (change : Task → Task) (ts : List Task) (u : Task) (id : String)
    → ((t : Task) → (change t).id ≡ t.id)
    → find u.id ts ≡ some u
    → is_pending u.status ≡ true
    → find id (update_where (has_id u.id) change (update_where (pending_id u.id) set_running ts))
      ≡ (if str_eq u.id id then some (change (set_running u)) else find id ts)
claim_update change ts u id keeps f p =
    find-update_where (has_id u.id) change keeps id (update_where (pending_id u.id) set_running ts)
    ∙ ap (map? (change_if (has_id u.id) change))
        (find-update_where (pending_id u.id) set_running (λ t. refl) id ts)
    ∙ elim (Bool-cases (str_eq u.id id)) [
      | inl own ↦
          let found : find id ts ≡ some u =
            subst (λ k. find k ts ≡ some u) (ground (arith, eq_iff u.id id)) f in
          rw (own, found, p, eq_refl u.id, eq_refl u.id)
      | inr other ↦ rw (
        other,
        update_other (pending_id u.id) set_running u.id id ts (λ t h. ground arith) other,
        update_other (has_id u.id) change u.id id ts (λ t h. h) other,
      )
    ]

any-Other : (id : String) (ts : List Task) → All (Other id) ts → any (has_id id) ts ≡ false
any-Other id [] a = refl
any-Other id (t ∷ ts) a = rw (a.0) (any-Other id ts a.1)

some-injective : (o : Option Task) (t u : Task) → o ≡ some t → o ≡ some u → t ≡ u
some-injective o t u h k = ground arith

module _ (handle : Task → Result Text Text)
    (deliver : String → Option String → Text → Result Text (Unit {0}))
    (finished_at : Task → ℕ) where
  abbrev pub sent : Task → Result Text (Unit {0})
  sent task = do
    text ← text_for handle deliver finished_at task task.deliver_text
    deliver (channel_or_cli task.deliver_channel) task.deliver_peer text

  abbrev pub closed_by : Result Text (Unit {0}) → Task → ℕ → Task
  closed_by (ok u) t now = record t { status = done; completed_at = some now }
  closed_by (err e) t now = record t {
    status = failed;
    completed_at = some now;
    last_error = some e;
  }

  -- A task as the run leaves it.
  abbrev pub closed : Task → Task
  closed t = closed_by (sent t) t (finished_at t)

  execute_lem :
      (ts : List Task) (u : Task)
      → or_failed handle deliver finished_at ts u
          (execute_scheduled_task handle deliver finished_at ts u)
        ≡ elim (sent u) [
          | ok x ↦ mark_done ts u.id (finished_at u)
          | err e ↦ mark_failed ts u.id e (finished_at u)
        ]
  unfolding execute_scheduled_task
  execute_lem ts u = elim (Result-cases (text_for handle deliver finished_at u u.deliver_text)) [
    | inr (e, f) ↦ rw f
    | inl (text, f) ↦
        rw f (elim (Result-cases (deliver (channel_or_cli u.deliver_channel) u.deliver_peer text)) [
          | inr (e, g) ↦ rw g
          | inl (x, g) ↦ rw g
        ])
  ]

  -- One task of the run: it was pending, it is closed, and no other task has changed.
  run_one_lem :
      (ts : List Task) (u : Task) (id : String)
      → Unique ts
      → find u.id ts ≡ some u
      → is_pending u.status ≡ true
      → find id (run_one handle deliver finished_at ts u)
        ≡ (if str_eq u.id id then some (closed u) else find id ts)
  unfolding mark_running mark_done mark_failed
  run_one_lem ts u id q f p =
      let claimed = update_where (pending_id u.id) set_running ts in
      let won : any (pending_id u.id) ts ≡ true = any_pending u.id ts q ∙ rw (f, p) in
      rw (won, execute_lem claimed u)
        (elim (Result-cases (sent u)) [
          | inl (x, e) ↦ rw e (
              claim_update (λ t. record t { status = done; completed_at = some (finished_at u) }) ts
                u id (λ t. refl) f p)
          | inr (x, e) ↦ rw e (
              claim_update
                (λ t. record t {
                  status = failed;
                  completed_at = some (finished_at u);
                  last_error = some x;
                })
                ts u id (λ t. refl) f p)
        ])

  run_one-Unique :
      (ts : List Task) (u : Task) → Unique ts → Unique (run_one handle deliver finished_at ts u)
  unfolding mark_running mark_done mark_failed
  run_one-Unique ts u q =
      let claimed = update_where (pending_id u.id) set_running ts in
      let unique = update_where-Unique (pending_id u.id) set_running (λ t. refl) ts q in
      elim (Bool-cases (any (pending_id u.id) ts)) [
        | inr lost ↦ rw lost unique
        | inl won ↦
            rw (won, execute_lem claimed u)
              (elim (Result-cases (sent u)) [
                | inl (x, e) ↦ rw e (update_where-Unique (has_id u.id) _ (λ t. refl) claimed unique)
                | inr (x, e) ↦ rw e (update_where-Unique (has_id u.id) _ (λ t. refl) claimed unique)
              ])
      ]

  -- The rows of a list are pending rows of the table.
  abbrev Listed : List Task → Task → Type 0
  Listed ts u = (find u.id ts ≡ some u) × (is_pending u.status ≡ true)

  run_each_lem :
      (us ts : List Task) (id : String) (t : Task)
      → Unique ts
      → Unique us
      → All (Listed ts) us
      → find id ts ≡ some t
      → find id (run_each handle deliver finished_at ts us)
        ≡ some (if any (has_id id) us then closed t else t)
  run_each_lem [] ts id t q w a f = f
  run_each_lem (u ∷ us) ts id t q w a f =
      let (found, p) = a.0 in
      let after = run_one handle deliver finished_at ts u in
      let q' = run_one-Unique ts u q in
      let still : All (Listed after) us =
        All-both (Listed ts) (Other u.id) (Listed after) us
          (λ x h k. (run_one_lem ts u x.id q found p ∙ rw (Other-sym u x k) (h.0), h.1)) a.1
          (find-none u.id us w.0) in
      elim (Bool-cases (str_eq u.id id)) [
        | inr other ↦
            rw other
              (run_each_lem us after id t q' w.1 still (run_one_lem ts u id q found p ∙ rw other f))
        | inl own ↦
            let same : u.id ≡ id = ground (arith, eq_iff u.id id) in
            let row : u ≡ t =
              some-injective (find id ts) u t (subst (λ k. find k ts ≡ some u) same found) f in
            let gone : any (has_id id) us ≡ false =
              any-Other id us (subst (λ k. All (Other k) us) same (find-none u.id us w.0)) in
            run_each_lem us after id (closed u) q' w.1 still
              (run_one_lem ts u id q found p ∙ rw own)
            ∙ rw (own, gone, row)
      ]

  -- A tick over a table with distinct ids that no one else changes: every task of the due list ends as
  -- the agent's answer and the delivery say, done if both succeed, failed with the error if one does
  -- not, with the clock of its own end as its completion time, and every other task is as it was.
  pub run_due_scheduled_lem :
      (ts : List Task) (now : ℕ) (id : String) (t : Task)
      → Unique ts
      → find id ts ≡ some t
      → find id (run_due_scheduled handle deliver finished_at ts now)
        ≡ some (if any (has_id id) (list_due ts now) then closed t else t)
  unfolding run_due_scheduled list_due
  run_due_scheduled_lem ts now id t q f =
      let waiting = keep (due now) ts in
      run_each_lem (list_due ts now) ts id t q
        (take-Unique due_limit (order_by_run_at waiting)
          (order-Unique waiting (keep-Unique (due now) ts q)))
        (All-take (Listed ts) due_limit (order_by_run_at waiting) (
          All-order (Listed ts) waiting (
            All-map (λ u. (find u.id ts ≡ some u) × (due now u ≡ true)) (Listed ts) waiting
              (λ u h. (h.0, ground (arith, h.1)))
              (All-keep (λ u. find u.id ts ≡ some u) (due now) ts (all_found ts q)))))
        f
