-- ===== src/Scheduler/Order.antt =====
-- The listings of the table: their order, and what they keep of the rows.
use boba_claw.Prelude.{
  ℕ, zero, suc, min, ◌≤◌, ◌≡◌, refl, ap, subst, inl, inr, String, str_eq, eq_iff, eq_refl, Bool,
  true, false, Option, none, some, List, [], ◌∷◌, leb, take, keep, All, All-map, All-both,
  Bool-cases, Option-cases, arith,
}
use boba_claw.Scheduler.{Task, find, place, order_by_run_at, first_run_at}
use boba_claw.Scheduler.Rows.{Unique}

abbrev earlier : ℕ → Option ℕ → ℕ
earlier n none = n
earlier n (some m) = min n m

first-place :
    (t : Task) (us : List Task)
    → first_run_at (place t us) ≡ some (earlier t.run_at (first_run_at us))
first-place t [] = refl
first-place t (u ∷ us) = elim (Bool-cases (leb t.run_at u.run_at)) [
  | inl h ↦ rw h (ap some (ground arith))
  | inr h ↦ rw h (ap some (ground arith))
]

pub empty_order : (ts : List Task) → first_run_at (order_by_run_at ts) ≡ none → ts ≡ []
empty_order [] h = refl
empty_order (t ∷ ts) h = absurd (ground (arith, first-place t (order_by_run_at ts)))

-- The first row of the listing is the earliest one.
pub first-earliest :
    (ts : List Task) (r : ℕ)
    → first_run_at (order_by_run_at ts) ≡ some r
    → All (λ t. r ≤ t.run_at) ts
first-earliest [] r h = tt
first-earliest (t ∷ ts) r h = elim (Option-cases (first_run_at (order_by_run_at ts))) [
  | inl e ↦
      let now = first-place t (order_by_run_at ts) in
      rw (empty_order ts e) (ground (arith, now), tt)
  | inr (m, e) ↦
      let now = first-place t (order_by_run_at ts) in
      let least : r ≡ min t.run_at m = ground (arith, now) in
      (
        omega arith,
        All-map (λ u. m ≤ u.run_at) (λ u. r ≤ u.run_at) ts (λ u k. omega arith)
            (first-earliest ts m e),
      )
]

module _ {ℓ} (P : Task → Type ℓ) where
  pub All-keep :
      (p : Task → Bool) (ts : List Task) → All P ts → All (λ t. P t × (p t ≡ true)) (keep p ts)
  All-keep p [] a = tt
  All-keep p (t ∷ ts) a = elim (Bool-cases (p t)) [
    | inl h ↦ rw h ((a.0, h), All-keep p ts a.1)
    | inr h ↦ rw h (All-keep p ts a.1)
  ]

  keep_hit :
      (p : Task → Bool) (t : Task) (ts : List Task) → p t ≡ true → keep p (t ∷ ts) ≡ t ∷ keep p ts
  keep_hit p t ts h = rw h

  keep_miss :
      (p : Task → Bool) (t : Task) (ts : List Task) → p t ≡ false → keep p (t ∷ ts) ≡ keep p ts
  keep_miss p t ts h = rw h

  pub All-unkeep :
      (p : Task → Bool) (ts : List Task) → All P (keep p ts) → All (λ t. p t ≡ true → P t) ts
  All-unkeep p [] a = tt
  All-unkeep p (t ∷ ts) a = elim (Bool-cases (p t)) [
    | inl h ↦ let b = subst (All P) (keep_hit p t ts h) a in (λ e. b.0, All-unkeep p ts b.1)
    | inr h ↦
        (λ e. absurd (ground (arith, h, e)), All-unkeep p ts (subst (All P) (keep_miss p t ts h) a))
  ]

  All-place : (t : Task) (us : List Task) → P t → All P us → All P (place t us)
  All-place t [] p a = (p, tt)
  All-place t (u ∷ us) p a = elim (Bool-cases (leb t.run_at u.run_at)) [
    | inl h ↦ rw h (p, a)
    | inr h ↦ rw h (a.0, All-place t us p a.1)
  ]

  pub All-order : (ts : List Task) → All P ts → All P (order_by_run_at ts)
  All-order [] a = tt
  All-order (t ∷ ts) a = All-place t (order_by_run_at ts) a.0 (All-order ts a.1)

  pub All-take : (n : ℕ) (ts : List Task) → All P ts → All P (take n ts)
  All-take zero ts a = tt
  All-take (suc n) [] a = tt
  All-take (suc n) (t ∷ ts) a = (a.0, All-take n ts a.1)

abbrev pub Other : String → Task → Type 0
Other id t = str_eq t.id id ≡ false

pub find-none : (id : String) (ts : List Task) → find id ts ≡ none → All (Other id) ts
find-none id [] h = tt
find-none id (t ∷ ts) h = elim (Bool-cases (str_eq t.id id)) [
  | inl own ↦ absurd (ground (arith, own))
  | inr other ↦ (other, find-none id ts (ground (arith, other)))
]

pub none-find : (id : String) (ts : List Task) → All (Other id) ts → find id ts ≡ none
none-find id [] a = refl
none-find id (t ∷ ts) a = rw (a.0) (none-find id ts a.1)

pub Other-sym : (t u : Task) → Other t.id u → Other u.id t
Other-sym t u h = ground (arith, eq_iff t.id u.id, eq_refl t.id)

All-weaken :
    (id : String) (p : Task → Bool) (ts : List Task)
    → All (λ t. Other id t × (p t ≡ true)) ts
    → All (Other id) ts
All-weaken id p ts a = All-map (λ t. Other id t × (p t ≡ true)) (Other id) ts (λ t h. h.0) a

pub keep-Unique : (p : Task → Bool) (ts : List Task) → Unique ts → Unique (keep p ts)
keep-Unique p [] u = tt
keep-Unique p (t ∷ ts) u = elim (Bool-cases (p t)) [
  | inl h ↦ rw h (
    none-find t.id (keep p ts)
        (All-weaken t.id p (keep p ts) (All-keep (Other t.id) p ts (find-none t.id ts u.0))),
    keep-Unique p ts u.1,
  )
  | inr h ↦ rw h (keep-Unique p ts u.1)
]

place-Unique : (t : Task) (us : List Task) → find t.id us ≡ none → Unique us → Unique (place t us)
place-Unique t [] h u = (refl, tt)
place-Unique t (x ∷ xs) h u = elim (Bool-cases (leb t.run_at x.run_at)) [
  | inl k ↦ rw k (h, u)
  | inr k ↦
      let others = find-none t.id (x ∷ xs) h in
      rw k (
        none-find x.id (place t xs)
            (All-place (Other x.id) t xs (Other-sym t x others.0) (find-none x.id xs u.0)),
        place-Unique t xs (none-find t.id xs others.1) u.1,
      )
]

pub order-Unique : (ts : List Task) → Unique ts → Unique (order_by_run_at ts)
order-Unique [] u = tt
order-Unique (t ∷ ts) u =
    place-Unique t (order_by_run_at ts)
      (none-find t.id (order_by_run_at ts) (All-order (Other t.id) ts (find-none t.id ts u.0)))
      (order-Unique ts u.1)

pub take-Unique : (n : ℕ) (ts : List Task) → Unique ts → Unique (take n ts)
take-Unique zero ts u = tt
take-Unique (suc n) [] u = tt
take-Unique (suc n) (t ∷ ts) u = (
  none-find t.id (take n ts) (All-take (Other t.id) n ts (find-none t.id ts u.0)),
  take-Unique n ts u.1,
)

-- Every row is found under its id.
pub all_found : (ts : List Task) → Unique ts → All (λ t. find t.id ts ≡ some t) ts
all_found [] u = tt
all_found (t ∷ ts) u = (
  rw (eq_refl t.id) refl,
  All-both (λ x. find x.id ts ≡ some x) (Other t.id) (λ x. find x.id (t ∷ ts) ≡ some x) ts
      (λ x h k. rw (Other-sym t x k) h) (all_found ts u.1) (find-none t.id ts u.0),
)
