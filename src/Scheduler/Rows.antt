-- ===== src/Scheduler/Rows.antt =====
-- The rows of the table.
use boba_claw.Prelude.{
  ◌≡◌, refl, inl, inr, String, str_eq, eq_iff, eq_refl, Bool, true, false, Option, none, some, List,
  [], ◌∷◌, ◌++◌, if◌then◌else◌, any, Bool-cases, Option-cases, arith,
}
use boba_claw.Scheduler.{Task, is_pending, find, has_id, pending_id, update_where}

abbrev pub map? {ℓ κ} : {A : Type ℓ} {B : Type κ} → (A → B) → Option A → Option B
map? f none = none
map? f (some a) = some (f a)

abbrev pub change_if : (Task → Bool) → (Task → Task) → Task → Task
change_if hit change t = if hit t then change t else t

-- No two rows have one id: the primary key.
abbrev pub Unique : List Task → Type 0
Unique [] = Unit
Unique (t ∷ ts) = (find t.id ts ≡ none) × Unique ts

pub find-id :
    (id : String) (ts : List Task) (t : Task) → find id ts ≡ some t → str_eq t.id id ≡ true
find-id id [] t h = absurd (ground arith)
find-id id (u ∷ us) t h = elim (Bool-cases (str_eq u.id id)) [
  | inl own ↦ ground (arith, own)
  | inr other ↦ find-id id us t (ground (arith, other))
]

module _ (hit : Task → Bool) (change : Task → Task)
    (same_id : (t : Task) → (change t).id ≡ t.id) where
  pub change_if-id : (t : Task) → (change_if hit change t).id ≡ t.id
  change_if-id t = elim (Bool-cases (hit t)) [ inl h ↦ rw h (same_id t) | inr h ↦ rw h refl ]

  pub find-update_where :
      (id : String) (ts : List Task)
      → find id (update_where hit change ts) ≡ map? (change_if hit change) (find id ts)
  find-update_where id [] = refl
  find-update_where id (t ∷ ts) = rw (change_if-id t) (elim (Bool-cases (str_eq t.id id)) [
    | inl own ↦ rw own
    | inr other ↦ rw other (find-update_where id ts)
  ])

  pub update_where-Unique : (ts : List Task) → Unique ts → Unique (update_where hit change ts)
  update_where-Unique [] u = tt
  update_where-Unique (t ∷ ts) u =
      (rw (change_if-id t, find-update_where t.id ts, u.0) refl, update_where-Unique ts u.1)

abbrev pub found_pending : Option Task → Bool
found_pending none = false
found_pending (some t) = is_pending t.status

any-none : (id : String) (ts : List Task) → find id ts ≡ none → any (pending_id id) ts ≡ false
any-none id [] h = refl
any-none id (t ∷ ts) h = elim (Bool-cases (str_eq t.id id)) [
  | inl own ↦ absurd (ground (arith, own))
  | inr other ↦ rw other (any-none id ts (ground (arith, other)))
]

pub any_pending :
    (id : String) (ts : List Task) → Unique ts → any (pending_id id) ts ≡ found_pending (find id ts)
any_pending id [] u = refl
any_pending id (t ∷ ts) u = elim (Bool-cases (str_eq t.id id)) [
  | inl own ↦
      let same : t.id ≡ id = ground (arith, eq_iff t.id id) in
      rw (own, any-none id ts (ground (arith, same))) (ground arith)
  | inr other ↦ rw other (any_pending id ts u.1)
]

pub any_id : (id : String) (ts : List Task) → any (has_id id) ts ≡ false → find id ts ≡ none
any_id id [] h = refl
any_id id (t ∷ ts) h = ground (arith, any_id id ts)

pub find-append :
    (id : String) (ts : List Task) (t : Task)
    → find id (ts ++ t ∷ [])
      ≡ elim (find id ts) [ none ↦ if str_eq t.id id then some t else none | some u ↦ some u ]
find-append id [] t = refl
find-append id (u ∷ us) t = elim (Bool-cases (str_eq u.id id)) [
  | inl own ↦ rw own
  | inr other ↦ rw other (find-append id us t)
]

-- An update that hits rows of one id only leaves the rows of the other ids.
pub update_other :
    (hit : Task → Bool) (change : Task → Task) (id k : String) (ts : List Task)
    → ((t : Task) → hit t ≡ true → str_eq t.id id ≡ true)
    → str_eq id k ≡ false
    → map? (change_if hit change) (find k ts) ≡ find k ts
update_other hit change id k ts own other = elim (Option-cases (find k ts)) [
  | inl e ↦ rw e
  | inr (t, e) ↦ elim (Bool-cases (hit t)) [
    | inr miss ↦ rw (e, miss)
    | inl h ↦ absurd (
        ground (
          arith,
          find-id k ts t e,
          own t h,
          eq_iff t.id k,
          eq_iff t.id id,
          eq_refl k,
          eq_refl id,
          other,
        ))
  ]
]
