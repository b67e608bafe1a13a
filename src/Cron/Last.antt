-- ===== src/Cron/Last.antt =====
-- The latest of the recorded runs (`last_run_at` of crates/bobaclaw-state/src/cron.rs).
use boba_claw.Prelude.{
  ℕ, ◌+◌, ◌≤◌, ◌≡◌, refl, subst, inl, inr, String, str_eq, eq_refl, true, Option, none, some, List,
  [], ◌∷◌, if◌then◌else◌, ltb, leb, Bool-cases, Option-cases, arith,
}
use boba_claw.Cron.{CronRun, record_run, latest, last_run_at, first_until}

-- A run that is recorded is at most the latest.
pub last-after :
    (runs : List CronRun) (id status : String) (now : ℕ)
    → (l : ℕ) × (last_run_at (record_run runs id status now) id ≡ some l) × (now ≤ l)
unfolding last_run_at record_run
last-after [] id status now = (now, rw (eq_refl id) refl, omega arith)
last-after (r ∷ rs) id status now =
    let (l, e, h) = last-after rs id status now in
    elim (Bool-cases (str_eq r.job_id id)) [
      | inr other ↦ (l, rw (other, e) refl, h)
      | inl own ↦ elim (Bool-cases (ltb r.created_at l)) [
        | inl before ↦ (l, rw (own, e, before) refl, h)
        | inr behind ↦ (r.created_at, rw (own, e, behind) refl, ground arith)
      ]
    ]

latest-own : (t : ℕ) (o : Option ℕ) → (m : ℕ) × (latest t o ≡ some m) × (t ≤ m)
latest-own t none = (t, refl, omega arith)
latest-own t (some u) = elim (Bool-cases (ltb t u)) [
  | inl before ↦ (u, rw (before) refl, ground arith)
  | inr behind ↦ (t, rw (behind) refl, omega arith)
]

latest-grows :
    (t u v l : ℕ)
    → u ≤ v
    → latest t (some u) ≡ some l
    → (m : ℕ) × (latest t (some v) ≡ some m) × (l ≤ m)
latest-grows t u v l le h = elim (Bool-cases (ltb t v)) [
  | inl before ↦ (v, rw (before) refl, ground arith)
  | inr behind ↦ (t, rw (behind) refl, ground arith)
]

only : (t l m : ℕ) → t ≤ m → latest t none ≡ some l → l ≤ m
only t l m le h = ground arith

pub last-grows :
    (runs : List CronRun) (id job status : String) (now l : ℕ)
    → last_run_at runs id ≡ some l
    → (m : ℕ) × (last_run_at (record_run runs job status now) id ≡ some m) × (l ≤ m)
unfolding last_run_at record_run
last-grows [] id job status now l h = absurd (ground arith)
last-grows (r ∷ rs) id job status now l h = elim (Bool-cases (str_eq r.job_id id)) [
  | inr other ↦
      let rest : last_run_at rs id ≡ some l =
        subst
          (λ b. (if b then latest r.created_at (last_run_at rs id) else last_run_at rs id) ≡ some l)
          other h in
      let (m, e, le) = last-grows rs id job status now l rest in (m, rw (other, e) refl, le)
  | inl own ↦
      let here : latest r.created_at (last_run_at rs id) ≡ some l =
        subst
          (λ b. (if b then latest r.created_at (last_run_at rs id) else last_run_at rs id) ≡ some l)
          own h in
      elim (Option-cases (last_run_at rs id)) [
        | inl empty ↦
            let (m, e, le) =
              latest-own r.created_at (last_run_at (record_run rs job status now) id) in
            (
              m,
              rw (own) e,
              only r.created_at l m le (subst (λ o. latest r.created_at o ≡ some l) empty here),
            )
        | inr (u, some_u) ↦
            let (v, e, le) = last-grows rs id job status now u some_u in
            let (m, em, lm) =
              latest-grows r.created_at u v l le
                (subst (λ o. latest r.created_at o ≡ some l) some_u here) in
            (m, rw (own, e) em, lm)
      ]
]

found : (now x t : ℕ) → leb x now ≡ true → some x ≡ some t → t ≤ now
found now x t early h = ground arith

-- The occurrence that fires is not after the time of the check.
pub first-before : (now : ℕ) (ts : List ℕ) (t : ℕ) → first_until now ts ≡ some t → t ≤ now
first-before now [] t h = absurd (ground arith)
first-before now (x ∷ xs) t h = elim (Bool-cases (leb x now)) [
  | inl early ↦
      found now x t early (subst (λ b. (if b then some x else first_until now xs) ≡ some t) early h)
  | inr late ↦
      first-before now xs t
        (subst (λ b. (if b then some x else first_until now xs) ≡ some t) late h)
]

pub earlier : (u t l : ℕ) → some u ≡ some t → u ≤ l → t ≤ l
earlier u t l e le = ground arith

pub past : {t now s m : ℕ} → t ≤ now → now ≤ s → s ≤ m → t ≤ m + 1000
past h k l = omega arith
