-- ===== src/Cron/Table.antt =====
-- The table of jobs (crates/bobaclaw-state/src/cron.rs) under `upsert` and `disable`.
use boba_claw.Prelude.{
  ℕ, ◌≡◌, refl, ap, inl, inr, String, str_eq, eq_refl, Bool, true, false, not, ◌||◌, List, [], ◌∷◌,
  ◌++◌, keep, any, Bool-cases, Text, arith,
}
use boba_claw.Cron.{CronJobRow, job_is, new_job, redefine, upsert_job, list_enabled, disable}

neither : (a b : Bool) → (a || b) ≡ false → (a ≡ false) × (b ≡ false)
neither false b h = (refl, h)
neither true b h = absurd (ground arith)

redefine-twice :
    (js : List CronJobRow) (id expr group : String) (prompt : Text)
    → redefine id expr group prompt (redefine id expr group prompt js)
      ≡ redefine id expr group prompt js
redefine-twice [] id expr group prompt = refl
redefine-twice (j ∷ js) id expr group prompt = elim (Bool-cases (str_eq j.id id)) [
  | inl own ↦ rw (own, own, redefine-twice js id expr group prompt) refl
  | inr other ↦ rw (other, other, redefine-twice js id expr group prompt) refl
]

redefine-known :
    (js : List CronJobRow) (id expr group : String) (prompt : Text)
    → any (job_is id) (redefine id expr group prompt js) ≡ any (job_is id) js
redefine-known [] id expr group prompt = refl
redefine-known (j ∷ js) id expr group prompt = elim (Bool-cases (str_eq j.id id)) [
  | inl own ↦ rw (own, own) refl
  | inr other ↦ rw (other, other, redefine-known js id expr group prompt) refl
]

any-last :
    (js : List CronJobRow) (id expr group : String) (prompt : Text) (now : ℕ)
    → any (job_is id) js ≡ false
    → any (job_is id) (js ++ new_job id expr group prompt now ∷ []) ≡ true
any-last [] id expr group prompt now new = rw (eq_refl id) refl
any-last (k ∷ ks) id expr group prompt now new =
    let (other, rest) = neither (str_eq k.id id) (any (job_is id) ks) new in
    rw (other) (any-last ks id expr group prompt now rest)

redefine-last :
    (js : List CronJobRow) (id expr group : String) (prompt : Text) (now : ℕ)
    → any (job_is id) js ≡ false
    → redefine id expr group prompt (js ++ new_job id expr group prompt now ∷ [])
      ≡ js ++ new_job id expr group prompt now ∷ []
redefine-last [] id expr group prompt now new = rw (eq_refl id) refl
redefine-last (k ∷ ks) id expr group prompt now new =
    let (other, rest) = neither (str_eq k.id id) (any (job_is id) ks) new in
    rw (other, redefine-last ks id expr group prompt now rest) refl

-- Defining a job again with the same expression, group and prompt, at whatever time, leaves the table as
-- the first definition left it, whether or not the table already had the id.
pub upsert_twice :
    (js : List CronJobRow) (id expr group : String) (prompt : Text) (now later : ℕ)
    → upsert_job (upsert_job js id expr group prompt now) id expr group prompt later
      ≡ upsert_job js id expr group prompt now
unfolding upsert_job
upsert_twice js id expr group prompt now later = elim (Bool-cases (any (job_is id) js)) [
  | inl known ↦
      rw (known, redefine-known js id expr group prompt, known)
        (redefine-twice js id expr group prompt)
  | inr new ↦
      rw (new, any-last js id expr group prompt now new)
        (redefine-last js id expr group prompt now new)
]

-- Disabling an id takes exactly the jobs with that id off the enabled jobs, the others stay in order, and
-- disabling it again reports that there was nothing to disable.
pub disable_removes :
    (js : List CronJobRow) (id : String)
    → (list_enabled (disable js id).0 ≡ keep (λ j. not (job_is id j)) (list_enabled js))
      × ((disable (disable js id).0 id).1 ≡ false)
unfolding list_enabled disable
disable_removes [] id = (refl, refl)
disable_removes (j ∷ js) id =
    let rest = disable_removes js id in
    elim (Bool-cases (str_eq j.id id)) [
      | inl own ↦ elim (Bool-cases j.enabled) [
        | inl on ↦ (rw (own, on, own) rest.0, rw (own) rest.1)
        | inr off ↦ (rw (own, off) rest.0, rw (own) rest.1)
      ]
      | inr other ↦ elim (Bool-cases j.enabled) [
        | inl on ↦ (
          rw (other, on, other) (ap (λ r. record j { enabled = true } ∷ r) rest.0),
          rw (other, on, other) rest.1,
        )
        | inr off ↦ (rw (other, off) rest.0, rw (other, off) rest.1)
      ]
    ]
