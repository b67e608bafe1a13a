-- ===== src/Cron/Tests.antt =====
-- Recurring jobs: the theorems at a concrete table.
use boba_claw.Prelude.{
  ℕ, ◌≡◌, refl, String, str_eq, Option, none, some, List, [], ◌∷◌, if◌then◌else◌, ltb, keep, Text,
  codes, Result, ok, err, arith,
}
use boba_claw.Cron.{
  CronJobRow, CronState, new_job, list_enabled, run_due_cron, run_job, last_run_at, record_run,
}
use boba_claw.Cron.Once.{cron_fires_once}

abbrev calendar : String → Option (ℕ → List ℕ)
calendar expr =
    if str_eq expr "?" then none else some (λ after. keep (ltb after) (5000 ∷ 65000 ∷ 125000 ∷ []))

abbrev answer : CronJobRow → Result Text Text
answer job = if str_eq job.id "news" then ok (codes "done") else err (codes "no model")

abbrev sent : String → Option String → Text → Result Text (Unit {0})
sent channel peer text = ok tt

abbrev nowhere : String → Option String
nowhere id = if str_eq id "news" then some "telegram" else none

abbrev just_after : CronJobRow → ℕ
just_after job = 6100

abbrev three_jobs : List CronJobRow
three_jobs =
    new_job "news" "0 * * * * *" "home" (codes "news?") 1
    ∷ new_job "mail" "0 * * * * *" "home" (codes "mail?") 2
    ∷ new_job "broken" "?" "home" (codes "never") 3
    ∷ []

abbrev quiet : CronState
quiet = record { runs = []; delivered = [] }

abbrev first_check : CronState
first_check =
    run_due_cron calendar answer sent nowhere nowhere just_after just_after 15 quiet three_jobs 6000

-- One delivery, two runs of two rows each, and nothing for the job that does not parse.
delivers_once : first_check.delivered ≡ ("telegram", some "telegram", codes "done") ∷ []
unfolding run_due_cron list_enabled run_job last_run_at record_run
delivers_once = refl

cron_fires_once_example :
    run_due_cron calendar answer sent nowhere nowhere just_after just_after 15 first_check
      three_jobs 8000
    ≡ first_check
unfolding list_enabled
cron_fires_once_example =
    cron_fires_once calendar answer sent nowhere nowhere just_after just_after 15 quiet three_jobs
      6000 8000 (omega arith, (omega arith, (omega arith, tt))) (refl, (refl, (refl, tt)))
