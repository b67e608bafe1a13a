-- ===== src/Runs/Tests.antt =====
-- The ledger of runs: the theorems at a concrete ledger.
use boba_claw.Prelude.{◌≡◌, refl, String, none, some, List, [], ◌∷◌, codes, Result, ok, err, negsuc}
use boba_claw.Sessions.{SessionRow, SqlError}
use boba_claw.Runs.{
  RunStatus, RunLedger, append_event, create_run, set_capsule_dir, update_status, mark_started,
  mark_completed, get_run, verify_run_agent_group,
}
use boba_claw.Runs.Replay.{
  Reach, begin, then_step, creates, saves, starts, ends, no_runs, replay, get_run-replay,
}
use boba_claw.Runs.Access.{Owned, verified_is-Owned}

abbrev session : SessionRow
session = record {
  id = "s";
  source = "cli";
  agent_group = "home";
  user_id = none;
  started_at = 1;
  ended_at = none;
  end_reason = none;
  message_count = 0;
}

abbrev sessions : List SessionRow
sessions = session ∷ []

abbrev of_result : Result SqlError RunLedger → RunLedger
of_result (ok l) = l
of_result (err e) = no_runs

abbrev l1 : RunLedger
l1 = of_result (create_run sessions no_runs "r" (some "s") none (codes "bwrap-default") 1)

abbrev l2 : RunLedger
l2 = of_result (set_capsule_dir l1 "r" (codes "/runs/r") 2)

abbrev l3 : RunLedger
l3 = of_result (mark_started l2 "r" 3)

abbrev l4 : RunLedger
l4 = of_result (mark_completed l3 "r" (negsuc 0) (codes "killed") 4)

l4-Reach : Reach sessions l4
unfolding create_run append_event set_capsule_dir mark_started update_status mark_completed
l4-Reach =
    then_step
      (then_step
        (then_step (then_step begin (creates "r" (some "s") none (codes "bwrap-default") 1 refl))
          (saves "r" (codes "/runs/r") 2 refl))
        (starts "r" 3 refl))
      (ends "r" (negsuc 0) (codes "killed") 4 refl)

killed_failed :
    get_run l4 "r"
    ≡ some (record {
      id = "r";
      status = RunStatus.failed;
      executor_profile = [];
      capsule_dir = some (codes "/runs/r");
      exit_code = some (negsuc 0);
      summary = some (codes "killed");
    })
unfolding get_run create_run append_event set_capsule_dir mark_started update_status mark_completed
killed_failed = refl

get_run-replay_example : get_run l4 "r" ≡ replay "r" l4.events
get_run-replay_example = get_run-replay l4-Reach "r"

verified_is-Owned_example : (◌≡◌ {A = String} "home" "home") × Owned l1 sessions "r" "home"
unfolding verify_run_agent_group create_run append_event
verified_is-Owned_example = verified_is-Owned l1 sessions "r" "home" "home" refl
