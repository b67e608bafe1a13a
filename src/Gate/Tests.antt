-- ===== src/Gate/Tests.antt =====
-- A gate for one turn: a user's turn in "session:1" is preempted by a newer message.
use boba_claw.Prelude.{◌≤◌, ◌≡◌, refl, true, false, none, [], ◌∷◌, count, arith, ◌↔◌}
use boba_claw.Gate.{Gate, Entry, find, turn, queued, unlocked}
use boba_claw.Gate
use boba_claw.Gate.Steps.{arrive, take_lock, start, Reach, fresh, next}
use boba_claw.Gate.Tracking.{in_scope, holder}
use boba_claw.Gate.Tracking.Facts.{one_turn, no_leak}
use boba_claw.Gate.Preemption.Reached.{background_is_quiet}
use boba_claw.Gate.Preemption.Newest.{newest_wins}

abbrev waiting_user : Entry
waiting_user = record {
  id = 0;
  scope = "session:1";
  preempt = true;
  lock = 0;
  phase = queued;
  cancelled = false;
}

abbrev locked_user : Entry
locked_user = record waiting_user { phase = Gate.locked }

abbrev running_user : Entry
running_user = record waiting_user { phase = turn }

abbrev arrived : Gate
unfolding Gate.arrive Gate.new
arrived = Gate.arrive (Gate.new 1) "session:1" true

abbrev running : Gate
unfolding Gate.take_lock Gate.start
running = Gate.start (Gate.take_lock arrived 0) locked_user

abbrev contended : Gate
contended = Gate.arrive (Gate.arrive running "session:1" false) "session:1" true

running-Reach : Reach 1 running
unfolding Gate.arrive Gate.new Gate.take_lock Gate.start
running-Reach =
    next
      (next (next fresh (arrive "session:1" true (omega arith)))
        (take_lock waiting_user refl refl (λ e. refl, tt)))
      (start locked_user refl refl (omega arith))

contended-Reach : Reach 1 contended
unfolding Gate.arrive Gate.new Gate.take_lock Gate.start
contended-Reach =
    next (next running-Reach (arrive "session:1" false (omega arith)))
      (arrive "session:1" true (omega arith))

one_turn_example : count (holder "session:1") contended.entries ≤ 1
one_turn_example = one_turn contended-Reach "session:1"

no_leak_example :
    (contended.scopes "session:2" ≡ none) ↔ (count (in_scope "session:2") contended.entries ≡ 0)
no_leak_example = no_leak contended-Reach "session:2"

abbrev waiting_background : Entry
waiting_background = record {
  id = 1;
  scope = "session:1";
  preempt = false;
  lock = 0;
  phase = queued;
  cancelled = false;
}

abbrev newest_user : Entry
newest_user = record waiting_user { id = 2 }

background_is_quiet_example : waiting_background.cancelled ≡ false
unfolding Gate.arrive Gate.new Gate.take_lock Gate.start
background_is_quiet_example =
    background_is_quiet 1 waiting_background contended-Reach refl refl refl

newest_wins_example : (record running_user { cancelled = true }).cancelled ≡ true
unfolding Gate.arrive Gate.new Gate.take_lock Gate.start
newest_wins_example =
    newest_wins [] (waiting_background ∷ newest_user ∷ [])
      (record running_user { cancelled = true }) contended-Reach refl refl (λ e. cc) refl
