-- ===== src/Timer/Tests.antt =====
-- The theorems on timers, at inputs.
use fjdispatchlite.Prelude.{
  ℕ, ◌+◌, ◌≤◌, ◌<◌, ◌≡◌, ◌≢◌, refl, ◌⊎◌, true, false, none, some, [], ◌∷◌, arith, All, Bool, List,
  count, ◌==◌,
}
use fjdispatchlite.Prelude.Assoc.{lookup, assign}
use fjdispatchlite.Timer.{
  TimerInfo, Timer, min_tick, max_tick, create_timer, new_timer, remove_timer, is_active_timer,
  passes, fires, reschedule, visit, wait_time, next_due, after_call,
}
use fjdispatchlite.Timer.Waits.{IsBefore, is_due, wait_time-IsBefore}
use fjdispatchlite.Timer.{visit_at, deactivate, deactivate_at, rest}
use fjdispatchlite.Timer.{create, emplace, emplace_at}
use fjdispatchlite.Timer.System.{
  System, initial, after_due, Reachable, starts, moves, creates, finds_due,
}
use fjdispatchlite.Timer.System.Spacing.{IsSpaced, Reachable-IsSpaced}
use fjdispatchlite.Timer.Loop.{
  Loop, turns, follow, turn, look, look_if, at_end, reset_base, look_at, advance, settle, call,
  called,
}
use fjdispatchlite.Timer.Loop.Rounds.{turns-fires}
use fjdispatchlite.Timer.Loop.Standing.{Stands}
use fjdispatchlite.Timer.Firing.{create_timer-fires, deactivate-passes}

program : Unit {0}
unfolding initial create after_due create_timer new_timer emplace emplace_at visit lookup assign
    wait_time next_due turns follow turn look look_if at_end reset_base look_at advance settle call
    called visit_at reschedule after_call deactivate deactivate_at rest
program = tt

abbrev every : ℕ → ℕ → TimerInfo
every interval next = record {
  obj = 70;
  mf = 1;
  interval_msec = interval;
  next_time = next;
  active = true;
  start = 1000;
}

abbrev two : Timer
two = record {
  base_interval_msec = 20;
  running = false;
  stop = false;
  timers = (1, every 100 1100) ∷ (2, every 500 1500) ∷ [];
}

waits_for_first : wait_time 1040 two ≡ 60
unfolding program
waits_for_first = refl

waits_least : wait_time 1200 two ≡ 15
unfolding program
waits_least = refl

wait_time-IsBefore_example :
    (min_tick ≤ wait_time 1040 two)
    × (wait_time 1040 two ≤ max_tick)
    × ((wait_time 1040 two ≡ min_tick) ⊎ All (IsBefore (1040 + wait_time 1040 two)) two.timers)
    × ((wait_time 1040 two ≡ max_tick)
        ⊎ (0 < count (is_due (1040 + wait_time 1040 two)) two.timers))
wait_time-IsBefore_example = wait_time-IsBefore 1040 two

three_is_new : lookup 3 two.timers ≡ none
unfolding program
three_is_new = refl

create_timer-fires_example :
    let t' = (create_timer two 3 1040 80 2 50).0 in
    (is_active_timer t' 3 ≡ true)
    × ((later : ℕ) → later < 1090 → visit later 3 t' ≡ passes)
    × ((later : ℕ)
        → 1090 ≤ later
        → visit later 3 t' ≡ fires 80 2 (reschedule later 3 (new_timer 1040 80 2 50) t'))
create_timer-fires_example = create_timer-fires two 3 1040 80 2 50 three_is_new (omega arith)

first_is_there : lookup 1 two.timers ≡ some (every 100 1100)
unfolding program
first_is_there = refl

deactivate-passes_example :
    ((now : ℕ)
      → (visit now 2 (remove_timer two 2).0 ≡ passes)
        × (visit now 2 (after_call 2 true two) ≡ passes))
    × ((j : ℕ)
        → j ≢ 2
        → (lookup j (remove_timer two 2).0.timers ≡ lookup j two.timers)
          × (lookup j (after_call 2 true two).timers ≡ lookup j two.timers))
deactivate-passes_example = deactivate-passes two 2

-- The iterator stands behind the first of the two timers.
abbrev passed_first : Loop
passed_first = record { timer = two; it = 1; negative = true }

abbrev four_rounds : List (ℕ × Bool)
four_rounds = (1200, false) ∷ (1215, false) ∷ (1230, true) ∷ (1245, false) ∷ []

first-Stands : Stands passed_first 0 1 (every 100 1100)
first-Stands = record {
  running = refl;
  distinct = omega arith;
  in_range = omega arith;
  there = refl;
}

turns-fires_example : 0 < count (λ j. j == 1) (turns four_rounds passed_first)
turns-fires_example =
    turns-fires four_rounds 0 1 passed_first (every 100 1100) first-Stands refl (omega arith)
      (omega arith) (omega arith) (omega arith)

-- The second timer is not due, then the iterator is at the end, then the first one is called, and gives
-- a negative value.
called_once : turns four_rounds passed_first ≡ 1 ∷ []
unfolding program
called_once = refl

-- A timer that is due but has no object is not called.
abbrev no_object : Loop
no_object = record passed_first {
  timer = record two { timers = (1, record (every 100 1100) { obj = 0 }) ∷ [] };
  it = 0;
}

never_called : turns four_rounds no_object ≡ []
unfolding program
never_called = refl

-- A timer of 100 milliseconds is found due twice.
abbrev made : System
made = record initial { timer = (create_timer initial.timer 1 1000 70 1 100).0 }

abbrev in_table : ℕ → TimerInfo
in_table next = record (new_timer 1000 70 1 100) { next_time = next }

abbrev due_first : System
due_first = after_due made 1105 1 (in_table 1100) (reschedule 1105 1 (in_table 1100) made.timer)

abbrev due_again : System
due_again =
    after_due due_first 1230 1 (in_table 1205) (reschedule 1230 1 (in_table 1205) due_first.timer)

due_again-Reachable : Reachable due_again
unfolding program
due_again-Reachable =
    moves
      (moves (moves starts (creates 1 1000 70 1 100 tt refl))
        (finds_due 1105 1 70 1 (in_table 1100) _ refl refl refl))
      (finds_due 1230 1 70 1 (in_table 1205) _ refl refl refl)

Reachable-IsSpaced_example : IsSpaced due_again.found
Reachable-IsSpaced_example = Reachable-IsSpaced due_again due_again-Reachable
