-- ===== src/Results/System/Tests.antt =====
-- The theorems on the results of all threads, in a run: a task is posted, another takes a handle without
-- a result, the first one gives 7, and a caller that looks before and after that gets it.
use fjdispatchlite.Prelude.{◌≡◌, refl, List, [], ◌∷◌, arith, All, keep, true}
use fjdispatchlite.Prelude.Assoc.{lookup, assign, erase}
use fjdispatchlite.Results.{
  Look, got, fresh_item, get_handle, evict, new_resultitem, post_resultitem, poll, wait_result,
}
use fjdispatchlite.Results.System.{
  System, initial, after_ask, after_enqueue, Step, asks, enqueues, registers, posts, Reachable,
  starts, moves,
}
use fjdispatchlite.Results.System.Ordered.{of_handle, IsOrdered, Reachable-IsOrdered}
use fjdispatchlite.Results.System.Answers.{now, later, IsLook, wait_result-answers}

program : Unit {0}
unfolding get_handle evict new_resultitem post_resultitem poll wait_result lookup assign erase
    initial after_ask after_enqueue
program = tt

abbrev asked : System
asked = record {
  handle_counter = 1;
  table = record { results = []; result_order = [] };
  given = 1;
  pending = 1 ∷ [];
  at_work = [];
  posted = [];
}

abbrev numbered : System
numbered = record asked { handle_counter = 2; given = 2 }

abbrev registered : System
registered = record numbered {
  table = record { results = (1, fresh_item) ∷ []; result_order = 1 ∷ [] };
  pending = [];
  at_work = 1 ∷ [];
}

abbrev answered : System
answered = record registered {
  table = record { results = (1, record { value = 7; ready = true }) ∷ []; result_order = 1 ∷ [] };
  at_work = [];
  posted = (1, 7) ∷ [];
}

asks_one : Step initial asked
unfolding program
asks_one = asks refl

numbers_one : Step asked numbered
unfolding program
numbers_one = enqueues refl

registers_one : Step numbered registered
unfolding program
registers_one = registers [] [] 1 refl refl

posts_one : Step registered answered
unfolding program
posts_one = posts [] [] 1 7 refl refl

registered-Reachable : Reachable registered
registered-Reachable = moves (moves (moves starts asks_one) numbers_one) registers_one

answered-Reachable : Reachable answered
answered-Reachable = moves registered-Reachable posts_one

Reachable-IsOrdered_example : IsOrdered answered
Reachable-IsOrdered_example = Reachable-IsOrdered answered answered-Reachable (omega arith)

abbrev looks : List Look
looks =
    record { table = registered.table; now = 1005 }
    ∷ record { table = answered.table; now = 1040 }
    ∷ []

looks-IsLook : All (IsLook answered) looks
looks-IsLook = (
  record {
    state = registered;
    reached = registered-Reachable;
    comes = later now posts_one;
    seen = refl;
  },
  (record { state = answered; reached = answered-Reachable; comes = now; seen = refl }, tt),
)

waits_for_it : wait_result 1 1000 50 looks ≡ got 7
unfolding program
waits_for_it = refl

wait_result-answers_example : keep (of_handle 1) answered.posted ≡ (1, 7) ∷ []
wait_result-answers_example =
    wait_result-answers answered 1 1000 50 7 looks (omega arith) looks-IsLook waits_for_it
