-- ===== src/Dispatch/Tests.antt =====
-- The theorems on the dispatcher, at inputs, and runs.
use fjdispatchlite.Prelude.{
  take, ℕ, ◌+◌, ◌≤◌, ◌≡◌, ◌⊎◌, refl, sym, ◌∙◌, true, false, [], ◌∷◌, ◌++◌, arith,
}
use fjdispatchlite.Prelude.Assoc.{IsDistinct}
use fjdispatchlite.Dispatch.{
  packaged, message, post_queue, Env, Dispatch, create, spawn_all, spawn_worker, adjust_workers,
  queue_task, enqueue, take_task, take_ready, take_from,
}
use fjdispatchlite.Dispatch.System.{
  System, initial, after_post, after_take, Reachable, starts, moves, posts, polls,
}
use fjdispatchlite.Dispatch.Scheduling.{occurrences, insts, tasks_of}
use fjdispatchlite.Dispatch.Staff.{Reachable-IsStaffed}
use fjdispatchlite.Dispatch.Exclusion.{waiting_is_served, one_at_a_time}
use fjdispatchlite.Dispatch.Remaining.{Works, work}
use fjdispatchlite.Dispatch.Work.{Run, begins, goes_on, IsDone, Run-IsDone}
use fjdispatchlite.Dispatch.Remaining.{takes_up}
use fjdispatchlite.Results.{get_handle, new_resultitem, evict}
use fjdispatchlite.Results.Store.{IsWellFormed}
use fjdispatchlite.Results.Retention.{AreNew}
use fjdispatchlite.Dispatch.Answering.{IsIdle, Answers, post_queue-Answers}
use fjdispatchlite.Dispatch.Order.{posted_in_order}
use fjdispatchlite.Dispatch.Workers.{IsStaffed, threads}

program : Unit {0}
unfolding create spawn_all spawn_worker
program = tt

runs : Unit {0}
unfolding create spawn_all spawn_worker initial after_post after_take enqueue queue_task
    adjust_workers take_task take_ready take_from
runs = tt

abbrev env : ℕ → ℕ → Env
env now thread = record { now = now; new_thread = thread }

abbrev start : Dispatch
start = create (env 100 1) (env 100 2)

start_threads : IsDistinct (threads start.workers)
unfolding program
start_threads = omega arith

-- Two tasks for one instance, of which a worker has taken the first.
abbrev two_posted : System
two_posted =
    after_post (after_post (initial (env 100 1) (env 100 2)) (env 200 3) 70 (packaged 5) true)
      (env 210 4) 70 (packaged 6) true

abbrev one_taken : System
one_taken = after_take two_posted 1 (take_task two_posted.dispatch)

one_taken-Reachable : Reachable false one_taken
one_taken-Reachable =
    moves
      (moves
        (moves (starts (env 100 1) (env 100 2)) (posts (env 200 3) 70 (packaged 5) true refl refl))
        (posts (env 210 4) 70 (packaged 6) true refl refl))
      (polls 1 refl)

-- One task runs, and the other waits.
one_runs : (insts one_taken.executing ≡ 70 ∷ []) × (one_taken.dispatch.ready_instances ≡ [])
unfolding runs
one_runs = (refl, refl)

one_waits : (one_taken.dispatch.instance_map 70).task_queue ≡ packaged 6 ∷ []
unfolding runs
one_waits = refl

one_at_a_time_example : occurrences 70 (insts one_taken.executing) ≤ 1
one_at_a_time_example = one_at_a_time one_taken 70 one_taken-Reachable

waiting_is_served_example :
    1
    ≤ occurrences 70 one_taken.dispatch.ready_instances + occurrences 70 (insts one_taken.executing)
waiting_is_served_example =
    waiting_is_served false one_taken 70 one_taken-Reachable (λ e. some_task (sym one_waits ∙ e))
  where
    some_task : (packaged 6 ∷ []) ≡ [] → ⊥
    some_task e = ground arith

posted_in_order_example :
    tasks_of 70 one_taken.posted
    ≡ tasks_of 70 one_taken.taken ++ (one_taken.dispatch.instance_map 70).task_queue
posted_in_order_example = posted_in_order false one_taken 70 one_taken-Reachable

Reachable-IsStaffed_example : IsStaffed one_taken.dispatch
Reachable-IsStaffed_example = Reachable-IsStaffed false one_taken one_taken-Reachable

one_takes : Run two_posted 1 one_taken
unfolding runs
one_takes = goes_on begins (takes_up 1 70 [] refl refl refl)

Run-IsDone_example :
    (1 ≤ work two_posted)
    × ((one_taken.dispatch.stop ≡ true) ⊎ ((u : System) × Works one_taken u) ⊎ IsDone one_taken)
Run-IsDone_example =
    Run-IsDone false two_posted one_taken 1
      (moves
        (moves (starts (env 100 1) (env 100 2)) (posts (env 200 3) 70 (packaged 5) true refl refl))
        (posts (env 210 4) 70 (packaged 6) true refl refl))
      one_takes

start-IsIdle : IsIdle start 7
unfolding program
start-IsIdle = record { running = refl; none_ready = refl; no_task = refl }

start_table : IsWellFormed start.table
unfolding program
start_table = record { in_step = refl; distinct = tt; bounded = omega arith }

others_new : AreNew (new_resultitem start.table (get_handle start.handle_counter).1) (2 ∷ 3 ∷ [])
unfolding program new_resultitem evict get_handle
others_new = omega arith

post_queue-Answers_example :
    let (d', handle) = post_queue start (env 110 3) 7 50 (1 ∷ 2 ∷ 3 ∷ []) 2 true [] in
    Answers d' 7 handle (message handle [] 50 (take 2 (1 ∷ 2 ∷ 3 ∷ []))) (2 ∷ 3 ∷ []) 99
post_queue-Answers_example =
    post_queue-Answers start (env 110 3) 7 50 (2 ∷ 3 ∷ []) 99 start-IsIdle start_table
      (unfold program in tt) others_new (omega arith) (1 ∷ 2 ∷ 3 ∷ []) 2 true []
