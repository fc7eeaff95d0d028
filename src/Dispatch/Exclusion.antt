-- ===== src/Dispatch/Exclusion.antt =====
-- fjdispatchlite.h: how the tasks of one instance are served, over all orders of the sections.
use fjdispatchlite.Prelude.{ℕ, ◌+◌, ◌≤◌, ◌≢◌, inl, inr, Bool, false, [], arith, Bool-cases}
use fjdispatchlite.Dispatch.System.{System, Reachable}
use fjdispatchlite.Dispatch.Scheduling.{occurrences, insts, local}
use fjdispatchlite.Dispatch.Invariants.{Reachable-IsServed, Reachable-IsExclusive, at_most_one}

-- Whatever the threads do, and in whatever order their sections come: as long as a task waits in the
-- queue of an instance, the instance is ready for a worker, or one of its tasks runs.
pub waiting_is_served :
    (parallel : Bool) (s : System) (i : ℕ)
    → Reachable parallel s
    → (s.dispatch.instance_map i).task_queue ≢ []
    → 1 ≤ occurrences i s.dispatch.ready_instances + occurrences i (insts s.executing)
unfolding local
waiting_is_served parallel s i r h =
    let w = Reachable-IsServed parallel s i r in
    elim (Bool-cases (s.dispatch.instance_map i).running) [
      | inl t ↦ w.awaited t
      | inr f ↦ absurd (h (w.idle f))
    ]

-- Where every task is posted to run after the others of its instance, at most one task of an instance
-- runs at any time, whatever the order in which the sections of the threads come.
pub one_at_a_time : (s : System) (i : ℕ) → Reachable false s → occurrences i (insts s.executing) ≤ 1
unfolding local
one_at_a_time s i r =
    let w = Reachable-IsExclusive s i r in
    omega (arith, w, at_most_one (s.dispatch.instance_map i).running)
