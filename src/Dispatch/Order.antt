-- ===== src/Dispatch/Order.antt =====
-- fjdispatchlite.h: the order in which the tasks of an instance are taken.
use fjdispatchlite.Prelude.{ℕ, ◌≡◌, Bool, ◌++◌}
use fjdispatchlite.Dispatch.System.{System, Reachable}
use fjdispatchlite.Dispatch.Scheduling.{tasks_of, local}
use fjdispatchlite.Dispatch.Invariants.{Reachable-IsInOrder}

-- At any time the tasks posted to an instance are those that workers have taken, in the same order,
-- and behind them those that wait in its queue: none is lost, doubled or overtaken.
pub posted_in_order :
    (parallel : Bool) (s : System) (i : ℕ)
    → Reachable parallel s
    → tasks_of i s.posted ≡ tasks_of i s.taken ++ (s.dispatch.instance_map i).task_queue
unfolding local
posted_in_order parallel s i r = Reachable-IsInOrder parallel s i r
