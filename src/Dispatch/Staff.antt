-- ===== src/Dispatch/Staff.antt =====
-- fjdispatchlite.h: the pool while the threads work.
use fjdispatchlite.Prelude.{
  ℕ, suc, ◌≡◌, refl, ap, sym, ◌∙◌, subst, Bool, true, false, List, [], ◌∷◌, arith, if◌then◌else◌,
  length,
}
use fjdispatchlite.Dispatch.{
  WorkerInfo, Task, message, event, packaged, Dispatch, stops, mark_all, begin_task, end_task,
  free_first, requeue, finish_task, new_handle, declare_stop, take_from, take_ready, take_task,
}
use fjdispatchlite.Dispatch.System.{
  System, after_post, after_take, Step, posts, hands_out, counts, polls, begins, ends, finishes,
  halts, Reachable, starts, moves, initial,
}
use fjdispatchlite.Dispatch.Workers.{IsStaffed, create-IsStaffed, enqueue-IsStaffed}

-- As many workers, and the same count of them.
staffed :
    (d e : Dispatch)
    → e.num_of_threads ≡ d.num_of_threads
    → length e.workers ≡ length d.workers
    → IsStaffed d
    → IsStaffed e
staffed d e n l w = record {
  counted = n ∙ w.counted ∙ sym l;
  some_worker = omega (arith, n, w.some_worker);
  bounded = omega (arith, n, w.bounded);
}

length-mark_all :
    (self delay : ℕ) (srcfunc : List ℕ) (ws : List WorkerInfo)
    → length (mark_all self delay srcfunc ws) ≡ length ws
unfolding mark_all
length-mark_all self delay srcfunc [] = refl
length-mark_all self delay srcfunc (w ∷ ws) = ap suc (length-mark_all self delay srcfunc ws)

length-free_first :
    (self now : ℕ) (ws : List WorkerInfo) → length (free_first self now ws) ≡ length ws
unfolding free_first
length-free_first self now [] = refl
length-free_first self now (w ∷ ws) = ground (arith, length-free_first self now ws)

begin_task-IsStaffed :
    (d : Dispatch) (self delay : ℕ) (task : Task)
    → IsStaffed d
    → IsStaffed (begin_task d self delay task)
unfolding begin_task
begin_task-IsStaffed d self delay (message handle srcfunc msg buf) w =
    staffed d _ refl (length-mark_all self delay srcfunc d.workers) w
begin_task-IsStaffed d self delay (event handle srcfunc msg) w =
    staffed d _ refl (length-mark_all self delay srcfunc d.workers) w
begin_task-IsStaffed d self delay (packaged body) w = w

end_task-IsStaffed :
    (d : Dispatch) (task : Task) (ret : ℕ) → IsStaffed d → IsStaffed (end_task d task ret)
unfolding end_task
end_task-IsStaffed d (message handle srcfunc msg buf) ret w = staffed d _ refl refl w
end_task-IsStaffed d (event handle srcfunc msg) ret w = staffed d _ refl refl w
end_task-IsStaffed d (packaged body) ret w = w

requeue-IsStaffed :
    (d : Dispatch) (inst : ℕ) (q : List Task) → IsStaffed d → IsStaffed (requeue d inst q)
unfolding requeue
requeue-IsStaffed d inst [] w = staffed d _ refl refl w
requeue-IsStaffed d inst (task ∷ q) w = staffed d _ refl refl w

finish_task-IsStaffed :
    (d : Dispatch) (self now inst : ℕ) → IsStaffed d → IsStaffed (finish_task d self now inst)
unfolding finish_task
finish_task-IsStaffed d self now inst w =
    requeue-IsStaffed _ inst (d.instance_map inst).task_queue (
      staffed d (record d { workers = free_first self now d.workers }) refl
        (length-free_first self now d.workers) w)

taken-IsStaffed :
    (s : System) (thread inst : ℕ) (ready : List ℕ) (q : List Task)
    → IsStaffed s.dispatch
    → IsStaffed (after_take s thread (take_from s.dispatch inst ready q)).dispatch
unfolding after_take take_from
taken-IsStaffed s thread inst ready [] w = staffed s.dispatch _ refl refl w
taken-IsStaffed s thread inst ready (task ∷ q) w = staffed s.dispatch _ refl refl w

ready-IsStaffed :
    (s : System) (thread : ℕ) (stop : Bool) (ready : List ℕ)
    → IsStaffed s.dispatch
    → IsStaffed (after_take s thread (if stop then stops else take_ready s.dispatch ready)).dispatch
unfolding after_take take_ready
ready-IsStaffed s thread true ready w = w
ready-IsStaffed s thread false [] w = w
ready-IsStaffed s thread false (inst ∷ ready) w =
    taken-IsStaffed s thread inst ready (s.dispatch.instance_map inst).task_queue w

take_task-IsStaffed :
    (s : System) (thread : ℕ)
    → IsStaffed s.dispatch
    → IsStaffed (after_take s thread (take_task s.dispatch)).dispatch
unfolding take_task
take_task-IsStaffed s thread w =
    ready-IsStaffed s thread s.dispatch.stop s.dispatch.ready_instances w

Step-IsStaffed :
    (parallel : Bool) (s t : System)
    → Step parallel s t
    → IsStaffed s.dispatch
    → IsStaffed t.dispatch
unfolding after_post new_handle declare_stop
Step-IsStaffed parallel s t (posts env inst task isseq p e) w =
    subst (λ x. IsStaffed x.dispatch) (sym e) (enqueue-IsStaffed s.dispatch env inst task isseq w)
Step-IsStaffed parallel s t (hands_out e) w =
    subst (λ x. IsStaffed x.dispatch) (sym e) (staffed s.dispatch _ refl refl w)
Step-IsStaffed parallel s t (counts e) w =
    subst (λ x. IsStaffed x.dispatch) (sym e) (staffed s.dispatch _ refl refl w)
Step-IsStaffed parallel s t (polls thread e) w =
    subst (λ x. IsStaffed x.dispatch) (sym e) (take_task-IsStaffed s thread w)
Step-IsStaffed parallel s t (begins before after job delay m e) w =
    subst (λ x. IsStaffed x.dispatch) (sym e)
      (begin_task-IsStaffed s.dispatch job.thread delay job.task w)
Step-IsStaffed parallel s t (ends before after job ret m e) w =
    subst (λ x. IsStaffed x.dispatch) (sym e) (end_task-IsStaffed s.dispatch job.task ret w)
Step-IsStaffed parallel s t (finishes before after job now m e) w =
    subst (λ x. IsStaffed x.dispatch) (sym e)
      (finish_task-IsStaffed s.dispatch job.thread now job.inst w)
Step-IsStaffed parallel s t (halts e) w =
    subst (λ x. IsStaffed x.dispatch) (sym e) (staffed s.dispatch _ refl refl w)

-- Whatever the threads do, the dispatcher counts its workers rightly, and has 1 to 8 of them.
pub Reachable-IsStaffed :
    (parallel : Bool) (s : System) → Reachable parallel s → IsStaffed s.dispatch
unfolding initial
Reachable-IsStaffed parallel _ (starts first second) = create-IsStaffed first second
Reachable-IsStaffed parallel _ (moves {s} {t} r m) =
    Step-IsStaffed parallel s t m (Reachable-IsStaffed parallel s r)
