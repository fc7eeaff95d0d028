-- ===== src/Dispatch/Remaining.antt =====
-- fjdispatchlite.h: how much is left to do, and what a step of a worker takes of it.
use fjdispatchlite.Prelude.{
  ℕ, ◌+◌, ◌-◌, ◌*◌, ◌≤◌, ◌<◌, ◌≡◌, refl, ap, sym, ◌∙◌, subst, inl, inr, Bool, true, false, List, [],
  ◌∷◌, ◌++◌, arith, ◌==◌, eq→==, if◌then◌else◌, Bool-cases, length, length-append, count, one_if,
  count-cons, count-middle,
}
use fjdispatchlite.Dispatch.{
  Task, Dispatch, stops, take_from, take_ready, take_task, finish_task, requeue, free_first,
}
use fjdispatchlite.Dispatch.System.{
  Job, System, after_take, Step, polls, finishes, Reachable, moves,
}
use fjdispatchlite.Dispatch.Scheduling.{tasks_of}
use fjdispatchlite.Dispatch.Order.{posted_in_order}

-- The steps of a worker that finds something to do: it takes up an instance, or is done with a task.
pub data Works (s t : System) : Type 0 where
  takes_up :
      (thread inst : ℕ) (ready : List ℕ)
      → s.dispatch.stop ≡ false
      → s.dispatch.ready_instances ≡ inst ∷ ready
      → t ≡ after_take s thread (take_task s.dispatch)
      → Works s t
  completes :
      (before after : List Job) (job : Job) (now : ℕ)
      → s.executing ≡ before ++ job ∷ after
      → t ≡ record s {
        dispatch = finish_task s.dispatch job.thread now job.inst;
        executing = before ++ after;
      }
      → Works s t

pub Works-Step : (parallel : Bool) (s t : System) → Works s t → Step parallel s t
Works-Step parallel s t (takes_up thread inst ready f e h) = polls thread h
Works-Step parallel s t (completes before after job now e h) = finishes before after job now e h

-- The tasks that wait, those that run, and the places in the line of ready instances.
abbrev pub work : System → ℕ
work s =
    3 * (length s.posted - length s.taken)
    + 2 * length s.executing
    + length s.dispatch.ready_instances

abbrev of_inst : ℕ → ℕ × Task → Bool
of_inst i x = x.0 == i

length-tasks_of : (i : ℕ) (xs : List (ℕ × Task)) → length (tasks_of i xs) ≡ count (of_inst i) xs
unfolding tasks_of
length-tasks_of i [] = refl
length-tasks_of i ((j, task) ∷ xs) = ground (arith, length-tasks_of i xs)

-- An element that passes a test, and what stands around it.
find_counted :
    (p : ℕ × Task → Bool) (ys : List (ℕ × Task))
    → 0 < count p ys
    → (a : List (ℕ × Task)) × (y : ℕ × Task) × (b : List (ℕ × Task)) × (ys ≡ a ++ y ∷ b)
      × (p y ≡ true)
find_counted p [] h = absurd (omega arith)
find_counted p (y ∷ ys) h = elim (Bool-cases (p y)) [
  | inl t ↦ ([], y, ys, refl, t)
  | inr f ↦
      let (a, z, b, e, g) = find_counted p ys (omega (arith, count-cons p y ys, ap one_if f)) in
      (y ∷ a, z, b, ap (λ l. y ∷ l) e, g)
]

-- Where no instance has more of its tasks in one list than in another, the list is not longer.
length_by_inst :
    (xs ys : List (ℕ × Task))
    → ((i : ℕ) → count (of_inst i) xs ≤ count (of_inst i) ys)
    → length xs ≤ length ys
length_by_inst [] ys h = omega arith
length_by_inst ((j, task) ∷ xs) ys h =
    let one : one_if (of_inst j (j, task)) ≡ 1 = ap one_if (eq→== j j refl) in
    let (a, (k, other), b, e, g) =
      find_counted (of_inst j) ys (omega (arith, h j, count-cons (of_inst j) (j, task) xs, one)) in
    let same : k ≡ j = ground (arith, g) in
    let rest = length_by_inst xs (a ++ b) (λ i.
      let eq : one_if (of_inst i (k, other)) ≡ one_if (of_inst i (j, task)) =
        ap (λ x. one_if (x == i)) same in
      omega (
        arith,
        h i,
        count-cons (of_inst i) (j, task) xs,
        ap (count (of_inst i)) e,
        count-middle (of_inst i) a (k, other) b,
        eq,
      )) in
    omega (arith, rest, ap length e, length-append a ((k, other) ∷ b), length-append a b)

-- No more tasks are taken than posted.
taken_le : (parallel : Bool) (s : System) → Reachable parallel s → length s.taken ≤ length s.posted
taken_le parallel s r = length_by_inst s.taken s.posted (λ i. omega (
  arith,
  ap length (posted_in_order parallel s i r),
  length-append (tasks_of i s.taken) (s.dispatch.instance_map i).task_queue,
  length-tasks_of i s.posted,
  length-tasks_of i s.taken,
))

module _ (s : System) (thread inst : ℕ) (ready : List ℕ) where
  take_from-work :
      (q : List Task)
      → s.dispatch.ready_instances ≡ inst ∷ ready
      → let t = after_take s thread (take_from s.dispatch inst ready q) in
        length t.taken ≤ length t.posted → work t < work s
  unfolding take_from after_take
  take_from-work [] e h = omega (arith, ap length e)
  take_from-work (task ∷ q) e h =
      omega (arith, ap length e, length-append s.taken ((inst, task) ∷ []))

  taken_up :
      s.dispatch.stop ≡ false
      → s.dispatch.ready_instances ≡ inst ∷ ready
      → take_task s.dispatch
        ≡ take_from s.dispatch inst ready (s.dispatch.instance_map inst).task_queue
  unfolding take_task take_ready
  taken_up f e =
      ap (λ b. if b then stops else take_ready s.dispatch s.dispatch.ready_instances) f
      ∙ ap (take_ready s.dispatch) e

requeue-ready :
    (d : Dispatch) (inst : ℕ) (q : List Task)
    → length (requeue d inst q).ready_instances ≤ length d.ready_instances + 1
unfolding requeue
requeue-ready d inst [] = omega arith
requeue-ready d inst (task ∷ q) = omega (arith, length-append d.ready_instances (inst ∷ []))

finish_task-ready :
    (d : Dispatch) (self now inst : ℕ)
    → length (finish_task d self now inst).ready_instances ≤ length d.ready_instances + 1
unfolding finish_task
finish_task-ready d self now inst =
    requeue-ready (record d { workers = free_first self now d.workers }) inst
      (d.instance_map inst).task_queue

pub Works-work :
    (parallel : Bool) (s t : System) → Reachable parallel s → Works s t → work t < work s
Works-work parallel s t r (takes_up thread inst ready f e h) =
    let k = h ∙ ap (after_take s thread) (taken_up s thread inst ready f e) in
    let q = (s.dispatch.instance_map inst).task_queue in
    let le = taken_le parallel t (moves r (polls thread h)) in
    subst (λ x. work x < work s) (sym k)
      (take_from-work s thread inst ready q e (subst (λ x. length x.taken ≤ length x.posted) k le))
Works-work parallel s t r (completes before after job now e h) =
    subst (λ x. work x < work s) (sym h)
      (omega (
        arith,
        ap length e,
        length-append before (job ∷ after),
        length-append before after,
        finish_task-ready s.dispatch job.thread now job.inst,
      ))
