-- ===== src/Dispatch/Workers.antt =====
-- fjdispatchlite.h: the pool of worker threads, its size and what the monitor reports of it.
use fjdispatchlite.Prelude.{
  ℕ, suc, ◌+◌, ◌-◌, ◌≤◌, ◌<◌, ◌≡◌, ◌≢◌, refl, subst, inl, inr, Bool, not, ◌&&◌, ◌||◌, List, [], ◌∷◌,
  ◌++◌, arith, ltb, leb, ◌==◌, Bool-cases, leb→gt, length, length-append, All, All-kept, sub64,
  keep,
}
use fjdispatchlite.Prelude.Assoc.{IsDistinct}
use fjdispatchlite.Dispatch.{
  WorkerInfo, Task, Env, queue_task, Dispatch, max_threads, min_threads, idle_timeout, hung_timeout,
  adjust_workers, shrink_loop, shrink_workers, enqueue, hung_workers, finish_task, requeue,
  free_first, create,
}

-- `num_of_threads_` counts the workers, of which there are 1 to 8.
pub record IsStaffed (d : Dispatch) : Type 0 where
  pub counted : d.num_of_threads ≡ length d.workers
  pub some_worker : min_threads ≤ d.num_of_threads
  pub bounded : d.num_of_threads ≤ max_threads

pub create-IsStaffed : (first second : Env) → IsStaffed (create first second)
unfolding create
create-IsStaffed first second = omega arith

-- Adding a worker keeps the count right, and within the maximum.
pub adjust_workers-IsStaffed :
    (env : Env) (d : Dispatch) → IsStaffed d → IsStaffed (adjust_workers env d)
unfolding adjust_workers
adjust_workers-IsStaffed env d s =
    elim (Bool-cases
      (ltb d.num_of_threads (length d.ready_instances) && ltb d.num_of_threads max_threads)) [
        | inr f ↦ rw (f, adjust_workers) s
        | inl t ↦
            let lt : d.num_of_threads < max_threads = ground arith in
            rw (t, adjust_workers)
              (let l = length-append d.workers (
                  record {
                    thread = env.new_thread;
                    last_active_ms = env.now;
                    task_start_ms = 0;
                    task_srcfunc = [];
                  }
                  ∷ []) in
                omega (arith, l, s.counted, s.some_worker))
      ]

queue_task-IsStaffed :
    (d : Dispatch) (inst : ℕ) (task : Task) (isseq : Bool)
    → IsStaffed d
    → IsStaffed (queue_task d inst task isseq)
unfolding queue_task
queue_task-IsStaffed d inst task isseq s =
    elim (Bool-cases (not (d.instance_map inst).running || not isseq)) [
      | inl t ↦
          rw (t, queue_task)
            (record { counted = s.counted; some_worker = s.some_worker; bounded = s.bounded })
      | inr f ↦
          rw (f, queue_task)
            (record { counted = s.counted; some_worker = s.some_worker; bounded = s.bounded })
    ]

-- Posting a task keeps the number of threads equal to that of the workers, and between 1 and 8.
pub enqueue-IsStaffed :
    (d : Dispatch) (env : Env) (inst : ℕ) (task : Task) (isseq : Bool)
    → IsStaffed d
    → IsStaffed (enqueue d env inst task isseq)
unfolding enqueue
enqueue-IsStaffed d env inst task isseq s =
    adjust_workers-IsStaffed env _ (queue_task-IsStaffed d inst task isseq s)

shrink_loop-counts :
    (now : ℕ) (passed ws : List WorkerInfo) (num : ℕ)
    → num ≡ length passed + length ws
    → min_threads ≤ num
    → num ≤ max_threads
    → let (kept, n) = shrink_loop now passed ws num in
      (n ≡ length kept) × (min_threads ≤ n) × (n ≤ num)
unfolding shrink_loop
shrink_loop-counts now passed [] num e a b = (omega arith, omega arith, omega arith)
shrink_loop-counts now passed (w ∷ ws) num e a b =
    elim (Bool-cases (leb (length passed + suc (length ws)) min_threads)) [
      | inl t ↦ rw t (omega (arith, length-append passed (w ∷ ws)), omega arith, omega arith)
      | inr f ↦ elim (Bool-cases (leb idle_timeout (sub64 now w.last_active_ms))) [
        | inl old ↦
            let c : sub64 num 1 ≡ num - 1 = omega arith in
            let r =
              shrink_loop-counts now passed ws (num - 1) (omega arith) (omega (arith, leb→gt _ _ f))
                (omega arith) in
            rw (f, old, c) (r.0, r.1, omega (arith, r.2))
        | inr young ↦
            rw (f, young)
              (shrink_loop-counts now (passed ++ w ∷ []) ws num
                (omega (arith, length-append passed (w ∷ []))) a b)
      ]
    ]

-- Shrinking keeps the number of threads equal to that of the workers, and between 1 and 8.
pub shrink_workers-IsStaffed :
    (now : ℕ) (d : Dispatch) → IsStaffed d → IsStaffed (shrink_workers now d)
unfolding shrink_workers
shrink_workers-IsStaffed now d s =
    let r =
      shrink_loop-counts now [] d.workers d.num_of_threads (omega (arith, s.counted)) s.some_worker
        s.bounded in
    record { counted = r.0; some_worker = r.1; bounded = omega (arith, r.2, s.bounded) }

-- The threads of the workers.
abbrev pub threads : List WorkerInfo → List ℕ
threads [] = []
threads (w ∷ ws) = w.thread ∷ threads ws

abbrev pub is_hung : ℕ → WorkerInfo → Bool
is_hung now w = not (length w.task_srcfunc == 0) && leb hung_timeout (sub64 now w.task_start_ms)

of_threads :
    (self : ℕ) (ws : List WorkerInfo)
    → All (λ j. j ≢ self) (threads ws)
    → All (λ w. w.thread ≢ self) ws
of_threads self [] a = tt
of_threads self (w ∷ ws) a = (a.0, of_threads self ws a.1)

free_first_not_hung :
    (self now later : ℕ) (ws : List WorkerInfo)
    → IsDistinct (threads ws)
    → All (λ w. w.thread ≢ self) (keep (is_hung later) (free_first self now ws))
unfolding free_first
free_first_not_hung self now later [] d = tt
free_first_not_hung self now later (w ∷ ws) d = elim (Bool-cases (self == w.thread)) [
  | inl t ↦
      let e : w.thread ≡ self = ground arith in
      rw (t, free_first)
        (All-kept _ (is_hung later) ws
          (of_threads self ws (subst (λ k. All (λ j. j ≢ k) (threads ws)) e d.0)))
  | inr f ↦
      let r = free_first_not_hung self now later ws d.1 in
      let n : w.thread ≢ self = ground arith in
      rw (f, free_first)
        (elim (Bool-cases (is_hung later w)) [
          | inl h ↦ rw (h, keep) (n, r)
          | inr h ↦ rw (h, keep) r
        ])
]

requeue-workers : (d : Dispatch) (inst : ℕ) (q : List Task) → (requeue d inst q).workers ≡ d.workers
unfolding requeue
requeue-workers d inst [] = refl
requeue-workers d inst (t ∷ q) = refl

-- Where the workers run on different threads, the thread that has finished a task is reported by no
-- later round of the monitor, whatever the time, until it starts another task.
pub finish_task-hung_workers :
    (d : Dispatch) (self now later inst : ℕ)
    → IsDistinct (threads d.workers)
    → All (λ w. w.thread ≢ self) (hung_workers later (finish_task d self now inst))
unfolding finish_task hung_workers
finish_task-hung_workers d self now later inst u =
    rw (requeue-workers _ inst (d.instance_map inst).task_queue)
      (free_first_not_hung self now later d.workers u)
