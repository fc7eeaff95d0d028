-- ===== src/Dispatch/Scheduling.antt =====
-- fjdispatchlite.h: how one instance fares while the threads work. A step of the system is a move of
-- each instance, on its flag, its queue and its tokens: its places in `ready_instances_` and its tasks
-- that run.
use fjdispatchlite.Prelude.{
  ℕ, suc, ◌+◌, ◌≡◌, refl, ap, ◌∙◌, inl, inr, ◌⊎◌, Bool, true, false, ◌&&◌, List, [], ◌∷◌, ◌++◌,
  arith, ◌==◌, if◌then◌else◌, Bool-cases, ltb, length,
}
use fjdispatchlite.Dispatch.{
  Task, message, event, packaged, Env, Dispatch, max_threads, spawn_worker, adjust_workers,
  begin_task, end_task,
}
use fjdispatchlite.Dispatch.System.{Job, System}

-- How often an instance stands in a list.
unfoldable pub occurrences : ℕ → List ℕ → ℕ
occurrences i [] = 0
occurrences i (j ∷ js) = (if j == i then 1 else 0) + occurrences i js

pub occurrences-append :
    (i : ℕ) (xs ys : List ℕ) → occurrences i (xs ++ ys) ≡ occurrences i xs + occurrences i ys
unfolding occurrences
occurrences-append i [] ys = omega arith
occurrences-append i (x ∷ xs) ys = omega (arith, occurrences-append i xs ys)

abbrev pub insts : List Job → List ℕ
insts [] = []
insts (j ∷ js) = j.inst ∷ insts js

pub insts-append : (xs ys : List Job) → insts (xs ++ ys) ≡ insts xs ++ insts ys
insts-append [] ys = refl
insts-append (x ∷ xs) ys = ap (λ l. x.inst ∷ l) (insts-append xs ys)

-- The tasks of one instance in a list of tasks.
unfoldable pub tasks_of : ℕ → List (ℕ × Task) → List Task
tasks_of i [] = []
tasks_of i ((j, task) ∷ rest) = if j == i then task ∷ tasks_of i rest else tasks_of i rest

pub tasks_of-append :
    (i : ℕ) (xs ys : List (ℕ × Task)) → tasks_of i (xs ++ ys) ≡ tasks_of i xs ++ tasks_of i ys
unfolding tasks_of
tasks_of-append i [] ys = refl
tasks_of-append i ((j, task) ∷ rest) ys = elim (Bool-cases (j == i)) [
  | inl t ↦ rw (t, tasks_of) (ap (λ l. task ∷ l) (tasks_of-append i rest ys))
  | inr f ↦ rw (f, tasks_of) (tasks_of-append i rest ys)
]

-- One instance.
pub record Local : Type 0 where
  pub running : Bool
  pub queue : List Task
  pub tokens : ℕ
  pub posted : List Task
  pub taken : List Task

unfoldable pub local : ℕ → System → Local
unfolding occurrences tasks_of
local i s = record {
  running = (s.dispatch.instance_map i).running;
  queue = (s.dispatch.instance_map i).task_queue;
  tokens = occurrences i s.dispatch.ready_instances + occurrences i (insts s.executing);
  posted = tasks_of i s.posted;
  taken = tasks_of i s.taken;
}

-- What does not change in a move.
pub record Same (a b : Local) : Type 0 where
  pub running : b.running ≡ a.running
  pub queue : b.queue ≡ a.queue
  pub tokens : b.tokens ≡ a.tokens
  pub posted : b.posted ≡ a.posted
  pub taken : b.taken ≡ a.taken

pub record Gains (a b : Local) (task : Task) : Type 0 where
  pub running : b.running ≡ true
  pub queue : b.queue ≡ a.queue ++ task ∷ []
  pub posted : b.posted ≡ a.posted ++ task ∷ []
  pub taken : b.taken ≡ a.taken

pub record Gives (a b : Local) (task : Task) : Type 0 where
  pub running : b.running ≡ a.running
  pub queue : a.queue ≡ task ∷ b.queue
  pub tokens : b.tokens ≡ a.tokens
  pub posted : b.posted ≡ a.posted
  pub taken : b.taken ≡ a.taken ++ task ∷ []

pub record Idles (a b : Local) : Type 0 where
  pub running : b.running ≡ false
  pub queue : (a.queue ≡ []) × (b.queue ≡ [])
  pub tokens : a.tokens ≡ suc b.tokens
  pub posted : b.posted ≡ a.posted
  pub taken : b.taken ≡ a.taken

pub data Move (parallel : Bool) (a b : Local) : Type 0 where
  stays : Same a b → Move parallel a b
  wakes :
      (task : Task)
      → Gains a b task
      → (a.running ≡ false) ⊎ (parallel ≡ true)
      → b.tokens ≡ suc a.tokens
      → Move parallel a b
  waits_more :
      (task : Task) → Gains a b task → a.running ≡ true → b.tokens ≡ a.tokens → Move parallel a b
  gives : (task : Task) → Gives a b task → Move parallel a b
  idles : Idles a b → Move parallel a b

-- The two fields of the dispatcher that a move reads are not touched.
pub record Untouched (d e : Dispatch) : Type 0 where
  pub instances : e.instance_map ≡ d.instance_map
  pub ready : e.ready_instances ≡ d.ready_instances

pub adjust_workers-Untouched : (env : Env) (d : Dispatch) → Untouched d (adjust_workers env d)
unfolding adjust_workers spawn_worker
adjust_workers-Untouched env d =
    elim (Bool-cases
      (ltb d.num_of_threads (length d.ready_instances) && ltb d.num_of_threads max_threads)) [
        | inl t ↦ rw t (record { instances = refl; ready = refl })
        | inr f ↦ rw f (record { instances = refl; ready = refl })
      ]

pub begin_task-Untouched :
    (d : Dispatch) (self delay : ℕ) (task : Task) → Untouched d (begin_task d self delay task)
unfolding begin_task
begin_task-Untouched d self delay (message handle srcfunc msg buf) = record {
  instances = refl;
  ready = refl;
}
begin_task-Untouched d self delay (event handle srcfunc msg) = record {
  instances = refl;
  ready = refl;
}
begin_task-Untouched d self delay (packaged body) = record { instances = refl; ready = refl }

pub end_task-Untouched : (d : Dispatch) (task : Task) (ret : ℕ) → Untouched d (end_task d task ret)
unfolding end_task
end_task-Untouched d (message handle srcfunc msg buf) ret = record {
  instances = refl;
  ready = refl;
}
end_task-Untouched d (event handle srcfunc msg) ret = record { instances = refl; ready = refl }
end_task-Untouched d (packaged body) ret = record { instances = refl; ready = refl }

pub local-Untouched :
    (i : ℕ) (s : System) (d e : Dispatch)
    → Untouched d e
    → local i (record s { dispatch = e }) ≡ local i (record s { dispatch = d })
unfolding local
local-Untouched i s d e u =
    ap
      (λ f. record {
        running = (f i).running;
        queue = (f i).task_queue;
        tokens = occurrences i e.ready_instances + occurrences i (insts s.executing);
        posted = tasks_of i s.posted;
        taken = tasks_of i s.taken;
      })
      u.instances
    ∙ ap
        (λ l. record {
          running = (d.instance_map i).running;
          queue = (d.instance_map i).task_queue;
          tokens = occurrences i l + occurrences i (insts s.executing);
          posted = tasks_of i s.posted;
          taken = tasks_of i s.taken;
        })
        u.ready

pub stays-Untouched :
    (parallel : Bool) (i : ℕ) (s : System) (e : Dispatch)
    → Untouched s.dispatch e
    → Move parallel (local i s) (local i (record s { dispatch = e }))
unfolding local
stays-Untouched parallel i s e u = stays (record {
  running = ap (λ f. (f i).running) u.instances;
  queue = ap (λ f. (f i).task_queue) u.instances;
  tokens = ap (λ l. occurrences i l + occurrences i (insts s.executing)) u.ready;
  posted = refl;
  taken = refl;
})
