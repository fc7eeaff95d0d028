-- ===== src/Dispatch/System.antt =====
-- fjdispatchlite.h: the dispatcher with its threads, as a relation of steps. A step is one section
-- under `mutex_`; between two sections of one thread those of the others may come in any order.
use fjdispatchlite.Prelude.{ℕ, ◌≡◌, Bool, true, ◌||◌, List, [], ◌∷◌, ◌++◌}
use fjdispatchlite.Results.{get_handle}
use fjdispatchlite.Dispatch.{
  Task, Env, Dispatch, Taken, waits, stops, skips, takes, create, enqueue, new_handle, take_task,
  begin_task, end_task, finish_task, declare_stop,
}

-- A task that a worker has taken and not yet finished.
pub record Job : Type 0 where
  pub thread : ℕ
  pub inst : ℕ
  pub task : Task

-- The dispatcher, the tasks that run, and all tasks in the order in which they were posted, and in
-- which they were taken.
pub record System : Type 0 where
  pub dispatch : Dispatch
  pub executing : List Job
  pub posted : List (ℕ × Task)
  pub taken : List (ℕ × Task)

unfoldable pub initial : Env → Env → System
initial first second = record {
  dispatch = create first second;
  executing = [];
  posted = [];
  taken = [];
}

unfoldable pub after_post : System → Env → ℕ → Task → Bool → System
after_post s env inst task isseq = record s {
  dispatch = enqueue s.dispatch env inst task isseq;
  posted = s.posted ++ (inst, task) ∷ [];
}

-- The head of the loop of `workerThread`, on the thread `thread`.
unfoldable pub after_take : System → ℕ → Taken → System
after_take s thread waits = s
after_take s thread stops = s
after_take s thread (skips d) = record s { dispatch = d }
after_take s thread (takes inst task d) = record s {
  dispatch = d;
  executing = record { thread = thread; inst = inst; task = task } ∷ s.executing;
  taken = s.taken ++ (inst, task) ∷ [];
}

-- Where `parallel` is false, every task is posted to run after the others of its instance.
pub data Step (parallel : Bool) (s t : System) : Type 0 where
  posts :
      (env : Env) (inst : ℕ) (task : Task) (isseq : Bool)
      → (isseq || parallel) ≡ true
      → t ≡ after_post s env inst task isseq
      → Step parallel s t
  hands_out : t ≡ record s { dispatch = (new_handle s.dispatch).0 } → Step parallel s t
  counts :
      t ≡ record s {
        dispatch = record s.dispatch { handle_counter = (get_handle s.dispatch.handle_counter).0 };
      }
      → Step parallel s t
  polls : (thread : ℕ) → t ≡ after_take s thread (take_task s.dispatch) → Step parallel s t
  begins :
      (before after : List Job) (job : Job) (delay : ℕ)
      → s.executing ≡ before ++ job ∷ after
      → t ≡ record s { dispatch = begin_task s.dispatch job.thread delay job.task }
      → Step parallel s t
  ends :
      (before after : List Job) (job : Job) (ret : ℕ)
      → s.executing ≡ before ++ job ∷ after
      → t ≡ record s { dispatch = end_task s.dispatch job.task ret }
      → Step parallel s t
  finishes :
      (before after : List Job) (job : Job) (now : ℕ)
      → s.executing ≡ before ++ job ∷ after
      → t ≡ record s {
        dispatch = finish_task s.dispatch job.thread now job.inst;
        executing = before ++ after;
      }
      → Step parallel s t
  halts : t ≡ record s { dispatch = declare_stop s.dispatch } → Step parallel s t

pub data Reachable (parallel : Bool) : System → Type 0 where
  starts : (first second : Env) → Reachable parallel (initial first second)
  moves : {s t : System} → Reachable parallel s → Step parallel s t → Reachable parallel t
