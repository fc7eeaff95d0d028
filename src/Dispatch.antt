-- ===== src/Dispatch.antt =====
-- fjdispatchlite/fjdispatchlite.h: `FJDispatchLite`, the dispatcher. A function is one critical
-- section under `mutex_`, or the calls of one thread in their order. An instance is the address of an
-- `FJUnitFrames`; a method's return value, the time and new thread ids come from the environment.
pub mod Workers
pub mod System
pub mod Scheduling
pub mod Moves
pub mod Taking
pub mod Sections
pub mod Staff
pub mod Work
pub mod Invariants
pub mod Exclusion
pub mod Order
pub mod Remaining
pub mod Answering
mod Tests
use fjdispatchlite.Prelude.{
  ℕ, suc, ◌+◌, ◌≤◌, ◌<◌, Bool, true, false, not, ◌&&◌, ◌||◌, Option, none, some, List, [], ◌∷◌,
  ◌++◌, ltb, leb, ◌==◌, if◌then◌else◌, length, take, keep, add64, sub64,
}
use fjdispatchlite.Results.{ResultTable, get_handle, new_resultitem, post_resultitem}

-- FJDISPATCHLITE_DEFAULT_THREADS, _MAX_THREADS, _MIN_THREADS, _IDLE_TIMEOUT_MSEC, _HUNG_TIMEOUT_MSEC
abbrev pub default_threads : ℕ
default_threads = 2

abbrev pub max_threads : ℕ
max_threads = 8

abbrev pub min_threads : ℕ
min_threads = 1

abbrev pub idle_timeout : ℕ
idle_timeout = 60000

abbrev pub hung_timeout : ℕ
hung_timeout = 15000

-- The name of a calling function is the list of its bytes.
pub record WorkerInfo : Type 0 where
  pub thread : ℕ
  pub last_active_ms : ℕ
  pub task_start_ms : ℕ
  pub task_srcfunc : List ℕ

-- The packaged tasks of `postQueue`, `postEvent` and `enqueueTask`, with what their lambdas capture.
pub data Task : Type 0 where
  message : (handle : ℕ) (srcfunc : List ℕ) (msg : ℕ) (buf : List ℕ) → Task
  event : (handle : ℕ) (srcfunc : List ℕ) (msg : ℕ) → Task
  packaged : (body : ℕ) → Task

pub record InstanceInfo : Type 0 where
  pub task_queue : List Task
  pub running : Bool

-- `instance_map_[inst]` makes an empty entry where there is none, so the map is total.
pub record Dispatch : Type 0 where
  pub stop : Bool
  pub workers : List WorkerInfo
  pub num_of_threads : ℕ
  pub instance_map : ℕ → InstanceInfo
  pub ready_instances : List ℕ
  pub table : ResultTable
  pub handle_counter : ℕ

abbrev pub update {ℓ} : {A : Type ℓ} → (ℕ → A) → ℕ → A → ℕ → A
update f k v j = if j == k then v else f j

-- What the environment gives to a call that may start a thread.
pub record Env : Type 0 where
  pub now : ℕ
  pub new_thread : ℕ

unfoldable pub spawn_worker : Env → Dispatch → Dispatch
spawn_worker env d =
    let info : WorkerInfo = record {
      thread = env.new_thread;
      last_active_ms = env.now;
      task_start_ms = 0;
      task_srcfunc = [];
    } in
    record d { workers = d.workers ++ info ∷ [] }

unfoldable pub adjust_workers : Env → Dispatch → Dispatch
unfolding spawn_worker
adjust_workers env d =
    if ltb d.num_of_threads (length d.ready_instances) && ltb d.num_of_threads max_threads
    then record (spawn_worker env d) { num_of_threads = add64 d.num_of_threads 1 }
    else d

-- The loop of `_shrink_workers`: the workers passed, those to come, and `num_of_threads_`.
unfoldable pub shrink_loop : ℕ → List WorkerInfo → List WorkerInfo → ℕ → List WorkerInfo × ℕ
shrink_loop now passed [] num = (passed, num)
shrink_loop now passed (w ∷ ws) num =
    let erased = shrink_loop now passed ws (sub64 num 1) in
    let kept = shrink_loop now (passed ++ w ∷ []) ws num in
    if leb (length passed + suc (length ws)) min_threads
    then (passed ++ w ∷ ws, num)
    else if leb idle_timeout (sub64 now w.last_active_ms)
    then erased
    else kept

unfoldable pub shrink_workers : ℕ → Dispatch → Dispatch
unfolding shrink_loop
shrink_workers now d =
    let (workers, num) = shrink_loop now [] d.workers d.num_of_threads in
    record d { workers = workers; num_of_threads = num }

-- The first part of a post under `mutex_`: the task is queued, and the instance made ready unless it
-- runs already and its tasks are to run one after the other.
unfoldable pub queue_task : Dispatch → ℕ → Task → Bool → Dispatch
queue_task d inst task isseq =
    let info = d.instance_map inst in
    let queue = info.task_queue ++ task ∷ [] in
    if not info.running || not isseq
    then record d {
      instance_map = update d.instance_map inst (record { task_queue = queue; running = true });
      ready_instances = d.ready_instances ++ inst ∷ [];
    }
    else record d { instance_map = update d.instance_map inst (record info { task_queue = queue }) }

unfoldable pub enqueue : Dispatch → Env → ℕ → Task → Bool → Dispatch
unfolding adjust_workers queue_task
enqueue d env inst task isseq = adjust_workers env (queue_task d inst task isseq)

-- `_new_resultitem`: a handle, and its entry in the table.
unfoldable pub new_handle : Dispatch → Dispatch × ℕ
new_handle d =
    let (counter, handle) = get_handle d.handle_counter in
    (record d { handle_counter = counter; table = new_resultitem d.table handle }, handle)

unfoldable pub post_queue : Dispatch → Env → ℕ → ℕ → List ℕ → ℕ → Bool → List ℕ → Dispatch × ℕ
unfolding enqueue new_handle
post_queue d env inst msg buf len isseq srcfunc =
    let (d', handle) = new_handle d in
    (enqueue d' env inst (message handle srcfunc msg (take len buf)) isseq, handle)

unfoldable pub post_event : Dispatch → Env → ℕ → ℕ → List ℕ → Dispatch × ℕ
unfolding enqueue new_handle
post_event d env inst msg srcfunc =
    let (d', handle) = new_handle d in (enqueue d' env inst (event handle srcfunc msg) true, handle)

-- No entry of the table is made for the handle.
unfoldable pub enqueue_task : Dispatch → Env → ℕ → ℕ → Dispatch × ℕ
unfolding enqueue
enqueue_task d env inst body =
    let (counter, handle) = get_handle d.handle_counter in
    (enqueue (record d { handle_counter = counter }) env inst (packaged body) true, handle)

-- What a worker finds when it holds `mutex_` at the head of its loop.
pub data Taken : Type 0 where
  waits stops : Taken
  skips : Dispatch → Taken
  takes : (inst : ℕ) (task : Task) → Dispatch → Taken

unfoldable pub take_from : Dispatch → ℕ → List ℕ → List Task → Taken
take_from d inst ready [] = skips (record d {
  instance_map = update d.instance_map inst (record { task_queue = []; running = false });
  ready_instances = ready;
})
take_from d inst ready (task ∷ queue) = takes inst task (record d {
  instance_map = update d.instance_map inst (record (d.instance_map inst) { task_queue = queue });
  ready_instances = ready;
})

unfoldable pub take_ready : Dispatch → List ℕ → Taken
unfolding take_from
take_ready d [] = waits
take_ready d (inst ∷ ready) = take_from d inst ready (d.instance_map inst).task_queue

unfoldable pub take_task : Dispatch → Taken
unfolding take_ready
take_task d = if d.stop then stops else take_ready d d.ready_instances

-- The loop at the start of a posted task: every entry of this thread is marked.
unfoldable pub mark_all : ℕ → ℕ → List ℕ → List WorkerInfo → List WorkerInfo
mark_all self delay srcfunc [] = []
mark_all self delay srcfunc (w ∷ ws) =
    (if self == w.thread then record w { task_start_ms = delay; task_srcfunc = srcfunc } else w)
    ∷ mark_all self delay srcfunc ws

-- The first section of a task, before the method is called.
unfoldable pub begin_task : Dispatch → ℕ → ℕ → Task → Dispatch
unfolding mark_all
begin_task d self delay (message handle srcfunc msg buf) = record d {
  workers = mark_all self delay srcfunc d.workers;
}
begin_task d self delay (event handle srcfunc msg) = record d {
  workers = mark_all self delay srcfunc d.workers;
}
begin_task d self delay (packaged body) = d

-- The last section of a task: the method's value `ret` is posted.
unfoldable pub end_task : Dispatch → Task → ℕ → Dispatch
end_task d (message handle srcfunc msg buf) ret = record d {
  table = post_resultitem d.table handle ret;
}
end_task d (event handle srcfunc msg) ret = record d { table = post_resultitem d.table handle ret }
end_task d (packaged body) ret = d

-- The loop behind a task: the first entry of this thread is freed.
unfoldable pub free_first : ℕ → ℕ → List WorkerInfo → List WorkerInfo
free_first self now [] = []
free_first self now (w ∷ ws) =
    if self == w.thread
    then record w { last_active_ms = now; task_srcfunc = [] } ∷ ws
    else w ∷ free_first self now ws

-- The section behind a task: the instance is made ready again, or stops.
unfoldable pub requeue : Dispatch → ℕ → List Task → Dispatch
requeue d inst [] = record d {
  instance_map = update d.instance_map inst (record (d.instance_map inst) { running = false });
}
requeue d inst (task ∷ queue) = record d { ready_instances = d.ready_instances ++ inst ∷ [] }

unfoldable pub finish_task : Dispatch → ℕ → ℕ → ℕ → Dispatch
unfolding free_first requeue
finish_task d self now inst =
    requeue (record d { workers = free_first self now d.workers }) inst
      (d.instance_map inst).task_queue

-- What one round of the monitor reports.
unfoldable pub hung_workers : ℕ → Dispatch → List WorkerInfo
hung_workers now d =
    keep (λ w. not (length w.task_srcfunc == 0) && leb hung_timeout (sub64 now w.task_start_ms))
      d.workers

-- The constructor starts the default number of workers; the destructor declares the end.
unfoldable pub spawn_all : List Env → Dispatch → Dispatch
unfolding spawn_worker
spawn_all [] d = d
spawn_all (env ∷ envs) d = spawn_all envs (spawn_worker env d)

unfoldable pub create : Env → Env → Dispatch
unfolding spawn_all
create first second = spawn_all (first ∷ second ∷ []) (record {
  stop = false;
  workers = [];
  num_of_threads = default_threads;
  instance_map = λ inst. record { task_queue = []; running = false };
  ready_instances = [];
  table = record { results = []; result_order = [] };
  handle_counter = 0;
})

unfoldable pub declare_stop : Dispatch → Dispatch
declare_stop d = record d { stop = true }
