-- ===== src/Dispatch/Answering.antt =====
-- fjdispatchlite.h: a task from its post to the value that its caller gets.
use fjdispatchlite.Prelude.{
  ℕ, ◌<◌, ◌≡◌, refl, ap, ◌∙◌, inl, inr, Bool, true, false, some, List, [], ◌∷◌, ◌++◌, ltb, not,
  none, ◌||◌, ◌&&◌, eq→==, if◌then◌else◌, length, take, Bool-cases,
}
use fjdispatchlite.Results.{max_results, get_handle, new_resultitem, post_resultitem, poll}
use fjdispatchlite.Results.Store.{IsWellFormed, IsNew}
use fjdispatchlite.Results.Retention.{register_all, AreNew, retained}
use fjdispatchlite.Dispatch.{
  Task, message, event, Dispatch, Env, max_threads, adjust_workers, spawn_worker, queue_task,
  enqueue, new_handle, post_queue, post_event, takes, stops, take_from, take_ready, take_task,
  end_task,
}

-- The dispatcher runs, no instance is ready, and this one has no task.
pub record IsIdle (d : Dispatch) (inst : ℕ) : Type 0 where
  pub running : d.stop ≡ false
  pub none_ready : d.ready_instances ≡ []
  pub no_task : d.instance_map inst ≡ record { task_queue = []; running = false }

-- What a worker takes, and the table and the instance behind it.
record Takes (d : Dispatch) (inst : ℕ) (task : Task) : Type 0 where
  rest : Dispatch
  taken : take_task d ≡ takes inst task rest
  same_table : rest.table ≡ d.table

take_task_one :
    (d : Dispatch) (inst : ℕ) (task : Task)
    → d.stop ≡ false
    → d.ready_instances ≡ inst ∷ []
    → (d.instance_map inst).task_queue ≡ task ∷ []
    → Takes d inst task
unfolding take_task take_ready
take_task_one d inst task s r q = record {
  rest = _;
  taken =
      ap (λ b. if b then stops else take_ready d d.ready_instances) s
      ∙ ap (take_ready d) r
      ∙ ap (take_from d inst []) q;
  same_table = refl;
}

-- A post to an idle instance, as far as the next worker sees it.
record Queued (d d' : Dispatch) (inst : ℕ) (task : Task) : Type 0 where
  running : d'.stop ≡ false
  ready : d'.ready_instances ≡ inst ∷ []
  queue : (d'.instance_map inst).task_queue ≡ task ∷ []
  same_table : d'.table ≡ d.table

queue_task-Queued :
    (d : Dispatch) (inst : ℕ) (task : Task) (isseq : Bool)
    → IsIdle d inst
    → Queued d (queue_task d inst task isseq) inst task
unfolding queue_task
queue_task-Queued d inst task isseq i =
    let t : (not (d.instance_map inst).running || not isseq) ≡ true =
      ap (λ x. not x.running || not isseq) i.no_task in
    rw (t, queue_task)
      (record {
        running = i.running;
        ready = ap (λ l. l ++ inst ∷ []) i.none_ready;
        queue = rw (eq→== inst inst refl) (ap (λ x. x.task_queue ++ task ∷ []) i.no_task);
        same_table = refl;
      })

adjust_workers-Queued :
    (env : Env) (d d' : Dispatch) (inst : ℕ) (task : Task)
    → Queued d d' inst task
    → Queued d (adjust_workers env d') inst task
unfolding adjust_workers spawn_worker
adjust_workers-Queued env d d' inst task q =
    elim (Bool-cases
      (ltb d'.num_of_threads (length d'.ready_instances) && ltb d'.num_of_threads max_threads)) [
        | inl t ↦
            rw (t, adjust_workers)
              (record {
                running = q.running;
                ready = q.ready;
                queue = q.queue;
                same_table = q.same_table;
              })
        | inr f ↦ rw (f, adjust_workers) q
      ]

enqueue-Takes :
    (d : Dispatch) (env : Env) (inst : ℕ) (task : Task) (isseq : Bool)
    → IsIdle d inst
    → (t : Takes (enqueue d env inst task isseq) inst task) × (t.rest.table ≡ d.table)
unfolding enqueue
enqueue-Takes d env inst task isseq i =
    let q = adjust_workers-Queued env d _ inst task (queue_task-Queued d inst task isseq i) in
    let t = take_task_one (enqueue d env inst task isseq) inst task q.running q.ready q.queue in
    (t, t.same_table ∙ q.same_table)

-- The dispatcher while the task runs, with the results that others have registered meanwhile.
abbrev pub meanwhile : Dispatch → List ℕ → Dispatch
meanwhile d ns = record d { table = register_all d.table ns }

-- A worker takes the task, and its value is then found under the handle.
pub record Answers (d : Dispatch) (inst handle : ℕ) (task : Task) (ns : List ℕ) (value : ℕ)
    : Type 0 where
  pub rest : Dispatch
  pub taken : take_task d ≡ takes inst task rest
  pub before : poll (meanwhile rest ns).table handle ≡ none
  pub after : poll (end_task (meanwhile rest ns) task value).table handle ≡ some value

module _ (d : Dispatch) (env : Env) (inst msg : ℕ) (ns : List ℕ) (value : ℕ) (i : IsIdle d inst)
    (w : IsWellFormed d.table) (new : IsNew d.table (get_handle d.handle_counter).1)
    (others : AreNew (new_resultitem d.table (get_handle d.handle_counter).1) ns)
    (few : length ns < max_results) where
  abbrev handle : ℕ
  handle = (get_handle d.handle_counter).1

  abbrev counted : Dispatch
  counted = record d {
    handle_counter = (get_handle d.handle_counter).0;
    table = new_resultitem d.table handle;
  }

  -- Any task that posts its value under the handle.
  enqueue-Answers :
      (task : Task) (isseq : Bool)
      → ((e : Dispatch) → (end_task e task value).table ≡ post_resultitem e.table handle value)
      → Answers (enqueue counted env inst task isseq) inst handle task ns value
  enqueue-Answers task isseq ends =
      let (t, e) =
        enqueue-Takes counted env inst task isseq
          (record { running = i.running; none_ready = i.none_ready; no_task = i.no_task }) in
      let r = retained d.table handle ns w new others value few in
      record {
        rest = t.rest;
        taken = t.taken;
        before = ap (λ x. poll (register_all x ns) handle) e ∙ r.0;
        after =
            ap (λ x. poll x handle) (ends (meanwhile t.rest ns))
            ∙ ap (λ x. poll (post_resultitem (register_all x ns) handle value) handle) e
            ∙ r.1;
      }

  -- In a dispatcher that runs, where no instance is ready and this one has no task, a post of a message
  -- puts it before the next worker, with its handle, its name and the first `len` bytes of its data;
  -- while fewer than 100 other results are registered, all under new handles, there is no value under
  -- the handle until the task ends, and then it is the value that the method gave.
  pub post_queue-Answers :
      (buf : List ℕ) (len : ℕ) (isseq : Bool) (srcfunc : List ℕ)
      → let (d', handle) = post_queue d env inst msg buf len isseq srcfunc in
        Answers d' inst handle (message handle srcfunc msg (take len buf)) ns value
  unfolding post_queue new_handle end_task
  post_queue-Answers buf len isseq srcfunc =
      enqueue-Answers (message handle srcfunc msg (take len buf)) isseq (λ e. refl)

  -- An event is answered likewise; it has no data.
  pub post_event-Answers :
      (srcfunc : List ℕ)
      → let (d', handle) = post_event d env inst msg srcfunc in
        Answers d' inst handle (event handle srcfunc msg) ns value
  unfolding post_event new_handle end_task
  post_event-Answers srcfunc = enqueue-Answers (event handle srcfunc msg) true (λ e. refl)
