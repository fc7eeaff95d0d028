-- ===== src/Dispatch/Sections.antt =====
-- fjdispatchlite.h: the section behind a task, and every step of the system, as a move of each
-- instance.
use fjdispatchlite.Prelude.{
  ℕ, suc, ◌≡◌, refl, ap, sym, ◌∙◌, subst, inl, inr, Bool, false, List, [], ◌∷◌, ◌++◌, arith, ◌==◌,
  Bool-cases, ==→eq,
}
use fjdispatchlite.Dispatch.{
  Task, Dispatch, new_handle, requeue, finish_task, declare_stop, free_first,
}
use fjdispatchlite.Dispatch.System.{
  Job, System, Step, posts, hands_out, counts, polls, begins, ends, finishes, halts,
}
use fjdispatchlite.Dispatch.Scheduling.{
  occurrences, occurrences-append, insts, insts-append, local, Move, stays, idles, Untouched,
  begin_task-Untouched, end_task-Untouched, stays-Untouched,
}
use fjdispatchlite.Dispatch.Moves.{update_self, update_other, after_post-Move}
use fjdispatchlite.Dispatch.Taking.{
  occurrences-cons_self, occurrences-cons_other, occurrences_nil, take_task-Move,
}

-- A job in the middle of those that run.
insts-middle_self :
    (before after : List Job) (job : Job)
    → occurrences job.inst (insts (before ++ job ∷ after))
      ≡ suc (occurrences job.inst (insts (before ++ after)))
insts-middle_self before after job = omega (
  arith,
  ap (occurrences job.inst) (insts-append before (job ∷ after)),
  ap (occurrences job.inst) (insts-append before after),
  occurrences-append job.inst (insts before) (job.inst ∷ insts after),
  occurrences-append job.inst (insts before) (insts after),
  occurrences-cons_self job.inst (insts after),
)

insts-middle_other :
    (before after : List Job) (job : Job) (i : ℕ)
    → (job.inst == i) ≡ false
    → occurrences i (insts (before ++ job ∷ after)) ≡ occurrences i (insts (before ++ after))
insts-middle_other before after job i f = omega (
  arith,
  ap (occurrences i) (insts-append before (job ∷ after)),
  ap (occurrences i) (insts-append before after),
  occurrences-append i (insts before) (job.inst ∷ insts after),
  occurrences-append i (insts before) (insts after),
  occurrences-cons_other i job.inst (insts after) f,
)

module _ (parallel : Bool) (s : System) (before after : List Job) (job : Job) (now : ℕ)
    (e : s.executing ≡ before ++ job ∷ after) where
  abbrev freed : Dispatch
  freed = record s.dispatch { workers = free_first job.thread now s.dispatch.workers }

  abbrev behind : List Task → System
  behind q = record s { dispatch = requeue freed job.inst q; executing = before ++ after }

  finished_self :
      (q : List Task)
      → (s.dispatch.instance_map job.inst).task_queue ≡ q
      → Move parallel (local job.inst s) (local job.inst (behind q))
  unfolding local requeue
  finished_self [] k =
      let u =
        update_self s.dispatch.instance_map job.inst
          (record (s.dispatch.instance_map job.inst) { running = false }) in
      idles (record {
        running = ap (λ v. v.running) u;
        queue = (k, ap (λ v. v.task_queue) u ∙ k);
        tokens =
            omega (
              arith,
              ap (λ l. occurrences job.inst (insts l)) e,
              insts-middle_self before after job,
            );
        posted = refl;
        taken = refl;
      })
  finished_self (task ∷ q) k = stays (record {
    running = refl;
    queue = refl;
    tokens = omega (
      arith,
      ap (λ l. occurrences job.inst (insts l)) e,
      insts-middle_self before after job,
      occurrences-append job.inst s.dispatch.ready_instances (job.inst ∷ []),
      occurrences-cons_self job.inst [],
      occurrences_nil job.inst,
    );
    posted = refl;
    taken = refl;
  })

  finished_other :
      (i : ℕ) (q : List Task)
      → (job.inst == i) ≡ false
      → Move parallel (local i s) (local i (behind q))
  unfolding local requeue
  finished_other i [] n =
      let u =
        update_other s.dispatch.instance_map job.inst i
          (record (s.dispatch.instance_map job.inst) { running = false }) n in
      stays (record {
        running = ap (λ v. v.running) u;
        queue = ap (λ v. v.task_queue) u;
        tokens =
            omega
              (arith, ap (λ l. occurrences i (insts l)) e, insts-middle_other before after job i n);
        posted = refl;
        taken = refl;
      })
  finished_other i (task ∷ q) n = stays (record {
    running = refl;
    queue = refl;
    tokens = omega (
      arith,
      ap (λ l. occurrences i (insts l)) e,
      insts-middle_other before after job i n,
      occurrences-append i s.dispatch.ready_instances (job.inst ∷ []),
      occurrences-cons_other i job.inst [] n,
      occurrences_nil i,
    );
    posted = refl;
    taken = refl;
  })

  finish_task-Move :
      (i : ℕ)
      → Move parallel (local i s) (
          local i (record s {
            dispatch = finish_task s.dispatch job.thread now job.inst;
            executing = before ++ after;
          }))
  unfolding finish_task
  finish_task-Move i = elim (Bool-cases (job.inst == i)) [
    | inr f ↦ finished_other i (s.dispatch.instance_map job.inst).task_queue f
    | inl t ↦
        subst
          (λ k.
            Move parallel (local k s)
              (local k (behind (s.dispatch.instance_map job.inst).task_queue)))
          (==→eq job.inst i t) (finished_self (s.dispatch.instance_map job.inst).task_queue refl)
  ]

new_handle-Untouched : (d : Dispatch) → Untouched d (new_handle d).0
unfolding new_handle
new_handle-Untouched d = record { instances = refl; ready = refl }

declare_stop-Untouched : (d : Dispatch) → Untouched d (declare_stop d)
unfolding declare_stop
declare_stop-Untouched d = record { instances = refl; ready = refl }

pub Step-Move :
    (parallel : Bool) (s t : System) (i : ℕ)
    → Step parallel s t
    → Move parallel (local i s) (local i t)
Step-Move parallel s t i (posts env inst task isseq p e) =
    subst (λ x. Move parallel (local i s) (local i x)) (sym e)
      (after_post-Move parallel s inst task isseq env i p)
Step-Move parallel s t i (hands_out e) =
    subst (λ x. Move parallel (local i s) (local i x)) (sym e)
      (stays-Untouched parallel i s _ (new_handle-Untouched s.dispatch))
Step-Move parallel s t i (counts e) =
    subst (λ x. Move parallel (local i s) (local i x)) (sym e)
      (stays-Untouched parallel i s _ (record { instances = refl; ready = refl }))
Step-Move parallel s t i (polls thread e) =
    subst (λ x. Move parallel (local i s) (local i x)) (sym e) (take_task-Move parallel s thread i)
Step-Move parallel s t i (begins before after job delay m e) =
    subst (λ x. Move parallel (local i s) (local i x)) (sym e)
      (stays-Untouched parallel i s _ (begin_task-Untouched s.dispatch job.thread delay job.task))
Step-Move parallel s t i (ends before after job ret m e) =
    subst (λ x. Move parallel (local i s) (local i x)) (sym e)
      (stays-Untouched parallel i s _ (end_task-Untouched s.dispatch job.task ret))
Step-Move parallel s t i (finishes before after job now m e) =
    subst (λ x. Move parallel (local i s) (local i x)) (sym e)
      (finish_task-Move parallel s before after job now m i)
Step-Move parallel s t i (halts e) =
    subst (λ x. Move parallel (local i s) (local i x)) (sym e)
      (stays-Untouched parallel i s _ (declare_stop-Untouched s.dispatch))
