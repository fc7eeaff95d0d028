-- ===== src/Dispatch/Taking.antt =====
-- fjdispatchlite.h: the head of the loop of `workerThread`, as a move of each instance.
use fjdispatchlite.Prelude.{
  ℕ, suc, ◌≡◌, refl, ap, sym, ◌∙◌, subst, inl, inr, Bool, true, false, List, [], ◌∷◌, arith, ◌==◌,
  if◌then◌else◌, Bool-cases, ==→eq,
}
use fjdispatchlite.Dispatch.{Task, stops, take_from, take_ready, take_task}
use fjdispatchlite.Dispatch.System.{System, after_take}
use fjdispatchlite.Dispatch.Scheduling.{occurrences, insts, Local, local, Move, stays, gives, idles}
use fjdispatchlite.Dispatch.Moves.{
  self-test, tasks_of-snoc_one, tasks_of-snoc_other, update_self, update_other,
}

pub occurrences-cons_self : (i : ℕ) (xs : List ℕ) → occurrences i (i ∷ xs) ≡ suc (occurrences i xs)
unfolding occurrences
occurrences-cons_self i xs = rw (self-test i) (omega arith)

pub occurrences-cons_other :
    (i j : ℕ) (xs : List ℕ) → (j == i) ≡ false → occurrences i (j ∷ xs) ≡ occurrences i xs
unfolding occurrences
occurrences-cons_other i j xs f = rw f (omega arith)

pub occurrences_nil : (i : ℕ) → occurrences i [] ≡ 0
unfolding occurrences
occurrences_nil i = refl

stays_same : (parallel : Bool) (a : Local) → Move parallel a a
stays_same parallel a =
    stays (record { running = refl; queue = refl; tokens = refl; posted = refl; taken = refl })

module _ (parallel : Bool) (s : System) (thread inst : ℕ) (ready : List ℕ)
    (e : s.dispatch.ready_instances ≡ inst ∷ ready) where
  taken_self :
      (q : List Task)
      → (s.dispatch.instance_map inst).task_queue ≡ q
      → Move parallel
          (local inst s)
          (local inst (after_take s thread (take_from s.dispatch inst ready q)))
  unfolding local after_take take_from
  taken_self [] k =
      let u =
        update_self s.dispatch.instance_map inst (record { task_queue = []; running = false }) in
      idles (record {
        running = ap (λ v. v.running) u;
        queue = (k, ap (λ v. v.task_queue) u);
        tokens = omega (arith, ap (occurrences inst) e, occurrences-cons_self inst ready);
        posted = refl;
        taken = refl;
      })
  taken_self (task ∷ q) k =
      let u =
        update_self s.dispatch.instance_map inst
          (record (s.dispatch.instance_map inst) { task_queue = q }) in
      gives task (record {
        running = ap (λ v. v.running) u;
        queue = k ∙ ap (λ l. task ∷ l) (sym (ap (λ v. v.task_queue) u));
        tokens = omega (
          arith,
          ap (occurrences inst) e,
          occurrences-cons_self inst ready,
          occurrences-cons_self inst (insts s.executing),
        );
        posted = refl;
        taken = tasks_of-snoc_one inst task s.taken;
      })

  taken_other :
      (i : ℕ) (q : List Task)
      → (inst == i) ≡ false
      → Move parallel
          (local i s)
          (local i (after_take s thread (take_from s.dispatch inst ready q)))
  unfolding local after_take take_from
  taken_other i [] n =
      let u =
        update_other s.dispatch.instance_map inst i (record { task_queue = []; running = false })
          n in
      stays (record {
        running = ap (λ v. v.running) u;
        queue = ap (λ v. v.task_queue) u;
        tokens = omega (arith, ap (occurrences i) e, occurrences-cons_other i inst ready n);
        posted = refl;
        taken = refl;
      })
  taken_other i (task ∷ q) n =
      let u =
        update_other s.dispatch.instance_map inst i
          (record (s.dispatch.instance_map inst) { task_queue = q }) n in
      stays (record {
        running = ap (λ v. v.running) u;
        queue = ap (λ v. v.task_queue) u;
        tokens = omega (
          arith,
          ap (occurrences i) e,
          occurrences-cons_other i inst ready n,
          occurrences-cons_other i inst (insts s.executing) n,
        );
        posted = refl;
        taken = tasks_of-snoc_other i inst task s.taken n;
      })

take_ready-Move :
    (parallel : Bool) (s : System) (thread i : ℕ) (ready : List ℕ)
    → s.dispatch.ready_instances ≡ ready
    → Move parallel (local i s) (local i (after_take s thread (take_ready s.dispatch ready)))
unfolding take_ready after_take
take_ready-Move parallel s thread i [] e = stays_same parallel (local i s)
take_ready-Move parallel s thread i (inst ∷ ready) e = elim (Bool-cases (inst == i)) [
  | inr f ↦ taken_other parallel s thread inst ready e i (s.dispatch.instance_map inst).task_queue f
  | inl t ↦
      subst
        (λ k. Move parallel (local k s) (
          local k (
            after_take s thread
              (take_from s.dispatch inst ready (s.dispatch.instance_map inst).task_queue))))
        (==→eq inst i t)
        (taken_self parallel s thread inst ready e (s.dispatch.instance_map inst).task_queue refl)
]

poll-Move :
    (parallel : Bool) (s : System) (thread i : ℕ) (stop : Bool)
    → Move parallel (local i s) (
        local i (
          after_take s thread
            (if stop then stops else take_ready s.dispatch s.dispatch.ready_instances)))
unfolding after_take
poll-Move parallel s thread i true = stays_same parallel (local i s)
poll-Move parallel s thread i false =
    take_ready-Move parallel s thread i s.dispatch.ready_instances refl

pub take_task-Move :
    (parallel : Bool) (s : System) (thread i : ℕ)
    → Move parallel (local i s) (local i (after_take s thread (take_task s.dispatch)))
unfolding take_task
take_task-Move parallel s thread i = poll-Move parallel s thread i s.dispatch.stop
