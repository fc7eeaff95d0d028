-- ===== src/Dispatch/Moves.antt =====
-- fjdispatchlite.h: a post, as a move of each instance.
use mathlib.Core.List.{append-nil}
use fjdispatchlite.Prelude.{
  ℕ, ◌≡◌, refl, ap, sym, ◌∙◌, subst, inl, inr, ◌⊎◌, Bool, true, false, not, ◌||◌, List, [], ◌∷◌,
  ◌++◌, arith, ◌==◌, Bool-cases, ==→eq, eq→==,
}
use fjdispatchlite.Dispatch.{Task, Env, InstanceInfo, update, queue_task, enqueue}
use fjdispatchlite.Dispatch.System.{System, after_post}
use fjdispatchlite.Dispatch.Scheduling.{
  occurrences, occurrences-append, tasks_of, tasks_of-append, local, Move, stays, wakes, waits_more,
  adjust_workers-Untouched, local-Untouched,
}

pub self-test : (i : ℕ) → (i == i) ≡ true
self-test i = eq→== i i refl

pub occurrences_one : (i : ℕ) → occurrences i (i ∷ []) ≡ 1
unfolding occurrences
occurrences_one i = rw (self-test i) refl

occurrences_other : (i j : ℕ) → (j == i) ≡ false → occurrences i (j ∷ []) ≡ 0
unfolding occurrences
occurrences_other i j f = rw f refl

tasks_of_one : (i : ℕ) (task : Task) → tasks_of i ((i, task) ∷ []) ≡ task ∷ []
unfolding tasks_of
tasks_of_one i task = rw (self-test i) refl

tasks_of_other : (i j : ℕ) (task : Task) → (j == i) ≡ false → tasks_of i ((j, task) ∷ []) ≡ []
unfolding tasks_of
tasks_of_other i j task f = rw f refl

pub tasks_of-snoc_one :
    (i : ℕ) (task : Task) (xs : List (ℕ × Task))
    → tasks_of i (xs ++ (i, task) ∷ []) ≡ tasks_of i xs ++ task ∷ []
tasks_of-snoc_one i task xs =
    tasks_of-append i xs ((i, task) ∷ []) ∙ ap (λ l. tasks_of i xs ++ l) (tasks_of_one i task)

pub tasks_of-snoc_other :
    (i j : ℕ) (task : Task) (xs : List (ℕ × Task))
    → (j == i) ≡ false
    → tasks_of i (xs ++ (j, task) ∷ []) ≡ tasks_of i xs
tasks_of-snoc_other i j task xs f =
    tasks_of-append i xs ((j, task) ∷ [])
    ∙ ap (λ l. tasks_of i xs ++ l) (tasks_of_other i j task f)
    ∙ append-nil (tasks_of i xs)

pub update_self : (f : ℕ → InstanceInfo) (k : ℕ) (v : InstanceInfo) → update f k v k ≡ v
update_self f k v = rw (self-test k) refl

pub update_other :
    (f : ℕ → InstanceInfo) (k j : ℕ) (v : InstanceInfo) → (k == j) ≡ false → update f k v j ≡ f j
update_other f k j v h = let g : (j == k) ≡ false = ground arith in rw g refl

-- A post, before the pool is adjusted.
abbrev queued : System → ℕ → Task → Bool → System
queued s inst task isseq = record s {
  dispatch = queue_task s.dispatch inst task isseq;
  posted = s.posted ++ (inst, task) ∷ [];
}

module _ (parallel : Bool) (s : System) (inst : ℕ) (task : Task) (isseq : Bool) where
  abbrev wants : Bool
  wants = not (s.dispatch.instance_map inst).running || not isseq

  queued_self :
      (isseq || parallel) ≡ true
      → Move parallel (local inst s) (local inst (queued s inst task isseq))
  unfolding local queue_task
  queued_self p = elim (Bool-cases wants) [
    | inl t ↦
        let u = update_self s.dispatch.instance_map inst (record {
          task_queue = (s.dispatch.instance_map inst).task_queue ++ task ∷ [];
          running = true;
        }) in
        rw t (
          wakes task
            (record {
              running = ap (λ v. v.running) u;
              queue = ap (λ v. v.task_queue) u;
              posted = tasks_of-snoc_one inst task s.posted;
              taken = refl;
            })
            (why t p)
            (omega (
              arith,
              occurrences-append inst s.dispatch.ready_instances (inst ∷ []),
              occurrences_one inst,
            )))
    | inr f ↦
        let u = update_self s.dispatch.instance_map inst (record (s.dispatch.instance_map inst) {
          task_queue = (s.dispatch.instance_map inst).task_queue ++ task ∷ [];
        }) in
        let r : (s.dispatch.instance_map inst).running ≡ true = ground arith in
        rw f (
          waits_more task
            (record {
              running = ap (λ v. v.running) u ∙ r;
              queue = ap (λ v. v.task_queue) u;
              posted = tasks_of-snoc_one inst task s.posted;
              taken = refl;
            })
            r refl)
  ]
    where
      why :
          wants ≡ true
          → (isseq || parallel) ≡ true
          → ((s.dispatch.instance_map inst).running ≡ false) ⊎ (parallel ≡ true)
      why t p = elim (Bool-cases (s.dispatch.instance_map inst).running) [
        | inr f ↦ inl f
        | inl r ↦ inr (ground arith)
      ]

  queued_other :
      (i : ℕ) → (inst == i) ≡ false → Move parallel (local i s) (local i (queued s inst task isseq))
  unfolding local queue_task
  queued_other i n = elim (Bool-cases wants) [
    | inl t ↦
        let u =
          update_other s.dispatch.instance_map inst i
            (record {
              task_queue = (s.dispatch.instance_map inst).task_queue ++ task ∷ [];
              running = true;
            })
            n in
        rw t (
          stays (record {
            running = ap (λ v. v.running) u;
            queue = ap (λ v. v.task_queue) u;
            tokens = omega (
              arith,
              occurrences-append i s.dispatch.ready_instances (inst ∷ []),
              occurrences_other i inst n,
            );
            posted = tasks_of-snoc_other i inst task s.posted n;
            taken = refl;
          }))
    | inr f ↦
        let u =
          update_other s.dispatch.instance_map inst i
            (record (s.dispatch.instance_map inst) {
              task_queue = (s.dispatch.instance_map inst).task_queue ++ task ∷ [];
            })
            n in
        rw f (
          stays (record {
            running = ap (λ v. v.running) u;
            queue = ap (λ v. v.task_queue) u;
            tokens = refl;
            posted = tasks_of-snoc_other i inst task s.posted n;
            taken = refl;
          }))
  ]

  pub after_post-Move :
      (env : Env) (i : ℕ)
      → (isseq || parallel) ≡ true
      → Move parallel (local i s) (local i (after_post s env inst task isseq))
  unfolding after_post enqueue
  after_post-Move env i p =
      subst (Move parallel (local i s))
        (sym (
          local-Untouched i (queued s inst task isseq) (queue_task s.dispatch inst task isseq) _
            (adjust_workers-Untouched env (queue_task s.dispatch inst task isseq))))
        (elim (Bool-cases (inst == i)) [
          | inl t ↦
              subst (λ k. Move parallel (local k s) (local k (queued s inst task isseq)))
                (==→eq inst i t) (queued_self p)
          | inr f ↦ queued_other i f
        ])
