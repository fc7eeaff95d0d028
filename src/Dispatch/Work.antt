-- ===== src/Dispatch/Work.antt =====
-- fjdispatchlite.h: the end of what is left to do.
use mathlib.Core.List.{append-nil}
use fjdispatchlite.Prelude.{
  ℕ, suc, ◌+◌, ◌≤◌, ◌≡◌, refl, ap, ◌∙◌, inl, inr, ◌⊎◌, Bool, true, false, List, [], ◌∷◌, ◌++◌,
  arith, Bool-cases,
}
use fjdispatchlite.Dispatch.{Task}
use fjdispatchlite.Dispatch.System.{Job, System, Reachable, moves}
use fjdispatchlite.Dispatch.Scheduling.{tasks_of, occurrences, insts}
use fjdispatchlite.Dispatch.Order.{posted_in_order}
use fjdispatchlite.Dispatch.Taking.{occurrences_nil}
use fjdispatchlite.Dispatch.Exclusion.{waiting_is_served}
use fjdispatchlite.Dispatch.Remaining.{takes_up, completes, Works, Works-Step, work, Works-work}

-- A number of such steps, with nothing posted meanwhile.
pub data Run (s : System) : ℕ → System → Type 0 where
  begins : Run s 0 s
  goes_on : {n : ℕ} {t u : System} → Run s n t → Works t u → Run s (suc n) u

Run-Reachable :
    (parallel : Bool) (s t : System) (n : ℕ)
    → Reachable parallel s
    → Run s n t
    → Reachable parallel t
Run-Reachable parallel s _ _ r begins = r
Run-Reachable parallel s _ _ r (goes_on {n} {t} {u} run w) =
    moves (Run-Reachable parallel s t n r run) (Works-Step parallel t u w)

Run-work :
    (parallel : Bool) (s t : System) (n : ℕ)
    → Reachable parallel s
    → Run s n t
    → n + work t ≤ work s
Run-work parallel s _ _ r begins = omega arith
Run-work parallel s _ _ r (goes_on {n} {t} {u} run w) =
    let a = Run-work parallel s t n r run in
    let b = Works-work parallel t u (Run-Reachable parallel s t n r run) w in omega (arith, a, b)

-- Everything that was posted has been taken, and nothing runs.
pub record IsDone (s : System) : Type 0 where
  pub nothing_runs : s.executing ≡ []
  pub nothing_waits : (i : ℕ) → (s.dispatch.instance_map i).task_queue ≡ []
  pub all_taken : (i : ℕ) → tasks_of i s.posted ≡ tasks_of i s.taken

idle-IsDone :
    (parallel : Bool) (s : System)
    → Reachable parallel s
    → s.executing ≡ []
    → s.dispatch.ready_instances ≡ []
    → IsDone s
idle-IsDone parallel s r x e = record {
  nothing_runs = x;
  nothing_waits = empty;
  all_taken = λ i.
      posted_in_order parallel s i r
      ∙ ap (λ q. tasks_of i s.taken ++ q) (empty i)
      ∙ append-nil (tasks_of i s.taken);
}
  where
    empty : (i : ℕ) → (s.dispatch.instance_map i).task_queue ≡ []
    empty i = no_task (s.dispatch.instance_map i).task_queue refl
      where
        no_task : (q : List Task) → (s.dispatch.instance_map i).task_queue ≡ q → q ≡ []
        no_task [] k = refl
        no_task (task ∷ q) k = absurd (
            omega (
              arith,
              waiting_is_served parallel s i r (λ z. absurd (ground (arith, k, z))),
              ap (occurrences i) e,
              ap (λ l. occurrences i (insts l)) x,
              occurrences_nil i,
            ))

-- What the workers come to: the end is declared, or a worker has something to do, or all is done.
progress :
    (parallel : Bool) (s : System)
    → Reachable parallel s
    → (s.dispatch.stop ≡ true) ⊎ ((t : System) × Works s t) ⊎ IsDone s
progress parallel s r = elim (Bool-cases s.dispatch.stop) [
  | inl t ↦ inl t
  | inr f ↦ running s.executing s.dispatch.ready_instances refl refl f
]
  where
    running :
        (executing : List Job) (ready : List ℕ)
        → s.executing ≡ executing
        → s.dispatch.ready_instances ≡ ready
        → s.dispatch.stop ≡ false
        → (s.dispatch.stop ≡ true) ⊎ ((t : System) × Works s t) ⊎ IsDone s
    running (job ∷ executing) ready x e f = inr (inl (_, completes [] executing job 0 x refl))
    running [] (inst ∷ ready) x e f = inr (inl (_, takes_up 0 inst ready f e refl))
    running [] [] x e f = inr (inr (idle-IsDone parallel s r x e))

-- Whatever has been posted, the workers need at most three steps for each task that waits, two for
-- each that runs and one for each place in the line of ready instances: no run of their steps, in any
-- order and on any threads, is longer. Where a run can go no further, either the end of the dispatcher
-- has been declared, or every posted task has been taken and finished.
pub Run-IsDone :
    (parallel : Bool) (s t : System) (n : ℕ)
    → Reachable parallel s
    → Run s n t
    → (n ≤ work s) × ((t.dispatch.stop ≡ true) ⊎ ((u : System) × Works t u) ⊎ IsDone t)
Run-IsDone parallel s t n r run = (
  omega (arith, Run-work parallel s t n r run),
  progress parallel t (Run-Reachable parallel s t n r run),
)
