-- ===== src/Dispatch/Invariants.antt =====
-- fjdispatchlite.h: the invariants of one instance over its moves.
use mathlib.Core.List.{append_assoc}
use fjdispatchlite.Prelude.{
  ℕ, suc, ◌≤◌, ◌≡◌, refl, ap, sym, ◌∙◌, inl, inr, Bool, true, false, List, [], ◌∷◌, ◌++◌, arith,
  if◌then◌else◌,
}
use fjdispatchlite.Dispatch.{Task, Env, create, spawn_all, spawn_worker}
use fjdispatchlite.Dispatch.System.{System, initial, Reachable, starts, moves}
use fjdispatchlite.Dispatch.Scheduling.{
  occurrences, tasks_of, Local, local, Gains, Move, stays, wakes, waits_more, gives, idles,
}
use fjdispatchlite.Dispatch.Sections.{Step-Move}

-- An instance that is not running has no tasks; one that runs is ready or has a task that runs.
pub record IsServed (a : Local) : Type 0 where
  pub idle : a.running ≡ false → a.queue ≡ []
  pub awaited : a.running ≡ true → 1 ≤ a.tokens

-- Every posted task has been taken or waits in the queue, in the order of the posts.
abbrev pub IsInOrder : Local → Type 0
IsInOrder a = a.posted ≡ a.taken ++ a.queue

-- An instance that runs has one token, one that does not has none.
abbrev pub IsExclusive : Local → Type 0
IsExclusive a = a.tokens ≡ (if a.running then 1 else 0)

not_both : {b : Bool} → b ≡ true → b ≡ false → ⊥
not_both t f = ground arith

Move-IsServed : (parallel : Bool) (a b : Local) → Move parallel a b → IsServed a → IsServed b
Move-IsServed parallel a b (stays m) w = record {
  idle = λ h. m.queue ∙ w.idle (sym m.running ∙ h);
  awaited = λ h. omega (arith, m.tokens, w.awaited (sym m.running ∙ h));
}
Move-IsServed parallel a b (wakes task m why k) w = record {
  idle = λ h. absurd (not_both m.running h);
  awaited = λ h. omega (arith, k);
}
Move-IsServed parallel a b (waits_more task m r k) w = record {
  idle = λ h. absurd (not_both m.running h);
  awaited = λ h. omega (arith, k, w.awaited r);
}
Move-IsServed parallel a b (gives task m) w = record {
  idle = λ h. absurd (cons_not_nil (sym m.queue ∙ w.idle (sym m.running ∙ h)));
  awaited = λ h. omega (arith, m.tokens, w.awaited (sym m.running ∙ h));
}
  where
    cons_not_nil : {x : Task} {xs : List Task} → (x ∷ xs) ≡ [] → ⊥
    cons_not_nil e = ground arith
Move-IsServed parallel a b (idles m) w = record {
  idle = λ h. m.queue.1;
  awaited = λ h. absurd (not_both h m.running);
}

grown : (a b : Local) (task : Task) → Gains a b task → IsInOrder a → IsInOrder b
grown a b task m w =
    m.posted
    ∙ ap (λ l. l ++ task ∷ []) w
    ∙ append_assoc a.taken a.queue (task ∷ [])
    ∙ ap (λ l. a.taken ++ l) (sym m.queue)
    ∙ ap (λ l. l ++ b.queue) (sym m.taken)

pub at_most_one : (r : Bool) → (if r then 1 else 0) ≤ 1
at_most_one true = omega arith
at_most_one false = omega arith

Move-IsInOrder : (parallel : Bool) (a b : Local) → Move parallel a b → IsInOrder a → IsInOrder b
Move-IsInOrder parallel a b (stays m) w = rw (m.posted, m.taken, m.queue) w
Move-IsInOrder parallel a b (wakes task m why k) w = grown a b task m w
Move-IsInOrder parallel a b (waits_more task m r k) w = grown a b task m w
Move-IsInOrder parallel a b (gives task m) w =
    m.posted
    ∙ w
    ∙ ap (λ l. a.taken ++ l) m.queue
    ∙ sym (append_assoc a.taken (task ∷ []) b.queue)
    ∙ ap (λ l. l ++ b.queue) (sym m.taken)
Move-IsInOrder parallel a b (idles m) w =
    m.posted
    ∙ w
    ∙ ap (λ l. a.taken ++ l) (m.queue.0 ∙ sym m.queue.1)
    ∙ ap (λ l. l ++ b.queue) (sym m.taken)

Move-IsExclusive : (a b : Local) → Move false a b → IsServed a → IsExclusive a → IsExclusive b
Move-IsExclusive a b (stays m) v w = m.tokens ∙ w ∙ ap (λ r. if r then 1 else 0) (sym m.running)
Move-IsExclusive a b (wakes task m (inr p) k) v w = absurd (not_both p refl)
Move-IsExclusive a b (wakes task m (inl f) k) v w =
    k ∙ ap suc (w ∙ ap (λ r. if r then 1 else 0) f) ∙ ap (λ r. if r then 1 else 0) (sym m.running)
Move-IsExclusive a b (waits_more task m r k) v w =
    k ∙ w ∙ ap (λ x. if x then 1 else 0) (r ∙ sym m.running)
Move-IsExclusive a b (gives task m) v w =
    m.tokens ∙ w ∙ ap (λ r. if r then 1 else 0) (sym m.running)
Move-IsExclusive a b (idles m) v w =
    let z : b.tokens ≡ 0 = omega (arith, m.tokens, w, at_most_one a.running) in
    z ∙ ap (λ r. if r then 1 else 0) (sym m.running)

-- Every instance starts with an empty queue and no token.
initial-IsServed : (first second : Env) (i : ℕ) → IsServed (local i (initial first second))
unfolding local initial create spawn_all spawn_worker
initial-IsServed first second i = record { idle = λ h. refl; awaited = λ h. absurd (ground arith) }

initial-IsExclusive : (first second : Env) (i : ℕ) → IsExclusive (local i (initial first second))
unfolding local initial create spawn_all spawn_worker occurrences
initial-IsExclusive first second i = refl

initial-IsInOrder : (first second : Env) (i : ℕ) → IsInOrder (local i (initial first second))
unfolding local initial create spawn_all spawn_worker tasks_of
initial-IsInOrder first second i = refl

pub Reachable-IsServed :
    (parallel : Bool) (s : System) (i : ℕ) → Reachable parallel s → IsServed (local i s)
Reachable-IsServed parallel _ i (starts first second) = initial-IsServed first second i
Reachable-IsServed parallel _ i (moves {s} {t} r m) =
    Move-IsServed parallel _ _ (Step-Move parallel s t i m) (Reachable-IsServed parallel s i r)

pub Reachable-IsInOrder :
    (parallel : Bool) (s : System) (i : ℕ) → Reachable parallel s → IsInOrder (local i s)
Reachable-IsInOrder parallel _ i (starts first second) = initial-IsInOrder first second i
Reachable-IsInOrder parallel _ i (moves {s} {t} r m) =
    Move-IsInOrder parallel _ _ (Step-Move parallel s t i m) (Reachable-IsInOrder parallel s i r)

pub Reachable-IsExclusive : (s : System) (i : ℕ) → Reachable false s → IsExclusive (local i s)
Reachable-IsExclusive _ i (starts first second) = initial-IsExclusive first second i
Reachable-IsExclusive _ i (moves {s} {t} r m) =
    Move-IsExclusive _ _ (Step-Move false s t i m) (Reachable-IsServed false s i r)
      (Reachable-IsExclusive s i r)
