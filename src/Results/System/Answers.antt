-- ===== src/Results/System/Answers.antt =====
-- fjdispatchlite.h, `waitResult`: whose value it returns, whatever posts and tasks come meanwhile.
use fjdispatchlite.Prelude.{
  ℕ, ◌≤◌, ◌<◌, ◌≡◌, refl, ap, ◌∙◌, subst, inl, inr, some, List, [], ◌∷◌, ◌++◌, arith, leb, length,
  All, keep, keep-append,
}
use fjdispatchlite.Results.{Look, got, poll, wait_result, int64_max}
use fjdispatchlite.Results.Wait.{FoundAt, Explains, wait_result-Explains}
use fjdispatchlite.Results.System.{
  System, after_ask, after_enqueue, Step, asks, enqueues, registers, posts, Reachable, moves,
}
use fjdispatchlite.Results.System.Ordered.{
  of_handle, IsOrdered, Step-given, Reachable-IsOrdered, one_if_le,
}

-- The second state comes after the first one, or is the same.
pub data Later (s : System) : System → Type 0 where
  now : Later s s
  later : {t u : System} → Later s t → Step t u → Later s u

Later-Reachable : (s t : System) → Reachable s → Later s t → Reachable t
Later-Reachable s _ r now = r
Later-Reachable s _ r (later {t} l m) = moves (Later-Reachable s t r l) m

Later-given : (s t : System) → Later s t → s.given ≤ t.given
Later-given s _ now = omega arith
Later-given s _ (later {t} {u} l m) = omega (arith, Later-given s t l, Step-given t u m)

-- Values are only added.
Step-posted : (s t : System) → Step s t → (xs : List (ℕ × ℕ)) × (t.posted ≡ xs ++ s.posted)
unfolding after_ask after_enqueue
Step-posted s t (asks e) = ([], ap (λ x. x.posted) e)
Step-posted s t (enqueues e) = ([], ap (λ x. x.posted) e)
Step-posted s t (registers before after handle p e) = ([], ap (λ x. x.posted) e)
Step-posted s t (posts before after handle value p e) = ((handle, value) ∷ [], ap (λ x. x.posted) e)

-- The values of one handle, of which there is one at most.
same_answer :
    (s t : System) (h v : ℕ)
    → IsOrdered t
    → Step s t
    → keep (of_handle h) s.posted ≡ (h, v) ∷ []
    → keep (of_handle h) t.posted ≡ (h, v) ∷ []
same_answer s t h v o m e =
    let (xs, f) = Step-posted s t m in
    let k : keep (of_handle h) t.posted ≡ keep (of_handle h) xs ++ (h, v) ∷ [] =
      ap (keep (of_handle h)) f
      ∙ keep-append (of_handle h) xs s.posted
      ∙ ap (λ l. keep (of_handle h) xs ++ l) e in
    k
    ∙ alone (keep (of_handle h) xs)
        (omega (arith, o.once h, one_if_le (leb h t.given), ap length k))
  where
    alone : (ys : List (ℕ × ℕ)) → length (ys ++ (h, v) ∷ []) ≤ 1 → ys ++ (h, v) ∷ [] ≡ (h, v) ∷ []
    alone [] b = refl
    alone (y ∷ []) b = absurd (omega arith)
    alone (y ∷ z ∷ ys) b = absurd (omega arith)

Later-answer :
    (s t : System) (h v : ℕ)
    → Reachable s
    → Later s t
    → t.given < int64_max
    → keep (of_handle h) s.posted ≡ (h, v) ∷ []
    → keep (of_handle h) t.posted ≡ (h, v) ∷ []
Later-answer s _ h v r now b e = e
Later-answer s _ h v r (later {t} {u} l m) b e =
    same_answer t u h v (Reachable-IsOrdered u (moves (Later-Reachable s t r l) m) b) m
      (Later-answer s t h v r l (omega (arith, Step-given t u m)) e)

-- A look at the table in a state from which the given one comes.
pub record IsLook (t : System) (look : Look) : Type 0 where
  pub state : System
  pub reached : Reachable state
  pub comes : Later state t
  pub seen : look.table ≡ state.table

found_answer :
    (t : System) (handle start timeout value : ℕ) (looks : List Look)
    → t.given < int64_max
    → All (IsLook t) looks
    → FoundAt handle start timeout value looks
    → keep (of_handle handle) t.posted ≡ (handle, value) ∷ []
found_answer t handle start timeout value [] b a f = absurd f
found_answer t handle start timeout value (look ∷ looks) b a (inl p) =
    let l = a.0 in
    let o = Reachable-IsOrdered l.state l.reached (omega (arith, Later-given l.state t l.comes)) in
    Later-answer l.state t handle value l.reached l.comes b
      (o.answered handle value (subst (λ x. poll x handle ≡ some value) l.seen p))
found_answer t handle start timeout value (look ∷ looks) b a (inr (p, q, f)) =
    found_answer t handle start timeout value looks b a.1 f

-- Whatever other threads post, run and wait for between the looks of `waitResult`, with fewer than
-- INT64_MAX handles given out: a value that it returns was given by the task of its handle, and is the
-- only value that any task has given for that handle.
pub wait_result-answers :
    (t : System) (handle start timeout value : ℕ) (looks : List Look)
    → t.given < int64_max
    → All (IsLook t) looks
    → wait_result handle start timeout looks ≡ got value
    → keep (of_handle handle) t.posted ≡ (handle, value) ∷ []
wait_result-answers t handle start timeout value looks b a e =
    found_answer t handle start timeout value looks b a (
      subst (Explains handle start timeout looks) e
        (wait_result-Explains handle start timeout looks))
