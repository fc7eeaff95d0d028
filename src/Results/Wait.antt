-- ===== src/Results/Wait.antt =====
-- fjdispatchlite.h, `waitResult`: its answer, and the tables that it saw.
use fjdispatchlite.Prelude.{
  ℕ, ◌-◌, ◌≤◌, ◌<◌, ◌≡◌, inl, inr, ◌⊎◌, none, some, List, [], ◌∷◌, leb, Bool-cases, Option-cases,
  leb→le, leb→gt,
}
use fjdispatchlite.Results.{Look, Waited, got, timed_out, still_waiting, poll, wait_result}

-- A look of the list found the value, and those before it came before the timeout.
abbrev pub FoundAt : ℕ → ℕ → ℕ → ℕ → List Look → Type 0
FoundAt handle start timeout value [] = ⊥
FoundAt handle start timeout value (look ∷ looks) =
    (poll look.table handle ≡ some value)
    ⊎ ((poll look.table handle ≡ none)
        × (look.now - start < timeout)
        × FoundAt handle start timeout value looks)

-- No look up to one past the timeout found the result.
abbrev pub MissedUntil : ℕ → ℕ → ℕ → List Look → Type 0
MissedUntil handle start timeout [] = ⊥
MissedUntil handle start timeout (look ∷ looks) =
    (poll look.table handle ≡ none)
    × ((timeout ≤ look.now - start) ⊎ MissedUntil handle start timeout looks)

-- No look found the result, nor came after the timeout.
abbrev pub MissedSoFar : ℕ → ℕ → ℕ → List Look → Type 0
MissedSoFar handle start timeout [] = Unit
MissedSoFar handle start timeout (look ∷ looks) =
    (poll look.table handle ≡ none)
    × (look.now - start < timeout)
    × MissedSoFar handle start timeout looks

abbrev pub Explains : ℕ → ℕ → ℕ → List Look → Waited → Type 0
Explains handle start timeout looks (got value) = FoundAt handle start timeout value looks
Explains handle start timeout looks timed_out = MissedUntil handle start timeout looks
Explains handle start timeout looks still_waiting = MissedSoFar handle start timeout looks

Explains-more :
    (handle start timeout : ℕ) (look : Look) (looks : List Look) (r : Waited)
    → poll look.table handle ≡ none
    → look.now - start < timeout
    → Explains handle start timeout looks r
    → Explains handle start timeout (look ∷ looks) r
Explains-more handle start timeout look looks (got value) p b h = inr (p, b, h)
Explains-more handle start timeout look looks timed_out p b h = (p, inr h)
Explains-more handle start timeout look looks still_waiting p b h = (p, b, h)

-- Over any sequence of looks at the table, a value that `waitResult` returns was found by one of
-- them, the earlier ones having come before the timeout; if it gives up, no look up to one past the
-- timeout found the result; and it waits on only where no look has found it or come after the
-- timeout.
pub wait_result-Explains :
    (handle start timeout : ℕ) (looks : List Look)
    → Explains handle start timeout looks (wait_result handle start timeout looks)
unfolding wait_result
wait_result-Explains handle start timeout [] = tt
wait_result-Explains handle start timeout (look ∷ looks) =
    elim (Option-cases (poll look.table handle)) [
      | inr (v, e) ↦ rw (e, wait_result) (inl e)
      | inl e ↦ elim (Bool-cases (leb timeout (look.now - start))) [
        | inl t ↦ rw (e, wait_result, t) (e, inl (leb→le _ _ t))
        | inr f ↦
            rw (e, wait_result, f)
              (Explains-more handle start timeout look looks _ e (leb→gt _ _ f)
                (wait_result-Explains handle start timeout looks))
      ]
    ]
