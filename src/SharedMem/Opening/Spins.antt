-- ===== src/SharedMem/Opening/Spins.antt =====
-- fjsharedmem.h: how long the constructor and the destructor wait.
use fjdispatchlite.Prelude.{
  ℕ, zero, suc, ◌+◌, ◌≤◌, ◌<◌, ◌≡◌, inl, inr, Bool, true, false, not, ◌&&◌, arith, ltb, ltb→lt,
  lt→ltb, ◌==◌, ==→eq, Bool-cases,
}
use fjdispatchlite.SharedMem.Opening.{wait_master}

-- The first round from `i` on, up to `last`, whose reading passes a test, and `last` where there is none.
pub record IsFirst (p : ℕ → Bool) (i last k : ℕ) : Type 0 where
  pub from : i ≤ k
  pub bounded : k ≤ last
  pub before : (j : ℕ) → i ≤ j → j < k → p j ≡ false
  pub found : (k < last) → p k ≡ true

wait_master-IsFirst :
    (fuel : ℕ) (seen : ℕ → ℕ) (i : ℕ)
    → i ≤ 100
    → 100 < i + fuel
    → IsFirst (λ j. not (seen j == 0)) i 100 (wait_master fuel seen i)
unfolding wait_master
wait_master-IsFirst zero seen i b h = absurd (omega arith)
wait_master-IsFirst (suc fuel) seen i b h = elim (Bool-cases (ltb i 100 && (seen i == 0))) [
  | inr f ↦ rw f (record {
    from = omega arith;
    bounded = b;
    before = λ j x y. absurd (omega arith);
    found = λ l. ground (arith, lt→ltb i 100 l);
  })
  | inl t ↦
      let lt : i < 100 = ltb→lt i 100 (ground arith) in
      let r = wait_master-IsFirst fuel seen (i + 1) (omega arith) (omega arith) in
      rw t (record {
        from = omega (arith, r.from);
        bounded = r.bounded;
        before = λ j x y. elim (Bool-cases (j == i)) [
          | inl e ↦ let k : j ≡ i = ==→eq j i e in rw k (ground arith)
          | inr n ↦ r.before j (ground (arith, n)) y
        ];
        found = r.found;
      })
]

-- The constructor of an object that did not make the segment waits until the count of the objects is
-- not 0 any more, and for 100 rounds at most; it returns in every case.
pub wait_master_ends :
    (seen : ℕ → ℕ) → IsFirst (λ j. not (seen j == 0)) 0 100 (wait_master 101 seen 0)
wait_master_ends seen = wait_master-IsFirst 101 seen 0 (omega arith) (omega arith)

-- What the destructor's loop comes to: the thread was joined in a round up to the last one, the first in
-- which it was done; or it was not done in any.
abbrev pub Joins : (ℕ → Bool) → ℕ → Bool × ℕ → Type 0
Joins done i (true, k) =
    (i ≤ k) × (k ≤ 100) × (done k ≡ true) × ((j : ℕ) → i ≤ j → j < k → done j ≡ false)
Joins done i (false, k) = (k ≡ 101) × ((j : ℕ) → i ≤ j → j ≤ 100 → done j ≡ false)
