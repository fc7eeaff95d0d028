-- ===== src/SharedMem/Process/Users.antt =====
-- fjsharedmem.h: what the constructor leaves in the entry of its process.
use fjdispatchlite.Prelude.{
  ℕ, ◌+◌, ◌<◌, ◌≡◌, ◌≢◌, refl, ap, inl, inr, ◌⊎◌, true, false, Option, none, some, arith, add64,
  u64_mod, ◌==◌, Bool-cases, ==→eq, ==→ne,
}
use fjdispatchlite.FixMap.{index_of}
use fjdispatchlite.FixMap.Laws.{lookup}
use fjdispatchlite.SharedMem.{ProAtom, SharedRegion, pro_atom_init}
use fjdispatchlite.SharedMem.Region.{IsWellFormed, table_capacity}
use fjdispatchlite.SharedMem.Process.{retain, retain_process}
use fjdispatchlite.SharedMem.Process.Table.{processes}
use fjdispatchlite.SharedMem.Process.Changes.{Assigns}
use fjdispatchlite.SharedMem.Process.Lifecycle.{found_or_new, retain_process-Assigns}

-- The number of objects that use an entry; there are none where it is missing.
abbrev pub users : Option ProAtom → ℕ
users none = 0
users (some p) = p.refcount

-- An entry after one user more than before.
pub record IsJoined (thread : ℕ) (before : Option ProAtom) (p : ProAtom) : Type 0 where
  pub counted : p.refcount ≡ users before + 1
  pub first : users before ≡ 0 → (p.running ≡ true) × (p.worker_done ≡ false) × (p.worker ≡ thread)
  pub later :
      (old : ProAtom)
      → before ≡ some old
      → 0 < old.refcount
      → (p.running ≡ old.running) × (p.worker_done ≡ old.worker_done) × (p.worker ≡ old.worker)

retain-IsJoined :
    (thread : ℕ) (before : Option ProAtom)
    → users before + 1 < u64_mod
    → IsJoined thread before (retain thread (found_or_new before))
unfolding retain found_or_new pro_atom_init
retain-IsJoined thread none small = record {
  counted = refl;
  first = λ z. (refl, refl, refl);
  later = λ old e n. absurd (ground arith);
}
retain-IsJoined thread (some p) small =
    let a : add64 p.refcount 1 ≡ p.refcount + 1 = omega arith in
    elim (Bool-cases (add64 p.refcount 1 == 1)) [
      | inl t ↦
          let z : p.refcount ≡ 0 = omega (arith, a, ==→eq _ _ t) in
          rw (t, retain)
            (record {
              counted = omega (arith, z);
              first = λ y. (refl, refl, refl);
              later = λ old e n.
                  let k : p ≡ old = cc in absurd (omega (arith, ap (λ x. x.refcount) k, z, n));
            })
      | inr f ↦
          rw (f, retain)
            (record {
              counted = a;
              first = λ z. absurd (==→ne _ _ f (omega (arith, a, z)));
              later = λ old e n.
                  let k : p ≡ old = cc in
                  (ap (λ x. x.running) k, ap (λ x. x.worker_done) k, ap (λ x. x.worker) k);
            })
    ]

-- Where the process has an entry or there is room for one, and the count of its users does not wrap,
-- the constructor's part on the table runs without a fault: the process has an entry with one user
-- more than before; if there was no user, its worker is the thread that was started, it runs and is not
-- done; if there was one, the worker is the one that was there, as it was. The other processes' entries,
-- the queue, the listeners, the payloads and the number of objects are as they were, and the region is
-- well formed.
pub retain_process-IsJoined :
    (r : SharedRegion) (pid thread : ℕ)
    → IsWellFormed r
    → (index_of pid (processes r) ≢ none) ⊎ (r.proptr < table_capacity)
    → users (lookup pid (processes r)) + 1 < u64_mod
    → (r' : SharedRegion) × (p : ProAtom) × (retain_process pid thread r ≡ some r')
      × Assigns r r' pid (some p)
      × IsJoined thread (lookup pid (processes r)) p
retain_process-IsJoined r pid thread w room small =
    let (r', e, a) = retain_process-Assigns r w pid thread room in
    (r', _, e, a, retain-IsJoined thread (lookup pid (processes r)) small)
