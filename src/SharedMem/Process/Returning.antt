-- ===== src/SharedMem/Process/Returning.antt =====
-- fjsharedmem.h: the table after one user more and one user less of an entry.
use fjdispatchlite.Prelude.{
  ℕ, ◌+◌, ◌<◌, ◌≡◌, ◌≢◌, refl, ap, ◌∙◌, inl, inr, ◌⊎◌, true, false, Option, none, some, arith,
  u64_mod, add64, sub64, ◌==◌, ==→eq, Bool-cases,
}
use fjdispatchlite.FixMap.{◌>>=◌, index_of}
use fjdispatchlite.FixMap.Laws.{lookup}
use fjdispatchlite.SharedMem.{ProAtom, SharedRegion, SharedMem, pro_atom_init}
use fjdispatchlite.SharedMem.Region.{IsWellFormed, table_capacity}
use fjdispatchlite.SharedMem.Process.{retain, retain_process, release_process}
use fjdispatchlite.SharedMem.Process.Table.{processes}
use fjdispatchlite.SharedMem.Process.Changes.{Assigns}
use fjdispatchlite.SharedMem.Process.Lifecycle.{
  retain_process-Assigns, found_or_new, released, release_process-Assigns,
}

-- The users of an entry are counted without a wrap.
abbrev pub IsCounted : Option ProAtom → Type 0
IsCounted none = Unit
IsCounted (some p) = (0 < p.refcount) × (p.refcount + 1 < u64_mod)

released-retain :
    (thread : ℕ) (o : Option ProAtom)
    → IsCounted o
    → released (some (retain thread (found_or_new o))) ≡ o
unfolding released retain found_or_new pro_atom_init
released-retain thread none c = refl
released-retain thread (some p) c =
    let a : add64 p.refcount 1 ≡ p.refcount + 1 = omega (arith, c.1) in
    let n : (p.refcount + 1 == 1) ≡ false = ground (arith, c.0) in
    let b : sub64 (p.refcount + 1) 1 ≡ p.refcount = omega (arith, c.1) in
    let z : (p.refcount == 0) ≡ false = ground (arith, c.0) in rw (a, n) (rw (b, z) refl)

-- One user more and one user less of the same entry.
pub back_again :
    (r q p r' : SharedRegion) (pid thread : ℕ)
    → let o = lookup pid (processes r) in
      Assigns r q pid (some (retain thread (found_or_new o)))
      → processes p ≡ processes q
      → Assigns p r' pid (released (lookup pid (processes p)))
      → IsCounted o
      → (j : ℕ) → lookup j (processes r') ≡ lookup j (processes r)
back_again r q p r' pid thread a e b c j =
    let o = lookup pid (processes r) in
    let s : lookup pid (processes p) ≡ some (retain thread (found_or_new o)) =
      ap (lookup pid) e ∙ a.value pid ∙ ground arith in
    let back : released (lookup pid (processes p)) ≡ o =
      ap released s ∙ released-retain thread o c in
    elim (Bool-cases (pid == j)) [
      | inl t ↦ b.value j ∙ rw t back ∙ ap (λ k. lookup k (processes r)) (==→eq pid j t)
      | inr d ↦ b.value j ∙ rw d (ap (lookup j) e ∙ a.value j ∙ rw d refl)
    ]

-- Two regions whose process tables map every process to the same.
pub record SameTable (r r' : SharedRegion) : Type 0 where
  pub value : (j : ℕ) → lookup j (processes r') ≡ lookup j (processes r)
  pub valid : IsWellFormed r'

-- Where the process's entry, if it has one, counts its users without a wrap, and there is an entry or
-- room for one, a constructor and a destructor of one object after the other run without a fault and
-- leave every process's entry as it was: an entry that the constructor made is gone, and one that was
-- there has its thread, its flags and its users again.
pub retain_process-release_process :
    (self : SharedMem) (thread : ℕ) (r : SharedRegion)
    → IsWellFormed r
    → self.needworker ≡ true
    → (index_of self.pid (processes r) ≢ none) ⊎ (r.proptr < table_capacity)
    → IsCounted (lookup self.pid (processes r))
    → (r' : SharedRegion) × ((retain_process self.pid thread r >>= λ q. release_process self q)
        ≡ some r')
      × SameTable r r'
retain_process-release_process self thread r w n h c =
    let (q, e, a) = retain_process-Assigns r w self.pid thread h in
    let (r', f, b) = release_process-Assigns self q a.valid n in
    (r', rw e f, record { value = back_again r q q r' self.pid thread a refl b c; valid = b.valid })
