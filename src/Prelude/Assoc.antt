-- ===== src/Prelude/Assoc.antt =====
-- A map of the standard library with numeric keys, as an association list. Nothing that the code
-- does depends on the order in which such a map keeps its entries, unless a module says so.
use Prim.Native.Nat.{ℕ, zero, suc}
use mathlib.Core.Path.{◌≡◌, refl, ap, sym, subst}
use mathlib.Core.Logic.{◌≢◌}
use mathlib.Core.List.{List, [], ◌∷◌, ◌++◌}
use mathlib.Core.Option.{Option, none, some}
use native.Mathlib.Omega.{arith}
use fjdispatchlite.Prelude.Lists.{All, get_elem?, set}
use fjdispatchlite.Prelude.Tests.{◌==◌, if◌then◌else◌, ne→==, eq→==}

-- No number occurs twice.
abbrev pub IsDistinct : List ℕ → Type 0
IsDistinct [] = Unit
IsDistinct (x ∷ xs) = All (λ y. y ≢ x) xs × IsDistinct xs

pub IsDistinct-snoc :
    (xs : List ℕ) (x : ℕ) → IsDistinct xs → All (λ y. y ≢ x) xs → IsDistinct (xs ++ x ∷ [])
IsDistinct-snoc [] x d a = (tt, tt)
IsDistinct-snoc (y ∷ ys) x d a = (snoc ys d.0, IsDistinct-snoc ys x d.1 a.1)
  where
    snoc : (zs : List ℕ) → All (λ z. z ≢ y) zs → All (λ z. z ≢ y) (zs ++ x ∷ [])
    snoc [] h = ((λ e. a.0 (omega arith)), tt)
    snoc (z ∷ zs) h = (h.0, snoc zs h.1)

module _ {V : Type 0} where
  abbrev pub keys : List (ℕ × V) → List ℕ
  keys [] = []
  keys ((k, v) ∷ m) = k ∷ keys m

  unfoldable pub lookup : ℕ → List (ℕ × V) → Option V
  lookup k [] = none
  lookup k ((j, v) ∷ m) = if j == k then some v else lookup k m

  -- `m[k] = v`.
  unfoldable pub assign : ℕ → V → List (ℕ × V) → List (ℕ × V)
  assign k v [] = (k, v) ∷ []
  assign k v ((j, w) ∷ m) = if j == k then (k, v) ∷ m else (j, w) ∷ assign k v m

  unfoldable pub erase : ℕ → List (ℕ × V) → List (ℕ × V)
  erase k [] = []
  erase k ((j, w) ∷ m) = if j == k then erase k m else (j, w) ∷ erase k m

  pub lookup-assign :
      (k j : ℕ) (v : V) (m : List (ℕ × V))
      → lookup j (assign k v m) ≡ (if k == j then some v else lookup j m)
  unfolding lookup assign
  lookup-assign k j v [] = refl
  lookup-assign k j v ((i, w) ∷ m) = ground (arith, lookup-assign k j v m)

  pub lookup-erase :
      (k j : ℕ) (m : List (ℕ × V)) → lookup j (erase k m) ≡ (if k == j then none else lookup j m)
  unfolding lookup erase
  lookup-erase k j [] = ground arith
  lookup-erase k j ((i, w) ∷ m) = ground (arith, lookup-erase k j m)

  -- A key that is new goes to the end.
  pub assign_new :
      (k : ℕ) (v : V) (m : List (ℕ × V))
      → All (λ j. j ≢ k) (keys m)
      → assign k v m ≡ m ++ (k, v) ∷ []
  unfolding assign
  assign_new k v [] h = refl
  assign_new k v ((j, w) ∷ m) h = rw (ne→== j k h.0) (ap (λ l. (j, w) ∷ l) (assign_new k v m h.1))

  pub keys-snoc : (m : List (ℕ × V)) (k : ℕ) (v : V) → keys (m ++ (k, v) ∷ []) ≡ keys m ++ k ∷ []
  keys-snoc [] k v = refl
  keys-snoc ((j, w) ∷ m) k v = ap (λ l. j ∷ l) (keys-snoc m k v)

  pub erase_absent : (k : ℕ) (m : List (ℕ × V)) → All (λ j. j ≢ k) (keys m) → erase k m ≡ m
  unfolding erase
  erase_absent k [] h = refl
  erase_absent k ((j, w) ∷ m) h = rw (ne→== j k h.0) (ap (λ l. (j, w) ∷ l) (erase_absent k m h.1))

  pub lookup_absent : (k : ℕ) (m : List (ℕ × V)) → All (λ j. j ≢ k) (keys m) → lookup k m ≡ none
  unfolding lookup
  lookup_absent k [] h = refl
  lookup_absent k ((j, w) ∷ m) h = rw (ne→== j k h.0) (lookup_absent k m h.1)

  keys_get :
      (P : ℕ → Type 0) (m : List (ℕ × V)) (i k : ℕ) (v : V)
      → All P (keys m)
      → get_elem? m i ≡ some (k, v)
      → P k
  keys_get P [] i k v a e = absurd (ground arith)
  keys_get P ((j, w) ∷ m) zero k v a e = let f : j ≡ k = cc in subst P f a.0
  keys_get P ((j, w) ∷ m) (suc i) k v a e = keys_get P m i k v a.1 e

  -- What stands at an index, under distinct keys.
  pub lookup_get :
      (m : List (ℕ × V)) (i k : ℕ) (v : V)
      → IsDistinct (keys m)
      → get_elem? m i ≡ some (k, v)
      → lookup k m ≡ some v
  unfolding lookup
  lookup_get [] i k v d e = absurd (ground arith)
  lookup_get ((j, w) ∷ m) zero k v d e =
      let f : j ≡ k = cc in let g : w ≡ v = cc in rw (eq→== j k f) (ap some g)
  lookup_get ((j, w) ∷ m) (suc i) k v d e =
      let n : k ≢ j = keys_get (λ y. y ≢ j) m i k v d.0 e in
      rw (ne→== j k (λ f. n (sym f))) (lookup_get m i k v d.1 e)

  pub assign-set :
      (m : List (ℕ × V)) (i k : ℕ) (v u : V)
      → IsDistinct (keys m)
      → get_elem? m i ≡ some (k, v)
      → assign k u m ≡ set m i (k, u)
  unfolding assign
  assign-set [] i k v u d e = absurd (ground arith)
  assign-set ((j, w) ∷ m) zero k v u d e = let f : j ≡ k = cc in rw (eq→== j k f) refl
  assign-set ((j, w) ∷ m) (suc i) k v u d e =
      let n : k ≢ j = keys_get (λ y. y ≢ j) m i k v d.0 e in
      rw (ne→== j k (λ f. n (sym f))) (ap (λ l. (j, w) ∷ l) (assign-set m i k v u d.1 e))

  pub keys-set :
      (m : List (ℕ × V)) (i k : ℕ) (v u : V)
      → get_elem? m i ≡ some (k, v)
      → keys (set m i (k, u)) ≡ keys m
  keys-set [] i k v u e = refl
  keys-set ((j, w) ∷ m) zero k v u e = let f : k ≡ j = cc in ap (λ x. x ∷ keys m) f
  keys-set ((j, w) ∷ m) (suc i) k v u e = ap (λ l. j ∷ l) (keys-set m i k v u e)
