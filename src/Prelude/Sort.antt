-- ===== src/Prelude/Sort.antt =====
-- `std::sort` of the standard library, as an interface: it gives some permutation of the range that
-- is ordered by the comparison. Which one, where elements compare equal, is left open, as in C++.
use mathlib.Core.Path.{◌≡◌}
use mathlib.Core.Logic.{inl, inr}
use mathlib.Core.Bool.{Bool, true, false}
use mathlib.Core.List.{List, [], ◌∷◌, Perm}
use mathlib.Core.List.Perm
use native.Mathlib.Omega.{arith}
use Prim.Native.Nat.{ℕ}
use fjdispatchlite.Prelude.Lists.{All}
use fjdispatchlite.Prelude.Tests.{ltb, Bool-cases}

-- What `std::sort` asks of its comparison.
pub record IsStrictWeakOrder {A : Type 0} (comp : A → A → Bool) : Type 0 where
  pub asymm : (a b : A) → comp a b ≡ true → comp b a ≡ false
  pub neg_trans : (a b c : A) → comp a b ≡ false → comp b c ≡ false → comp a c ≡ false

-- No element compares below one that stands before it.
abbrev pub IsOrdered : {A : Type 0} → (A → A → Bool) → List A → Type 0
IsOrdered comp [] = Unit
IsOrdered comp (x ∷ xs) = All (λ y. comp y x ≡ false) xs × IsOrdered comp xs

pub record StdSort (A : Type 0) : Type 0 where
  pub sort : (A → A → Bool) → List A → List A
  pub sort_perm : (comp : A → A → Bool) (xs : List A) → Perm (sort comp xs) xs
  pub sort_ordered :
      (comp : A → A → Bool) (xs : List A) → IsStrictWeakOrder comp → IsOrdered comp (sort comp xs)

-- Insertion sort, as one such sort.
module _ {A : Type 0} where
  pub All-map : (P Q : A → Type 0) → ((a : A) → P a → Q a) → (xs : List A) → All P xs → All Q xs
  All-map P Q f [] h = tt
  All-map P Q f (x ∷ xs) h = (f x h.0, All-map P Q f xs h.1)

  unfoldable pub sorted_insert : (A → A → Bool) → A → List A → List A
  sorted_insert comp x [] = x ∷ []
  sorted_insert comp x (y ∷ ys) = elim (comp y x) [
    | true ↦ y ∷ sorted_insert comp x ys
    | false ↦ x ∷ y ∷ ys
  ]

  unfoldable pub insertion_sort : (A → A → Bool) → List A → List A
  unfolding sorted_insert
  insertion_sort comp [] = []
  insertion_sort comp (x ∷ xs) = sorted_insert comp x (insertion_sort comp xs)

  sorted_insert-perm :
      (comp : A → A → Bool) (x : A) (ys : List A) → Perm (sorted_insert comp x ys) (x ∷ ys)
  unfolding sorted_insert
  sorted_insert-perm comp x [] = Perm.refl _
  sorted_insert-perm comp x (y ∷ ys) = elim (Bool-cases (comp y x)) [
    | inl e ↦
        rw (e, sorted_insert)
          (Perm.trans (Perm.cons y (sorted_insert-perm comp x ys)) (Perm.swap x y ys))
    | inr e ↦ rw (e, sorted_insert) (Perm.refl _)
  ]

  pub insertion_sort-perm : (comp : A → A → Bool) (xs : List A) → Perm (insertion_sort comp xs) xs
  unfolding insertion_sort
  insertion_sort-perm comp [] = Perm.refl _
  insertion_sort-perm comp (x ∷ xs) =
      Perm.trans (sorted_insert-perm comp x (insertion_sort comp xs))
        (Perm.cons x (insertion_sort-perm comp xs))

  sorted_insert-All :
      (P : A → Type 0) (comp : A → A → Bool) (x : A) (ys : List A)
      → P x
      → All P ys
      → All P (sorted_insert comp x ys)
  unfolding sorted_insert
  sorted_insert-All P comp x [] p h = (p, tt)
  sorted_insert-All P comp x (y ∷ ys) p h = elim (Bool-cases (comp y x)) [
    | inl e ↦ rw (e, sorted_insert) (h.0, sorted_insert-All P comp x ys p h.1)
    | inr e ↦ rw (e, sorted_insert) (p, h)
  ]

  sorted_insert-IsOrdered :
      (comp : A → A → Bool) (x : A) (ys : List A)
      → IsStrictWeakOrder comp
      → IsOrdered comp ys
      → IsOrdered comp (sorted_insert comp x ys)
  unfolding sorted_insert
  sorted_insert-IsOrdered comp x [] o h = (tt, tt)
  sorted_insert-IsOrdered comp x (y ∷ ys) o h = elim (Bool-cases (comp y x)) [
    | inl e ↦
        rw (e, sorted_insert)
          (
            sorted_insert-All (λ z. comp z y ≡ false) comp x ys (o.asymm y x e) h.0,
            sorted_insert-IsOrdered comp x ys o h.1,
          )
    | inr e ↦ rw (e, sorted_insert) ((e, All-map _ _ (λ z l. o.neg_trans z y x l e) ys h.0), h)
  ]

  pub insertion_sort-IsOrdered :
      (comp : A → A → Bool) (xs : List A)
      → IsStrictWeakOrder comp
      → IsOrdered comp (insertion_sort comp xs)
  unfolding insertion_sort
  insertion_sort-IsOrdered comp [] o = tt
  insertion_sort-IsOrdered comp (x ∷ xs) o =
      sorted_insert-IsOrdered comp x (insertion_sort comp xs) o (insertion_sort-IsOrdered comp xs o)

-- One `std::sort`, to run the model by.
unfoldable pub stable_sort : (A : Type 0) → StdSort A
unfolding insertion_sort
stable_sort A = record {
  sort = insertion_sort;
  sort_perm = insertion_sort-perm;
  sort_ordered = insertion_sort-IsOrdered;
}

-- The comparison by a numeric key, `a.key < b.key`.
abbrev pub by_key : {A : Type 0} → (A → ℕ) → A → A → Bool
by_key key a b = ltb (key a) (key b)

pub by_key-IsStrictWeakOrder : {A : Type 0} (key : A → ℕ) → IsStrictWeakOrder (by_key key)
by_key-IsStrictWeakOrder key = record {
  asymm = λ a b h. ground arith;
  neg_trans = λ a b c h k. ground arith;
}
