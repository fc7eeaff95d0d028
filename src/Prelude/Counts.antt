-- ===== src/Prelude/Counts.antt =====
-- How many elements of a list pass a Boolean test.
use mathlib.Core.Path.{◌≡◌, ap, ◌∙◌}
use mathlib.Core.Bool.{Bool, true, not, ◌&&◌, ◌||◌}
use mathlib.Core.List.{List, [], ◌∷◌, ◌++◌, Perm}
use native.Mathlib.Omega.{arith}
use Prim.Native.Nat.{ℕ, ◌+◌, ◌≤◌}
use fjdispatchlite.Prelude.Lists.{length, length-append, keep}
use fjdispatchlite.Prelude.Tests.{if◌then◌else◌}
use fjdispatchlite.Prelude.Perms.{keep-append, keep-perm, length-perm}

abbrev pub one_if : Bool → ℕ
one_if b = if b then 1 else 0

module _ {A : Type 0} where
  abbrev pub count : (A → Bool) → List A → ℕ
  count p xs = length (keep p xs)

  pub count-append : (p : A → Bool) (xs ys : List A) → count p (xs ++ ys) ≡ count p xs + count p ys
  count-append p xs ys = ap length (keep-append p xs ys) ∙ length-append (keep p xs) (keep p ys)

  pub count-perm : (p : A → Bool) {xs ys : List A} → Perm xs ys → count p xs ≡ count p ys
  count-perm p h = length-perm (keep-perm p h)

  pub count-cons :
      (p : A → Bool) (x : A) (xs : List A) → count p (x ∷ xs) ≡ one_if (p x) + count p xs
  count-cons p x xs = ground arith

  pub count-middle :
      (p : A → Bool) (xs : List A) (y : A) (ys : List A)
      → count p (xs ++ y ∷ ys) ≡ one_if (p y) + count p (xs ++ ys)
  count-middle p xs y ys =
      omega (arith, count-append p xs (y ∷ ys), count-cons p y ys, count-append p xs ys)

  pub count_mono :
      (p q : A → Bool)
      → ((x : A) → p x ≡ true → q x ≡ true)
      → (xs : List A) → count p xs ≤ count q xs
  count_mono p q h [] = omega arith
  count_mono p q h (x ∷ xs) = ground (arith, h x, count_mono p q h xs)

  pub count-or :
      (p q r : A → Bool)
      → ((x : A) → p x ≡ true → (q x || r x) ≡ true)
      → (xs : List A) → count p xs ≤ count q xs + count r xs
  count-or p q r h [] = omega arith
  count-or p q r h (x ∷ xs) = ground (arith, h x, count-or p q r h xs)

  -- The elements that pass one test, those that pass only the other, and the rest.
  pub count-split :
      (p a b : A → Bool) (xs : List A)
      → count p xs
        ≡ count p (keep a xs)
          + count p (keep (λ x. not (a x) && b x) xs)
          + count p (keep (λ x. not (a x) && not (b x)) xs)
  count-split p a b [] = omega arith
  count-split p a b (x ∷ xs) = ground (arith, count-split p a b xs)
