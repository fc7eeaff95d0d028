-- ===== src/Prelude/Perms.antt =====
-- Permutations against native lengths, Boolean filters, and predicates that hold of all elements.
use mathlib.Core.Path.{◌≡◌, refl, ap, subst, ◌∙◌}
use mathlib.Core.Logic.{∥∥₁_elim, inl, inr}
use mathlib.Core.Bool.{Bool, true, false, Bool-discrete}
use mathlib.Core.List.{List, [], ◌∷◌, ◌++◌, Perm, Permᴰ, filter}
use mathlib.Core.List.Perm
use mathlib.Core.HLevel.{×_prop}
use native.Mathlib.Nat.{ℕ_set}
use native.Mathlib.Omega.{arith}
use Prim.Native.Nat.{suc, ◌≤◌}
use fjdispatchlite.Prelude.Lists.{length, keep, All}
use fjdispatchlite.Prelude.Tests.{Bool-cases}

module _ {A : Type 0} where
  lengthᴰ : {xs ys : List A} → Permᴰ xs ys → length xs ≡ length ys
  lengthᴰ Permᴰ.nil = refl
  lengthᴰ (Permᴰ.cons e p) = ap suc (lengthᴰ p)
  lengthᴰ (Permᴰ.swap {l = l} e f) = refl
  lengthᴰ (Permᴰ.trans p q) = lengthᴰ p ∙ lengthᴰ q

  pub length-perm : {xs ys : List A} → Perm xs ys → length xs ≡ length ys
  length-perm p = ∥∥₁_elim p (ℕ_set _ _) lengthᴰ

  pub Allᴰ : (P : A → Type 0) {xs ys : List A} → Permᴰ xs ys → All P xs → All P ys
  Allᴰ P Permᴰ.nil h = tt
  Allᴰ P (Permᴰ.cons e p) h = (subst P e h.0, Allᴰ P p h.1)
  Allᴰ P (Permᴰ.swap e f) h = (subst P f h.1.0, (subst P e h.0, h.1.1))
  Allᴰ P (Permᴰ.trans p q) h = Allᴰ P q (Allᴰ P p h)

  All-prop : (P : A → Type 0) → ((a : A) → IsProp (P a)) → (xs : List A) → IsProp (All P xs)
  All-prop P c [] = λ x y. refl
  All-prop P c (x ∷ xs) = ×_prop (c x) (All-prop P c xs)

  -- What holds of all elements holds of those of a permutation.
  pub All-perm :
      (P : A → Type 0)
      → ((a : A) → IsProp (P a))
      → {xs ys : List A} → Perm xs ys
      → All P xs
      → All P ys
  All-perm P c {xs} {ys} p h = ∥∥₁_elim p (All-prop P c ys) (λ d. Allᴰ P d h)

  keep-filter : (p : A → Bool) (xs : List A) → keep p xs ≡ filter (λ a. Bool-discrete (p a) true) xs
  keep-filter p [] = refl
  keep-filter p (x ∷ xs) = ground (arith, keep-filter p xs)

  pub keep-perm : (p : A → Bool) {xs ys : List A} → Perm xs ys → Perm (keep p xs) (keep p ys)
  keep-perm p {xs} {ys} h = rw (keep-filter p xs, keep-filter p ys) (Perm.filter _ h)

  pub length-keep-le : (p : A → Bool) (xs : List A) → length (keep p xs) ≤ length xs
  length-keep-le p [] = omega arith
  length-keep-le p (x ∷ xs) = ground (arith, length-keep-le p xs)

  pub keep-append : (p : A → Bool) (xs ys : List A) → keep p (xs ++ ys) ≡ keep p xs ++ keep p ys
  keep-append p [] ys = refl
  keep-append p (x ∷ xs) ys = ground (arith, keep-append p xs ys)

  -- Everything passes, or nothing does.
  pub keep-All : (p : A → Bool) (xs : List A) → All (λ x. p x ≡ true) xs → keep p xs ≡ xs
  keep-All p [] h = refl
  keep-All p (x ∷ xs) h = rw (h.0, keep) (ap (λ l. x ∷ l) (keep-All p xs h.1))

  pub keep_none : (p : A → Bool) (xs : List A) → All (λ x. p x ≡ false) xs → keep p xs ≡ []
  keep_none p [] h = refl
  keep_none p (x ∷ xs) h = rw (h.0, keep) (keep_none p xs h.1)

  pub All-keep : (p : A → Bool) (xs : List A) → All (λ x. p x ≡ true) (keep p xs)
  All-keep p [] = tt
  All-keep p (x ∷ xs) = elim (Bool-cases (p x)) [
    | inl t ↦ rw (t, keep) (t, All-keep p xs)
    | inr f ↦ rw (f, keep) (All-keep p xs)
  ]

  pub All-kept : (P : A → Type 0) (p : A → Bool) (xs : List A) → All P xs → All P (keep p xs)
  All-kept P p [] h = tt
  All-kept P p (x ∷ xs) h = elim (Bool-cases (p x)) [
    | inl t ↦ rw (t, keep) (h.0, All-kept P p xs h.1)
    | inr f ↦ rw (f, keep) (All-kept P p xs h.1)
  ]

  pub perm_eq : {xs ys : List A} → xs ≡ ys → Perm xs ys
  perm_eq {xs} e = subst (λ l. Perm xs l) e (Perm.refl xs)

  pub keep_yes : (p : A → Bool) (x : A) (xs : List A) → p x ≡ true → keep p (x ∷ xs) ≡ x ∷ keep p xs
  keep_yes p x xs h = rw (h, keep) refl

  pub keep_no : (p : A → Bool) (x : A) (xs : List A) → p x ≡ false → keep p (x ∷ xs) ≡ keep p xs
  keep_no p x xs h = rw (h, keep) refl
