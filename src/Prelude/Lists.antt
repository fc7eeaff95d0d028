-- ===== src/Prelude/Lists.antt =====
-- Lists measured and indexed by native numbers: blocks of memory seen as lists of slots.
use Prim.Native.Nat.{ℕ, zero, suc, ◌+◌, ◌-◌, ◌≤◌, ◌<◌, min}
use mathlib.Core.Path.{◌≡◌, refl, ap, subst}
use mathlib.Core.Logic.{◌≢◌}
use mathlib.Core.Bool.{Bool, true, false}
use mathlib.Core.List.{List, [], ◌∷◌, ◌++◌}
use mathlib.Core.Option.{Option, none, some}
use native.Mathlib.Omega.{arith}

module _ {ℓ} {A : Type ℓ} where
  abbrev pub length : List A → ℕ
  length [] = 0
  length (x ∷ xs) = suc (length xs)

  abbrev pub get_elem? : List A → ℕ → Option A
  get_elem? [] i = none
  get_elem? (x ∷ xs) zero = some x
  get_elem? (x ∷ xs) (suc i) = get_elem? xs i

  -- A write out of bounds changes nothing.
  abbrev pub set : List A → ℕ → A → List A
  set [] i v = []
  set (x ∷ xs) zero v = v ∷ xs
  set (x ∷ xs) (suc i) v = x ∷ set xs i v

  abbrev pub take : ℕ → List A → List A
  take zero xs = []
  take (suc n) [] = []
  take (suc n) (x ∷ xs) = x ∷ take n xs

  abbrev pub drop : ℕ → List A → List A
  drop zero xs = xs
  drop (suc n) [] = []
  drop (suc n) (x ∷ xs) = drop n xs

  abbrev pub replicate : ℕ → A → List A
  replicate zero a = []
  replicate (suc n) a = a ∷ replicate n a

  -- The elements that pass a Boolean test.
  abbrev pub keep : (A → Bool) → List A → List A
  keep p [] = []
  keep p (x ∷ xs) = elim (p x) [ true ↦ x ∷ keep p xs | false ↦ keep p xs ]

  abbrev pub All {κ} : (A → Type κ) → List A → Type κ
  All P [] = Unit
  All P (x ∷ xs) = P x × All P xs

module _ {ℓ} {A : Type ℓ} where
  pub length-append : (xs ys : List A) → length (xs ++ ys) ≡ length xs + length ys
  length-append [] ys = omega arith
  length-append (x ∷ xs) ys = omega (arith, length-append xs ys)

  pub length-set : (xs : List A) (i : ℕ) (v : A) → length (set xs i v) ≡ length xs
  length-set [] i v = refl
  length-set (x ∷ xs) zero v = refl
  length-set (x ∷ xs) (suc i) v = ap suc (length-set xs i v)

  pub length-take : (n : ℕ) (xs : List A) → length (take n xs) ≡ min n (length xs)
  length-take zero xs = omega arith
  length-take (suc n) [] = omega arith
  length-take (suc n) (x ∷ xs) = omega (arith, length-take n xs)

  pub length-drop : (n : ℕ) (xs : List A) → length (drop n xs) ≡ length xs - n
  length-drop zero xs = omega arith
  length-drop (suc n) [] = omega arith
  length-drop (suc n) (x ∷ xs) = omega (arith, length-drop n xs)

  pub take-append-drop : (n : ℕ) (xs : List A) → take n xs ++ drop n xs ≡ xs
  take-append-drop zero xs = refl
  take-append-drop (suc n) [] = refl
  take-append-drop (suc n) (x ∷ xs) = ap (λ l. x ∷ l) (take-append-drop n xs)

  -- A prefix that is as long as asked for.
  pub take-append_left : (n : ℕ) (xs ys : List A) → length xs ≡ n → take n (xs ++ ys) ≡ xs
  take-append_left zero [] ys e = refl
  take-append_left zero (x ∷ xs) ys e = absurd (omega arith)
  take-append_left (suc n) [] ys e = absurd (omega arith)
  take-append_left (suc n) (x ∷ xs) ys e = ap (λ l. x ∷ l) (take-append_left n xs ys (omega arith))

  pub drop-append_left : (n : ℕ) (xs ys : List A) → length xs ≡ n → drop n (xs ++ ys) ≡ ys
  drop-append_left zero [] ys e = refl
  drop-append_left zero (x ∷ xs) ys e = absurd (omega arith)
  drop-append_left (suc n) [] ys e = absurd (omega arith)
  drop-append_left (suc n) (x ∷ xs) ys e = drop-append_left n xs ys (omega arith)

  pub take_all : (n : ℕ) (xs : List A) → length xs ≤ n → take n xs ≡ xs
  take_all zero [] h = refl
  take_all zero (x ∷ xs) h = absurd (omega arith)
  take_all (suc n) [] h = refl
  take_all (suc n) (x ∷ xs) h = ap (λ l. x ∷ l) (take_all n xs (omega arith))

  pub get_elem?-take : (n i : ℕ) (xs : List A) → i < n → get_elem? (take n xs) i ≡ get_elem? xs i
  get_elem?-take zero i xs h = elim h [ ]
  get_elem?-take (suc n) i [] h = refl
  get_elem?-take (suc n) zero (x ∷ xs) h = refl
  get_elem?-take (suc n) (suc i) (x ∷ xs) h = get_elem?-take n i xs (omega arith)

  pub get_elem?_lt : (xs : List A) (i : ℕ) → i < length xs → (a : A) × (get_elem? xs i ≡ some a)
  get_elem?_lt [] i h = elim h [ ]
  get_elem?_lt (x ∷ xs) zero h = (x, refl)
  get_elem?_lt (x ∷ xs) (suc i) h = get_elem?_lt xs i (omega arith)

  pub get_elem?_ge : (xs : List A) (i : ℕ) → length xs ≤ i → get_elem? xs i ≡ none
  get_elem?_ge [] i h = refl
  get_elem?_ge (x ∷ xs) zero h = absurd (omega arith)
  get_elem?_ge (x ∷ xs) (suc i) h = get_elem?_ge xs i (omega arith)

  pub get_elem?-drop :
      (n i m : ℕ) (xs : List A) → n + i ≡ m → get_elem? (drop n xs) i ≡ get_elem? xs m
  get_elem?-drop zero i m xs e = let e' : i ≡ m = omega arith in ap (get_elem? xs) e'
  get_elem?-drop (suc n) i m [] e = refl
  get_elem?-drop (suc n) i zero (x ∷ xs) e = absurd (omega arith)
  get_elem?-drop (suc n) i (suc m) (x ∷ xs) e = get_elem?-drop n i m xs (omega arith)

  pub get_elem?-set_self :
      (xs : List A) (i : ℕ) (v : A) → i < length xs → get_elem? (set xs i v) i ≡ some v
  get_elem?-set_self [] i v h = elim h [ ]
  get_elem?-set_self (x ∷ xs) zero v h = refl
  get_elem?-set_self (x ∷ xs) (suc i) v h = get_elem?-set_self xs i v (omega arith)

  pub get_elem?-set_ne :
      (xs : List A) (i j : ℕ) (v : A) → i ≢ j → get_elem? (set xs i v) j ≡ get_elem? xs j
  get_elem?-set_ne [] i j v h = refl
  get_elem?-set_ne (x ∷ xs) zero zero v h = absurd (h refl)
  get_elem?-set_ne (x ∷ xs) zero (suc j) v h = refl
  get_elem?-set_ne (x ∷ xs) (suc i) zero v h = refl
  get_elem?-set_ne (x ∷ xs) (suc i) (suc j) v h = get_elem?-set_ne xs i j v (λ e. h (ap suc e))

  -- The slot behind a prefix of `n`, when it is written.
  pub take-set :
      (n : ℕ) (xs : List A) (v : A)
      → n < length xs
      → take (suc n) (set xs n v) ≡ take n xs ++ v ∷ []
  take-set n [] v h = elim h [ ]
  take-set zero (x ∷ xs) v h = refl
  take-set (suc n) (x ∷ xs) v h = ap (λ l. x ∷ l) (take-set n xs v (omega arith))

  -- A prefix of two blocks that ends in the second.
  pub take-append_right :
      (n m k : ℕ) (xs ys : List A) → length xs ≡ n → n + m ≡ k → take k (xs ++ ys) ≡ xs ++ take m ys
  take-append_right n m k [] ys e f = let k' : k ≡ m = omega arith in rw k'
  take-append_right n m zero (x ∷ xs) ys e f = absurd (omega arith)
  take-append_right zero m (suc k) (x ∷ xs) ys e f = absurd (omega arith)
  take-append_right (suc n) m (suc k) (x ∷ xs) ys e f =
      ap (λ l. x ∷ l) (take-append_right n m k xs ys (omega arith) (omega arith))

  pub take-take : (k n : ℕ) (xs : List A) → k ≤ n → take k (take n xs) ≡ take k xs
  take-take zero n xs h = refl
  take-take (suc k) zero xs h = absurd (omega arith)
  take-take (suc k) (suc n) [] h = refl
  take-take (suc k) (suc n) (x ∷ xs) h = ap (λ l. x ∷ l) (take-take k n xs (omega arith))

  pub drop-take : (k n m : ℕ) (xs : List A) → k + m ≡ n → drop k (take n xs) ≡ take m (drop k xs)
  drop-take zero n m xs e = let e' : n ≡ m = omega arith in rw e'
  drop-take (suc k) zero m xs e = absurd (omega arith)
  drop-take (suc k) (suc n) zero [] e = refl
  drop-take (suc k) (suc n) (suc m) [] e = refl
  drop-take (suc k) (suc n) m (x ∷ xs) e = drop-take k n m xs (omega arith)

  pub drop_all : (n : ℕ) (xs : List A) → length xs ≤ n → drop n xs ≡ []
  drop_all zero [] h = refl
  drop_all zero (x ∷ xs) h = absurd (omega arith)
  drop_all (suc n) [] h = refl
  drop_all (suc n) (x ∷ xs) h = drop_all n xs (omega arith)

  pub take-set_lt : (n i : ℕ) (xs : List A) (v : A) → take n (set xs i v) ≡ set (take n xs) i v
  take-set_lt zero i xs v = refl
  take-set_lt (suc n) i [] v = refl
  take-set_lt (suc n) zero (x ∷ xs) v = refl
  take-set_lt (suc n) (suc i) (x ∷ xs) v = ap (λ l. x ∷ l) (take-set_lt n i xs v)

  pub set_beyond : (xs : List A) (i : ℕ) (v : A) → length xs ≤ i → set xs i v ≡ xs
  set_beyond [] i v h = refl
  set_beyond (x ∷ xs) zero v h = absurd (omega arith)
  set_beyond (x ∷ xs) (suc i) v h = ap (λ l. x ∷ l) (set_beyond xs i v (omega arith))

  -- The list at an index: what stands before it, it, and what stands behind it.
  pub split_at :
      (xs : List A) (i : ℕ) (a : A)
      → get_elem? xs i ≡ some a
      → xs ≡ take i xs ++ a ∷ drop (suc i) xs
  split_at [] i a e = cc
  split_at (x ∷ xs) zero a e = cc
  split_at (x ∷ xs) (suc i) a e = ap (λ l. x ∷ l) (split_at xs i a e)

  pub get_elem?-middle :
      (xs ys : List A) (y : A) (i : ℕ) → length xs ≡ i → get_elem? (xs ++ y ∷ ys) i ≡ some y
  get_elem?-middle [] ys y zero e = refl
  get_elem?-middle [] ys y (suc i) e = absurd (omega arith)
  get_elem?-middle (x ∷ xs) ys y zero e = absurd (omega arith)
  get_elem?-middle (x ∷ xs) ys y (suc i) e = get_elem?-middle xs ys y i (omega arith)

  pub set-middle :
      (xs ys : List A) (y z : A) (i : ℕ) → length xs ≡ i → set (xs ++ y ∷ ys) i z ≡ xs ++ z ∷ ys
  set-middle [] ys y z zero e = refl
  set-middle [] ys y z (suc i) e = absurd (omega arith)
  set-middle (x ∷ xs) ys y z zero e = absurd (omega arith)
  set-middle (x ∷ xs) ys y z (suc i) e = ap (λ l. x ∷ l) (set-middle xs ys y z i (omega arith))

  -- A list of length n + 1, taken apart at its end.
  pub snoc_view :
      (n : ℕ) (xs : List A)
      → length xs ≡ suc n
      → (ys : List A) × (y : A) × (xs ≡ ys ++ y ∷ []) × (length ys ≡ n)
  snoc_view n [] e = absurd (omega arith)
  snoc_view zero (x ∷ []) e = ([], x, refl, refl)
  snoc_view zero (x ∷ y ∷ xs) e = absurd (omega arith)
  snoc_view (suc n) (x ∷ xs) e =
      let v = snoc_view n xs (omega arith) in
      (x ∷ v.0, v.1, ap (λ l. x ∷ l) v.2, omega (arith, v.3))

  pub All_get {κ} :
      (P : A → Type κ) (xs : List A) (i : ℕ) (a : A) → All P xs → get_elem? xs i ≡ some a → P a
  All_get P [] i a h e = absurd (ground arith)
  All_get P (x ∷ xs) zero a h e = subst P (cc) h.0
  All_get P (x ∷ xs) (suc i) a h e = All_get P xs i a h.1 e

  pub All-set {κ} :
      (P : A → Type κ) (xs : List A) (i : ℕ) (a : A) → All P xs → P a → All P (set xs i a)
  All-set P [] i a h p = tt
  All-set P (x ∷ xs) zero a h p = (p, h.1)
  All-set P (x ∷ xs) (suc i) a h p = (h.0, All-set P xs i a h.1 p)

  pub get_elem?-of_take :
      (n i : ℕ) (xs : List A) (a : A) → get_elem? (take n xs) i ≡ some a → get_elem? xs i ≡ some a
  get_elem?-of_take zero i xs a h = absurd (ground arith)
  get_elem?-of_take (suc n) i [] a h = h
  get_elem?-of_take (suc n) zero (x ∷ xs) a h = h
  get_elem?-of_take (suc n) (suc i) (x ∷ xs) a h = get_elem?-of_take n i xs a h

  pub All-append {κ} : (P : A → Type κ) (xs ys : List A) → All P xs → All P ys → All P (xs ++ ys)
  All-append P [] ys hx hy = hy
  All-append P (x ∷ xs) ys hx hy = (hx.0, All-append P xs ys hx.1 hy)

  pub take-append-take : (n : ℕ) (xs ys : List A) → take n (take n xs ++ ys) ≡ take n (xs ++ ys)
  take-append-take zero xs ys = refl
  take-append-take (suc n) [] ys = refl
  take-append-take (suc n) (x ∷ xs) ys = ap (λ l. x ∷ l) (take-append-take n xs ys)
