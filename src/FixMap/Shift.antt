-- ===== src/FixMap/Shift.antt =====
-- fjfixmap.h: what the two loops that move entries by one slot do to the buffer.
use mathlib.Core.List.{append_assoc}
use fjdispatchlite.Prelude.{
  ℕ, zero, suc, ◌+◌, ◌-◌, ◌≡◌, refl, ap, sym, subst, ◌∙◌, some, List, [], ◌∷◌, ◌++◌, arith, lt→ltb,
  length, length-append, get_elem?-middle, set-middle, snoc_view,
}
use fjdispatchlite.FixMap.{load, store, shift_up, shift_down}

module _ {A : Type 0} where
  -- The first of a block and the slot behind it; the last of a slot and the block behind it.
  abbrev pub first_or : List A → A → A
  first_or [] x = x
  first_or (m ∷ ms) x = m

  abbrev pub last_or : A → List A → A
  last_or x [] = x
  last_or x (m ∷ ms) = last_or m ms

  pub store-middle :
      (xs ys : List A) (y z : A) (i : ℕ)
      → length xs ≡ i
      → store (xs ++ y ∷ ys) i z ≡ some (xs ++ z ∷ ys)
  store-middle xs ys y z i e =
      rw (lt→ltb i (length (xs ++ y ∷ ys)) (omega (arith, length-append xs (y ∷ ys))))
        (ap some (set-middle xs ys y z i e))

  first_or-snoc : (ms : List A) (m x : A) → first_or (ms ++ m ∷ []) x ≡ first_or ms m
  first_or-snoc [] m x = refl
  first_or-snoc (k ∷ ms) m x = refl

  load-back :
      (i : ℕ) (ps ms ss : List A) (m x : A)
      → suc (length ps + length ms) ≡ i
      → load (ps ++ ((ms ++ m ∷ []) ++ x ∷ ss)) (i - 1) ≡ some m
  load-back i ps ms ss m x e = simp append_assoc (
      simp append_assoc at
        (get_elem?-middle (ps ++ ms) (x ∷ ss) m (i - 1) (omega (arith, length-append ps ms))))

  store-back :
      (i : ℕ) (ps ms ss : List A) (m x : A)
      → suc (length ps + length ms) ≡ i
      → store (ps ++ ((ms ++ m ∷ []) ++ x ∷ ss)) i m ≡ some (ps ++ (ms ++ m ∷ (m ∷ ss)))
  store-back i ps ms ss m x e =
      subst (λ (l : List A). store l i m ≡ some (ps ++ (ms ++ m ∷ (m ∷ ss))))
        (append_assoc ps (ms ++ m ∷ []) (x ∷ ss))
        (store-middle (ps ++ (ms ++ m ∷ [])) ss x m i
            (omega (arith, length-append ps (ms ++ m ∷ []), length-append ms (m ∷ [])))
          ∙ ap some (simp append_assoc))

  -- Upwards: the block of `n` slots moves by one over the slot behind it.
  pub shift_up-block :
      (n i : ℕ) (ps ms ss : List A) (x : A)
      → length ms ≡ n
      → length ps + n ≡ i
      → shift_up n i (ps ++ (ms ++ x ∷ ss)) ≡ some (ps ++ first_or ms x ∷ (ms ++ ss))
  unfolding shift_up
  shift_up-block zero i ps [] ss x e f = refl
  shift_up-block zero i ps (m ∷ ms) ss x e f = absurd (omega arith)
  shift_up-block (suc n) i ps ms ss x e f =
      let v = snoc_view n ms e in
      rw
        (
          v.2,
          load-back i ps v.0 ss v.1 x (omega (arith, v.3)),
          store-back i ps v.0 ss v.1 x (omega (arith, v.3)),
          shift_up-block n (i - 1) ps v.0 (v.1 ∷ ss) v.1 v.3 (omega arith),
        )
        (simp (first_or-snoc, append_assoc))

  get_elem?-next :
      (i : ℕ) (ps ss : List A) (m x : A)
      → length ps ≡ i
      → load (ps ++ x ∷ (m ∷ ss)) (i + 1) ≡ some m
  get_elem?-next i ps ss m x e =
      simp append_assoc at
        (get_elem?-middle (ps ++ x ∷ []) ss m (i + 1) (omega (arith, length-append ps (x ∷ []))))

  -- Downwards: the block of `n` slots moves by one over the slot before it.
  pub shift_down-block :
      (n i : ℕ) (ps ms ss : List A) (x : A)
      → length ms ≡ n
      → length ps ≡ i
      → shift_down n i (ps ++ x ∷ (ms ++ ss)) ≡ some (ps ++ (ms ++ last_or x ms ∷ ss))
  unfolding shift_down
  shift_down-block zero i ps [] ss x e f = refl
  shift_down-block zero i ps (m ∷ ms) ss x e f = absurd (omega arith)
  shift_down-block (suc n) i ps [] ss x e f = absurd (omega arith)
  shift_down-block (suc n) i ps (m ∷ ms) ss x e f =
      rw
        (
          get_elem?-next i ps (ms ++ ss) m x f,
          store-middle ps (m ∷ (ms ++ ss)) x m i f,
          sym (append_assoc ps (m ∷ []) (m ∷ (ms ++ ss))),
          shift_down-block n (i + 1) (ps ++ m ∷ []) ms ss m (omega arith)
              (omega (arith, length-append ps (m ∷ []))),
        )
        (simp append_assoc)
