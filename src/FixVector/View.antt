-- ===== src/FixVector/View.antt =====
-- fjfixvector.h: each operation of the vector, seen on the list of its elements.
use fjdispatchlite.Prelude.{
  ℕ, suc, ◌+◌, ◌/◌, ◌≤◌, ◌<◌, ◌≡◌, refl, ap, ◌∙◌, Bool, true, false, some, List, [], ◌∷◌, ◌++◌, inl,
  inr, arith, leb, Bool-cases, leb→le, leb→gt, le→leb, gt→leb, length, get_elem?, set, take, drop,
  take_all, length-append, length-set, length-take, length-drop, take-set, take-append_left,
  take-set_lt, set_beyond, length-perm, get_elem?-take, get_elem?-middle, get_elem?_ge, add64,
  u64_mod, StdSort,
}
use fjdispatchlite.FixVector.{
  FixVector, IsWellFormed, to_list, create, push_back, push_front, memmove, at, write_at, sort,
}

module _ {A : Type 0} where
  pub length-to_list : (v : FixVector A) → IsWellFormed v → length (to_list v) ≡ v.count
  length-to_list v w = omega (arith, length-take v.count v.buffer)

  -- The constructor gives a well-formed vector on any buffer of the size that it is told.
  pub create-IsWellFormed :
      (buffer : List A) (buffer_size item_size count : ℕ)
      → buffer_size / item_size ≤ length buffer
      → buffer_size < u64_mod
      → IsWellFormed (create buffer buffer_size item_size count)
  unfolding create
  create-IsWellFormed buffer buffer_size item_size count h small = ground arith

  pub push_back-IsWellFormed :
      (v : FixVector A) (x : A) → IsWellFormed v → IsWellFormed (push_back v x).0
  unfolding push_back
  push_back-IsWellFormed v x w = ground (arith, length-set v.buffer v.count x)

  pub push_back-full : (v : FixVector A) (x : A) → v.capacity ≤ v.count → push_back v x ≡ (v, false)
  unfolding push_back
  push_back-full v x h = rw (le→leb _ _ h)

  -- `push_back` on a vector that is not full.
  pub to_list-push_back :
      (v : FixVector A) (x : A)
      → IsWellFormed v
      → v.count < v.capacity
      → (to_list (push_back v x).0 ≡ to_list v ++ x ∷ []) × ((push_back v x).1 ≡ true)
  unfolding push_back
  to_list-push_back v x w h =
      let e : add64 v.count 1 ≡ suc v.count = omega arith in
      rw (gt→leb _ _ h) (rw e (take-set v.count v.buffer x (omega arith)), refl)

  -- A move inside the buffer.
  pub memmove_inside :
      (dst src n : ℕ) (xs : List A)
      → dst + n ≤ length xs
      → src + n ≤ length xs
      → memmove dst src n xs ≡ take dst xs ++ (take n (drop src xs) ++ drop (dst + n) xs)
  unfolding memmove
  memmove_inside dst src n xs h k = take_all (length xs) _ (
      omega (
        arith,
        length-append (take dst xs) (take n (drop src xs) ++ drop (dst + n) xs),
        length-append (take n (drop src xs)) (drop (dst + n) xs),
        length-take dst xs,
        length-take n (drop src xs),
        length-drop src xs,
        length-drop (dst + n) xs,
      ))

  front :
      (n : ℕ) (xs : List A) (x : A)
      → n < length xs
      → take (suc n) (set (memmove 1 0 n xs) 0 x) ≡ x ∷ take n xs
  front n [] x h = elim h [ ]
  front n (y ∷ ys) x h =
      ap (λ l. take (suc n) (set l 0 x)) (memmove_inside 1 0 n (y ∷ ys) (omega arith) (omega arith))
      ∙ ap (λ l. x ∷ l)
          (take-append_left n (take n (y ∷ ys)) (drop (1 + n) (y ∷ ys))
            (omega (arith, length-take n (y ∷ ys))))

  length-front : (n : ℕ) (xs : List A) → n < length xs → length (memmove 1 0 n xs) ≡ length xs
  length-front n [] h = elim h [ ]
  length-front n (y ∷ ys) h =
      rw
        (
          memmove_inside 1 0 n (y ∷ ys) (omega arith) (omega arith),
          length-append (take n (y ∷ ys)) (drop (1 + n) (y ∷ ys)),
          length-take n (y ∷ ys),
          length-drop (1 + n) (y ∷ ys),
        )
        (omega arith)

  pub to_list-push_front :
      (v : FixVector A) (x : A)
      → IsWellFormed v
      → v.count < v.capacity
      → (to_list (push_front v x).0 ≡ x ∷ to_list v) × ((push_front v x).1 ≡ true)
  unfolding push_front
  to_list-push_front v x w h =
      let e : add64 v.count 1 ≡ suc v.count = omega arith in
      rw (gt→leb _ _ h) (rw e (front v.count v.buffer x (omega arith)), refl)

  pub push_front-IsWellFormed :
      (v : FixVector A) (x : A) → IsWellFormed v → IsWellFormed (push_front v x).0
  unfolding push_front
  push_front-IsWellFormed v x w =
      ground (arith, length-front v.count v.buffer, length-set (memmove 1 0 v.count v.buffer) 0 x)

  pub push_front-full :
      (v : FixVector A) (x : A) → v.capacity ≤ v.count → push_front v x ≡ (v, false)
  unfolding push_front
  push_front-full v x h = rw (le→leb _ _ h)

  -- `at` reads the list of elements, and gives nullptr exactly beyond its end.
  pub at_lem : (v : FixVector A) (i : ℕ) → IsWellFormed v → at v i ≡ get_elem? (to_list v) i
  unfolding at
  at_lem v i w = elim (Bool-cases (leb v.count i)) [
    | inl e ↦ rw (e, get_elem?_ge (to_list v) i (omega (arith, leb→le _ _ e, length-to_list v w)))
    | inr e ↦ rw (e, get_elem?-take v.count i v.buffer (leb→gt _ _ e))
  ]

  pub at_middle :
      (v : FixVector A) (pre ms : List A) (m : A) (i : ℕ)
      → IsWellFormed v
      → to_list v ≡ pre ++ m ∷ ms
      → length pre ≡ i
      → at v i ≡ some m
  at_middle v pre ms m i w e l =
      at_lem v i w ∙ ap (λ xs. get_elem? xs i) e ∙ get_elem?-middle pre ms m i l

  pub to_list-write_at :
      (v : FixVector A) (i : ℕ) (x : A)
      → IsWellFormed v
      → to_list (write_at v i x) ≡ set (to_list v) i x
  unfolding write_at
  to_list-write_at v i x w = elim (Bool-cases (leb v.count i)) [
    | inl e ↦ rw (e, set_beyond (to_list v) i x (omega (arith, leb→le _ _ e, length-to_list v w)))
    | inr e ↦ rw (e, take-set_lt v.count i v.buffer x)
  ]

  pub write_at-IsWellFormed :
      (v : FixVector A) (i : ℕ) (x : A) → IsWellFormed v → IsWellFormed (write_at v i x)
  unfolding write_at
  write_at-IsWellFormed v i x w = ground (arith, length-set v.buffer i x)

  pub to_list-sort :
      (s : StdSort A) (comp : A → A → Bool) (v : FixVector A)
      → IsWellFormed v
      → to_list (sort s comp v) ≡ s.sort comp (to_list v)
  unfolding sort
  to_list-sort s comp v w =
      take-append_left v.count (s.sort comp (to_list v)) (drop v.count v.buffer)
        (length-perm (s.sort_perm comp (to_list v)) ∙ length-to_list v w)

  pub sort-IsWellFormed :
      (s : StdSort A) (comp : A → A → Bool) (v : FixVector A)
      → IsWellFormed v
      → IsWellFormed (sort s comp v)
  unfolding sort
  sort-IsWellFormed s comp v w = omega (
    arith,
    length-append (s.sort comp (to_list v)) (drop v.count v.buffer),
    length-perm (s.sort_perm comp (to_list v)),
    length-to_list v w,
    length-drop v.count v.buffer,
  )
