-- ===== src/FixVector/Splice.antt =====
-- fjfixvector.h: `splice`, and its sum in `size_t`.
use mathlib.Core.List.{append-nil}
use fjdispatchlite.Prelude.{
  ℕ, ◌+◌, ◌-◌, ◌≤◌, ◌<◌, ◌≡◌, refl, ap, sym, ◌∙◌, false, List, ◌++◌, inl, inr, arith, ltb, leb,
  if◌then◌else◌, Bool-cases, leb→le, leb→gt, gt→leb, ge→ltb, lt→ltb, true, ltb→lt, ltb→ge, length,
  take, drop, length-append, length-take, length-drop, take-append_left, take-append_right,
  take-take, drop-take, take_all, drop_all, add64, sub64, u64_mod,
}
use fjdispatchlite.FixVector.{FixVector, IsWellFormed, to_list, memmove, shift_down, splice}
use fjdispatchlite.FixVector.View.{length-to_list, memmove_inside}

module _ {A : Type 0} where
  -- A list without the `n` elements from `start` on.
  abbrev pub without : ℕ → ℕ → List A → List A
  without start n xs = take start xs ++ drop (start + n) xs

  length-memmove :
      (dst src n : ℕ) (xs : List A)
      → dst + n ≤ length xs
      → src + n ≤ length xs
      → length (memmove dst src n xs) ≡ length xs
  length-memmove dst src n xs h k = omega (
    arith,
    ap length (memmove_inside dst src n xs h k),
    length-append (take dst xs) (take n (drop src xs) ++ drop (dst + n) xs),
    length-append (take n (drop src xs)) (drop (dst + n) xs),
    length-take dst xs,
    length-take n (drop src xs),
    length-drop src xs,
    length-drop (dst + n) xs,
  )

  -- The slots that the move leaves in front.
  take-memmove :
      (dst src n : ℕ) (xs : List A)
      → dst + n ≤ length xs
      → src + n ≤ length xs
      → take (dst + n) (memmove dst src n xs) ≡ take dst xs ++ take n (drop src xs)
  take-memmove dst src n xs h k =
      ap (take (dst + n)) (memmove_inside dst src n xs h k)
      ∙ take-append_right dst n (dst + n) (take dst xs) _ (omega (arith, length-take dst xs)) refl
      ∙ ap (λ l. take dst xs ++ l)
          (take-append_left n (take n (drop src xs)) _
            (omega (arith, length-take n (drop src xs), length-drop src xs)))

  without-take :
      (start n k m : ℕ) (xs : List A)
      → start + n + m ≡ k
      → without start n (take k xs) ≡ take start xs ++ take m (drop (start + n) xs)
  without-take start n k m xs e =
      rw (take-take start k xs (omega arith), drop-take (start + n) k m xs e)

  -- The machine arithmetic of `splice` does not wrap on a range inside the vector.
  exact :
      (v : FixVector A) (start n : ℕ)
      → IsWellFormed v
      → start + n ≤ v.count
      → (add64 start n ≡ start + n)
        × (sub64 v.count (start + n) ≡ v.count - (start + n))
        × (sub64 v.count n ≡ v.count - n)
  exact v start n w h = (omega arith, omega arith, omega arith)

  to_list-shift_down :
      (v : FixVector A) (start n : ℕ)
      → IsWellFormed v
      → start + n ≤ v.count
      → to_list (shift_down v start n) ≡ without start n (to_list v)
  unfolding shift_down
  to_list-shift_down v start n w h =
      let e = exact v start n w h in
      rw (e.0, e.1, e.2)
        (elim (Bool-cases (ltb 0 (v.count - (start + n)))) [
          | inl t ↦ rw t (
              ap (λ k. take k (memmove start (start + n) (v.count - (start + n)) v.buffer))
                (omega arith)
              ∙ take-memmove start (start + n) (v.count - (start + n)) v.buffer (omega arith)
                  (omega arith)
              ∙ sym (without-take start n v.count (v.count - (start + n)) v.buffer (omega arith)))
          | inr f ↦
              let z : v.count - n ≡ start = omega (arith, ltb→ge _ _ f) in
              rw f (
                rw z (
                  sym (
                    without-take start n v.count 0 v.buffer (omega (arith, ltb→ge _ _ f))
                    ∙ append-nil (take start v.buffer))))
        ])

  shift_down-IsWellFormed :
      (v : FixVector A) (start n : ℕ)
      → IsWellFormed v
      → start + n ≤ v.count
      → IsWellFormed (shift_down v start n)
  unfolding shift_down
  shift_down-IsWellFormed v start n w h = ground (
    arith,
    (exact v start n w h).0,
    (exact v start n w h).1,
    (exact v start n w h).2,
    length-memmove start (start + n) (v.count - (start + n)) v.buffer,
  )

  -- Both cut a list short at `start`.
  without_end :
      (start n k : ℕ) (xs : List A)
      → length xs ≤ start + n
      → length xs ≤ start + k
      → without start n xs ≡ without start k xs
  without_end start n k xs h g = rw (drop_all (start + n) xs h, drop_all (start + k) xs g)

  clipped-le :
      (v : FixVector A) (start n : ℕ)
      → IsWellFormed v
      → start < v.count
      → start + n < u64_mod
      → start + (if ltb v.count (add64 start n) then sub64 v.count start else n) ≤ v.count
  clipped-le v start n w s h = ground arith

  without_clipped :
      (v : FixVector A) (start n : ℕ)
      → IsWellFormed v
      → start < v.count
      → start + n < u64_mod
      → without start (if ltb v.count (add64 start n) then sub64 v.count start else n) (to_list v)
        ≡ without start n (to_list v)
  without_clipped v start n w s h =
      let e : add64 start n ≡ start + n = omega arith in
      let d : sub64 v.count start ≡ v.count - start = omega arith in
      rw (e, d)
        (elim (Bool-cases (ltb v.count (start + n))) [
          | inr f ↦ rw f
          | inl t ↦ rw t (
              without_end start (v.count - start) n (to_list v) (omega (arith, length-to_list v w))
                (omega (arith, length-to_list v w, ltb→lt _ _ t)))
        ])

  -- On a well-formed vector, where the end of the range does not wrap, `splice` removes the range
  -- from the list of elements, cut off at its end.
  pub to_list-splice :
      (v : FixVector A) (start n : ℕ)
      → IsWellFormed v
      → start + n < u64_mod
      → to_list (splice v start n) ≡ without start n (to_list v)
  unfolding splice
  to_list-splice v start n w h = elim (Bool-cases (leb v.count start)) [
    | inl e ↦ rw e (
        sym (
          ap (λ l. l ++ drop (start + n) (to_list v))
            (take_all start (to_list v) (omega (arith, length-to_list v w, leb→le _ _ e)))
          ∙ ap (λ l. to_list v ++ l)
              (drop_all (start + n) (to_list v) (omega (arith, length-to_list v w, leb→le _ _ e)))
          ∙ append-nil (to_list v)))
    | inr e ↦ rw e (
        to_list-shift_down v start _ w (clipped-le v start n w (leb→gt _ _ e) h)
        ∙ without_clipped v start n w (leb→gt _ _ e) h)
  ]

  pub splice-IsWellFormed :
      (v : FixVector A) (start n : ℕ)
      → IsWellFormed v
      → start + n < u64_mod
      → IsWellFormed (splice v start n)
  unfolding splice
  splice-IsWellFormed v start n w h = elim (Bool-cases (leb v.count start)) [
    | inl e ↦ rw e w
    | inr e ↦ rw e (shift_down-IsWellFormed v start _ w (clipped-le v start n w (leb→gt _ _ e) h))
  ]

  -- On a well-formed vector with room for `start` elements more, where `start + count` wraps to 0,
  -- `splice` from a place inside the vector removes nothing: the count grows by `start`, and the
  -- elements are the first `start` ones and, behind them, all that were there before.
  pub splice_wraps :
      (v : FixVector A) (start : ℕ)
      → IsWellFormed v
      → 0 < start
      → start < v.count
      → v.count + start ≤ v.capacity
      → let v' = splice v start (u64_mod - start) in
        (v'.count ≡ v.count + start) × (to_list v' ≡ take start (to_list v) ++ to_list v)
  unfolding splice shift_down
  splice_wraps v start w p h s =
      let e : add64 start (u64_mod - start) ≡ 0 = omega arith in
      let c : ltb v.count 0 ≡ false = ge→ltb _ _ (omega arith) in
      let m : sub64 v.count 0 ≡ v.count = omega arith in
      let n : sub64 v.count (u64_mod - start) ≡ start + v.count = omega arith in
      let t : ltb 0 v.count ≡ true = lt→ltb _ _ (omega arith) in
      rw (gt→leb _ _ h) (
        rw e (
          rw c (
            rw (e, m, n, t)
              (
                omega arith,
                take-memmove start 0 v.count v.buffer (omega arith) (omega arith)
                    ∙ ap (λ l. l ++ take v.count v.buffer)
                        (sym (take-take start v.count v.buffer (omega arith))),
              ))))
