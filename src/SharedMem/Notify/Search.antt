-- ===== src/SharedMem/Notify/Search.antt =====
-- fjsharedmem.h: the binary search of `_notify` in the table of listeners.
use fjdispatchlite.Prelude.{
  ℕ, zero, suc, ◌+◌, ◌-◌, ◌/◌, ◌≤◌, ◌≡◌, refl, ap, sym, ◌∙◌, inl, inr, true, false, some, List, [],
  ◌∷◌, arith, ltb, ltb→lt, ltb→ge, ge→ltb, Bool-cases, length, get_elem?, get_elem?_lt, take, drop,
  keep, keep_none, All, All_get, length-keep-le, All-map, IsOrdered,
}
use fjdispatchlite.FixVector
use fjdispatchlite.FixVector.{FixVector, to_list, at}
use fjdispatchlite.FixVector.View.{length-to_list, at_lem}
use fjdispatchlite.SharedMem.{MailAtom, by_msg}
use fjdispatchlite.SharedMem.Notify.{lower_bound}

-- The reference: how many atoms have a smaller message.
unfoldable pub count_below : ℕ → List MailAtom → ℕ
count_below msg ms = length (keep (λ m. ltb m.msg msg) ms)

All-above :
    (msg : ℕ) (m : MailAtom) (ms : List MailAtom)
    → msg ≤ m.msg
    → All (λ x. by_msg x m ≡ false) ms
    → All (λ x. ltb x.msg msg ≡ false) (m ∷ ms)
All-above msg m ms h o =
    (ge→ltb _ _ h, All-map _ _ (λ x l. ge→ltb _ _ (omega (arith, ltb→ge _ _ l))) ms o)

none_below :
    (msg : ℕ) (m : MailAtom) (ms : List MailAtom)
    → msg ≤ m.msg
    → All (λ x. by_msg x m ≡ false) ms
    → count_below msg (m ∷ ms) ≡ 0
unfolding count_below
none_below msg m ms h o =
    ap length (keep_none (λ x. ltb x.msg msg) (m ∷ ms) (All-above msg m ms h o))

one_below :
    (msg : ℕ) (m : MailAtom) (ms : List MailAtom)
    → ltb m.msg msg ≡ true
    → count_below msg (m ∷ ms) ≡ suc (count_below msg ms)
unfolding count_below
one_below msg m ms t = rw (t, keep) refl

pub count_below-le : (msg : ℕ) (ms : List MailAtom) → count_below msg ms ≤ length ms
unfolding count_below
count_below-le msg ms = length-keep-le (λ m. ltb m.msg msg) ms

count_below_nil : (msg : ℕ) → count_below msg [] ≡ 0
unfolding count_below
count_below_nil msg = refl

below_cons :
    (msg : ℕ) (x m : MailAtom) (ms : List MailAtom) (i : ℕ)
    → ((j : ℕ) (y : MailAtom)
        → IsOrdered by_msg ms
        → get_elem? ms j ≡ some y
        → ltb y.msg msg ≡ ltb j (count_below msg ms))
    → IsOrdered by_msg (x ∷ ms)
    → get_elem? (x ∷ ms) i ≡ some m
    → ltb x.msg msg ≡ true
    → ltb m.msg msg ≡ ltb i (suc (count_below msg ms))
below_cons msg x m ms zero r o e t = ground arith
below_cons msg x m ms (suc j) r o e t = r j m o.1 e ∙ ground arith

-- In a sorted list the atoms below a message stand before the others.
below_iff :
    (msg : ℕ) (ms : List MailAtom) (i : ℕ) (m : MailAtom)
    → IsOrdered by_msg ms
    → get_elem? ms i ≡ some m
    → ltb m.msg msg ≡ ltb i (count_below msg ms)
below_iff msg [] i m o e = absurd (ground arith)
below_iff msg (x ∷ ms) i m o e = elim (Bool-cases (ltb x.msg msg)) [
  | inr f ↦
      let g =
        All_get (λ y. ltb y.msg msg ≡ false) (x ∷ ms) i m (All-above msg x ms (ltb→ge _ _ f) o.0)
          e in
      rw (none_below msg x ms (ltb→ge _ _ f) o.0) (g ∙ sym (ge→ltb i 0 (omega arith)))
  | inl t ↦ rw (one_below msg x ms t) (below_cons msg x m ms i (below_iff msg ms) o e t)
]

-- The list around that point.
pub record Splits (msg : ℕ) (before after : List MailAtom) : Type 0 where
  pub below : All (λ m. ltb m.msg msg ≡ true) before
  pub above : All (λ m. ltb m.msg msg ≡ false) after
  pub ordered : IsOrdered by_msg after

pub splits :
    (msg : ℕ) (ms : List MailAtom)
    → IsOrdered by_msg ms
    → Splits msg (take (count_below msg ms) ms) (drop (count_below msg ms) ms)
splits msg [] o = rw (count_below_nil msg) (record { below = tt; above = tt; ordered = tt })
splits msg (x ∷ ms) o = elim (Bool-cases (ltb x.msg msg)) [
  | inr f ↦
      rw (none_below msg x ms (ltb→ge _ _ f) o.0)
        (record { below = tt; above = All-above msg x ms (ltb→ge _ _ f) o.0; ordered = o })
  | inl t ↦
      let r = splits msg ms o.1 in
      rw (one_below msg x ms t)
        (record { below = (t, r.below); above = r.above; ordered = r.ordered })
]

-- On a sorted table, with fuel for every place, the search gives the number of smaller messages.
pub lower_bound-count_below :
    (v : FixVector MailAtom) (msg fuel left right : ℕ)
    → fjdispatchlite.FixVector.IsWellFormed v
    → IsOrdered by_msg (to_list v)
    → right ≤ v.count
    → right ≤ left + fuel
    → left ≤ count_below msg (to_list v)
    → count_below msg (to_list v) ≤ right
    → lower_bound v msg fuel left right ≡ some (count_below msg (to_list v))
unfolding lower_bound
lower_bound-count_below v msg zero left right w o c f l r = ap some (omega arith)
lower_bound-count_below v msg (suc fuel) left right w o c f l r =
    elim (Bool-cases (ltb left right)) [
      | inr g ↦ rw g (ap some (omega (arith, ltb→ge _ _ g)))
      | inl t ↦
          let k = ltb→lt _ _ t in
          let mid = left + (right - left) / 2 in
          let (m, e) = get_elem?_lt (to_list v) mid (omega (arith, length-to_list v w)) in
          let a : at v mid ≡ some m = at_lem v mid w ∙ e in
          let b = below_iff msg (to_list v) mid m o e in
          elim (Bool-cases (ltb m.msg msg)) [
            | inl s ↦
                rw (t, a, s)
                  (lower_bound-count_below v msg fuel (mid + 1) right w o c (omega arith)
                    (omega (arith, ltb→lt _ _ (sym b ∙ s))) r)
            | inr s ↦
                rw (t, a, s)
                  (lower_bound-count_below v msg fuel left mid w o (omega arith) (omega arith) l
                    (omega (arith, ltb→ge _ _ (sym b ∙ s))))
          ]
    ]
