-- ===== src/Results/System/Ordered.antt =====
-- fjdispatchlite.h: what the sections leave of the order of the handles, and of the values in the table.
use fjdispatchlite.Prelude.{
  ℕ, ◌+◌, ◌≤◌, ◌<◌, ◌≡◌, ◌≢◌, refl, ap, sym, ◌∙◌, subst, inl, inr, ◌⊎◌, Bool, true, false, some,
  List, [], ◌∷◌, ◌++◌, arith, leb, ◌==◌, eq→==, ==→eq, Bool-cases, length, All, keep, count,
  count-append, count-cons, count-middle, one_if,
}
use fjdispatchlite.Prelude.Assoc.{lookup, assign, lookup-assign, lookup-erase}
use fjdispatchlite.Results.{
  ResultItem, ResultTable, int64_max, get_handle, fresh_item, evict, new_resultitem,
  post_resultitem, poll,
}
use fjdispatchlite.Results.Store.{
  IsWellFormed, IsNew, new_resultitem-IsWellFormed, post_resultitem-IsWellFormed,
  result_order-post_resultitem,
}
use fjdispatchlite.Results.Handles.{get_handle_next}
use fjdispatchlite.Results.System.{
  System, initial, after_ask, after_enqueue, Step, asks, enqueues, registers, posts, Reachable,
  starts, moves,
}

abbrev pub is : ℕ → ℕ → Bool
is handle j = j == handle

abbrev pub of_handle : ℕ → ℕ × ℕ → Bool
of_handle handle p = p.0 == handle

-- How often a handle is with a caller, with a task, or answered.
abbrev uses : System → ℕ → ℕ
uses s h = count (is h) s.pending + count (is h) s.at_work + count (of_handle h) s.posted

-- Each handle is in one place at most, and none is beyond the counter; a value in the table is the
-- only one that was given for its handle.
pub record IsOrdered (s : System) : Type 0 where
  pub counted : s.handle_counter ≡ s.given
  pub valid : IsWellFormed s.table
  pub once : (h : ℕ) → uses s h ≤ one_if (leb h s.given)
  pub fresh :
      (h : ℕ) → count (is h) s.pending + count (is h) s.table.result_order ≤ one_if (leb h s.given)
  pub answered : (h v : ℕ) → poll s.table h ≡ some v → keep (of_handle h) s.posted ≡ (h, v) ∷ []

-- The table after a new entry, by the order that `evict` sees.
poll-evict :
    (m : List (ℕ × ResultItem)) (order : List ℕ) (n h v : ℕ)
    → poll (evict (record { results = assign n fresh_item m; result_order = order })) h ≡ some v
    → poll (record { results = m; result_order = [] }) h ≡ some v
unfolding poll evict
poll-evict m [] n h v e = ground (arith, lookup-assign n h fresh_item m)
poll-evict m (old ∷ order) n h v e =
    ground (arith, lookup-assign n h fresh_item m, lookup-erase old h (assign n fresh_item m))

poll-new_resultitem :
    (t : ResultTable) (n h v : ℕ) → poll (new_resultitem t n) h ≡ some v → poll t h ≡ some v
unfolding poll new_resultitem
poll-new_resultitem t n h v e = poll-evict t.results (t.result_order ++ n ∷ []) n h v e

count-evict :
    (m : List (ℕ × ResultItem)) (order : List ℕ) (h : ℕ)
    → count (is h) (evict (record { results = m; result_order = order })).result_order
      ≤ count (is h) order
unfolding evict
count-evict m [] h = ground arith
count-evict m (old ∷ order) h = ground (arith, count-cons (is h) old order)

count-new_resultitem :
    (t : ResultTable) (n h : ℕ)
    → count (is h) (new_resultitem t n).result_order ≤ one_if (n == h) + count (is h) t.result_order
unfolding new_resultitem
count-new_resultitem t n h = omega (
  arith,
  count-evict (assign n fresh_item t.results) (t.result_order ++ n ∷ []) h,
  count-append (is h) t.result_order (n ∷ []),
  count-cons (is h) n [],
)

poll-post_resultitem :
    (t : ResultTable) (handle value h v : ℕ)
    → poll (post_resultitem t handle value) h ≡ some v
    → (((handle == h) ≡ true) × (v ≡ value)) ⊎ (((handle == h) ≡ false) × (poll t h ≡ some v))
unfolding poll post_resultitem
poll-post_resultitem t handle value h v e = elim (Bool-cases (handle == h)) [
  | inl t' ↦
      let k = ==→eq handle h t' in
      inl (
        t',
        ground
            (arith, k, lookup-assign handle h (record { value = value; ready = true }) t.results),
      )
  | inr f ↦
      inr (
        f,
        ground (arith, lookup-assign handle h (record { value = value; ready = true }) t.results),
      )
]

-- A list without a number.
none_counted : (h : ℕ) (xs : List ℕ) → count (is h) xs ≡ 0 → All (λ x. x ≢ h) xs
none_counted h [] e = tt
none_counted h (x ∷ xs) e =
    let c = count-cons (is h) x xs in
    ((λ f. omega (arith, c, ap one_if (eq→== x h f))), none_counted h xs (omega (arith, c)))

none_kept : (h : ℕ) (xs : List (ℕ × ℕ)) → count (of_handle h) xs ≡ 0 → keep (of_handle h) xs ≡ []
none_kept h xs e = empty (keep (of_handle h) xs) e
  where
    empty : (ys : List (ℕ × ℕ)) → length ys ≡ 0 → ys ≡ []
    empty [] f = refl
    empty (y ∷ ys) f = absurd (omega arith)

pub one_if_le : (b : Bool) → one_if b ≤ 1
one_if_le b = ground arith

-- One handle more.
given_more : (n h a : ℕ) → a ≤ one_if (leb h n) → one_if ((n + 1) == h) + a ≤ one_if (leb h (n + 1))
given_more n h a b = ground arith

given_same : (n h a : ℕ) → a ≤ one_if (leb h n) → a ≤ one_if (leb h (n + 1))
given_same n h a b = ground arith

initial-IsOrdered : IsOrdered initial
unfolding initial poll lookup
initial-IsOrdered = record {
  counted = refl;
  valid = record { in_step = refl; distinct = tt; bounded = omega arith };
  once = λ h. omega arith;
  fresh = λ h. omega arith;
  answered = λ h v e. absurd (ground arith);
}

next_handle :
    (s : System)
    → IsOrdered s
    → s.given + 1 < int64_max
    → get_handle s.handle_counter ≡ (s.given + 1, s.given + 1)
next_handle s o b = ap get_handle o.counted ∙ get_handle_next s.given b

after_ask-IsOrdered : (s : System) → IsOrdered s → s.given + 1 < int64_max → IsOrdered (after_ask s)
unfolding after_ask
after_ask-IsOrdered s o b =
    rw (next_handle s o b, after_ask)
      (record {
        counted = refl;
        valid = o.valid;
        once = λ h. omega (
          arith,
          given_more s.given h (uses s h) (o.once h),
          count-cons (is h) (s.given + 1) s.pending,
        );
        fresh = λ h. omega (
          arith,
          given_more s.given h (count (is h) s.pending + count (is h) s.table.result_order)
              (o.fresh h),
          count-cons (is h) (s.given + 1) s.pending,
        );
        answered = o.answered;
      })

after_enqueue-IsOrdered :
    (s : System) → IsOrdered s → s.given + 1 < int64_max → IsOrdered (after_enqueue s)
unfolding after_enqueue
after_enqueue-IsOrdered s o b =
    rw (next_handle s o b, after_enqueue)
      (record {
        counted = refl;
        valid = o.valid;
        once = λ h. given_same s.given h (uses s h) (o.once h);
        fresh = λ h.
            given_same s.given h (count (is h) s.pending + count (is h) s.table.result_order)
              (o.fresh h);
        answered = o.answered;
      })

module _ (s : System) (o : IsOrdered s) (before after : List ℕ) (handle : ℕ) where
  registered-IsOrdered :
      s.pending ≡ before ++ handle ∷ after
      → IsOrdered (record s {
        table = new_resultitem s.table handle;
        pending = before ++ after;
        at_work = handle ∷ s.at_work;
      })
  registered-IsOrdered e = record {
    counted = o.counted;
    valid = new_resultitem-IsWellFormed s.table handle o.valid new;
    once = λ h. omega (arith, waiting h, o.once h, count-cons (is h) handle s.at_work);
    fresh = λ h. omega (arith, waiting h, o.fresh h, count-new_resultitem s.table handle h);
    answered = λ h v p. o.answered h v (poll-new_resultitem s.table handle h v p);
  }
    where
      waiting :
          (h : ℕ) → count (is h) s.pending ≡ one_if (handle == h) + count (is h) (before ++ after)
      waiting h = ap (count (is h)) e ∙ count-middle (is h) before handle after

      new : IsNew s.table handle
      new = none_counted handle s.table.result_order (
          omega (
            arith,
            waiting handle,
            o.fresh handle,
            ap one_if (eq→== handle handle refl),
            one_if_le (leb handle s.given),
          ))

  posted-IsOrdered :
      (value : ℕ)
      → s.at_work ≡ before ++ handle ∷ after
      → IsOrdered (record s {
        table = post_resultitem s.table handle value;
        at_work = before ++ after;
        posted = (handle, value) ∷ s.posted;
      })
  posted-IsOrdered value e = record {
    counted = o.counted;
    valid = post_resultitem-IsWellFormed s.table handle value o.valid;
    once =
        λ h. omega (arith, working h, o.once h, count-cons (of_handle h) (handle, value) s.posted);
    fresh = λ h.
        omega
          (arith, o.fresh h, ap (count (is h)) (result_order-post_resultitem s.table handle value));
    answered = answers;
  }
    where
      working :
          (h : ℕ) → count (is h) s.at_work ≡ one_if (handle == h) + count (is h) (before ++ after)
      working h = ap (count (is h)) e ∙ count-middle (is h) before handle after

      first : keep (of_handle handle) s.posted ≡ []
      first = none_kept handle s.posted (
          omega (
            arith,
            working handle,
            o.once handle,
            ap one_if (eq→== handle handle refl),
            one_if_le (leb handle s.given),
          ))

      answers :
          (h v : ℕ)
          → poll (post_resultitem s.table handle value) h ≡ some v
          → keep (of_handle h) ((handle, value) ∷ s.posted) ≡ (h, v) ∷ []
      answers h v p = elim (poll-post_resultitem s.table handle value h v p) [
        | inl (t, q) ↦
            let k = ==→eq handle h t in
            let z : keep (of_handle h) s.posted ≡ [] =
              subst (λ x. keep (of_handle x) s.posted ≡ []) k first in
            let c : (handle, value) ≡ (h, v) = cc in
            rw (t, keep) (ap (λ x. x ∷ keep (of_handle h) s.posted) c ∙ ap (λ l. (h, v) ∷ l) z)
        | inr (f, q) ↦ rw (f, keep) (o.answered h v q)
      ]

Step-IsOrdered : (s t : System) → Step s t → IsOrdered s → t.given < int64_max → IsOrdered t
unfolding after_ask after_enqueue
Step-IsOrdered s t (asks e) o b =
    subst IsOrdered (sym e) (after_ask-IsOrdered s o (omega (arith, ap (λ x. x.given) e)))
Step-IsOrdered s t (enqueues e) o b =
    subst IsOrdered (sym e) (after_enqueue-IsOrdered s o (omega (arith, ap (λ x. x.given) e)))
Step-IsOrdered s t (registers before after handle p e) o b =
    subst IsOrdered (sym e) (registered-IsOrdered s o before after handle p)
Step-IsOrdered s t (posts before after handle value p e) o b =
    subst IsOrdered (sym e) (posted-IsOrdered s o before after handle value p)

pub Step-given : (s t : System) → Step s t → s.given ≤ t.given
unfolding after_ask after_enqueue
Step-given s t (asks e) = omega (arith, ap (λ x. x.given) e)
Step-given s t (enqueues e) = omega (arith, ap (λ x. x.given) e)
Step-given s t (registers before after handle p e) = omega (arith, ap (λ x. x.given) e)
Step-given s t (posts before after handle value p e) = omega (arith, ap (λ x. x.given) e)

-- In every reachable state, with fewer than INT64_MAX handles given out: the entries of the table are
-- in step with the queue of their handles, within 100; each handle is with one caller or one task at
-- most, or has one value; and a value in the table is the only one that was given for its handle.
pub Reachable-IsOrdered : (s : System) → Reachable s → s.given < int64_max → IsOrdered s
Reachable-IsOrdered _ starts b = initial-IsOrdered
Reachable-IsOrdered _ (moves {s} {t} r m) b =
    Step-IsOrdered s t m (Reachable-IsOrdered s r (omega (arith, Step-given s t m))) b
