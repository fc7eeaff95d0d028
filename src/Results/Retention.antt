-- ===== src/Results/Retention.antt =====
-- fjdispatchlite.h: how long a result stays in the table, and what `waitResult` finds of it.
use fjdispatchlite.Prelude.{
  ℕ, zero, suc, ◌+◌, ◌≤◌, ◌<◌, ◌≡◌, ◌≢◌, refl, sym, ◌∙◌, subst, inl, inr, true, none, some, List,
  [], ◌∷◌, arith, ltb, length, All, Bool-cases, All-append, eq→==, dec_lt, All-map,
}
use fjdispatchlite.Prelude.Assoc.{lookup, assign, lookup-assign, lookup_absent}
use fjdispatchlite.Results.{
  int64_max, ResultItem, ResultTable, max_results, fresh_item, evict, new_resultitem,
  post_resultitem, poll,
}
use fjdispatchlite.Results.Handles.{take_handles, get_handle_next}
use fjdispatchlite.Results.Store.{IsWellFormed, IsNew, new_resultitem-IsWellFormed}
use fjdispatchlite.Results.Evicting.{
  HasNewer, new_resultitem_keeps, new_resultitem_drops, evict_first,
}

unfoldable pub register_all : ResultTable → List ℕ → ResultTable
register_all t [] = t
register_all t (n ∷ ns) = register_all (new_resultitem t n) ns

-- Each handle is new when it is registered.
abbrev pub AreNew : ResultTable → List ℕ → Type 0
AreNew t [] = Unit
AreNew t (n ∷ ns) = IsNew t n × AreNew (new_resultitem t n) ns

register_all_keeps :
    (t : ResultTable) (h d : ℕ) (ns : List ℕ)
    → IsWellFormed t
    → HasNewer t h d
    → AreNew t ns
    → d + length ns < max_results
    → lookup h (register_all t ns).results ≡ lookup h t.results
unfolding register_all
register_all_keeps t h d [] w k a b = refl
register_all_keeps t h d (n ∷ ns) w k a b =
    let s = new_resultitem_keeps t h n d w a.0 k (omega arith) in
    register_all_keeps (new_resultitem t n) h (suc d) ns (new_resultitem-IsWellFormed t n w a.0) s.0
      a.1 (omega arith)
    ∙ s.1

evict-All :
    (P : ℕ → Type 0) (m : List (ℕ × ResultItem)) (order : List ℕ)
    → All P order
    → All P (evict (record { results = m; result_order = order })).result_order
unfolding evict
evict-All P m [] a = ground arith
evict-All P m (old ∷ rest) a = elim (Bool-cases (ltb max_results (suc (length rest)))) [
  | inl t ↦ rw (t, evict) a.1
  | inr f ↦ rw (f, evict) a
]

new_resultitem-All :
    (P : ℕ → Type 0) (t : ResultTable) (n : ℕ)
    → All P t.result_order
    → P n
    → All P (new_resultitem t n).result_order
unfolding new_resultitem
new_resultitem-All P t n a p = evict-All P _ _ (All-append P t.result_order (n ∷ []) a (p, tt))

register_all-IsNew :
    (t : ResultTable) (h : ℕ) (ns : List ℕ)
    → IsWellFormed t
    → IsNew t h
    → AreNew t ns
    → All (λ n. n ≢ h) ns
    → IsWellFormed (register_all t ns) × IsNew (register_all t ns) h
unfolding register_all
register_all-IsNew t h [] w f a o = (w, f)
register_all-IsNew t h (n ∷ ns) w f a o =
    register_all-IsNew (new_resultitem t n) h ns (new_resultitem-IsWellFormed t n w a.0)
      (new_resultitem-All (λ k. k ≢ h) t n f o.0) a.1 o.1

register_all_drops :
    (t : ResultTable) (h d : ℕ) (ns : List ℕ)
    → IsWellFormed t
    → HasNewer t h d
    → d < max_results
    → AreNew t ns
    → All (λ n. n ≢ h) ns
    → max_results ≤ d + length ns
    → IsWellFormed (register_all t ns) × IsNew (register_all t ns) h
unfolding register_all
register_all_drops t h d [] w k l a o b = absurd (omega arith)
register_all_drops t h d (n ∷ ns) w k l a o b = elim (dec_lt (suc d) max_results) [
  | yes m ↦
      register_all_drops (new_resultitem t n) h (suc d) ns (new_resultitem-IsWellFormed t n w a.0)
        (new_resultitem_keeps t h n d w a.0 k m).0 m a.1 o.1 (omega arith)
  | no m ↦
      register_all-IsNew (new_resultitem t n) h ns (new_resultitem-IsWellFormed t n w a.0)
        (new_resultitem_drops t h n d w a.0 k (omega arith)) a.1 o.1
]

poll-post_resultitem :
    (t : ResultTable) (h value : ℕ) (item : ResultItem)
    → lookup h t.results ≡ some item
    → poll (post_resultitem t h value) h ≡ some value
unfolding poll post_resultitem
poll-post_resultitem t h value item e =
    let done : ResultItem = record { value = value; ready = true } in
    let l : lookup h (assign h done t.results) ≡ some done =
      rw (lookup-assign h h done t.results, eq→== h h refl) in
    rw (e, post_resultitem, poll, l)

module _ (t : ResultTable) (h : ℕ) (ns : List ℕ) (w : IsWellFormed t) (f : IsNew t h)
    (a : AreNew (new_resultitem t h) ns) where
  registered :
      HasNewer (new_resultitem t h) h 0 × (lookup h (new_resultitem t h).results ≡ some fresh_item)
  unfolding new_resultitem
  registered = evict_first t.results h t.result_order f

  -- In a well-formed table, while fewer than 100 newer results are registered behind a new one,
  -- under handles that are new each time, the new result is found from the moment that it is
  -- posted, and not before.
  pub retained :
      (value : ℕ)
      → length ns < max_results
      → let t' = register_all (new_resultitem t h) ns in
        (poll t' h ≡ none) × (poll (post_resultitem t' h value) h ≡ some value)
  unfolding poll
  retained value b =
      let l =
        register_all_keeps (new_resultitem t h) h 0 ns (new_resultitem-IsWellFormed t h w f)
          registered.0 a (omega arith)
        ∙ registered.1 in
      (
        rw (l, poll),
        poll-post_resultitem (register_all (new_resultitem t h) ns) h value fresh_item l,
      )

  -- In a well-formed table, once 100 or more newer results are registered behind a new one, under
  -- other handles that are new each time, the result is not found any more, even where it is
  -- posted then.
  pub dropped :
      (value : ℕ)
      → All (λ n. n ≢ h) ns
      → max_results ≤ length ns
      → poll (post_resultitem (register_all (new_resultitem t h) ns) h value) h ≡ none
  unfolding poll post_resultitem
  dropped value o b =
      let (v, n) =
        register_all_drops (new_resultitem t h) h 0 ns (new_resultitem-IsWellFormed t h w f)
          registered.0 (omega arith) a o (omega arith) in
      let l =
        lookup_absent h (register_all (new_resultitem t h) ns).results
          (subst (All (λ k. k ≢ h)) (sym v.in_step) n) in
      rw (l, post_resultitem, l, poll)

-- As long as the counter stays below INT64_MAX, the handles that `getHandle` gives are new, each in
-- turn, in a table that has no handle beyond the counter.
pub take_handles-AreNew :
    (n counter : ℕ) (t : ResultTable)
    → counter + n < int64_max
    → All (λ h. h ≤ counter) t.result_order
    → AreNew t (take_handles n counter)
unfolding take_handles
take_handles-AreNew zero counter t b a = tt
take_handles-AreNew (suc n) counter t b a = rw (get_handle_next counter (omega arith)) (
  All-map _ _ (λ h l. omega arith) t.result_order a,
  take_handles-AreNew n (counter + 1) (new_resultitem t (counter + 1)) (omega arith) (
      new_resultitem-All (λ h. h ≤ counter + 1) t (counter + 1)
        (All-map _ _ (λ h l. omega arith) t.result_order a) (omega arith)),
)
