-- ===== src/Results/Evicting.antt =====
-- fjdispatchlite.h: what one new result leaves of the table.
use mathlib.Core.List.{append_assoc}
use fjdispatchlite.Prelude.{
  ℕ, suc, ◌≤◌, ◌<◌, ◌≡◌, ◌≢◌, refl, ap, sym, subst, inl, inr, true, false, some, List, [], ◌∷◌,
  ◌++◌, arith, ltb, length, All, length-append, Bool-cases, ge→ltb, lt→ltb, All-append, eq→==,
  ne→==, All_get, get_elem?-middle,
}
use fjdispatchlite.Prelude.Assoc.{lookup, assign, erase, IsDistinct, lookup-assign, lookup-erase}
use fjdispatchlite.Results.{ResultItem, ResultTable, max_results, fresh_item, evict, new_resultitem}
use fjdispatchlite.Results.Store.{IsWellFormed, IsNew}

-- `newer` handles stand behind this one in the queue.
abbrev pub HasNewer : ResultTable → ℕ → ℕ → Type 0
HasNewer t handle newer =
    (xs : List ℕ) × (ys : List ℕ) × (t.result_order ≡ xs ++ handle ∷ ys) × (length ys ≡ newer)

new-ne : (t : ResultTable) (h n d : ℕ) → HasNewer t h d → IsNew t n → h ≢ n
new-ne t h n d (xs, ys, e, l) fresh =
    All_get (λ k. k ≢ n) (xs ++ h ∷ ys) (length xs) h (subst (All (λ k. k ≢ n)) e fresh)
      (get_elem?-middle xs ys h (length xs) refl)

-- The table that `evict` sees, and the handles in it.
module _ (m : List (ℕ × ResultItem)) (h n d : ℕ) where
  abbrev seen : List ℕ → ResultTable
  seen order = record { results = assign n fresh_item m; result_order = order ++ n ∷ [] }

  lookup_kept : h ≢ n → lookup h (assign n fresh_item m) ≡ lookup h m
  lookup_kept ne = rw (lookup-assign n h fresh_item m, ne→== n h (λ e. ne (sym e)))

  lookup_kept_evicted :
      (old : ℕ) → h ≢ n → h ≢ old → lookup h (erase old (assign n fresh_item m)) ≡ lookup h m
  lookup_kept_evicted old ne other =
      rw (lookup-erase old h (assign n fresh_item m), ne→== old h (λ e. other (sym e)))
        (lookup_kept ne)

  newer_by_one :
      (xs ys : List ℕ)
      → length ys ≡ d
      → ((xs ++ h ∷ ys) ++ n ∷ [] ≡ xs ++ h ∷ (ys ++ n ∷ [])) × (length (ys ++ n ∷ []) ≡ suc d)
  newer_by_one xs ys l =
      (append_assoc xs (h ∷ ys) (n ∷ []), omega (arith, length-append ys (n ∷ [])))

  evict_keeps :
      (xs ys : List ℕ)
      → length ys ≡ d
      → suc d < max_results
      → IsDistinct (xs ++ h ∷ ys)
      → h ≢ n
      → HasNewer (evict (seen (xs ++ h ∷ ys))) h (suc d)
        × (lookup h (evict (seen (xs ++ h ∷ ys))).results ≡ lookup h m)
  unfolding evict
  evict_keeps [] ys l b dis ne =
      let q = newer_by_one [] ys l in
      let f : ltb max_results (suc (length (ys ++ n ∷ []))) ≡ false =
        ge→ltb _ _ (omega (arith, q.1)) in
      rw (f, evict) (([], ys ++ n ∷ [], q.0, q.1), lookup_kept ne)
  evict_keeps (old ∷ xs) ys l b dis ne =
      let q = newer_by_one xs ys l in
      let other : h ≢ old =
        All_get (λ k. k ≢ old) (xs ++ h ∷ ys) (length xs) h dis.0
          (get_elem?-middle xs ys h (length xs) refl) in
      elim (Bool-cases (ltb max_results (suc (length ((xs ++ h ∷ ys) ++ n ∷ []))))) [
        | inl t ↦ rw (t, evict) ((xs, ys ++ n ∷ [], q.0, q.1), lookup_kept_evicted old ne other)
        | inr f ↦
            rw (f, evict) ((old ∷ xs, ys ++ n ∷ [], ap (λ l. old ∷ l) q.0, q.1), lookup_kept ne)
      ]

  -- A hundredth newer handle pushes this one out.
  evict_drops :
      (xs ys : List ℕ)
      → length ys ≡ d
      → suc d ≡ max_results
      → length (xs ++ h ∷ ys) ≤ max_results
      → IsDistinct (xs ++ h ∷ ys)
      → h ≢ n
      → IsNew (evict (seen (xs ++ h ∷ ys))) h
  unfolding evict
  evict_drops (old ∷ xs) ys l b f dis ne = absurd (omega (arith, length-append xs (h ∷ ys)))
  evict_drops [] ys l b f dis ne =
      let t : ltb max_results (suc (length (ys ++ n ∷ []))) ≡ true =
        lt→ltb _ _ (omega (arith, length-append ys (n ∷ []))) in
      rw (t, evict) (All-append (λ k. k ≢ h) ys (n ∷ []) dis.0 ((λ e. ne (sym e)), tt))

module _ (t : ResultTable) (h n d : ℕ) (w : IsWellFormed t) (fresh : IsNew t n)
    (newer : HasNewer t h d) where
  pub new_resultitem_keeps :
      suc d < max_results
      → HasNewer (new_resultitem t n) h (suc d)
        × (lookup h (new_resultitem t n).results ≡ lookup h t.results)
  unfolding new_resultitem
  new_resultitem_keeps b =
      let (xs, ys, e, l) = newer in
      let k =
        evict_keeps t.results h n d xs ys l b (subst IsDistinct e w.distinct)
          (new-ne t h n d newer fresh) in
      subst
        (λ order.
          HasNewer (evict (seen t.results h n d order)) h (suc d)
          × (lookup h (evict (seen t.results h n d order)).results ≡ lookup h t.results))
        (sym e) k

  pub new_resultitem_drops : suc d ≡ max_results → IsNew (new_resultitem t n) h
  unfolding new_resultitem
  new_resultitem_drops b =
      let (xs, ys, e, l) = newer in
      let k =
        evict_drops t.results h n d xs ys l b (omega (arith, ap length e, w.bounded))
          (subst IsDistinct e w.distinct) (new-ne t h n d newer fresh) in
      subst (λ order. IsNew (evict (seen t.results h n d order)) h) (sym e) k

pub evict_first :
    (m : List (ℕ × ResultItem)) (h : ℕ) (order : List ℕ)
    → All (λ k. k ≢ h) order
    → HasNewer
        (evict (record { results = assign h fresh_item m; result_order = order ++ h ∷ [] }))
        h
        0
      × (lookup h
            (evict
              (record { results = assign h fresh_item m; result_order = order ++ h ∷ [] })).results
          ≡ some fresh_item)
unfolding evict
evict_first m h [] n = (([], [], refl, refl), rw (lookup-assign h h fresh_item m, eq→== h h refl))
evict_first m h (old ∷ order) n =
    let there : lookup h (assign h fresh_item m) ≡ some fresh_item =
      rw (lookup-assign h h fresh_item m, eq→== h h refl) in
    elim (Bool-cases (ltb max_results (suc (length (order ++ h ∷ []))))) [
      | inl t ↦
          rw (t, evict)
            (
              (order, [], refl, refl),
              rw (lookup-erase old h (assign h fresh_item m), ne→== old h n.0) there,
            )
      | inr f ↦ rw (f, evict) ((old ∷ order, [], refl, refl), there)
    ]
