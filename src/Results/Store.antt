-- ===== src/Results/Store.antt =====
-- fjdispatchlite.h: the table of results and the queue of its handles.
use fjdispatchlite.Prelude.{
  ℕ, suc, ◌≤◌, ◌≡◌, ◌≢◌, sym, ◌∙◌, subst, inl, inr, some, List, [], ◌∷◌, ◌++◌, arith, ltb, length,
  All, length-append, Bool-cases, ltb→ge, eq→==, Option-cases,
}
use fjdispatchlite.Prelude.Assoc.{
  lookup, assign, erase, keys, IsDistinct, assign_new, keys-snoc, erase_absent, IsDistinct-snoc,
}
use fjdispatchlite.Results.{
  ResultItem, ResultTable, max_results, fresh_item, evict, new_resultitem, post_resultitem,
}

-- The queue of handles lists the entries of the table, oldest first.
pub record IsWellFormed (t : ResultTable) : Type 0 where
  pub in_step : keys t.results ≡ t.result_order
  pub distinct : IsDistinct t.result_order
  pub bounded : length t.result_order ≤ max_results

abbrev pub IsNew : ResultTable → ℕ → Type 0
IsNew t handle = All (λ h. h ≢ handle) t.result_order

module _ (j old : ℕ) (w : ResultItem) (m : List (ℕ × ResultItem)) (rest : List ℕ)
    (k : keys ((j, w) ∷ m) ≡ old ∷ rest) where
  oldest : j ≡ old
  oldest = ground arith

  others : keys m ≡ rest
  others = ground arith

  erase_oldest : IsDistinct (old ∷ rest) → erase old ((j, w) ∷ m) ≡ m
  unfolding erase
  erase_oldest d =
      rw (eq→== j old oldest) (erase_absent old m (subst (All (λ h. h ≢ old)) (sym others) d.0))

evict_at :
    (m : List (ℕ × ResultItem)) (order : List ℕ)
    → keys m ≡ order
    → IsDistinct order
    → length order ≤ suc max_results
    → IsWellFormed (evict (record { results = m; result_order = order }))
unfolding evict
evict_at m [] k d b = record { in_step = k; distinct = d; bounded = omega arith }
evict_at [] (old ∷ rest) k d b = absurd (ground arith)
evict_at ((j, w) ∷ m) (old ∷ rest) k d b =
    elim (Bool-cases (ltb max_results (length (old ∷ rest)))) [
      | inl t ↦
          rw (t, erase_oldest j old w m rest k d)
            (record { in_step = others j old w m rest k; distinct = d.1; bounded = omega arith })
      | inr f ↦ rw f (record { in_step = k; distinct = d; bounded = omega (arith, ltb→ge _ _ f) })
    ]

-- The table just after the new entry is added.
appended :
    (t : ResultTable) (handle : ℕ)
    → IsWellFormed t
    → IsNew t handle
    → (keys (assign handle fresh_item t.results) ≡ t.result_order ++ handle ∷ [])
      × IsDistinct (t.result_order ++ handle ∷ [])
      × (length (t.result_order ++ handle ∷ []) ≤ suc max_results)
appended t handle w n = (
  rw (
    assign_new handle fresh_item t.results (subst (All (λ h. h ≢ handle)) (sym w.in_step) n),
    keys-snoc t.results handle fresh_item,
    w.in_step,
  ),
  IsDistinct-snoc t.result_order handle w.distinct n,
  omega (arith, length-append t.result_order (handle ∷ []), w.bounded),
)

-- In a well-formed table a result under a new handle keeps the entries in step with the queue of
-- handles, and within 100.
pub new_resultitem-IsWellFormed :
    (t : ResultTable) (handle : ℕ)
    → IsWellFormed t
    → IsNew t handle
    → IsWellFormed (new_resultitem t handle)
unfolding new_resultitem
new_resultitem-IsWellFormed t handle w n = let a = appended t handle w n in evict_at _ _ a.0 a.1 a.2

-- An update of an entry that is there.
keys-assign_present :
    (k : ℕ) (v u : ResultItem) (m : List (ℕ × ResultItem))
    → lookup k m ≡ some u
    → keys (assign k v m) ≡ keys m
unfolding lookup assign
keys-assign_present k v u [] h = absurd (ground arith)
keys-assign_present k v u ((j, w) ∷ m) h = ground (arith, keys-assign_present k v u m)

pub post_resultitem-IsWellFormed :
    (t : ResultTable) (handle value : ℕ)
    → IsWellFormed t
    → IsWellFormed (post_resultitem t handle value)
unfolding post_resultitem
post_resultitem-IsWellFormed t handle value w = elim (Option-cases (lookup handle t.results)) [
  | inl e ↦ rw (e, post_resultitem) w
  | inr (u, e) ↦
      rw (e, post_resultitem)
        (record {
          in_step = keys-assign_present handle _ u t.results e ∙ w.in_step;
          distinct = w.distinct;
          bounded = w.bounded;
        })
]

pub result_order-post_resultitem :
    (t : ResultTable) (handle value : ℕ)
    → (post_resultitem t handle value).result_order ≡ t.result_order
unfolding post_resultitem
result_order-post_resultitem t handle value = ground arith
