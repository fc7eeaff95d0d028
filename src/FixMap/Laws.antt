-- ===== src/FixMap/Laws.antt =====
-- fjfixmap.h: the map against a finite map from keys to values.
use fjdispatchlite.Prelude.{
  ℕ, zero, suc, ◌<◌, ◌≡◌, ◌≢◌, refl, ap, sym, subst, ◌∙◌, inl, inr, Bool, true, false, Option, none,
  some, List, [], ◌∷◌, arith, ltb, ◌==◌, if◌then◌else◌, Bool-cases, Option-cases, get_elem?, set,
  All, All-map, All_get, All-set, get_elem?-of_take, get_elem?-middle, ◌⊎◌, ◌↔◌, take-set_lt,
  length-set,
}
use fjdispatchlite.FixMap.{
  Entry, FixMap, IsAscending, IsWellFormed, to_list, insert, unset, find, index_of, write_value,
  ◌>>=◌,
}
use fjdispatchlite.FixMap.Search.{find-index_of}
use fjdispatchlite.FixMap.Insert.{spec_insert, insert_absent, insert_present}
use fjdispatchlite.FixMap.Unset.{erase_key, index_of-split, unset_absent, unset_present}

module _ {V : Type 0} where
  -- What a key is mapped to.
  unfoldable pub lookup : ℕ → List (Entry V) → Option V
  lookup key [] = none
  lookup key (e ∷ es) = if e.key == key then some e.value else lookup key es

  lookup_above : (key : ℕ) (es : List (Entry V)) → All (λ e. key < e.key) es → lookup key es ≡ none
  unfolding lookup
  lookup_above key [] a = refl
  lookup_above key (e ∷ es) a = ground (arith, lookup_above key es a.1)

  pub spec_insert-cons :
      (e x : Entry V) (es : List (Entry V))
      → spec_insert e (x ∷ es) ≡ (if ltb x.key e.key then x ∷ spec_insert e es else e ∷ x ∷ es)
  unfolding spec_insert
  spec_insert-cons e x es = elim (Bool-cases (ltb x.key e.key)) [ inl t ↦ rw t | inr f ↦ rw f ]

  pub lookup-spec_insert :
      (e : Entry V) (es : List (Entry V)) (key : ℕ)
      → index_of e.key es ≡ none
      → lookup key (spec_insert e es) ≡ (if e.key == key then some e.value else lookup key es)
  unfolding lookup index_of
  lookup-spec_insert e [] key h = unfold spec_insert in refl
  lookup-spec_insert e (x ∷ es) key h =
      rw (spec_insert-cons e x es) (ground (arith, lookup-spec_insert e es key))

  pub lookup-erase_key :
      (k key : ℕ) (es : List (Entry V))
      → IsAscending es
      → lookup key (erase_key k es) ≡ (if k == key then none else lookup key es)
  unfolding lookup erase_key
  lookup-erase_key k key [] a = ground arith
  lookup-erase_key k key (x ∷ es) a =
      ground (arith, lookup-erase_key k key es a.1, lookup_above x.key es a.0)

  lookup-set :
      (j i : ℕ) (es : List (Entry V)) (e : Entry V) (v : V)
      → IsAscending es
      → get_elem? es i ≡ some e
      → lookup j (set es i (record e { value = v })) ≡ (if e.key == j then some v else lookup j es)
  unfolding lookup
  lookup-set j i [] e v a h = absurd (ground arith)
  lookup-set j zero (x ∷ es) e v a h = ground arith
  lookup-set j (suc i) (x ∷ es) e v a h =
      ground (arith, lookup-set j i es e v a.1 h, All_get (λ y. x.key < y.key) es i e a.0 h)

  IsAscending-set :
      (i : ℕ) (es : List (Entry V)) (e : Entry V) (v : V)
      → IsAscending es
      → get_elem? es i ≡ some e
      → IsAscending (set es i (record e { value = v }))
  IsAscending-set i [] e v a h = tt
  IsAscending-set zero (x ∷ es) e v a h =
      let d : e.key ≡ x.key = ground arith in (All-map _ _ (λ y l. omega arith) es a.0, a.1)
  IsAscending-set (suc i) (x ∷ es) e v a h = (
    All-set (λ y. x.key < y.key) es i (record e { value = v }) a.0
        (All_get (λ y. x.key < y.key) es i e a.0 h),
    IsAscending-set i es e v a.1 h,
  )

  -- What a pointer that `find` gives points at.
  unfoldable pub deref : FixMap V → Option ℕ → Option V
  deref m none = none
  deref m (some i) = elim (get_elem? m.entries i) [ none ↦ none | some e ↦ some e.value ]

  pub index_of-lookup :
      (key : ℕ) (es : List (Entry V))
      → lookup key es ≡ elim (index_of key es) [
        | none ↦ none
        | some i ↦ elim (get_elem? es i) [ none ↦ none | some e ↦ some e.value ]
      ]
  unfolding lookup index_of
  index_of-lookup key [] = refl
  index_of-lookup key (x ∷ es) = ground (arith, index_of-lookup key es)

  -- `insert`, and a write through the pointer that it gives.
  unfoldable pub put : FixMap V → ℕ → V → Option (FixMap V)
  put m key v = do (m', i) ← insert m key; some (write_value m' i v)

  -- The map that writing a value behind a key gives.
  pub record Maps (m m' : FixMap V) (key : ℕ) (v : Option V) : Type 0 where
    pub value : (j : ℕ) → lookup j (to_list m') ≡ (if key == j then v else lookup j (to_list m))
    pub same_capacity : m'.capacity ≡ m.capacity
    pub valid : IsWellFormed m'

  pub write_value-Maps :
      (m : FixMap V) (i : ℕ) (e : Entry V) (v : V)
      → IsWellFormed m
      → get_elem? (to_list m) i ≡ some e
      → Maps m (write_value m i v) e.key (some v)
  unfolding write_value
  write_value-Maps m i e v w h =
      let g : get_elem? m.entries i ≡ some e = get_elem?-of_take m.count i m.entries e h in
      let l = take-set_lt m.count i m.entries (record e { value = v }) in
      rw (g, write_value)
        (record {
          value = λ j. rw l (lookup-set j i (to_list m) e v w.ascending h);
          same_capacity = refl;
          valid = record {
            fits = omega (arith, w.fits, length-set m.entries i (record e { value = v }));
            bounded = w.bounded;
            small = w.small;
            ascending = rw l (IsAscending-set i (to_list m) e v w.ascending h);
          };
        })

module _ {V : Type 0} (m : FixMap V) (w : IsWellFormed m) where
  -- The entry at the index of a key.
  pub index_of-get :
      (key i : ℕ)
      → index_of key (to_list m) ≡ some i
      → (e : Entry V) × (get_elem? (to_list m) i ≡ some e) × (e.key ≡ key)
  index_of-get key i h =
      let (ps, x, ms, s, k, r, q) = index_of-split key i (to_list m) h in
      (x, subst (λ l. get_elem? l i ≡ some x) (sym s) (get_elem?-middle ps ms x i k), q)

  deref-lookup : (key : ℕ) → deref m (index_of key (to_list m)) ≡ lookup key (to_list m)
  unfolding deref
  deref-lookup key = elim (Option-cases (index_of key (to_list m))) [
    | inl e ↦ ground (arith, index_of-lookup key (to_list m), e)
    | inr (i, e) ↦
        let (x, g, q) = index_of-get key i e in
        ground
          (arith, index_of-lookup key (to_list m), e, g, get_elem?-of_take m.count i m.entries x g)
  ]

  -- On a well-formed map `find` runs without a fault, and gives a pointer to the value that the
  -- key is mapped to, nullptr where there is none.
  pub find-lookup :
      (key : ℕ) → (p : Option ℕ) × (find m key ≡ some p) × (deref m p ≡ lookup key (to_list m))
  find-lookup key = (index_of key (to_list m), find-index_of m key w, deref-lookup key)

  put_new :
      (key : ℕ) (v : V)
      → index_of key (to_list m) ≡ none
      → m.count < m.capacity
      → (m' : FixMap V) × (put m key v ≡ some m') × Maps m m' key (some v)
  unfolding put
  put_new key v h f =
      let (m', i, old, n) = insert_absent m key w h f in
      let e : Entry V = record { key = key; value = old } in
      let t = write_value-Maps m' i e v n.valid n.pointed in
      (
        write_value m' i v,
        rw n.result,
        record {
          value = λ j.
              t.value j
              ∙ ground (arith, lookup-spec_insert e (to_list m) j h, ap (lookup j) n.elements);
          same_capacity = t.same_capacity ∙ n.same_capacity;
          valid = t.valid;
        },
      )

  put_old :
      (key i : ℕ) (v : V)
      → index_of key (to_list m) ≡ some i
      → (m' : FixMap V) × (put m key v ≡ some m') × Maps m m' key (some v)
  unfolding put
  put_old key i v h =
      let (e, g, q) = index_of-get key i h in
      (
        write_value m i v,
        rw (insert_present m key w i h),
        subst (λ k. Maps m (write_value m i v) k (some v)) q (write_value-Maps m i e v w g),
      )

  -- On a well-formed map where the key is there or a slot is free, `insert` and a write through
  -- its pointer run without a fault, map the key to the value and every other key to what it was
  -- mapped to, and leave the map well formed.
  pub put-Maps :
      (key : ℕ) (v : V)
      → (index_of key (to_list m) ≢ none) ⊎ (m.count < m.capacity)
      → (m' : FixMap V) × (put m key v ≡ some m') × Maps m m' key (some v)
  put-Maps key v h = elim (Option-cases (index_of key (to_list m))) [
    | inr (i, e) ↦ put_old key i v e
    | inl e ↦ put_new key v e (elim h [ inl n ↦ absurd (n e) | inr f ↦ f ])
  ]

  -- On a well-formed map `unset` runs without a fault, says whether the key was there, takes out
  -- that key only, and leaves the map well formed.
  pub unset-Maps :
      (key : ℕ)
      → (m' : FixMap V) × (b : Bool) × (unset m key ≡ some (m', b))
        × Maps m m' key none
        × ((b ≡ true) ↔ (lookup key (to_list m) ≢ none))
  unset-Maps key = elim (Option-cases (index_of key (to_list m))) [
    | inl e ↦
        let l : lookup key (to_list m) ≡ none =
          ground (arith, index_of-lookup key (to_list m), e) in
        (
          m,
          false,
          unset_absent m key w e,
          record { value = λ j. ground (arith, l); same_capacity = refl; valid = w },
          ((λ d. cc), λ n. absurd (n l)),
        )
    | inr (i, e) ↦
        let (m', u) = unset_present m key w i e in
        let (x, g, q) = index_of-get key i e in
        (
          m',
          true,
          u.result,
          record {
            value = λ j. ap (lookup j) u.elements ∙ lookup-erase_key key j (to_list m) w.ascending;
            same_capacity = u.same_capacity;
            valid = u.valid;
          },
          ((λ d n. ground (arith, index_of-lookup key (to_list m), e, g)), λ n. refl),
        )
  ]
