-- ===== src/FixMap/Insert.antt =====
-- fjfixmap.h: `insert`, seen on the list of the entries.
use mathlib.Core.List.{append_assoc}
use fjdispatchlite.Prelude.{
  ℕ, zero, suc, ◌+◌, ◌-◌, ◌≤◌, ◌<◌, ◌≡◌, ◌≢◌, refl, ap, sym, subst, ◌∙◌, inl, inr, none, some, List,
  [], ◌∷◌, ◌++◌, arith, ltb, if◌then◌else◌, Bool-cases, ltb→lt, ltb→ge, lt→ltb, ge→ltb, length,
  get_elem?, take, drop, All, All-map, length-take, length-drop, length-append, take-append-drop,
  take-append_left, get_elem?-middle, add64,
}
use fjdispatchlite.FixMap.{
  Entry, FixMap, IsAscending, IsWellFormed, to_list, scan, shift_up, insert_new, insert, index_of,
}
use fjdispatchlite.FixMap.Shift.{first_or, store-middle, shift_up-block}
use fjdispatchlite.FixMap.Search.{find-index_of}

module _ {V : Type 0} where
  -- The entries before the place of a key, and those from it on.
  unfoldable pub before : ℕ → List (Entry V) → List (Entry V)
  before key [] = []
  before key (e ∷ es) = if ltb e.key key then e ∷ before key es else []

  unfoldable pub from : ℕ → List (Entry V) → List (Entry V)
  from key [] = []
  from key (e ∷ es) = if ltb e.key key then from key es else e ∷ es

  pub before-append-from : (key : ℕ) (es : List (Entry V)) → before key es ++ from key es ≡ es
  unfolding before from
  before-append-from key [] = refl
  before-append-from key (e ∷ es) = ground (arith, before-append-from key es)

  -- `insert_pos` counts the entries below the key.
  scan-before :
      (key n pos : ℕ) (ps es ss : List (Entry V))
      → length ps ≡ pos
      → length es ≡ n
      → scan (ps ++ (es ++ ss)) key n pos ≡ some (pos + length (before key es))
  unfolding scan before
  scan-before key zero pos ps [] ss e f = ap some (omega arith)
  scan-before key zero pos ps (x ∷ es) ss e f = absurd (omega arith)
  scan-before key (suc n) pos ps [] ss e f = absurd (omega arith)
  scan-before key (suc n) pos ps (x ∷ es) ss e f =
      rw (get_elem?-middle ps (es ++ ss) x pos e) (elim (Bool-cases (ltb x.key key)) [
        | inl t ↦ rw t (
            subst
              (λ (l : List (Entry V)).
                scan l key n (pos + 1) ≡ some (pos + 1 + length (before key es)))
              (append_assoc ps (x ∷ []) (es ++ ss))
              (scan-before key n (pos + 1) (ps ++ x ∷ []) es ss
                (omega (arith, length-append ps (x ∷ []))) (omega arith))
            ∙ ap some (omega arith))
        | inr f ↦ rw f (ap some (omega arith))
      ])

  index_of-cons :
      (key : ℕ) (x : Entry V) (es : List (Entry V))
      → index_of key (x ∷ es) ≡ none
      → (x.key ≢ key) × (index_of key es ≡ none)
  unfolding index_of
  index_of-cons key x es h = ground arith

  -- The abstract insertion of an entry.
  unfoldable pub spec_insert : Entry V → List (Entry V) → List (Entry V)
  unfolding before from
  spec_insert e es = before e.key es ++ e ∷ from e.key es

  spec_insert-All :
      (P : Entry V → Type 0) (e : Entry V) (es : List (Entry V))
      → P e
      → All P es
      → All P (spec_insert e es)
  unfolding spec_insert
  spec_insert-All P e [] p a = (p, tt)
  spec_insert-All P e (x ∷ es) p a = elim (Bool-cases (ltb x.key e.key)) [
    | inl t ↦ rw t (a.0, spec_insert-All P e es p a.1)
    | inr f ↦ rw f (p, a)
  ]

  pub spec_insert-IsAscending :
      (e : Entry V) (es : List (Entry V))
      → IsAscending es
      → index_of e.key es ≡ none
      → IsAscending (spec_insert e es)
  unfolding spec_insert
  spec_insert-IsAscending e [] a h = (tt, tt)
  spec_insert-IsAscending e (x ∷ es) a h =
      let c = index_of-cons e.key x es h in
      elim (Bool-cases (ltb x.key e.key)) [
        | inl t ↦ rw t (
          spec_insert-All (λ y. x.key < y.key) e es (ltb→lt _ _ t) a.0,
          spec_insert-IsAscending e es a.1 c.1,
        )
        | inr f ↦
            let lt : e.key < x.key = omega (arith, ltb→ge _ _ f, c.0) in
            rw f ((lt, All-map _ _ (λ y l. omega arith) es a.0), a)
      ]

  length-spec_insert :
      (e : Entry V) (es : List (Entry V)) → length (spec_insert e es) ≡ suc (length es)
  unfolding spec_insert
  length-spec_insert e es = omega (
    arith,
    length-append (before e.key es) (e ∷ from e.key es),
    length-append (before e.key es) (from e.key es),
    ap length (before-append-from e.key es),
  )

  nonempty :
      (xs : List (Entry V)) → 0 < length xs → (x : Entry V) × (ys : List (Entry V)) × (xs ≡ x ∷ ys)
  nonempty [] h = elim h [ ]
  nonempty (x ∷ xs) h = (x, xs, refl)

  -- A buffer with room behind its elements.
  room :
      (m : FixMap V)
      → IsWellFormed m
      → m.count < m.capacity
      → (x : Entry V) × (ss : List (Entry V)) × (m.entries ≡ to_list m ++ x ∷ ss)
  room m w h =
      let n = nonempty (drop m.count m.entries) (omega (arith, length-drop m.count m.entries)) in
      (n.0, n.1, sym (take-append-drop m.count m.entries) ∙ ap (λ l. to_list m ++ l) n.2)

module _ {V : Type 0} (m : FixMap V) (key : ℕ) (x : Entry V) (ss : List (Entry V))
    (w : IsWellFormed m) (h : m.count < m.capacity) (e : m.entries ≡ to_list m ++ x ∷ ss) where
  abbrev place : ℕ
  place = length (before key (to_list m))

  abbrev new_entry : Entry V
  new_entry = record { key = key; value = (first_or (from key (to_list m)) x).value }

  length-elements : length (to_list m) ≡ m.count
  length-elements = omega (arith, length-take m.count m.entries, w.fits, w.bounded)

  scan-place : scan m.entries key m.count 0 ≡ some place
  scan-place =
      subst (λ l. scan l key m.count 0 ≡ some place) (sym e)
        (scan-before key m.count 0 [] (to_list m) (x ∷ ss) refl length-elements
          ∙ ap some (omega arith))

  parts : place + length (from key (to_list m)) ≡ m.count
  parts = omega (
    arith,
    length-append (before key (to_list m)) (from key (to_list m)),
    ap length (before-append-from key (to_list m)),
    length-elements,
  )

  shifted_place :
      shift_up (m.count - place) m.count m.entries
      ≡ some (
          before key (to_list m)
          ++ first_or (from key (to_list m)) x ∷ (from key (to_list m) ++ ss))
  shifted_place =
      subst
        (λ l.
          shift_up (m.count - place) m.count l
          ≡ some (
              before key (to_list m)
              ++ first_or (from key (to_list m)) x ∷ (from key (to_list m) ++ ss)))
        (sym (append_assoc (before key (to_list m)) (from key (to_list m)) (x ∷ ss))
          ∙ ap (λ l. l ++ x ∷ ss) (before-append-from key (to_list m))
          ∙ sym e)
        (shift_up-block (m.count - place) m.count (before key (to_list m)) (from key (to_list m)) ss
          x (omega (arith, parts)) (omega (arith, parts)))

  insert_new-block :
      insert_new m key
      ≡ some (
        record m { entries = spec_insert new_entry (to_list m) ++ ss; count = add64 m.count 1 },
        place,
      )
  unfolding insert_new spec_insert
  insert_new-block =
      rw
        (
          lt→ltb _ _ h,
          scan-place,
          shifted_place,
          get_elem?-middle (before key (to_list m)) (from key (to_list m) ++ ss)
              (first_or (from key (to_list m)) x) place refl,
          store-middle (before key (to_list m)) (from key (to_list m) ++ ss)
              (first_or (from key (to_list m)) x) new_entry place refl,
        )
        (simp append_assoc)

-- What `insert` does, by whether the key is there and whether there is room.
module _ {V : Type 0} (m : FixMap V) (key : ℕ) (w : IsWellFormed m) where
  pub insert_present : (i : ℕ) → index_of key (to_list m) ≡ some i → insert m key ≡ some (m, i)
  unfolding insert
  insert_present i h = rw (find-index_of m key w, h)

  -- A full map without the key fails the assertion.
  pub insert_full : index_of key (to_list m) ≡ none → m.capacity ≤ m.count → insert m key ≡ none
  unfolding insert insert_new
  insert_full h f = rw (find-index_of m key w, h, ge→ltb _ _ f)

  -- The map, the index and the left-over value that `insert` gives for a new key.
  pub record Inserts (m' : FixMap V) (i : ℕ) (v : V) : Type 0 where
    pub result : insert m key ≡ some (m', i)
    pub elements : to_list m' ≡ spec_insert (record { key = key; value = v }) (to_list m)
    pub pointed : get_elem? (to_list m') i ≡ some (record { key = key; value = v })
    pub same_capacity : m'.capacity ≡ m.capacity
    pub same_size : length m'.entries ≡ length m.entries
    pub valid : IsWellFormed m'

  -- On a well-formed map with a free slot, `insert` of a key that is not there runs without a
  -- fault, puts the key before the first greater one, gives a pointer to its entry, and leaves
  -- the map well formed.
  pub insert_absent :
      index_of key (to_list m) ≡ none
      → m.count < m.capacity
      → (m' : FixMap V) × (i : ℕ) × (v : V) × Inserts m' i v
  unfolding insert spec_insert
  insert_absent h f =
      let r = room m w f in
      let n = new_entry m key r.0 r.1 w f r.2 in
      let es = spec_insert n (to_list m) in
      let total : length es ≡ suc m.count =
        omega (arith, length-spec_insert n (to_list m), length-elements m key r.0 r.1 w f r.2) in
      let c : add64 m.count 1 ≡ suc m.count = omega arith in
      let l : take (add64 m.count 1) (es ++ r.1) ≡ es =
        rw c (take-append_left (suc m.count) es r.1 total) in
      let size : length (es ++ r.1) ≡ length m.entries = omega (
        arith,
        ap length r.2,
        length-append es r.1,
        length-append (to_list m) (r.0 ∷ r.1),
        total,
        length-elements m key r.0 r.1 w f r.2,
      ) in
      (
        record m { entries = es ++ r.1; count = add64 m.count 1 },
        place m key r.0 r.1 w f r.2,
        n.value,
        record {
          result = rw (find-index_of m key w, h) (insert_new-block m key r.0 r.1 w f r.2);
          elements = l;
          pointed = rw l (
              get_elem?-middle (before key (to_list m)) (from key (to_list m)) n
                (place m key r.0 r.1 w f r.2) refl);
          same_capacity = refl;
          same_size = size;
          valid = record {
            fits = omega (arith, size, w.fits);
            bounded = omega arith;
            small = w.small;
            ascending = rw l (spec_insert-IsAscending n (to_list m) w.ascending h);
          };
        },
      )
