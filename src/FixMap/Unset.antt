-- ===== src/FixMap/Unset.antt =====
-- fjfixmap.h: `unset`, seen on the list of the entries.
use mathlib.Core.List.{append_assoc}
use fjdispatchlite.Prelude.{
  ℕ, suc, ◌+◌, ◌-◌, ◌<◌, ◌≡◌, refl, ap, sym, subst, ◌∙◌, inl, inr, true, false, none, some, List,
  [], ◌∷◌, ◌++◌, arith, ◌==◌, if◌then◌else◌, Bool-cases, Option-cases, ==→eq, length, take, drop,
  All, length-take, length-append, take-append-drop, take-append_left, sub64,
}
use fjdispatchlite.FixMap.{
  Entry, FixMap, IsAscending, IsWellFormed, to_list, shift_down, remove_at, unset, find, index_of,
}
use fjdispatchlite.FixMap.Shift.{last_or, shift_down-block}
use fjdispatchlite.FixMap.Search.{find-index_of}

module _ {V : Type 0} where
  -- The abstract removal of a key.
  unfoldable pub erase_key : ℕ → List (Entry V) → List (Entry V)
  erase_key key [] = []
  erase_key key (e ∷ es) = if e.key == key then es else e ∷ erase_key key es

  erase_key-All :
      (P : Entry V → Type 0) (key : ℕ) (es : List (Entry V)) → All P es → All P (erase_key key es)
  unfolding erase_key
  erase_key-All P key [] a = tt
  erase_key-All P key (x ∷ es) a = elim (Bool-cases (x.key == key)) [
    | inl t ↦ rw t a.1
    | inr f ↦ rw f (a.0, erase_key-All P key es a.1)
  ]

  pub erase_key-IsAscending :
      (key : ℕ) (es : List (Entry V)) → IsAscending es → IsAscending (erase_key key es)
  unfolding erase_key
  erase_key-IsAscending key [] a = tt
  erase_key-IsAscending key (x ∷ es) a = elim (Bool-cases (x.key == key)) [
    | inl t ↦ rw t a.1
    | inr f ↦ rw f (erase_key-All (λ y. x.key < y.key) key es a.0, erase_key-IsAscending key es a.1)
  ]

  -- The list around the index of a key.
  pub index_of-split :
      (key i : ℕ) (es : List (Entry V))
      → index_of key es ≡ some i
      → (ps : List (Entry V)) × (x : Entry V) × (ms : List (Entry V)) × (es ≡ ps ++ x ∷ ms)
        × (length ps ≡ i)
        × (erase_key key es ≡ ps ++ ms)
        × (x.key ≡ key)
  unfolding index_of erase_key
  index_of-split key i [] h = cc
  index_of-split key i (x ∷ es) h = elim (Bool-cases (x.key == key)) [
    | inl t ↦ ([], x, es, refl, ground arith, rw t, ==→eq _ _ t)
    | inr f ↦ elim (Option-cases (index_of key es)) [
      | inl e ↦ absurd (ground arith)
      | inr (j, e) ↦
          let v = index_of-split key j es e in
          let d : i ≡ suc j = ground arith in
          (
            x ∷ v.0,
            v.1,
            v.2,
            ap (λ l. x ∷ l) v.3,
            omega (arith, v.4),
            rw f (ap (λ l. x ∷ l) v.5),
            v.6,
          )
    ]
  ]

-- The buffer around the entry that goes.
module _ {V : Type 0} (m : FixMap V) (ps : List (Entry V)) (x : Entry V) (ms : List (Entry V))
    (i : ℕ) (w : IsWellFormed m) (s : to_list m ≡ ps ++ x ∷ ms) (k : length ps ≡ i) where
  abbrev closed : List (Entry V)
  closed = ps ++ (ms ++ last_or x ms ∷ drop m.count m.entries)

  length-parts : i + length ms + 1 ≡ m.count
  length-parts = omega (
    arith,
    ap length s,
    length-append ps (x ∷ ms),
    length-take m.count m.entries,
    w.fits,
    w.bounded,
  )

  shape : m.entries ≡ ps ++ x ∷ (ms ++ drop m.count m.entries)
  shape =
      sym (take-append-drop m.count m.entries)
      ∙ ap (λ l. l ++ drop m.count m.entries) s
      ∙ append_assoc ps (x ∷ ms) (drop m.count m.entries)

  shift_down-closed : shift_down (m.count - 1 - i) i m.entries ≡ some closed
  shift_down-closed =
      subst (λ (l : List (Entry V)). shift_down (m.count - 1 - i) i l ≡ some closed) (sym shape)
        (shift_down-block (m.count - 1 - i) i ps ms (drop m.count m.entries) x
          (omega (arith, length-parts)) k)

  take-closed : take (sub64 m.count 1) closed ≡ ps ++ ms
  take-closed =
      let c : sub64 m.count 1 ≡ m.count - 1 = omega (arith, length-parts, w.bounded, w.small) in
      rw (c, sym (append_assoc ps ms (last_or x ms ∷ drop m.count m.entries)))
        (take-append_left (m.count - 1) (ps ++ ms) (last_or x ms ∷ drop m.count m.entries)
          (omega (arith, length-parts, length-append ps ms)))

  length-closed : length closed ≡ length m.entries
  length-closed = omega (
    arith,
    ap length shape,
    length-append ps (ms ++ last_or x ms ∷ drop m.count m.entries),
    length-append ms (last_or x ms ∷ drop m.count m.entries),
    length-append ps (x ∷ (ms ++ drop m.count m.entries)),
    length-append ms (drop m.count m.entries),
  )

-- What `unset` does, by whether the key is there.
module _ {V : Type 0} (m : FixMap V) (key : ℕ) (w : IsWellFormed m) where
  pub unset_absent : index_of key (to_list m) ≡ none → unset m key ≡ some (m, false)
  unfolding unset find
  unset_absent h = rw (find-index_of m key w, h)

  pub record Unsets (m' : FixMap V) : Type 0 where
    pub result : unset m key ≡ some (m', true)
    pub elements : to_list m' ≡ erase_key key (to_list m)
    pub same_capacity : m'.capacity ≡ m.capacity
    pub same_size : length m'.entries ≡ length m.entries
    pub valid : IsWellFormed m'

  pub unset_present : (i : ℕ) → index_of key (to_list m) ≡ some i → (m' : FixMap V) × Unsets m'
  unfolding unset find remove_at
  unset_present i h =
      let (ps, x, ms, s, k, r, _) = index_of-split key i (to_list m) h in
      let l : take (sub64 m.count 1) (closed m ps x ms i w s k) ≡ erase_key key (to_list m) =
        take-closed m ps x ms i w s k ∙ sym r in
      (
        record m { entries = closed m ps x ms i w s k; count = sub64 m.count 1 },
        record {
          result = rw (find-index_of m key w, h, shift_down-closed m ps x ms i w s k) refl;
          elements = l;
          same_capacity = refl;
          same_size = length-closed m ps x ms i w s k;
          valid = record {
            fits = omega (arith, length-closed m ps x ms i w s k, w.fits);
            bounded = omega (arith, w.bounded, w.small, length-parts m ps x ms i w s k);
            small = w.small;
            ascending = rw l (erase_key-IsAscending key (to_list m) w.ascending);
          };
        },
      )
