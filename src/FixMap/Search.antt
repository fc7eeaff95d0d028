-- ===== src/FixMap/Search.antt =====
-- fjfixmap.h: the binary search `_find_index`, and a search from the front as its reference.
use fjdispatchlite.Prelude.{
  ℕ, zero, suc, ◌+◌, ◌/◌, ◌^◌, ◌≤◌, ◌<◌, ◌≡◌, ◌≢◌, refl, ap, sym, ◌∙◌, inl, inr, Option, none, some,
  List, [], ◌∷◌, arith, ltb, ◌==◌, Bool-cases, ltb→lt, ltb→ge, ==→eq, ==→ne, eq→==, ne→==, length,
  get_elem?, All, length-take, get_elem?-take, add64, dec_lt,
}
use fjdispatchlite.FixMap.{
  Entry, FixMap, IsAscending, IsWellFormed, to_list, load, as_int, find_loop, find_index, find,
  index_of,
}

as_int_lem : (n : ℕ) → n < 2 ^ 31 → as_int n ≡ some n
unfolding as_int
as_int_lem n h = ground arith

mid_lem :
    (left right : ℕ) → left < right → right < 2 ^ 31 → add64 left right / 2 ≡ (left + right) / 2
mid_lem left right h k = omega arith

module _ {V : Type 0} where
  -- The key at an index, for statements; every use stands under a bound on the index.
  abbrev pub key_at : List (Entry V) → ℕ → ℕ
  key_at [] i = 0
  key_at (e ∷ es) zero = e.key
  key_at (e ∷ es) (suc i) = key_at es i

  key_at_All :
      (P : ℕ → Type 0) (es : List (Entry V)) (i : ℕ)
      → All (λ e. P e.key) es
      → i < length es
      → P (key_at es i)
  key_at_All P [] i a h = elim h [ ]
  key_at_All P (e ∷ es) zero a h = a.0
  key_at_All P (e ∷ es) (suc i) a h = key_at_All P es i a.1 (omega arith)

  key_at-lt :
      (es : List (Entry V)) (i j : ℕ)
      → IsAscending es
      → i < j
      → j < length es
      → key_at es i < key_at es j
  key_at-lt [] i j a h k = absurd (omega arith)
  key_at-lt (e ∷ es) zero zero a h k = absurd (omega arith)
  key_at-lt (e ∷ es) zero (suc j) a h k = key_at_All (λ n. e.key < n) es j a.0 (omega arith)
  key_at-lt (e ∷ es) (suc i) zero a h k = absurd (omega arith)
  key_at-lt (e ∷ es) (suc i) (suc j) a h k = key_at-lt es i j a.1 (omega arith) (omega arith)

  get_elem?-key_at :
      (es : List (Entry V)) (i : ℕ)
      → i < length es
      → (e : Entry V) × (get_elem? es i ≡ some e) × (e.key ≡ key_at es i)
  get_elem?-key_at [] i h = elim h [ ]
  get_elem?-key_at (e ∷ es) zero h = (e, refl, refl)
  get_elem?-key_at (e ∷ es) (suc i) h = get_elem?-key_at es i (omega arith)

  -- What a search of the range answers.
  abbrev Answers : List (Entry V) → ℕ → ℕ → ℕ → Option ℕ → Type 0
  Answers es key left right (some p) = (left ≤ p) × (p < right) × (key_at es p ≡ key)
  Answers es key left right none = (i : ℕ) → left ≤ i → i < right → key_at es i ≢ key

  -- The middle entry is below the key: the answer for the upper part is one for the range.
  upper-Answers :
      (es : List (Entry V)) (key left mid right : ℕ) (r : Option ℕ)
      → IsAscending es
      → right ≤ length es
      → left ≤ mid
      → mid < right
      → key_at es mid < key
      → Answers es key (mid + 1) right r
      → Answers es key left right r
  upper-Answers es key left mid right (some p) a h l q c v = (omega arith, v.1, v.2)
  upper-Answers es key left mid right none a h l q c v = λ i il ir e. elim (dec_lt mid i) [
    | yes t ↦ v i (omega arith) ir e
    | no t ↦ elim (dec_lt i mid) [
      | yes s ↦ absurd (omega (arith, key_at-lt es i mid a s (omega arith)))
      | no s ↦ let z : i ≡ mid = omega arith in absurd (omega (arith, ap (key_at es) z))
    ]
  ]

  lower-Answers :
      (es : List (Entry V)) (key left mid right : ℕ) (r : Option ℕ)
      → IsAscending es
      → right ≤ length es
      → left ≤ mid
      → mid < right
      → key < key_at es mid
      → Answers es key left mid r
      → Answers es key left right r
  lower-Answers es key left mid right (some p) a h l q c v = (v.0, omega arith, v.2)
  lower-Answers es key left mid right none a h l q c v = λ i il ir e. elim (dec_lt i mid) [
    | yes t ↦ v i il t e
    | no t ↦ elim (dec_lt mid i) [
      | yes s ↦ absurd (omega (arith, key_at-lt es mid i a s (omega arith)))
      | no s ↦ let z : i ≡ mid = omega arith in absurd (omega (arith, ap (key_at es) z))
    ]
  ]

module _ {V : Type 0} where
  index_of_found :
      (key : ℕ) (es : List (Entry V)) (i : ℕ)
      → IsAscending es
      → i < length es
      → key_at es i ≡ key
      → index_of key es ≡ some i
  unfolding index_of
  index_of_found key [] i a h e = elim h [ ]
  index_of_found key (x ∷ es) zero a h e = rw (eq→== _ _ e)
  index_of_found key (x ∷ es) (suc i) a h e = rw (
    ne→== x.key key (omega (arith, key_at_All (λ n. x.key < n) es i a.0 (omega arith))),
    index_of_found key es i a.1 (omega arith) e,
  )

  index_of_missing :
      (key : ℕ) (es : List (Entry V))
      → ((i : ℕ) → i < length es → key_at es i ≢ key)
      → index_of key es ≡ none
  unfolding index_of
  index_of_missing key [] h = refl
  index_of_missing key (x ∷ es) h = rw (
    ne→== x.key key (h 0 (omega arith)),
    index_of_missing key es (λ i l. h (suc i) (omega arith)),
  )

module _ {V : Type 0} (m : FixMap V) (key : ℕ) (w : IsWellFormed m) where
  abbrev Found : ℕ → ℕ → Option (Option ℕ) → Type 0
  Found left right run = (r : Option ℕ) × (run ≡ some r) × Answers (to_list m) key left right r

  length-elements : length (to_list m) ≡ m.count
  length-elements = omega (arith, length-take m.count m.entries, w.fits, w.bounded)

  load_lem :
      (i : ℕ)
      → i < m.count
      → (e : Entry V) × (load m.entries i ≡ some e) × (e.key ≡ key_at (to_list m) i)
  load_lem i h =
      let f = get_elem?-key_at (to_list m) i (omega (arith, length-elements)) in
      (f.0, sym (get_elem?-take m.count i m.entries h) ∙ f.1, f.2)

  find_loop-Found :
      (fuel left right : ℕ)
      → right ≤ m.count
      → right ≤ left + fuel
      → Found left right (find_loop m.entries key fuel left right)
  unfolding find_loop
  find_loop-Found zero left right h k = (none, refl, λ i p q e. omega arith)
  find_loop-Found (suc fuel) left right h k = elim (Bool-cases (ltb left right)) [
    | inr e ↦ rw e (none, refl, λ i p q d. omega (arith, ltb→ge _ _ e))
    | inl e ↦
        let lt = ltb→lt left right e in
        let small : right < 2 ^ 31 = omega (arith, w.bounded, w.small) in
        let c = mid_lem left right lt small in
        let next : add64 ((left + right) / 2) 1 ≡ (left + right) / 2 + 1 = omega arith in
        let got = load_lem ((left + right) / 2) (omega arith) in
        let upper = find_loop-Found fuel ((left + right) / 2 + 1) right h (omega arith) in
        let lower = find_loop-Found fuel left ((left + right) / 2) (omega arith) (omega arith) in
        rw (e, c, next, got.1)
          (elim (Bool-cases (got.0.key == key)) [
            | inl hit ↦
                rw (hit, as_int_lem ((left + right) / 2) (omega arith))
                  (
                    some ((left + right) / 2),
                    refl,
                    (omega arith, omega arith, sym got.2 ∙ ==→eq _ _ hit),
                  )
            | inr miss ↦ rw miss (elim (Bool-cases (ltb got.0.key key)) [
              | inl below ↦ rw below (
                upper.0,
                upper.1,
                upper-Answers (to_list m) key left ((left + right) / 2) right upper.0 w.ascending
                    (omega (arith, length-elements)) (omega arith) (omega arith)
                    (omega (arith, got.2, ltb→lt _ _ below)) upper.2,
              )
              | inr above ↦ rw above (
                lower.0,
                lower.1,
                lower-Answers (to_list m) key left ((left + right) / 2) right lower.0 w.ascending
                    (omega (arith, length-elements)) (omega arith) (omega arith)
                    (omega (arith, got.2, ltb→ge _ _ above, ==→ne _ _ miss)) lower.2,
              )
            ])
          ])
  ]

  find_index-Found : Found 0 m.count (find_index m key)
  unfolding find_index
  find_index-Found = find_loop-Found m.count 0 m.count (omega arith) (omega arith)

  -- On a well-formed map the binary search runs without a fault, and finds what a search from the
  -- front finds: the entry of the key, or nullptr where there is none.
  pub find-index_of : find m key ≡ some (index_of key (to_list m))
  unfolding find
  find-index_of = let f = find_index-Found in f.1 ∙ ap some (answer f.0 f.2)
    where
      answer : (r : Option ℕ) → Answers (to_list m) key 0 m.count r → r ≡ index_of key (to_list m)
      answer (some p) v =
          sym (index_of_found key (to_list m) p w.ascending (omega (arith, length-elements)) v.2)
      answer none v = sym (
          index_of_missing key (to_list m)
            (λ i h. v i (omega arith) (omega (arith, length-elements))))
