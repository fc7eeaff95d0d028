-- ===== src/FixMap.antt =====
-- fjdispatchlite/fjfixmap.h: `FJFixMap<T>`, a map with 32-bit keys inside a preallocated buffer, its
-- entries in ascending order of their keys. The outer `none` of a result is a run that does not go
-- on: a failed `assert`, or an access outside the buffer. A pointer to a value is the index of its
-- entry.
pub mod Search
pub mod Shift
pub mod Insert
pub mod Unset
pub mod Laws
mod Tests
use fjdispatchlite.Prelude.{
  ℕ, zero, suc, ◌+◌, ◌-◌, ◌*◌, ◌/◌, ◌%◌, ◌^◌, ◌≤◌, ◌<◌, Bool, true, false, Option, none, some, List,
  [], ◌∷◌, ltb, leb, ◌==◌, if◌then◌else◌, length, get_elem?, set, take, All, add64, sub64, u32_mod,
}

pub record Entry (V : Type 0) : Type 0 where
  pub key : ℕ
  pub value : V

pub record FixMap (V : Type 0) : Type 0 where
  pub entries : List (Entry V)
  pub capacity : ℕ
  pub count : ℕ

infixl 5 ◌>>=◌
abbrev pub ◌>>=◌ : {A B : Type 0} → Option A → (A → Option B) → Option B
none >>= f = none
some a >>= f = f a

infixl 5 ◌>>◌
abbrev pub ◌>>◌ : {B : Type 0} → Option (Unit {0}) → Option B → Option B
m >> k = m >>= λ _. k

abbrev pub assert : Bool → Option (Unit {0})
assert true = some tt
assert false = none

module _ {A : Type 0} where
  -- `entries_[i]` as a value and as a place.
  abbrev pub load : List A → ℕ → Option A
  load entries i = get_elem? entries i

  abbrev pub store : List A → ℕ → A → Option (List A)
  store entries i e = if ltb i (length entries) then some (set entries i e) else none

  -- `for (i = ...; i > insert_pos; --i) entries_[i] = entries_[i - 1]`, with `n` rounds left.
  unfoldable pub shift_up : ℕ → ℕ → List A → Option (List A)
  shift_up zero i entries = some entries
  shift_up (suc n) i entries = do
    e ← load entries (i - 1)
    entries' ← store entries i e
    shift_up n (i - 1) entries'

  -- `for (i = idx; i + 1 < count; ++i) entries_[i] = entries_[i + 1]`, with `n` rounds left.
  unfoldable pub shift_down : ℕ → ℕ → List A → Option (List A)
  shift_down zero i entries = some entries
  shift_down (suc n) i entries = do
    e ← load entries (i + 1)
    entries' ← store entries i e
    shift_down n (i + 1) entries'

-- `static_cast<int>(mid)`; `none` stands for every negative int, whose sign is all that is read.
unfoldable pub as_int : ℕ → Option ℕ
as_int n = let low = n % u32_mod in if ltb low (2 ^ 31) then some low else none

module _ {V : Type 0} where
  -- The constructor, on `maxbufsize` bytes of entries of `entry_size` bytes.
  unfoldable pub create : List (Entry V) → ℕ → ℕ → ℕ → Option (FixMap V)
  create entries maxbufsize entry_size count = do
    let capacity = maxbufsize / entry_size
    assert (leb count capacity)
    some (record { entries = entries; capacity = capacity; count = count })

  unfoldable pub size : FixMap V → ℕ
  size m = m.count

  unfoldable pub clear : FixMap V → FixMap V
  clear m = record m { count = 0 }

  -- The loop of `_find_index`, with fuel; -1 is the inner `none`.
  unfoldable pub find_loop : List (Entry V) → ℕ → ℕ → ℕ → ℕ → Option (Option ℕ)
  find_loop entries key zero left right = some none
  find_loop entries key (suc fuel) left right =
      let mid = add64 left right / 2 in
      let upper = find_loop entries key fuel (add64 mid 1) right in
      let lower = find_loop entries key fuel left mid in
      if ltb left right
      then (load entries mid >>= λ e.
          if e.key == key then some (as_int mid) else if ltb e.key key then upper else lower)
      else some none

  -- Each round makes the range smaller, so `count` rounds are enough.
  unfoldable pub find_index : FixMap V → ℕ → Option (Option ℕ)
  unfolding find_loop as_int
  find_index m key = find_loop m.entries key m.count 0 m.count

  unfoldable pub find : FixMap V → ℕ → Option (Option ℕ)
  unfolding find_index
  find m key = find_index m key

  -- `while (insert_pos < count && entries_[insert_pos].key < key) ++insert_pos`, with `n` rounds left.
  unfoldable pub scan : List (Entry V) → ℕ → ℕ → ℕ → Option ℕ
  scan entries key zero pos = some pos
  scan entries key (suc n) pos =
      let next = scan entries key n (pos + 1) in
      load entries pos >>= λ e. if ltb e.key key then next else some pos

  -- `insert` of a key that is not there: the value of the new entry is what its slot held.
  unfoldable pub insert_new : FixMap V → ℕ → Option (FixMap V × ℕ)
  unfolding scan shift_up
  insert_new m key = do
    assert (ltb m.count m.capacity)
    pos ← scan m.entries key m.count 0
    shifted ← shift_up (m.count - pos) m.count m.entries
    e ← load shifted pos
    entries ← store shifted pos (record e { key = key })
    some (record m { entries = entries; count = add64 m.count 1 }, pos)

  unfoldable pub insert : FixMap V → ℕ → Option (FixMap V × ℕ)
  unfolding find insert_new
  insert m key = find m key >>= λ p. elim p [ some i ↦ some (m, i) | none ↦ insert_new m key ]

  -- `unset` at the index of the key.
  unfoldable pub remove_at : FixMap V → ℕ → Option (FixMap V × Bool)
  unfolding shift_down
  remove_at m idx = do
    entries ← shift_down (m.count - 1 - idx) idx m.entries
    some (record m { entries = entries; count = sub64 m.count 1 }, true)

  unfoldable pub unset : FixMap V → ℕ → Option (FixMap V × Bool)
  unfolding find_index remove_at
  unset m key =
      find_index m key >>= λ p. elim p [ none ↦ some (m, false) | some idx ↦ remove_at m idx ]

  -- A write through the pointer that `find` or `insert` gives.
  unfoldable pub write_value : FixMap V → ℕ → V → FixMap V
  write_value m i v = elim (get_elem? m.entries i) [
    | none ↦ m
    | some e ↦ record m { entries = set m.entries i (record e { value = v }) }
  ]

  -- Strictly ascending keys.
  abbrev pub IsAscending : List (Entry V) → Type 0
  IsAscending [] = Unit
  IsAscending (e ∷ es) = All (λ f. e.key < f.key) es × IsAscending es

  abbrev pub to_list : FixMap V → List (Entry V)
  to_list m = take m.count m.entries

  -- An index of the map is an `int`.
  pub record IsWellFormed (m : FixMap V) : Type 0 where
    pub fits : m.capacity ≤ length m.entries
    pub bounded : m.count ≤ m.capacity
    pub small : m.capacity < 2 ^ 31
    pub ascending : IsAscending (to_list m)

  -- The reference for the search: the first entry with the key.
  unfoldable pub index_of : ℕ → List (Entry V) → Option ℕ
  index_of key [] = none
  index_of key (e ∷ es) =
      if e.key == key
      then some 0
      else elim (index_of key es) [ none ↦ none | some i ↦ some (suc i) ]
