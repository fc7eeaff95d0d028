-- ===== src/FixVector.antt =====
-- fjdispatchlite/fjfixvector.h: `FJFixVector<T>`, a vector inside a preallocated buffer. The buffer
-- is the list of its slots of `sizeof(T)` bytes; what a slot holds beyond the count stays visible.
-- A method returns the new vector. `at` gives the slot's content, `none` for `nullptr`.
pub mod View
pub mod Splice
pub mod Client
mod Tests
use fjdispatchlite.Prelude.{
  ℕ, ◌+◌, ◌-◌, ◌/◌, Bool, true, false, Option, none, List, ◌∷◌, ◌++◌, ltb, leb, if◌then◌else◌,
  length, get_elem?, set, take, drop, add64, sub64, u64_mod, StdSort, ◌≤◌, ◌<◌,
}

pub record FixVector (A : Type 0) : Type 0 where
  pub buffer : List A
  pub capacity : ℕ
  pub count : ℕ

module _ {A : Type 0} where
  -- `std::memmove` of `n` slots, from slot `src` to slot `dst`, as far as the slots of the buffer see
  -- it: what C writes beyond the end, without a check, is outside the vector.
  unfoldable pub memmove : ℕ → ℕ → ℕ → List A → List A
  memmove dst src n buffer =
      take (length buffer) (take dst buffer ++ (take n (drop src buffer) ++ drop (dst + n) buffer))

  -- The constructor, on a buffer of `buffer_size` bytes; a count beyond the capacity is cut down.
  unfoldable pub create : List A → ℕ → ℕ → ℕ → FixVector A
  create buffer buffer_size item_size count =
      let capacity = buffer_size / item_size in
      record {
        buffer = buffer;
        capacity = capacity;
        count = if ltb capacity count then capacity else count;
      }

  unfoldable pub push_back : FixVector A → A → FixVector A × Bool
  push_back v item =
      if leb v.capacity v.count
      then (v, false)
      else (record v { buffer = set v.buffer v.count item; count = add64 v.count 1 }, true)

  unfoldable pub push_front : FixVector A → A → FixVector A × Bool
  unfolding memmove
  push_front v item = if leb v.capacity v.count then (v, false) else (
    record v { buffer = set (memmove 1 0 v.count v.buffer) 0 item; count = add64 v.count 1 },
    true,
  )

  unfoldable pub size : FixVector A → ℕ
  size v = v.count

  -- `at` and `operator[]`.
  unfoldable pub at : FixVector A → ℕ → Option A
  at v index = if leb v.count index then none else get_elem? v.buffer index

  -- A write through the pointer that `at` gives.
  unfoldable pub write_at : FixVector A → ℕ → A → FixVector A
  write_at v index item =
      if leb v.count index then v else record v { buffer = set v.buffer index item }

  -- The second half of `splice`, where `count` is the number of elements to remove.
  unfoldable pub shift_down : FixVector A → ℕ → ℕ → FixVector A
  unfolding memmove
  shift_down v start count =
      let move_count = sub64 v.count (add64 start count) in
      record v {
        buffer =
            if ltb 0 move_count
            then memmove start (add64 start count) move_count v.buffer
            else v.buffer;
        count = sub64 v.count count;
      }

  unfoldable pub splice : FixVector A → ℕ → ℕ → FixVector A
  unfolding shift_down
  splice v start count =
      if leb v.count start
      then v
      else shift_down v start
          (if ltb v.count (add64 start count) then sub64 v.count start else count)

  -- `std::sort(base, base + *count_ptr_, comp)`.
  unfoldable pub sort : StdSort A → (A → A → Bool) → FixVector A → FixVector A
  sort s comp v = record v { buffer = s.sort comp (take v.count v.buffer) ++ drop v.count v.buffer }

  -- What the buffer, the capacity and the count of one vector satisfy. A `size_t` holds the capacity.
  pub record IsWellFormed (v : FixVector A) : Type 0 where
    pub fits : v.capacity ≤ length v.buffer
    pub bounded : v.count ≤ v.capacity
    pub small : v.capacity < u64_mod

  -- The elements that a client sees.
  abbrev pub to_list : FixVector A → List A
  to_list v = take v.count v.buffer
