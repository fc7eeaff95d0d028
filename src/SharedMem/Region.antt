-- ===== src/SharedMem/Region.antt =====
-- fjsharedmem.h: what the shared region satisfies between two sections under its mutex.
use fjdispatchlite.Prelude.{
  ℕ, ◌≤◌, ◌≡◌, refl, ap, arith, ge→ltb, le→leb, some, length, length-take, take, IsOrdered,
}
use fjdispatchlite.FixVector
use fjdispatchlite.FixVector.{FixVector, to_list}
use fjdispatchlite.FixMap
use fjdispatchlite.FixMap.{Entry, FixMap, IsAscending}
use fjdispatchlite.SharedMem.{
  ProAtom, PayloadAtom, SharedRegion, process_table, listen_max, queue_max, listen_vector,
  queue_vector, by_msg, init_shared_region,
}

-- The entries of the process table that fit: 112 * 24 / 120.
abbrev pub table_capacity : ℕ
table_capacity = 22

-- The arrays have their sizes, the counts stay within them, and the table of listeners is in the
-- order of the messages, the process table in that of the processes.
pub record IsWellFormed (r : SharedRegion) : Type 0 where
  pub listen_fits : listen_max ≤ length r.listen
  pub listen_bounded : r.lptr ≤ listen_max
  pub listen_ordered : IsOrdered by_msg (take r.lptr r.listen)
  pub queue_fits : queue_max ≤ length r.queue
  pub queue_bounded : r.qptr ≤ queue_max
  pub table_fits : table_capacity ≤ length r.protbl
  pub table_bounded : r.proptr ≤ table_capacity
  pub table_ascending : IsAscending (take r.proptr r.protbl)

module _ (r : SharedRegion) (w : IsWellFormed r) where
  pub listen_count : (listen_vector r).count ≡ r.lptr
  unfolding listen_vector fjdispatchlite.FixVector.create
  listen_count = rw (ge→ltb listen_max r.lptr w.listen_bounded) refl

  pub listen_vector-IsWellFormed : fjdispatchlite.FixVector.IsWellFormed (listen_vector r)
  unfolding listen_vector fjdispatchlite.FixVector.create
  listen_vector-IsWellFormed = record {
    fits = w.listen_fits;
    bounded = omega (arith, listen_count, w.listen_bounded);
    small = omega arith;
  }

  pub to_list-listen_vector : to_list (listen_vector r) ≡ take r.lptr r.listen
  unfolding listen_vector fjdispatchlite.FixVector.create
  to_list-listen_vector = ap (λ n. take n r.listen) listen_count

  pub listen_capacity : (listen_vector r).capacity ≡ listen_max
  unfolding listen_vector fjdispatchlite.FixVector.create
  listen_capacity = refl

  pub length-listeners : length (take r.lptr r.listen) ≡ r.lptr
  length-listeners = omega (arith, length-take r.lptr r.listen, w.listen_fits, w.listen_bounded)

  pub queue_count : (queue_vector r).count ≡ r.qptr
  unfolding queue_vector fjdispatchlite.FixVector.create
  queue_count = rw (ge→ltb queue_max r.qptr w.queue_bounded) refl

  pub queue_vector-IsWellFormed : fjdispatchlite.FixVector.IsWellFormed (queue_vector r)
  unfolding queue_vector fjdispatchlite.FixVector.create
  queue_vector-IsWellFormed = record {
    fits = w.queue_fits;
    bounded = omega (arith, queue_count, w.queue_bounded);
    small = omega arith;
  }

  pub to_list-queue_vector : to_list (queue_vector r) ≡ take r.qptr r.queue
  unfolding queue_vector fjdispatchlite.FixVector.create
  to_list-queue_vector = ap (λ n. take n r.queue) queue_count

  pub queue_capacity : (queue_vector r).capacity ≡ queue_max
  unfolding queue_vector fjdispatchlite.FixVector.create
  queue_capacity = refl

  pub length-queued : length (take r.qptr r.queue) ≡ r.qptr
  length-queued = omega (arith, length-take r.qptr r.queue, w.queue_fits, w.queue_bounded)

  -- The process table is never rejected.
  pub process_table_lem :
      (m : FixMap ProAtom) × (process_table r ≡ some m) × fjdispatchlite.FixMap.IsWellFormed m
  unfolding process_table fjdispatchlite.FixMap.create
  process_table_lem = (
    record { entries = r.protbl; capacity = table_capacity; count = r.proptr },
    rw (le→leb r.proptr table_capacity w.table_bounded) refl,
    record {
      fits = w.table_fits;
      bounded = w.table_bounded;
      small = omega arith;
      ascending = w.table_ascending;
    },
  )

-- A region whose process table has its size is well formed once it is initialised.
pub init_shared_region-IsWellFormed :
    (r : SharedRegion) → table_capacity ≤ length r.protbl → IsWellFormed (init_shared_region r)
unfolding init_shared_region
init_shared_region-IsWellFormed r h = record {
  listen_fits = omega arith;
  listen_bounded = omega arith;
  listen_ordered = tt;
  queue_fits = omega arith;
  queue_bounded = omega arith;
  table_fits = h;
  table_bounded = omega arith;
  table_ascending = tt;
}

-- Being well formed does not depend on the payloads, nor on the number of objects.
pub any_payload-IsWellFormed :
    (r : SharedRegion) (initialized : ℕ) (payload : ℕ → PayloadAtom)
    → IsWellFormed r
    → IsWellFormed (record r { initialized = initialized; payload = payload })
any_payload-IsWellFormed r initialized payload w = record {
  listen_fits = w.listen_fits;
  listen_bounded = w.listen_bounded;
  listen_ordered = w.listen_ordered;
  queue_fits = w.queue_fits;
  queue_bounded = w.queue_bounded;
  table_fits = w.table_fits;
  table_bounded = w.table_bounded;
  table_ascending = w.table_ascending;
}
