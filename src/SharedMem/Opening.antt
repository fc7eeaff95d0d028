-- ===== src/SharedMem/Opening.antt =====
-- fjsharedmem.h: the constructor up to its section under the mutex, and the loops in which the
-- constructor and the destructor wait. What `shm_open` finds, and what the loops read, are arguments.
pub mod Spins
pub mod Segments
mod Tests
use fjdispatchlite.Prelude.{
  ℕ, zero, suc, ◌+◌, Bool, true, false, not, ◌&&◌, Option, none, some, List, [], ◌∷◌, ltb, ◌==◌,
  if◌then◌else◌, replicate,
}
use fjdispatchlite.FixMap.{Entry}
use fjdispatchlite.SharedMem.{
  ProAtom, PayloadAtom, SharedRegion, listen_max, queue_max, zero_atom, init_shared_region,
}
use fjdispatchlite.SharedMem.Region.{table_capacity}

-- What `ftruncate` makes of a new segment.
abbrev pub zero_entry : Entry ProAtom
zero_entry = record {
  key = 0;
  value = record { refcount = 0; worker = 0; running = false; worker_done = false };
}

abbrev pub zero_payload : PayloadAtom
zero_payload = record {
  in_use = false;
  processed = false;
  size = 0;
  msg = 0;
  from_pid = 0;
  to_pid = 0;
  sent_ms = 0;
  processed_ms = 0;
  bytes = replicate 512 0;
}

abbrev pub zeroed : SharedRegion
zeroed = record {
  initialized = 0;
  protbl = replicate table_capacity zero_entry;
  proptr = 0;
  listen = replicate listen_max zero_atom;
  lptr = 0;
  queue = replicate queue_max zero_atom;
  qptr = 0;
  payload_alloc_hint = 0;
  payload = λ i. zero_payload;
}

-- `initSharedRegion`; `initialized` is its static variable, one for each process.
unfoldable pub init_once : Bool → SharedRegion → SharedRegion
init_once true r = r
init_once false r = init_shared_region r

-- What the second `shm_open`, without O_EXCL, and `ftruncate` give: a new segment, or the one that
-- another process has made since the first `shm_open`, which has its size already.
unfoldable pub created : Option SharedRegion → SharedRegion
created none = zeroed
created (some r) = r

-- The two calls of `shm_open`, by what each of them finds, up to `initSharedRegion`; and whether the
-- caller takes itself for the one who made the segment.
unfoldable pub open_region : Bool → Option SharedRegion → Option SharedRegion → SharedRegion × Bool
unfolding init_once created
open_region initialized (some r) second = (r, false)
open_region initialized none second = (init_once initialized (created second), true)

-- `for (; i < timeoutMs && shared_region_->initialized_ == 0; i++)`, where `seen i` is what round `i`
-- reads; with fuel.
unfoldable pub wait_master : ℕ → (ℕ → ℕ) → ℕ → ℕ
wait_master zero seen i = i
wait_master (suc fuel) seen i =
    let next = wait_master fuel seen (i + 1) in if ltb i 100 && (seen i == 0) then next else i

-- `do { if (p->worker_done_) break; } while (i++ < timeoutMs)`: whether the thread was joined, and `i`
-- behind the loop; with fuel.
unfoldable pub join_worker : ℕ → (ℕ → Bool) → ℕ → Bool × ℕ
join_worker zero done i = (false, i)
join_worker (suc fuel) done i =
    let next = join_worker fuel done (i + 1) in
    if done i then (true, i) else if ltb i 100 then next else (false, i + 1)

-- `if (i == timeoutMs)`: the warning that the join has timed out.
unfoldable pub warns : Bool × ℕ → Bool
warns (joined, i) = i == 100
