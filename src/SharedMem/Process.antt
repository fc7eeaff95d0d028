-- ===== src/SharedMem/Process.antt =====
-- fjsharedmem.h: the process table in the constructor and the destructor.
pub mod Table
pub mod Lifecycle
pub mod Objects
pub mod Lifespan
pub mod Moving
pub mod Changes
pub mod Returning
pub mod Ending
pub mod Users
mod Tests
use fjdispatchlite.Prelude.{
  ℕ, ◌+◌, ◌-◌, ◌%◌, Bool, true, false, Option, none, some, List, ltb, ◌==◌, if◌then◌else◌, StdSort,
  get_elem?, add64, sub64, u32_mod,
}
use fjdispatchlite.FixMap.{FixMap, ◌>>=◌, find, insert, unset, write_value}
use fjdispatchlite.SharedMem.{
  MailAtom, ProAtom, SharedRegion, SharedMem, pro_atom_init, process_table, put_table,
}
use fjdispatchlite.SharedMem.Listen.{add_messages}
use fjdispatchlite.SharedMem.Worker.{remove_object}

-- One more user of an entry: the first starts the worker, on thread `thread`.
unfoldable pub retain : ℕ → ProAtom → ProAtom
retain thread p =
    if add64 p.refcount 1 == 1
    then record { refcount = 1; running = true; worker_done = false; worker = thread }
    else record p { refcount = add64 p.refcount 1 }

-- The entry of a process, made where there is none.
unfoldable pub entry_of : FixMap ProAtom → ℕ → Option (FixMap ProAtom × ℕ)
entry_of m pid = find m pid >>= λ p. elim p [
  | some i ↦ some (m, i)
  | none ↦ insert m pid >>= λ (m', i). some (write_value m' i pro_atom_init, i)
]

unfoldable pub retain_process : ℕ → ℕ → SharedRegion → Option SharedRegion
unfolding retain entry_of
retain_process pid thread r = process_table r >>= λ m. entry_of m pid >>= λ (m', i).
    get_elem? m'.entries i >>= λ e. some (put_table r (write_value m' i (retain thread e.value)))

-- The constructor's section under the mutex.
unfoldable pub register :
    StdSort MailAtom → ℕ → ℕ → ℕ → SharedRegion → List ℕ → Option (SharedRegion × SharedMem)
unfolding retain_process
register s this pid thread r msgs = add_messages s pid r this msgs >>= λ (r1, regi).
    (if ltb 0 regi then retain_process pid thread r1 else some r1) >>= λ r2. some (
      record r2 { initialized = (r2.initialized + 1) % u32_mod },
      record { this = this; pid = pid; needworker = ltb 0 regi },
    )

-- The destructor's first section: the last user of the entry removes it.
unfoldable pub release_at : SharedRegion → FixMap ProAtom → ℕ → ℕ → ProAtom → Option SharedRegion
release_at r m pid i p =
    if sub64 p.refcount 1 == 0
    then (unset (write_value m i (record p { refcount = 0; running = false })) pid >>= λ (m', ok).
        some (put_table r m'))
    else some (put_table r (write_value m i (record p { refcount = sub64 p.refcount 1 })))

unfoldable pub release_process : SharedMem → SharedRegion → Option SharedRegion
unfolding release_at
release_process self r =
    if self.needworker
    then (process_table r >>= λ m. find m self.pid >>= λ f. elim f [
      | none ↦ some r
      | some i ↦ get_elem? m.entries i >>= λ e. release_at r m self.pid i e.value
    ])
    else some r

-- Its second section; the region is unlinked when no object is left.
unfoldable pub unregister :
    StdSort MailAtom → SharedMem → SharedRegion → Option (SharedRegion × Bool)
unregister s self r = (if self.needworker then remove_object s self.this r else some r) >>= λ r'.
    let left = (r'.initialized + (u32_mod - 1)) % u32_mod in
    some (record r' { initialized = left }, left == 0)

-- The worker goes on while its entry runs; `i` is the place that its pointer has.
unfoldable pub goes_on : ℕ → SharedRegion → Option Bool
goes_on i r = process_table r >>= λ m. get_elem? m.entries i >>= λ e. some e.value.running

-- At its end it notes that in the entry.
unfoldable pub end_worker : ℕ → SharedRegion → Option SharedRegion
end_worker i r = process_table r >>= λ m. get_elem? m.entries i >>= λ e.
    some (put_table r (write_value m i (record e.value { worker_done = true })))
