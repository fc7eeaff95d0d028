-- ===== src/SharedMem/Opening/Tests.antt =====
-- The opening of the segment and the loops that wait, at inputs.
use fjdispatchlite.Prelude.{
  ℕ, ◌≡◌, refl, true, false, Option, none, some, [], ◌∷◌, arith, if◌then◌else◌, leb, replicate,
  stable_sort,
}
use fjdispatchlite.FixVector
use fjdispatchlite.FixMap
use fjdispatchlite.FixMap.{Entry}
use fjdispatchlite.SharedMem.{
  MailAtom, ProAtom, SharedRegion, SharedMem, zero_atom, init_shared_region, listen_vector,
  put_listen, process_table, put_table,
}
use fjdispatchlite.SharedMem.Listen.{add_messages, add_loop, duplicated}
use fjdispatchlite.SharedMem.Process.{register, retain_process, retain, entry_of}
use fjdispatchlite.SharedMem.Opening.{
  zeroed, zero_entry, wait_master, join_worker, warns, open_region, init_once, created,
}
use fjdispatchlite.SharedMem.Opening.Segments.{IsEmpty, Unlinks, open_region-Unlinks}

-- The count is set before round 3.
abbrev from_third : ℕ → ℕ
from_third i = if leb 3 i then 1 else 0

three_rounds : wait_master 101 from_third 0 ≡ 3
unfolding wait_master
three_rounds = refl

-- The thread does not end, and no warning is given.
no_warning : warns (join_worker 101 (λ i. false) 0) ≡ false
unfolding join_worker warns
no_warning = refl

-- Process 101 has made the segment, and an object that listens to message 5; process 7 opens it at the
-- same time.
abbrev first_atom : MailAtom
first_atom = record zero_atom { pid = 101; obj = 40; msg = 5 }

abbrev first_entry : Entry ProAtom
first_entry = record {
  key = 101;
  value = record { refcount = 1; worker = 5; running = true; worker_done = false };
}

abbrev in_use : SharedRegion
in_use = record zeroed {
  initialized = 1;
  protbl = first_entry ∷ replicate 21 zero_entry;
  proptr = 1;
  listen = first_atom ∷ replicate 127 zero_atom;
  lptr = 1;
}

abbrev started : Option (SharedRegion × SharedMem)
started = register (stable_sort MailAtom) 70 7 9 (open_region false none (some in_use)).0 (8 ∷ [])

abbrev started_region : SharedRegion
started_region = elim started [ none ↦ zeroed | some (r, self) ↦ r ]

abbrev object : ℕ → ℕ → SharedMem
object this pid = record { this = this; pid = pid; needworker = true }

program : Unit {0}
unfolding open_region init_once created init_shared_region stable_sort register add_messages
    add_loop duplicated listen_vector put_listen process_table put_table retain_process entry_of
    retain FixVector.create FixVector.push_back FixVector.at FixVector.sort FixMap.create
    FixMap.find FixMap.find_index FixMap.find_loop FixMap.as_int FixMap.write_value FixMap.insert
    FixMap.insert_new FixMap.scan FixMap.shift_up
program = tt

open_region-Unlinks_example :
    IsEmpty (open_region false none (some in_use)).0
    × Unlinks (stable_sort MailAtom) (object 40 101) started_region
open_region-Unlinks_example =
    open_region-Unlinks (stable_sort MailAtom) in_use 70 7 9 (8 ∷ []) started_region (object 70 7)
      (object 40 101) (omega arith) starts
  where
    starts : started ≡ some (started_region, object 70 7)
    starts = unfold program in refl
