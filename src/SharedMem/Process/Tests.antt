-- ===== src/SharedMem/Process/Tests.antt =====
-- The theorems on the process table, at inputs.
use fjdispatchlite.Prelude.{
  ℕ, zero, suc, ◌+◌, ◌≡◌, refl, inr, true, false, none, some, Option, stable_sort, List, [], ◌∷◌,
  arith, replicate, ◌<◌, ◌≢◌, ◌⊎◌, u64_mod,
}
use fjdispatchlite.FixMap.{Entry, index_of, ◌>>=◌}
use fjdispatchlite.FixMap.Laws.{lookup}
use fjdispatchlite.SharedMem.{ProAtom, SharedRegion, SharedMem, zero_atom}
use fjdispatchlite.SharedMem.Region.{IsWellFormed, table_capacity}
use fjdispatchlite.SharedMem.Process.{retain, retain_process}
use fjdispatchlite.SharedMem.Process.Users.{users, IsJoined, retain_process-IsJoined}
use fjdispatchlite.SharedMem.Process.Changes.{Assigns}
use fjdispatchlite.SharedMem.Process.Returning.{IsCounted}
use fjdispatchlite.SharedMem.Process.Table.{processes, retain_process_full}
use fjdispatchlite.FixVector
use fjdispatchlite.FixMap
use fjdispatchlite.SharedMem.{MailAtom, listen_vector, put_listen, process_table, put_table}
use fjdispatchlite.SharedMem.Listen.{add_messages, add_loop, duplicated}
use fjdispatchlite.SharedMem.Process.{register, entry_of}
use fjdispatchlite.SharedMem.Process.Moving.{retain_process-moves}
use fjdispatchlite.SharedMem.Process.Lifespan.{Undoes, register-unregister}

abbrev region_or : SharedRegion → Option (SharedRegion × SharedMem) → SharedRegion
region_or r none = r
region_or r (some (q, self)) = q

abbrev used_by : ℕ → ℕ → Entry ProAtom
used_by pid n = record {
  key = pid;
  value = record { refcount = n; worker = 5; running = true; worker_done = false };
}

abbrev used_from : ℕ → ℕ → List (Entry ProAtom)
used_from zero pid = []
used_from (suc n) pid = used_by pid 1 ∷ used_from n (pid + 1)

-- A region whose process table has 22 entries, of which `count` are in use.
abbrev with_processes : ℕ → SharedRegion
with_processes count = record {
  initialized = 1;
  protbl = used_from 22 100;
  proptr = count;
  listen = replicate 128 zero_atom;
  lptr = 0;
  queue = replicate 384 zero_atom;
  qptr = 0;
  payload_alloc_hint = 0;
  payload = λ i. record {
    in_use = false;
    processed = false;
    size = 0;
    msg = 0;
    from_pid = 0;
    to_pid = 0;
    sent_ms = 0;
    processed_ms = 0;
    bytes = [];
  };
}

some_processes : IsWellFormed (with_processes 3)
some_processes = omega arith

all_processes : IsWellFormed (with_processes 22)
all_processes = omega arith

second : index_of 101 (processes (with_processes 3)) ≡ some 1
unfolding index_of
second = refl

not_there : index_of 7 (processes (with_processes 22)) ≡ none
unfolding index_of
not_there = refl

retain_process_full_example : retain_process 7 9 (with_processes 22) ≡ none
retain_process_full_example =
    retain_process_full (with_processes 22) all_processes 7 9 not_there refl

small_count : users (lookup 101 (processes (with_processes 3))) + 1 < u64_mod
unfolding lookup
small_count = omega arith

there : (index_of 101 (processes (with_processes 3)) ≢ none) ⊎ (3 < table_capacity)
there = inr (omega arith)

-- Process 101 has one user already.
retain_process-IsJoined_example :
    (r' : SharedRegion) × (p : ProAtom) × (retain_process 101 9 (with_processes 3) ≡ some r')
    × Assigns (with_processes 3) r' 101 (some p)
    × IsJoined 9 (lookup 101 (processes (with_processes 3))) p
retain_process-IsJoined_example =
    retain_process-IsJoined (with_processes 3) 101 9 some_processes there small_count

abbrev listener : ℕ → SharedMem
listener pid = record { this = 70; pid = pid; needworker = true }

one_user : IsCounted (lookup 101 (processes (with_processes 3)))
unfolding lookup
one_user = (omega arith, omega arith)

-- Object 70 of process 101 listens to messages 5 and 9.
abbrev started : Option (SharedRegion × SharedMem)
started = register (stable_sort MailAtom) 70 101 9 (with_processes 3) (9 ∷ 5 ∷ [])

abbrev started_region : SharedRegion
started_region = region_or (with_processes 3) started

program : Unit {0}
unfolding stable_sort register add_messages add_loop duplicated listen_vector put_listen
    process_table put_table retain_process entry_of retain FixVector.create FixVector.push_back
    FixVector.at FixVector.sort FixMap.create FixMap.find FixMap.find_index FixMap.find_loop
    FixMap.as_int FixMap.write_value
program = tt

register-unregister_example :
    Undoes (stable_sort MailAtom) (listener 101) (with_processes 3) started_region
register-unregister_example =
    register-unregister (stable_sort MailAtom) 70 101 9 (with_processes 3) (9 ∷ 5 ∷ [])
      (omega arith) tt tt one_user started_region (listener 101) some_processes starts
  where
    starts : started ≡ some (started_region, listener 101)
    starts = unfold program in refl

absent : index_of 7 (processes (with_processes 3)) ≡ none
unfolding index_of
absent = refl

retain_process-moves_example :
    (r' : SharedRegion) × (retain_process 7 9 (with_processes 3) ≡ some r')
    × (index_of 101 (processes r') ≡ some 2)
retain_process-moves_example =
    retain_process-moves (with_processes 3) 7 9 101 1 some_processes absent (omega arith) second
      (omega arith)
