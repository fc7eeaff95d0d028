-- ===== src/SharedMem/Tests.antt =====
-- The theorems on the shared region, at inputs, and runs of its operations.
use fjdispatchlite.Prelude.{
  ℕ, ◌+◌, ◌≡◌, refl, true, false, none, some, [], ◌∷◌, arith, replicate, take, keep, stable_sort,
}
use fjdispatchlite.Prelude.{leb, if◌then◌else◌, ◌&&◌}
use fjdispatchlite.SharedMem.{payload_atom_init}
use fjdispatchlite.FixMap.{Entry}
use fjdispatchlite.SharedMem.{MailAtom, ProAtom, PayloadAtom, SharedRegion, zero_atom}
use fjdispatchlite.SharedMem.Region.{IsWellFormed}
use fjdispatchlite.SharedMem.Listen.{add_messages}
use fjdispatchlite.SharedMem.Listen.Table.{spec_add, Registers, add_messages-Registers}
use fjdispatchlite.SharedMem.Notify.{profile_and_gc, Notice, Notified, notify}
use fjdispatchlite.SharedMem.Notify.Scan.{notify_each, notify-notify_each}
use fjdispatchlite.SharedMem.Notify.Queueing.{Queues, notify-Queues}
use fjdispatchlite.SharedMem.Notify.Collection.{profile_and_gc_lem}
use fjdispatchlite.SharedMem.Worker.{is_local, drain, remove_object}
use fjdispatchlite.SharedMem.Notify.Payloads.{IsCarried}
use fjdispatchlite.SharedMem.Worker.Cleanup.{Drains, drain-Drains, Removes, remove_object-Removes}

abbrev atom : ℕ → ℕ → ℕ → MailAtom
atom msg obj pid = record { msg = msg; obj = obj; pid = pid; payload_idx = none }

abbrev no_process : Entry ProAtom
no_process = record {
  key = 0;
  value = record { refcount = 0; worker = 0; running = false; worker_done = false };
}

abbrev no_payload : PayloadAtom
no_payload = record {
  in_use = false;
  processed = false;
  size = 0;
  msg = 0;
  from_pid = 0;
  to_pid = 0;
  sent_ms = 0;
  processed_ms = 0;
  bytes = [];
}

-- Three listeners of two processes, and one message that waits.
abbrev sample : SharedRegion
sample = record {
  initialized = 3;
  protbl = replicate 22 no_process;
  proptr = 0;
  listen = atom 5 70 1 ∷ atom 5 80 2 ∷ atom 9 70 1 ∷ replicate 125 zero_atom;
  lptr = 3;
  queue = atom 9 70 1 ∷ replicate 383 zero_atom;
  qptr = 1;
  payload_alloc_hint = 0;
  payload = λ i. no_payload;
}

sample-IsWellFormed : IsWellFormed sample
sample-IsWellFormed = record {
  listen_fits = omega arith;
  listen_bounded = omega arith;
  listen_ordered = ((refl, (refl, tt)), ((refl, tt), (tt, tt)));
  queue_fits = omega arith;
  queue_bounded = omega arith;
  table_fits = omega arith;
  table_bounded = omega arith;
  table_ascending = tt;
}

abbrev plain : Notice
plain = record {
  from = 70;
  pid = 1;
  msg = 5;
  buf = [];
  size = 0;
  alloc_ms = λ i. 0;
  sent_ms = λ i. 0;
}

abbrev with_data : Notice
with_data = record plain {
  buf = 1 ∷ 2 ∷ [];
  size = 2;
  alloc_ms = λ i. 1000 + i;
  sent_ms = λ i. 1000 + i;
}

add_messages-Registers_example :
    (r' : SharedRegion) × (add_messages (stable_sort MailAtom) 2 sample 80 (9 ∷ 5 ∷ [])
      ≡ some (r', (spec_add 80 2 (take 3 sample.listen) (9 ∷ 5 ∷ []) 0).1))
    × Registers sample r'
        (spec_add 80 2 (take 3 sample.listen) (9 ∷ 5 ∷ []) 0).0
        (spec_add 80 2 (take 3 sample.listen) (9 ∷ 5 ∷ []) 0).1
add_messages-Registers_example =
    add_messages-Registers (stable_sort MailAtom) 2 sample 80 (9 ∷ 5 ∷ []) sample-IsWellFormed

notify-notify_each_example :
    notify with_data true sample ≡ notify_each with_data sample (take 3 sample.listen)
notify-notify_each_example = notify-notify_each with_data true sample sample-IsWellFormed refl

notify-Queues_example :
    (out : Notified) × (notify plain false sample ≡ some out) × Queues plain sample out
notify-Queues_example = notify-Queues plain false sample sample-IsWellFormed refl refl

drain-Drains_example :
    (r' : SharedRegion) × (drain (stable_sort MailAtom) 1 sample
      ≡ some (r', keep (is_local 1) (take 1 sample.queue)))
    × Drains 1 sample r'
drain-Drains_example = drain-Drains (stable_sort MailAtom) 1 sample sample-IsWellFormed

remove_object-Removes_example :
    (r' : SharedRegion) × (remove_object (stable_sort MailAtom) 70 sample ≡ some r')
    × Removes 70 sample r'
remove_object-Removes_example =
    remove_object-Removes (stable_sort MailAtom) 70 sample sample-IsWellFormed

-- The message that waits has a payload of two bytes.
abbrev carrying : SharedRegion
carrying = record sample {
  queue = record { msg = 9; obj = 70; pid = 1; payload_idx = some 4 } ∷ replicate 383 zero_atom;
  payload = λ i. record no_payload {
    in_use = true;
    msg = 9;
    to_pid = 1;
    from_pid = 2;
    size = 2;
    bytes = 6 ∷ 7 ∷ [];
  };
}

carrying-IsWellFormed : IsWellFormed carrying
carrying-IsWellFormed = record {
  listen_fits = omega arith;
  listen_bounded = omega arith;
  listen_ordered = ((refl, (refl, tt)), ((refl, tt), (tt, tt)));
  queue_fits = omega arith;
  queue_bounded = omega arith;
  table_fits = omega arith;
  table_bounded = omega arith;
  table_ascending = tt;
}

waiting-IsCarried :
    IsCarried carrying.payload (record { msg = 9; obj = 70; pid = 1; payload_idx = some 4 })
waiting-IsCarried idx e =
    let k : 4 ≡ idx = ground arith in
    record {
      in_range = omega (arith, k);
      pending = record { used = refl; unprocessed = refl };
      same_msg = refl;
      same_pid = refl;
    }

profile_and_gc_lem_example :
    let p = carrying.payload 4 in
    (profile_and_gc 9000 5000 carrying).payload 4
    ≡ (if p.in_use && p.processed && leb (p.sent_ms + 5000) 9000 then payload_atom_init p else p)
profile_and_gc_lem_example = profile_and_gc_lem 9000 5000 carrying 4 (omega arith)
