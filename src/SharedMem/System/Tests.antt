-- ===== src/SharedMem/System/Tests.antt =====
-- A run of the shared memory with two processes, and the theorems on it at the states of the run.
use fjdispatchlite.Prelude.{
  ◌≡◌, refl, ◌⊎◌, Bool, true, false, Option, none, some, List, [], ◌∷◌, arith, replicate,
  stable_sort,
}
use fjdispatchlite.FixVector
use fjdispatchlite.FixMap
use fjdispatchlite.FixMap.{Entry}
use fjdispatchlite.SharedMem.{
  MailAtom, SharedRegion, SharedMem, init_shared_region, payload_atom_init, listen_vector,
  put_listen, queue_vector, put_queue, process_table, put_table, pro_atom_init, mail_atom_init,
}
use fjdispatchlite.SharedMem.Notify.{
  Notice, Notified, profile_and_gc, notify, lower_bound, notify_from, send_all, send_loop, send,
  send_payload, alloc_payload_slot, alloc_loop, give_slot, push_mail, add_pid, drop_mail,
  fill_payload, wake, broadcast,
}
use fjdispatchlite.SharedMem.Worker.{
  update_with_data, deliver, drain, extract, collect, trim, remove_object,
}
use fjdispatchlite.SharedMem.Listen.{add_messages, add_loop, duplicated}
use fjdispatchlite.SharedMem.Process.{register, retain_process, entry_of, retain, unregister}
use fjdispatchlite.SharedMem.System.{
  World, initial, Reachable, starts, moves, registers, notifies, drains, unregisters, collects,
  after_notify, after_drain, after_unregister,
}
use fjdispatchlite.SharedMem.System.Soundness.{IsSound}
use fjdispatchlite.SharedMem.System.Reached.{Reachable-IsSound}
use fjdispatchlite.SharedMem.System.Payloads.{Reachable-deliver, Marks, Step-Marks}
use fjdispatchlite.SharedMem.System.Lost.{IsLost, now, later, Later-IsLost}

abbrev fresh : SharedRegion
fresh = record {
  initialized = 0;
  protbl = replicate 22 (record {
    key = 0;
    value = record { refcount = 0; worker = 0; running = false; worker_done = false };
  });
  proptr = 0;
  listen = [];
  lptr = 0;
  queue = [];
  qptr = 0;
  payload_alloc_hint = 0;
  payload = λ i. record {
    in_use = false;
    processed = false;
    size = 0;
    msg = 0;
    from_pid = 0;
    to_pid = 0;
    sent_ms = 0;
    processed_ms = 0;
    bytes = [];
  };
}

abbrev first : World
first = initial fresh

abbrev region_or : SharedRegion → Option (SharedRegion × SharedMem) → SharedRegion
region_or r none = r
region_or r (some (q, self)) = q

program : Unit {0}
unfolding stable_sort initial init_shared_region payload_atom_init register add_messages add_loop
    duplicated listen_vector put_listen queue_vector put_queue retain_process entry_of retain
    process_table put_table pro_atom_init mail_atom_init FixVector.create FixVector.push_back
    FixVector.at FixVector.write_at FixVector.size FixVector.splice FixVector.shift_down
    FixVector.sort FixVector.memmove FixMap.create FixMap.find FixMap.find_index FixMap.find_loop
    FixMap.as_int FixMap.insert FixMap.insert_new FixMap.scan FixMap.shift_up FixMap.write_value
    notify lower_bound notify_from send_all send_loop send send_payload alloc_payload_slot
    alloc_loop give_slot push_mail add_pid drop_mail fill_payload wake broadcast after_notify drain
    extract collect trim after_drain unregister remove_object after_unregister
program = tt

abbrev listening : SharedMem
listening = record { this = 70; pid = 1; needworker = true }

abbrev one_listener : SharedRegion
one_listener = region_or fresh (register (stable_sort MailAtom) 70 1 9 first.region (5 ∷ []))

abbrev listened : World
listened = record first { region = one_listener }

listened-Reachable : Reachable (stable_sort MailAtom) listened
unfolding program
listened-Reachable =
    moves (starts fresh (omega arith)) (registers 70 1 9 (5 ∷ []) one_listener listening refl refl)

-- Object 80 of process 2 sends two bytes.
abbrev two_bytes : Notice
two_bytes = record {
  from = 80;
  pid = 2;
  msg = 5;
  buf = 6 ∷ 7 ∷ [];
  size = 2;
  alloc_ms = λ i. 1000;
  sent_ms = λ i. 1000;
}

abbrev notified_or : Notified → Option Notified → Notified
notified_or n none = n
notified_or n (some m) = m

abbrev one_sent : Notified
one_sent =
    notified_or (record { region = fresh; woken = []; result = false })
      (notify two_bytes true listened.region)

abbrev sent_world : World
sent_world = after_notify listened one_sent.region

sent_world-Reachable : Reachable (stable_sort MailAtom) sent_world
unfolding program
sent_world-Reachable = moves listened-Reachable (notifies two_bytes true one_sent refl refl)

-- The worker of process 1 takes the message.
abbrev taken_or :
    SharedRegion → Option (SharedRegion × List MailAtom) → SharedRegion × List MailAtom
taken_or r none = (r, [])
taken_or r (some x) = x

abbrev one_taken : SharedRegion × List MailAtom
one_taken = taken_or fresh (drain (stable_sort MailAtom) 1 sent_world.region)

abbrev letter : MailAtom
letter = record { msg = 5; obj = 70; pid = 1; payload_idx = some 0 }

abbrev taken_world : World
taken_world = after_drain 1 sent_world one_taken.0 (letter ∷ [])

taken_world-Reachable : Reachable (stable_sort MailAtom) taken_world
unfolding program
taken_world-Reachable = moves sent_world-Reachable (drains 1 one_taken.0 (letter ∷ []) refl refl)

-- Its object is destroyed instead.
abbrev left_or : SharedRegion → Option (SharedRegion × Bool) → SharedRegion
left_or r none = r
left_or r (some (q, last)) = q

abbrev left : SharedRegion
left = left_or fresh (unregister (stable_sort MailAtom) listening sent_world.region)

abbrev left_world : World
left_world = after_unregister sent_world listening left

left_world-Reachable : Reachable (stable_sort MailAtom) left_world
unfolding program
left_world-Reachable = moves sent_world-Reachable (unregisters listening left true refl refl)

Reachable-IsSound_example : IsSound taken_world
Reachable-IsSound_example =
    Reachable-IsSound (stable_sort MailAtom) taken_world taken_world-Reachable

-- The call gets the bytes that were sent.
gets_bytes : deliver 1 taken_world.region letter ≡ (update_with_data 70 5 (6 ∷ 7 ∷ []) 2, some 0)
unfolding program deliver
gets_bytes = refl

Reachable-deliver_example :
    let p = taken_world.region.payload 0 in
    deliver 1 taken_world.region letter ≡ (update_with_data 70 5 p.bytes p.size, some 0)
Reachable-deliver_example =
    Reachable-deliver (stable_sort MailAtom) taken_world [] [] letter 0 taken_world-Reachable flies
      refl
  where
    flies : taken_world.flying ≡ letter ∷ []
    flies = unfold program in refl

-- The payload of the message that was taken out waits, and nobody has its slot.
left_world-IsLost : IsLost left_world 0
unfolding program
left_world-IsLost = record {
  in_range = omega arith;
  pending = record { used = refl; unprocessed = refl };
  nobody = refl;
}

-- Ten seconds later it is not collected.
abbrev collected : World
collected = record left_world { region = profile_and_gc 11000 5000 left_world.region }

Later-IsLost_example :
    IsLost collected 0 × (collected.region.payload 0 ≡ left_world.region.payload 0)
Later-IsLost_example =
    Later-IsLost (stable_sort MailAtom) left_world collected 0 left_world-Reachable
      (later now (collects 11000 5000 refl)) left_world-IsLost

Step-Marks_example :
    (collected.region.payload 0 ≡ left_world.region.payload 0) ⊎ Marks left_world collected 0
Step-Marks_example =
    Step-Marks (stable_sort MailAtom) left_world collected 0 left_world-Reachable
      (collects 11000 5000 refl) left_world-IsLost.pending
