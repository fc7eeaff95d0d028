-- ===== src/SharedMem/Notify.antt =====
-- fjsharedmem.h: `_notify`, which queues a message for every listener, and the payload slots.
pub mod Slots
pub mod Pending
pub mod Search
pub mod Scan
pub mod Pushing
pub mod Queueing
pub mod Payloads
pub mod Collection
use fjdispatchlite.Prelude.{
  ℕ, zero, suc, ◌+◌, ◌-◌, ◌/◌, ◌%◌, Bool, true, false, not, ◌&&◌, ◌||◌, Option, none, some, List,
  [], ◌∷◌, ◌++◌, ltb, leb, ◌==◌, if◌then◌else◌, take, drop, get_elem?,
}
use fjdispatchlite.FixVector.{FixVector, at, push_back}
use fjdispatchlite.FixMap.{FixMap, ◌>>=◌, find}
use fjdispatchlite.SharedMem.{
  MailAtom, ProAtom, PayloadAtom, SharedRegion, payload_max, payload_slots, payload_atom_init,
  listen_vector, queue_vector, put_queue, process_table,
}
use fjdispatchlite.Dispatch.{update}

-- A processed payload may be taken back `after` milliseconds after it was sent.
abbrev pub is_expired : ℕ → ℕ → PayloadAtom → Bool
is_expired now after p = p.processed && leb (p.sent_ms + after) now

-- The loop of `_allocPayloadSlot` from round `n`, with `rounds` left: the slot and the payloads.
unfoldable pub alloc_loop : ℕ → (ℕ → PayloadAtom) → ℕ → ℕ → ℕ → Option (ℕ × (ℕ → PayloadAtom))
alloc_loop now payload start n zero = none
alloc_loop now payload start n (suc rounds) =
    let idx = (start + n) % payload_slots in
    let rest = alloc_loop now payload start (n + 1) rounds in
    if not (payload idx).in_use
    then some (idx, payload)
    else if is_expired now 5000 (payload idx)
    then some (idx, update payload idx (payload_atom_init (payload idx)))
    else rest

-- The slot's index is noted behind it; -1 is `none`.
unfoldable pub give_slot : SharedRegion → Option (ℕ × (ℕ → PayloadAtom)) → SharedRegion × Option ℕ
give_slot r none = (r, none)
give_slot r (some (idx, payload)) =
    (record r { payload = payload; payload_alloc_hint = idx + 1 }, some idx)

unfoldable pub alloc_payload_slot : ℕ → SharedRegion → SharedRegion × Option ℕ
unfolding alloc_loop give_slot
alloc_payload_slot now r =
    give_slot r (alloc_loop now r.payload (r.payload_alloc_hint % payload_slots) 0 payload_slots)

-- `profileAndGC` on one slot, and on all of them.
unfoldable pub gc_payload : ℕ → ℕ → PayloadAtom → PayloadAtom
gc_payload now after p =
    if not p.in_use then p else if is_expired now after p then payload_atom_init p else p

unfoldable pub gc_loop : ℕ → ℕ → (ℕ → PayloadAtom) → ℕ → ℕ → (ℕ → PayloadAtom)
unfolding gc_payload
gc_loop now after payload i zero = payload
gc_loop now after payload i (suc n) =
    gc_loop now after (update payload i (gc_payload now after (payload i))) (i + 1) n

unfoldable pub profile_and_gc : ℕ → ℕ → SharedRegion → SharedRegion
unfolding gc_loop
profile_and_gc now after r = record r { payload = gc_loop now after r.payload 0 payload_slots }

-- The lower bound of a message in the table, with fuel.
unfoldable pub lower_bound : FixVector MailAtom → ℕ → ℕ → ℕ → ℕ → Option ℕ
lower_bound v msg zero left right = some left
lower_bound v msg (suc fuel) left right =
    let mid = left + (right - left) / 2 in
    let upper = lower_bound v msg fuel (mid + 1) right in
    let lower = lower_bound v msg fuel left mid in
    if ltb left right then (at v mid >>= λ m. if ltb m.msg msg then upper else lower) else some left

-- What a call of `_notify` is given: the sender and its process, the message and the payload; and
-- the clock as it is read for the listener at an index of the table, to allocate and to send.
pub record Notice : Type 0 where
  pub from : ℕ
  pub pid : ℕ
  pub msg : ℕ
  pub buf : List ℕ
  pub size : ℕ
  pub alloc_ms : ℕ → ℕ
  pub sent_ms : ℕ → ℕ

-- The processes to wake, in ascending order, as the keys of `pids`.
unfoldable pub add_pid : ℕ → List ℕ → List ℕ
add_pid k [] = k ∷ []
add_pid k (j ∷ js) = if k == j then j ∷ js else if ltb k j then k ∷ j ∷ js else j ∷ add_pid k js

pub record Sending : Type 0 where
  pub region : SharedRegion
  pub msgcount : ℕ
  pub pids : List ℕ

-- Where the queue is full, the message's payload is freed.
unfoldable pub drop_mail : Sending → Option ℕ → Sending
drop_mail s none = s
drop_mail s (some idx) = record s {
  region = record s.region {
    payload = update s.region.payload idx (payload_atom_init (s.region.payload idx));
  };
}

-- `m` is put into the queue.
unfoldable pub push_mail : Sending → MailAtom → Sending
unfolding add_pid drop_mail
push_mail s m =
    let (queue, ok) = push_back (queue_vector s.region) m in
    if ok
    then record {
      region = put_queue s.region queue;
      msgcount = s.msgcount + 1;
      pids = add_pid m.pid s.pids;
    }
    else drop_mail s m.payload_idx

unfoldable pub fill_payload : Notice → ℕ → MailAtom → PayloadAtom → PayloadAtom
fill_payload n i to p = record {
  in_use = true;
  processed = false;
  size = n.size;
  msg = n.msg;
  from_pid = n.pid;
  to_pid = to.pid;
  sent_ms = n.sent_ms i;
  processed_ms = 0;
  bytes = take n.size n.buf ++ drop n.size p.bytes;
}

-- The message with its payload; without a slot for it the listener is passed over.
unfoldable pub send_payload : Notice → Sending → ℕ → MailAtom → SharedRegion × Option ℕ → Sending
unfolding push_mail fill_payload
send_payload n s i to (r, none) = record s { region = r }
send_payload n s i to (r, some idx) =
    push_mail
      (record s {
        region = record r { payload = update r.payload idx (fill_payload n i to (r.payload idx)) };
      })
      (record to { payload_idx = some idx })

-- The body of the loop behind its two tests.
unfoldable pub send : Notice → Sending → ℕ → MailAtom → Sending
unfolding push_mail send_payload alloc_payload_slot
send n s i to =
    let with_payload = send_payload n s i to (alloc_payload_slot (n.alloc_ms i) s.region) in
    if ltb 0 n.size then with_payload else push_mail s (record to { payload_idx = none })

-- The loop over the table from index `i`, with `rounds` left.
unfoldable pub send_loop : Notice → FixVector MailAtom → Sending → ℕ → ℕ → Option Sending
unfolding send
send_loop n listen s i zero = some s
send_loop n listen s i (suc rounds) =
    let skipped = send_loop n listen s (i + 1) rounds in
    at listen i >>= λ to.
    let sent = send_loop n listen (send n s i to) (i + 1) rounds in
    if not (to.msg == n.msg) then some s else if to.obj == n.from then skipped else sent

-- The processes whose worker is woken.
unfoldable pub broadcast : FixMap ProAtom → List ℕ → Option (List ℕ)
broadcast m [] = some []
broadcast m (k ∷ ks) =
    let rest = broadcast m ks in
    find m k >>= λ p. elim p [
      | none ↦ rest
      | some i ↦ get_elem? m.entries i >>= λ e.
          if e.value.running && not e.value.worker_done
          then (rest >>= λ woken. some (k ∷ woken))
          else rest
    ]

-- What a call gives back.
pub record Notified : Type 0 where
  pub region : SharedRegion
  pub woken : List ℕ
  pub result : Bool

-- The broadcast behind the loop.
unfoldable pub wake : Sending → Option Notified
unfolding broadcast
wake s =
    if ltb 0 s.msgcount
    then (process_table s.region >>= λ m. broadcast m s.pids >>= λ woken.
        some (record { region = s.region; woken = woken; result = true }))
    else some (record { region = s.region; woken = []; result = true })

unfoldable pub send_all : Notice → SharedRegion → ℕ → Option Notified
unfolding send_loop wake
send_all n r start =
    send_loop n (listen_vector r) (record { region = r; msgcount = 0; pids = [] }) start
      (r.lptr - start)
    >>= λ s. wake s

-- The code behind the search, which gave `left`.
unfoldable pub notify_from : Notice → SharedRegion → ℕ → Option Notified
unfolding send_all
notify_from n r left =
    let nothing : Option Notified = some (record { region = r; woken = []; result = false }) in
    if ltb left r.lptr
    then (at (listen_vector r) left >>= λ m. if m.msg == n.msg then send_all n r left else nothing)
    else nothing

-- `has_buf` is whether `buf` is not null.
unfoldable pub notify : Notice → Bool → SharedRegion → Option Notified
unfolding lower_bound notify_from
notify n has_buf r =
    if (n.from == 0) || (ltb 0 n.size && not has_buf) || ltb payload_max n.size
    then some (record { region = r; woken = []; result = false })
    else (lower_bound (listen_vector r) n.msg r.lptr 0 r.lptr >>= λ left. notify_from n r left)
