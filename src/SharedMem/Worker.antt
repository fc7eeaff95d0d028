-- ===== src/SharedMem/Worker.antt =====
-- fjsharedmem.h: `workerThread`, which takes the messages of its process out of the queue and calls
-- their objects, and the clean-up of the queue and the table in the destructor.
pub mod Drain
pub mod Cleanup
pub mod Calls
use fjdispatchlite.Prelude.{
  ℕ, zero, suc, ◌+◌, Bool, true, false, not, ◌&&◌, Option, none, some, List, [], ◌∷◌, ◌++◌, ltb,
  leb, ◌==◌, if◌then◌else◌, StdSort,
}
use fjdispatchlite.FixVector.{FixVector, at, write_at, size, splice, sort}
use fjdispatchlite.FixMap.{◌>>=◌}
use fjdispatchlite.SharedMem.{
  MailAtom, PayloadAtom, SharedRegion, payload_slots, mail_atom_init, listen_vector, put_listen,
  queue_vector, put_queue, by_msg,
}
use fjdispatchlite.Dispatch.{update}

-- The loop that takes the atoms that pass a test, from index `i`, with `rounds` left: each is
-- emptied; the list is that of the atoms taken.
unfoldable pub collect :
    (MailAtom → Bool) → FixVector MailAtom → ℕ → ℕ → Option (FixVector MailAtom × List MailAtom)
collect p v i zero = some (v, [])
collect p v i (suc rounds) =
    let kept = collect p v (i + 1) rounds in
    let taken = collect p (write_at v i mail_atom_init) (i + 1) rounds in
    at v i >>= λ to. if p to then (taken >>= λ (v', locals). some (v', to ∷ locals)) else kept

-- `while (v.size() > 0 && v.at(0)->msg_ == 0) v.splice(0, 1)`, with fuel.
unfoldable pub trim : ℕ → FixVector MailAtom → Option (FixVector MailAtom)
trim zero v = some v
trim (suc fuel) v =
    let rest = trim fuel (splice v 0 1) in
    if ltb 0 (size v) then (at v 0 >>= λ m. if m.msg == 0 then rest else some v) else some v

-- The atoms that pass the test are emptied, sorted to the front and removed.
unfoldable pub extract :
    StdSort MailAtom
    → (MailAtom → Bool)
    → FixVector MailAtom
    → Option (FixVector MailAtom × List MailAtom)
unfolding collect trim
extract s p v = collect p v 0 v.count >>= λ (v', locals).
    trim v'.count (sort s by_msg v') >>= λ v''. some (v'', locals)

-- A message of this process.
abbrev pub is_local : ℕ → MailAtom → Bool
is_local pid m = not (m.msg == 0) && not (m.obj == 0) && (m.pid == pid)

unfoldable pub drain : StdSort MailAtom → ℕ → SharedRegion → Option (SharedRegion × List MailAtom)
unfolding extract
drain s pid r =
    extract s (is_local pid) (queue_vector r) >>= λ (v, locals). some (put_queue r v, locals)

-- The destructor takes the object's atoms out of the queue and out of the table.
unfoldable pub remove_object : StdSort MailAtom → ℕ → SharedRegion → Option SharedRegion
unfolding extract
remove_object s this r = extract s (λ m. m.obj == this) (queue_vector r) >>= λ (queue, gone).
    extract s (λ m. m.obj == this) (listen_vector (put_queue r queue)) >>= λ (listen, gone').
    some (put_listen (put_queue r queue) listen)

-- One call of an object's `update` or `updateWithData`.
pub data Delivery : Type 0 where
  update_call : (obj msg : ℕ) → Delivery
  update_with_data : (obj msg : ℕ) (bytes : List ℕ) (size : ℕ) → Delivery

abbrev pub has_payload : ℕ → MailAtom → PayloadAtom → Bool
has_payload pid mail p = p.in_use && (p.msg == mail.msg) && (p.to_pid == pid)

-- The section after the call marks the payload.
unfoldable pub mark_processed : ℕ → ℕ → SharedRegion → SharedRegion
mark_processed now idx r = record r {
  payload =
      if (r.payload idx).in_use
      then update r.payload idx (record (r.payload idx) { processed = true; processed_ms = now })
      else r.payload;
}

-- The call for one message, and the payload to mark after it.
unfoldable pub deliver : ℕ → SharedRegion → MailAtom → Delivery × Option ℕ
deliver pid r mail =
    let plain : Delivery × Option ℕ = (update_call mail.obj mail.msg, none) in
    elim mail.payload_idx [
      | none ↦ plain
      | some idx ↦
          if ltb idx payload_slots && has_payload pid mail (r.payload idx)
          then (
            update_with_data mail.obj mail.msg (r.payload idx).bytes (r.payload idx).size,
            some idx,
          )
          else plain
    ]

-- The delivery of all local messages, at one time, where no other section comes between. A message
-- without an object is passed over.
unfoldable pub deliver_all : ℕ → ℕ → SharedRegion → List MailAtom → SharedRegion × List Delivery
unfolding deliver mark_processed
deliver_all pid now r [] = (r, [])
deliver_all pid now r (mail ∷ mails) =
    let (call, marked) = deliver pid r mail in
    let r' : SharedRegion = elim marked [ none ↦ r | some idx ↦ mark_processed now idx r ] in
    let rest = deliver_all pid now r mails in
    let (r'', calls) = deliver_all pid now r' mails in
    if mail.obj == 0 then rest else (r'', call ∷ calls)
