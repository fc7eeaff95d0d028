-- ===== src/SharedMem/Worker/Calls.antt =====
-- fjsharedmem.h: the call that `workerThread` makes for a message with a payload.
use fjdispatchlite.Prelude.{ℕ, ◌≡◌, refl, some, lt→ltb, eq→==}
use fjdispatchlite.SharedMem.{MailAtom, SharedRegion, payload_slots}
use fjdispatchlite.SharedMem.Worker.{update_with_data, deliver}
use fjdispatchlite.SharedMem.Notify.Payloads.{IsCarried}

-- A message of the worker's process that has its own payload is delivered with the bytes and the size
-- of that payload, and its slot is the one to be marked.
pub deliver-IsCarried :
    (pid idx obj msg : ℕ) (r : SharedRegion)
    → let mail : MailAtom = record { msg = msg; obj = obj; pid = pid; payload_idx = some idx } in
      IsCarried r.payload mail
      → deliver pid r mail
        ≡ (update_with_data obj msg (r.payload idx).bytes (r.payload idx).size, some idx)
unfolding deliver
deliver-IsCarried pid idx obj msg r c =
    let k = c idx refl in
    rw
      (
        lt→ltb idx payload_slots k.in_range,
        k.pending.used,
        eq→== _ _ k.same_msg,
        eq→== _ _ k.same_pid,
      )
      refl
