-- ===== src/SharedMem/Notify/Pending.antt =====
-- fjsharedmem.h: the payloads that wait, over a whole call of `_notify`.
use fjdispatchlite.Prelude.{
  ℕ, zero, suc, ◌+◌, ◌-◌, refl, inl, inr, Bool, true, false, not, ◌&&◌, ◌||◌, Option, none, some,
  List, [], ltb, ◌==◌, if◌then◌else◌, Bool-cases, Option-cases,
}
use fjdispatchlite.FixVector.{FixVector, at}
use fjdispatchlite.SharedMem.{
  MailAtom, PayloadAtom, SharedRegion, ProAtom, payload_max, listen_vector, process_table,
}
use fjdispatchlite.FixMap.{FixMap, ◌>>=◌}
use fjdispatchlite.SharedMem.Notify.{
  Notice, Sending, send, send_loop, wake, notify_from, broadcast, lower_bound, Notified, send_all,
  notify,
}
use fjdispatchlite.SharedMem.Notify.Slots.{Keeps, Keeps-trans, send-Keeps}

abbrev pub KeepsIn : (ℕ → PayloadAtom) → Option Sending → Type 0
KeepsIn before none = Unit
KeepsIn before (some s) = Keeps before s.region.payload

KeepsIn-trans : (a b : ℕ → PayloadAtom) (o : Option Sending) → Keeps a b → KeepsIn b o → KeepsIn a o
KeepsIn-trans a b none h k = tt
KeepsIn-trans a b (some s) h k = Keeps-trans a b s.region.payload h k

send_loop-Keeps :
    (n : Notice) (listen : FixVector MailAtom) (s : Sending) (i rounds : ℕ)
    → KeepsIn s.region.payload (send_loop n listen s i rounds)
unfolding send_loop
send_loop-Keeps n listen s i zero = λ j w. refl
send_loop-Keeps n listen s i (suc rounds) = elim (Option-cases (at listen i)) [
  | inl x ↦ rw x tt
  | inr (to, x) ↦ elim (Bool-cases (not (to.msg == n.msg))) [
    | inl t ↦ rw (x, t) (λ j w. refl)
    | inr f ↦ elim (Bool-cases (to.obj == n.from)) [
      | inl o ↦ rw (x, f, o) (send_loop-Keeps n listen s (i + 1) rounds)
      | inr d ↦
          rw (x, f, d)
            (KeepsIn-trans _ _ (send_loop n listen (send n s i to) (i + 1) rounds)
              (send-Keeps n s i to) (send_loop-Keeps n listen (send n s i to) (i + 1) rounds))
    ]
  ]
]

-- What a call may give back, seen on the payloads.
abbrev pub NotifiedKeeps : (ℕ → PayloadAtom) → Option Notified → Type 0
NotifiedKeeps before none = Unit
NotifiedKeeps before (some r) = Keeps before r.region.payload

finish_Keeps :
    (before : ℕ → PayloadAtom) (s : Sending) (o : Option (List ℕ))
    → Keeps before s.region.payload
    → NotifiedKeeps before
        (o >>= λ woken. some (record { region = s.region; woken = woken; result = true }))
finish_Keeps before s none h = tt
finish_Keeps before s (some woken) h = h

table_Keeps :
    (before : ℕ → PayloadAtom) (s : Sending) (o : Option (FixMap ProAtom))
    → Keeps before s.region.payload
    → NotifiedKeeps before (
        o >>= λ m. broadcast m s.pids >>= λ woken.
        some (record { region = s.region; woken = woken; result = true }))
table_Keeps before s none h = tt
table_Keeps before s (some m) h = finish_Keeps before s (broadcast m s.pids) h

wake_Keeps :
    (before : ℕ → PayloadAtom) (o : Option Sending)
    → KeepsIn before o
    → NotifiedKeeps before (o >>= λ s. wake s)
unfolding wake
wake_Keeps before none h = tt
wake_Keeps before (some s) h = elim (Bool-cases (ltb 0 s.msgcount)) [
  | inl t ↦ rw t (table_Keeps before s (process_table s.region) h)
  | inr f ↦ rw f h
]

send_all-Keeps :
    (n : Notice) (r : SharedRegion) (start : ℕ) → NotifiedKeeps r.payload (send_all n r start)
unfolding send_all
send_all-Keeps n r start =
    wake_Keeps r.payload _ (send_loop-Keeps n (listen_vector r) _ start (r.lptr - start))

found_Keeps :
    (n : Notice) (r : SharedRegion) (left : ℕ) (o : Option MailAtom)
    → NotifiedKeeps r.payload (
        o >>= λ m.
        if m.msg == n.msg
        then send_all n r left
        else some (record { region = r; woken = []; result = false }))
found_Keeps n r left none = tt
found_Keeps n r left (some m) = elim (Bool-cases (m.msg == n.msg)) [
  | inl t ↦ rw t (send_all-Keeps n r left)
  | inr f ↦ rw f (λ j w. refl)
]

bound_Keeps :
    (n : Notice) (r : SharedRegion) (o : Option ℕ)
    → NotifiedKeeps r.payload (o >>= λ left. notify_from n r left)
unfolding notify_from
bound_Keeps n r none = tt
bound_Keeps n r (some left) = elim (Bool-cases (ltb left r.lptr)) [
  | inl t ↦ rw t (found_Keeps n r left (at (listen_vector r) left))
  | inr f ↦ rw f (λ j w. refl)
]

-- A notification leaves every payload that waits for its worker as it is, whatever the listeners,
-- the queue and the slots hold.
pub notify-Keeps :
    (n : Notice) (has_buf : Bool) (r : SharedRegion) → NotifiedKeeps r.payload (notify n has_buf r)
unfolding notify
notify-Keeps n has_buf r =
    elim (Bool-cases ((n.from == 0) || (ltb 0 n.size && not has_buf) || ltb payload_max n.size)) [
      | inl t ↦ rw t (λ j w. refl)
      | inr f ↦ rw f (bound_Keeps n r (lower_bound (listen_vector r) n.msg r.lptr 0 r.lptr))
    ]
