-- ===== src/SharedMem/Notify/Payloads.antt =====
-- fjsharedmem.h: the messages that wait with a payload, and their slots.
use fjdispatchlite.Prelude.{
  ℕ, ◌+◌, ◌<◌, ◌≡◌, refl, sym, subst, inl, inr, Bool, true, false, not, ◌&&◌, ◌||◌, none, some,
  List, [], ◌∷◌, arith, ltb, ◌==◌, eq→==, ltb→ge, Bool-cases, Option-cases, take, All, All-map,
  All-append,
}
use fjdispatchlite.SharedMem.{MailAtom, PayloadAtom, SharedRegion, payload_slots, payload_max}
use fjdispatchlite.Dispatch.{update}
use fjdispatchlite.SharedMem.Region.{IsWellFormed}
use fjdispatchlite.SharedMem.Notify.{
  Notice, Sending, Notified, push_mail, fill_payload, send_payload, send, notify,
}
use fjdispatchlite.SharedMem.Notify.Slots.{
  IsPending, Keeps, outcome, outcome-Allocates, alloc_none, alloc_some, send-Keeps,
}
use fjdispatchlite.SharedMem.Notify.Pushing.{queued, push_mail_lem, push_mail_cases}
use fjdispatchlite.SharedMem.Notify.Queueing.{strip, send_plain, wake_lem, is_addressed}
use fjdispatchlite.SharedMem.Notify.Scan.{
  step_skip, step_send, send_each, is_listened, notify_each, notify-notify_each,
}

-- A payload that belongs to a message and waits for its worker.
pub record Carries (idx : ℕ) (p : PayloadAtom) (m : MailAtom) : Type 0 where
  pub in_range : idx < payload_slots
  pub pending : IsPending p
  pub same_msg : p.msg ≡ m.msg
  pub same_pid : p.to_pid ≡ m.pid

abbrev pub IsCarried : (ℕ → PayloadAtom) → MailAtom → Type 0
IsCarried payload m = (idx : ℕ) → m.payload_idx ≡ some idx → Carries idx (payload idx) m

-- Every waiting message with a payload has its own.
abbrev pub AreCarried : SharedRegion → Type 0
AreCarried r = All (IsCarried r.payload) (queued r)

still-IsCarried :
    (p q : ℕ → PayloadAtom) (ms : List MailAtom)
    → Keeps p q
    → All (IsCarried p) ms
    → All (IsCarried q) ms
still-IsCarried p q ms k a =
    All-map _ _
      (λ m f idx e. subst (λ x. Carries idx x m) (sym (k idx (f idx e).pending)) (f idx e)) ms a

-- What a push keeps, where the payload of the message is in its slot.
pushed :
    (s : Sending) (m : MailAtom) (p : ℕ → PayloadAtom)
    → IsWellFormed s.region
    → All (IsCarried p) (queued s.region)
    → Keeps p (push_mail s m).region.payload
    → IsCarried s.region.payload m
    → AreCarried (push_mail s m).region
pushed s m p w a k c =
    let old = still-IsCarried p (push_mail s m).region.payload (queued s.region) k a in
    elim (push_mail_cases s m w) [
      | inl e ↦ subst (All (IsCarried (push_mail s m).region.payload)) (sym e) old
      | inr (e, f) ↦
          subst (All (IsCarried (push_mail s m).region.payload)) (sym e)
            (All-append _ (queued s.region) (m ∷ []) old (subst (λ q. IsCarried q m) (sym f) c, tt))
    ]

module _ (n : Notice) (s : Sending) (i : ℕ) (to : MailAtom) where
  -- The state in which the message with its payload is pushed.
  abbrev pub filled : ℕ → (ℕ → PayloadAtom) → Sending
  filled idx after = record s {
    region = record s.region {
      payload_alloc_hint = idx + 1;
      payload = update after idx (fill_payload n i to (after idx));
    };
  }

  pub send-filled :
      (idx : ℕ) (after : ℕ → PayloadAtom)
      → ltb 0 n.size ≡ true
      → outcome (n.alloc_ms i) s.region ≡ some (idx, after)
      → send n s i to ≡ push_mail (filled idx after) (record to { payload_idx = some idx })
  unfolding send send_payload
  send-filled idx after t e = rw (t, alloc_some (n.alloc_ms i) s.region idx after e) refl

  pub send_unfilled :
      ltb 0 n.size ≡ true → outcome (n.alloc_ms i) s.region ≡ none → send n s i to ≡ s
  unfolding send send_payload
  send_unfilled t e = rw (t, alloc_none (n.alloc_ms i) s.region e) refl

  pub filled-IsWellFormed :
      (idx : ℕ) (after : ℕ → PayloadAtom)
      → IsWellFormed s.region
      → IsWellFormed (filled idx after).region
  filled-IsWellFormed idx after w = record {
    listen_fits = w.listen_fits;
    listen_bounded = w.listen_bounded;
    listen_ordered = w.listen_ordered;
    queue_fits = w.queue_fits;
    queue_bounded = w.queue_bounded;
    table_fits = w.table_fits;
    table_bounded = w.table_bounded;
    table_ascending = w.table_ascending;
  }

  pub filled_carries :
      (idx : ℕ) (after : ℕ → PayloadAtom)
      → to.msg ≡ n.msg
      → idx < payload_slots
      → IsCarried (filled idx after).region.payload (record to { payload_idx = some idx })
  unfolding fill_payload
  filled_carries idx after e b j h =
      let k : idx ≡ j = ground arith in
      let f = fill_payload n i to (after idx) in
      subst (λ x. Carries x (update after idx f x) (record to { payload_idx = some idx })) k
        (rw (eq→== idx idx refl) (record {
          in_range = b;
          pending = record { used = refl; unprocessed = refl };
          same_msg = sym e;
          same_pid = refl;
        }))

  send-AreCarried :
      IsWellFormed s.region
      → AreCarried s.region
      → to.msg ≡ n.msg
      → AreCarried (send n s i to).region × IsWellFormed (send n s i to).region
  send-AreCarried w a e = elim (Bool-cases (ltb 0 n.size)) [
    | inr f ↦
        let q = send_plain n s i to (omega (arith, ltb→ge _ _ f)) in
        subst (λ x. AreCarried x.region × IsWellFormed x.region) (sym q)
          (
            pushed s (strip to) s.region.payload w a
                (subst (λ x. Keeps s.region.payload x.region.payload) q (send-Keeps n s i to))
                (λ idx h. absurd (ground arith)),
            (push_mail_lem s (strip to) w).1,
          )
    | inl t ↦ elim (Option-cases (outcome (n.alloc_ms i) s.region)) [
      | inl o ↦ rw (send_unfilled t o) (a, w)
      | inr ((idx, after), o) ↦
          let q = send-filled idx after t o in
          let m : MailAtom = record to { payload_idx = some idx } in
          let v = filled-IsWellFormed idx after w in
          subst (λ x. AreCarried x.region × IsWellFormed x.region) (sym q)
            (
              pushed (filled idx after) m s.region.payload v a
                  (subst (λ x. Keeps s.region.payload x.region.payload) q (send-Keeps n s i to))
                  (filled_carries idx after e
                    (outcome-Allocates (n.alloc_ms i) s.region idx after o).in_range),
              (push_mail_lem (filled idx after) m v).1,
            )
    ]
  ]

send_each-AreCarried :
    (n : Notice) (s : Sending) (i : ℕ) (ms : List MailAtom)
    → IsWellFormed s.region
    → AreCarried s.region
    → AreCarried (send_each n s i ms).region × IsWellFormed (send_each n s i ms).region
unfolding send_each
send_each-AreCarried n s i [] w a = (a, w)
send_each-AreCarried n s i (m ∷ ms) w a = elim (Bool-cases (is_addressed n m)) [
  | inr f ↦ rw (step_skip n s i m ms f) (send_each-AreCarried n s (i + 1) ms w a)
  | inl t ↦
      let e : m.msg ≡ n.msg = ground arith in
      let (c, v) = send-AreCarried n s i m w a e in
      rw (step_send n s i m ms t) (send_each-AreCarried n (send n s i m) (i + 1) ms v c)
]

-- On a well-formed region where every waiting message with a payload has its own, a call of
-- `_notify` whose arguments are in order does not fail, and leaves such a region: a payload in use,
-- not yet processed, of the message and for the process that it is sent to.
pub notify-AreCarried :
    (n : Notice) (has_buf : Bool) (r : SharedRegion)
    → IsWellFormed r
    → AreCarried r
    → ((n.from == 0) || (ltb 0 n.size && not has_buf) || ltb payload_max n.size) ≡ false
    → (out : Notified) × (notify n has_buf r ≡ some out)
      × AreCarried out.region
      × IsWellFormed out.region
unfolding notify_each
notify-AreCarried n has_buf r w a h =
    let g = notify-notify_each n has_buf r w h in
    let ms = take r.lptr r.listen in
    elim (Bool-cases (is_listened n.msg ms)) [
      | inl t ↦
          let start : Sending = record { region = r; msgcount = 0; pids = [] } in
          let (c, v) = send_each-AreCarried n start 0 ms w a in
          let (woken, k) = wake_lem (send_each n start 0 ms) v in
          (
            record { region = (send_each n start 0 ms).region; woken = woken; result = true },
            rw (g, notify_each, t) k,
            c,
            v,
          )
      | inr d ↦
          (record { region = r; woken = []; result = false }, rw (g, notify_each, d) refl, a, w)
    ]
