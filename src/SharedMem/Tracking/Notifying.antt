-- ===== src/SharedMem/Tracking/Notifying.antt =====
-- fjsharedmem.h: `_notify`, as it adds to the messages that are on their way.
use mathlib.Core.List.{append_assoc, append-nil}
use fjdispatchlite.Prelude.{
  ℕ, ◌+◌, ◌≡◌, refl, ap, sym, ◌∙◌, subst, inl, inr, Bool, true, false, not, ◌&&◌, ◌||◌, some, List,
  [], ◌∷◌, ◌++◌, arith, ltb, ◌==◌, eq→==, ==→eq, ltb→ge, lt→ltb, Bool-cases, Option-cases, take,
  count,
}
use fjdispatchlite.SharedMem.{MailAtom, PayloadAtom, SharedRegion, payload_slots, payload_max}
use fjdispatchlite.SharedMem.Region.{IsWellFormed}
use fjdispatchlite.SharedMem.Notify.{Notice, Sending, Notified, push_mail, send, notify}
use fjdispatchlite.SharedMem.Notify.Slots.{
  Keeps, is_available, outcome, outcome-Allocates, send-Keeps,
}
use fjdispatchlite.SharedMem.Notify.Pushing.{queued, push_mail_lem, push_mail_cases}
use fjdispatchlite.SharedMem.Notify.Queueing.{strip, send_plain, wake_lem, is_addressed}
use fjdispatchlite.SharedMem.Notify.Scan.{
  step_skip, step_send, send_each, is_listened, notify_each, notify-notify_each,
}
use fjdispatchlite.SharedMem.Notify.Payloads.{
  IsCarried, filled, send-filled, send_unfilled, filled-IsWellFormed, filled_carries,
}
use fjdispatchlite.SharedMem.Tracking.{
  holds, has_slot, is_pending, Tracks, Tracks-Keeps, Tracks-insert, Tracks-free,
}

-- A region whose queue has grown at its end, with the messages `rest` that are elsewhere.
pub record Grows (r r' : SharedRegion) (rest : List MailAtom) : Type 0 where
  pub valid : IsWellFormed r'
  pub tracked : Tracks r'.payload (queued r' ++ rest)
  pub added : List MailAtom
  pub appended : queued r' ≡ queued r ++ added

Grows-trans :
    (a b c : SharedRegion) (rest : List MailAtom) → Grows a b rest → Grows b c rest → Grows a c rest
Grows-trans a b c rest x y = record {
  valid = y.valid;
  tracked = y.tracked;
  added = x.added ++ y.added;
  appended =
      y.appended ∙ ap (λ l. l ++ y.added) x.appended ∙ append_assoc (queued a) x.added y.added;
}

Grows-refl :
    (r : SharedRegion) (rest : List MailAtom)
    → IsWellFormed r
    → Tracks r.payload (queued r ++ rest)
    → Grows r r rest
Grows-refl r rest w t = record {
  valid = w;
  tracked = t;
  added = [];
  appended = sym (append-nil (queued r));
}

-- What one push adds, where the payloads that were pending before are kept.
pushed :
    (s : Sending) (m : MailAtom) (p : ℕ → PayloadAtom) (rest : List MailAtom)
    → IsWellFormed s.region
    → Tracks p (queued s.region ++ rest)
    → Keeps p (push_mail s m).region.payload
    → holds s.region.payload m m.payload_idx ≡ true
    → ((idx : ℕ) → has_slot idx m ≡ true → count (has_slot idx) (queued s.region ++ rest) ≡ 0)
    → Grows s.region (push_mail s m).region rest
pushed s m p rest w t k h new =
    let q = (push_mail s m).region.payload in
    let old = Tracks-Keeps p q (queued s.region ++ rest) k t in
    let valid = (push_mail_lem s m w).1 in
    elim (push_mail_cases s m w) [
      | inl e ↦ record {
        valid = valid;
        tracked = subst (λ l. Tracks q (l ++ rest)) (sym e) old;
        added = [];
        appended = e ∙ sym (append-nil (queued s.region));
      }
      | inr (e, f) ↦ record {
        valid = valid;
        tracked =
            subst (λ l. Tracks q (l ++ rest)) (sym e)
              (Tracks-insert q (queued s.region) rest m old
                (ap (λ g. holds g m m.payload_idx) f ∙ h) new);
        added = m ∷ [];
        appended = e;
      }
    ]

available_pending : (now : ℕ) (p : PayloadAtom) → is_available now p ≡ true → is_pending p ≡ false
available_pending now p a = ground arith

module _ (n : Notice) (s : Sending) (i : ℕ) (to : MailAtom) where
  filled-holds :
      (idx : ℕ) (after : ℕ → PayloadAtom)
      → IsCarried (filled n s i to idx after).region.payload (record to { payload_idx = some idx })
      → holds
          (filled n s i to idx after).region.payload
          (record to { payload_idx = some idx })
          (some idx)
        ≡ true
  filled-holds idx after c =
      let k = c idx refl in
      rw
        (
          lt→ltb idx payload_slots k.in_range,
          k.pending.used,
          k.pending.unprocessed,
          eq→== _ _ k.same_msg,
          eq→== _ _ k.same_pid,
        )
        refl

  send-Grows :
      (rest : List MailAtom)
      → IsWellFormed s.region
      → Tracks s.region.payload (queued s.region ++ rest)
      → to.msg ≡ n.msg
      → Grows s.region (send n s i to).region rest
  send-Grows rest w t e = elim (Bool-cases (ltb 0 n.size)) [
    | inr f ↦
        let q = send_plain n s i to (omega (arith, ltb→ge _ _ f)) in
        subst (λ x. Grows s.region x.region rest) (sym q)
          (pushed s (strip to) s.region.payload rest w t
            (subst (λ x. Keeps s.region.payload x.region.payload) q (send-Keeps n s i to)) refl
            (λ idx h. absurd (ground arith)))
    | inl y ↦ elim (Option-cases (outcome (n.alloc_ms i) s.region)) [
      | inl o ↦ rw (send_unfilled n s i to y o) (Grows-refl s.region rest w t)
      | inr ((idx, after), o) ↦
          let q = send-filled n s i to idx after y o in
          let m : MailAtom = record to { payload_idx = some idx } in
          let a = outcome-Allocates (n.alloc_ms i) s.region idx after o in
          let v = filled-IsWellFormed n s i to idx after w in
          let free =
            Tracks-free s.region.payload (queued s.region ++ rest) idx t
              (available_pending (n.alloc_ms i) (s.region.payload idx) a.available) in
          let g =
            pushed (filled n s i to idx after) m s.region.payload rest v t
              (subst (λ x. Keeps s.region.payload x.region.payload) q (send-Keeps n s i to))
              (filled-holds idx after (filled_carries n s i to idx after e a.in_range))
              (λ j h.
                subst (λ k. count (has_slot k) (queued s.region ++ rest) ≡ 0) (==→eq idx j h)
                  free) in
          subst (λ x. Grows s.region x.region rest) (sym q)
            (record {
              valid = g.valid;
              tracked = g.tracked;
              added = g.added;
              appended = g.appended;
            })
    ]
  ]

send_each-Grows :
    (n : Notice) (s : Sending) (i : ℕ) (ms rest : List MailAtom)
    → IsWellFormed s.region
    → Tracks s.region.payload (queued s.region ++ rest)
    → Grows s.region (send_each n s i ms).region rest
unfolding send_each
send_each-Grows n s i [] rest w t = Grows-refl s.region rest w t
send_each-Grows n s i (m ∷ ms) rest w t = elim (Bool-cases (is_addressed n m)) [
  | inr f ↦ rw (step_skip n s i m ms f) (send_each-Grows n s (i + 1) ms rest w t)
  | inl y ↦
      let e : m.msg ≡ n.msg = ground arith in
      let g = send-Grows n s i m rest w t e in
      rw (step_send n s i m ms y) (
        Grows-trans s.region (send n s i m).region (send_each n (send n s i m) (i + 1) ms).region
          rest g (send_each-Grows n (send n s i m) (i + 1) ms rest g.valid g.tracked))
]

notify_each-Grows :
    (n : Notice) (r : SharedRegion) (rest : List MailAtom) (out : Notified)
    → IsWellFormed r
    → Tracks r.payload (queued r ++ rest)
    → notify_each n r (take r.lptr r.listen) ≡ some out
    → Grows r out.region rest
unfolding notify_each
notify_each-Grows n r rest out w t h =
    let ms = take r.lptr r.listen in
    elim (Bool-cases (is_listened n.msg ms)) [
      | inl y ↦
          let start : Sending = record { region = r; msgcount = 0; pids = [] } in
          let g = send_each-Grows n start 0 ms rest w t in
          let (woken, k) = wake_lem (send_each n start 0 ms) g.valid in
          let same : some out
              ≡ some (record {
                region = (send_each n start 0 ms).region;
                woken = woken;
                result = true;
              }) =
            sym h ∙ rw (y, notify_each) k in
          let e : (send_each n start 0 ms).region ≡ out.region = cc in
          subst (λ x. Grows r x rest) e g
      | inr d ↦
          let same : some out ≡ some (record { region = r; woken = []; result = false }) =
            sym h ∙ rw (d, notify_each) refl in
          let e : r ≡ out.region = cc in subst (λ x. Grows r x rest) e (Grows-refl r rest w t)
    ]

-- A notification adds messages at the end of the queue only, each with its own payload slot if it has
-- a payload; the messages that are on their way keep theirs.
pub notify-Grows :
    (n : Notice) (has_buf : Bool) (r : SharedRegion) (rest : List MailAtom) (out : Notified)
    → IsWellFormed r
    → Tracks r.payload (queued r ++ rest)
    → notify n has_buf r ≡ some out
    → Grows r out.region rest
unfolding notify
notify-Grows n has_buf r rest out w t h =
    elim (Bool-cases ((n.from == 0) || (ltb 0 n.size && not has_buf) || ltb payload_max n.size)) [
      | inr f ↦ notify_each-Grows n r rest out w t (sym (notify-notify_each n has_buf r w f) ∙ h)
      | inl y ↦
          let same : some out ≡ some (record { region = r; woken = []; result = false }) =
            sym h ∙ rw y refl in
          let e : r ≡ out.region = cc in subst (λ x. Grows r x rest) e (Grows-refl r rest w t)
    ]
