-- ===== src/SharedMem/Notify/Pushing.antt =====
-- fjsharedmem.h: how `_notify` puts one message into the queue.
use fjdispatchlite.Prelude.{
  ℕ, ◌<◌, ◌≡◌, refl, ap, sym, ◌∙◌, inl, inr, ◌⊎◌, false, Option, none, some, List, [], ◌∷◌, ◌++◌,
  arith, leb, leb→le, leb→gt, Bool-cases, length-append, take, take_all, take-append_left,
}
use fjdispatchlite.FixVector
use fjdispatchlite.FixVector.{FixVector, to_list, push_back}
use fjdispatchlite.FixVector.View.{push_back-full, push_back-IsWellFormed, to_list-push_back}
use fjdispatchlite.SharedMem.{MailAtom, SharedRegion, queue_max, queue_vector, put_queue}
use fjdispatchlite.SharedMem.Region.{
  IsWellFormed, queue_count, queue_vector-IsWellFormed, to_list-queue_vector, queue_capacity,
  length-queued,
}
use fjdispatchlite.SharedMem.Notify.{Sending, push_mail, drop_mail}

-- The messages that wait in a region's queue.
abbrev pub queued : SharedRegion → List MailAtom
queued r = take r.qptr r.queue

drop_mail-queued : (s : Sending) (o : Option ℕ) → queued (drop_mail s o).region ≡ queued s.region
unfolding drop_mail
drop_mail-queued s none = refl
drop_mail-queued s (some idx) = refl

drop_mail-IsWellFormed :
    (s : Sending) (o : Option ℕ) → IsWellFormed s.region → IsWellFormed (drop_mail s o).region
unfolding drop_mail
drop_mail-IsWellFormed s none w = w
drop_mail-IsWellFormed s (some idx) w = record {
  listen_fits = w.listen_fits;
  listen_bounded = w.listen_bounded;
  listen_ordered = w.listen_ordered;
  queue_fits = w.queue_fits;
  queue_bounded = w.queue_bounded;
  table_fits = w.table_fits;
  table_bounded = w.table_bounded;
  table_ascending = w.table_ascending;
}

module _ (s : Sending) (m : MailAtom) (w : IsWellFormed s.region) where
  abbrev waiting : FixVector MailAtom
  waiting = queue_vector s.region

  push_back-capacity : (push_back waiting m).0.capacity ≡ queue_max
  unfolding push_back
  push_back-capacity = elim (Bool-cases (leb waiting.capacity waiting.count)) [
    | inl t ↦ rw t (queue_capacity s.region w)
    | inr f ↦ rw f (queue_capacity s.region w)
  ]

  put_queue-IsWellFormed :
      (q : FixVector MailAtom)
      → fjdispatchlite.FixVector.IsWellFormed q
      → q.capacity ≡ queue_max
      → IsWellFormed (put_queue s.region q)
  unfolding put_queue
  put_queue-IsWellFormed q x c = record {
    listen_fits = w.listen_fits;
    listen_bounded = w.listen_bounded;
    listen_ordered = w.listen_ordered;
    queue_fits = omega (arith, x.fits, c);
    queue_bounded = omega (arith, x.bounded, c);
    table_fits = w.table_fits;
    table_bounded = w.table_bounded;
    table_ascending = w.table_ascending;
  }

  pub push_mail_lem :
      (queued (push_mail s m).region ≡ take queue_max (queued s.region ++ m ∷ []))
      × IsWellFormed (push_mail s m).region
  unfolding push_mail
  push_mail_lem =
      let wv = queue_vector-IsWellFormed s.region w in
      let l = length-queued s.region w in
      let c = queue_count s.region w in
      let k = queue_capacity s.region w in
      elim (Bool-cases (leb queue_max s.region.qptr)) [
        | inl t ↦
            let full : push_back waiting m ≡ (waiting, false) =
              push_back-full waiting m (omega (arith, c, k, leb→le _ _ t)) in
            rw full (
              drop_mail-queued s m.payload_idx
                  ∙ sym (
                      take-append_left queue_max (queued s.region) (m ∷ [])
                        (omega (arith, l, w.queue_bounded, leb→le _ _ t))),
              drop_mail-IsWellFormed s m.payload_idx w,
            )
        | inr f ↦
            let room : waiting.count < waiting.capacity = omega (arith, c, k, leb→gt _ _ f) in
            let p = to_list-push_back waiting m wv room in
            rw p.1 (
              pushed (push_back waiting m).0 (
                  p.0
                  ∙ ap (λ xs. xs ++ m ∷ []) (to_list-queue_vector s.region w)
                  ∙ sym (
                      take_all queue_max (queued s.region ++ m ∷ []) (
                        omega (arith, length-append (queued s.region) (m ∷ []), l, leb→gt _ _ f)))),
              put_queue-IsWellFormed (push_back waiting m).0 (push_back-IsWellFormed waiting m wv)
                  push_back-capacity,
            )
      ]
    where
      pushed :
          (q : FixVector MailAtom)
          → to_list q ≡ take queue_max (queued s.region ++ m ∷ [])
          → queued (put_queue s.region q) ≡ take queue_max (queued s.region ++ m ∷ [])
      pushed q h = unfold put_queue in h

  -- Either the message is in the queue, and the payloads are as they were, or the queue is.
  pub push_mail_cases :
      (queued (push_mail s m).region ≡ queued s.region)
      ⊎ ((queued (push_mail s m).region ≡ queued s.region ++ m ∷ [])
          × ((push_mail s m).region.payload ≡ s.region.payload))
  unfolding push_mail put_queue
  push_mail_cases =
      let wv = queue_vector-IsWellFormed s.region w in
      let c = queue_count s.region w in
      let k = queue_capacity s.region w in
      elim (Bool-cases (leb queue_max s.region.qptr)) [
        | inl t ↦
            let full : push_back waiting m ≡ (waiting, false) =
              push_back-full waiting m (omega (arith, c, k, leb→le _ _ t)) in
            rw full (inl (drop_mail-queued s m.payload_idx))
        | inr f ↦
            let p = to_list-push_back waiting m wv (omega (arith, c, k, leb→gt _ _ f)) in
            rw p.1 (inr (p.0 ∙ ap (λ xs. xs ++ m ∷ []) (to_list-queue_vector s.region w), refl))
      ]
