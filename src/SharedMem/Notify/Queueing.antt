-- ===== src/SharedMem/Notify/Queueing.antt =====
-- fjsharedmem.h: what a notification without a payload puts into the queue.
use mathlib.Core.List.{append_assoc, append-nil}
use fjdispatchlite.Prelude.{
  ℕ, ◌+◌, ◌≡◌, refl, ap, sym, ◌∙◌, inl, inr, Bool, true, false, not, ◌&&◌, none, some, List, [],
  ◌∷◌, ◌++◌, map, arith, ltb, ◌==◌, Bool-cases, Option-cases, take, take_all, take-append-take,
  get_elem?-of_take, keep, keep_yes, keep_no,
}
use fjdispatchlite.FixMap
use fjdispatchlite.FixMap.{FixMap, ◌>>=◌, find, index_of}
use fjdispatchlite.FixMap.Search.{find-index_of}
use fjdispatchlite.FixMap.Laws.{index_of-get}
use fjdispatchlite.SharedMem.{MailAtom, ProAtom, SharedRegion, queue_max}
use fjdispatchlite.SharedMem.Region.{IsWellFormed, length-queued, process_table_lem}
use fjdispatchlite.SharedMem.Notify.{
  Notice, Sending, Notified, push_mail, send, broadcast, wake, notify,
}
use fjdispatchlite.SharedMem.Notify.Pushing.{queued, push_mail_lem}
use fjdispatchlite.SharedMem.Notify.Scan.{
  step_skip, step_send, send_each, is_listened, notify_each, notify-notify_each,
}

-- A message without a payload.
abbrev pub strip : MailAtom → MailAtom
strip to = record to { payload_idx = none }

-- Whether the loop sends to an atom.
abbrev pub is_addressed : Notice → MailAtom → Bool
is_addressed n m = (m.msg == n.msg) && not (m.obj == n.from)

pub send_plain :
    (n : Notice) (s : Sending) (i : ℕ) (to : MailAtom)
    → n.size ≡ 0
    → send n s i to ≡ push_mail s (strip to)
unfolding send
send_plain n s i to e = rw e refl

send_each_lem :
    (n : Notice) (s : Sending) (i : ℕ) (ms : List MailAtom)
    → n.size ≡ 0
    → IsWellFormed s.region
    → (queued (send_each n s i ms).region
        ≡ take queue_max (queued s.region ++ map strip (keep (is_addressed n) ms)))
      × IsWellFormed (send_each n s i ms).region
unfolding send_each
send_each_lem n s i [] e w = (
  sym (
      ap (take queue_max) (append-nil (queued s.region))
      ∙ take_all queue_max (queued s.region)
          (omega (arith, length-queued s.region w, w.queue_bounded))),
  w,
)
send_each_lem n s i (m ∷ ms) e w = elim (Bool-cases (is_addressed n m)) [
  | inr f ↦
      rw (step_skip n s i m ms f, keep_no (is_addressed n) m ms f)
        (send_each_lem n s (i + 1) ms e w)
  | inl t ↦
      let p = push_mail_lem s (strip m) w in
      let c = send_plain n s i m e in
      let r = send_each_lem n (push_mail s (strip m)) (i + 1) ms e p.1 in
      rw (step_send n s i m ms t, c, keep_yes (is_addressed n) m ms t)
        (
          r.0
              ∙ ap (λ xs. take queue_max (xs ++ map strip (keep (is_addressed n) ms))) p.0
              ∙ take-append-take queue_max (queued s.region ++ strip m ∷ []) _
              ∙ ap (take queue_max) (append_assoc (queued s.region) (strip m ∷ []) _),
          r.1,
        )
]

-- The broadcast finds its way through the process table.
broadcast_lem :
    (m : FixMap ProAtom) (ks : List ℕ)
    → fjdispatchlite.FixMap.IsWellFormed m
    → (woken : List ℕ) × (broadcast m ks ≡ some woken)
unfolding broadcast
broadcast_lem m [] w = ([], refl)
broadcast_lem m (k ∷ ks) w =
    let (rest, r) = broadcast_lem m ks w in
    let f = find-index_of m k w in
    elim (Option-cases (index_of k (fjdispatchlite.FixMap.to_list m))) [
      | inl e ↦ (rest, rw (f, e, r) refl)
      | inr (i, e) ↦
          let (x, g, q) = index_of-get m w k i e in
          let h = get_elem?-of_take m.count i m.entries x g in
          elim (Bool-cases (x.value.running && not x.value.worker_done)) [
            | inl t ↦ (k ∷ rest, rw (f, e, h, t, r) refl)
            | inr d ↦ (rest, rw (f, e, h, d, r) refl)
          ]
    ]

pub wake_lem :
    (s : Sending)
    → IsWellFormed s.region
    → (woken : List ℕ) × (wake s
        ≡ some (record { region = s.region; woken = woken; result = true }))
unfolding wake
wake_lem s w =
    let (m, e, v) = process_table_lem s.region w in
    let (woken, b) = broadcast_lem m s.pids v in
    elim (Bool-cases (ltb 0 s.msgcount)) [
      | inl t ↦ (woken, rw (t, e) (rw b refl))
      | inr f ↦ ([], rw f refl)
    ]

nobody :
    (n : Notice) (ms : List MailAtom) → is_listened n.msg ms ≡ false → keep (is_addressed n) ms ≡ []
unfolding is_listened
nobody n [] h = refl
nobody n (m ∷ ms) h = elim (Bool-cases (m.msg == n.msg)) [
  | inl t ↦ absurd (ground arith)
  | inr f ↦ rw (f, keep) (nobody n ms (ground arith))
]

-- What a notification leaves.
pub record Queues (n : Notice) (r : SharedRegion) (out : Notified) : Type 0 where
  pub messages :
      queued out.region
      ≡ take queue_max (queued r ++ map strip (keep (is_addressed n) (take r.lptr r.listen)))
  pub returned : out.result ≡ is_listened n.msg (take r.lptr r.listen)
  pub valid : IsWellFormed out.region

-- On a well-formed region a notification without a payload does not fail. It puts one message for
-- each listener of its message but the sender behind those that wait, as far as 384 fit; it returns
-- whether there is a listener; and the region stays well formed.
pub notify-Queues :
    (n : Notice) (has_buf : Bool) (r : SharedRegion)
    → IsWellFormed r
    → n.size ≡ 0
    → (n.from == 0) ≡ false
    → (out : Notified) × (notify n has_buf r ≡ some out) × Queues n r out
unfolding notify_each
notify-Queues n has_buf r w e f =
    let g = notify-notify_each n has_buf r w (rw (e, f) refl) in
    let ms = take r.lptr r.listen in
    elim (Bool-cases (is_listened n.msg ms)) [
      | inl t ↦
          let start : Sending = record { region = r; msgcount = 0; pids = [] } in
          let (q, v) = send_each_lem n start 0 ms e w in
          let (woken, k) = wake_lem (send_each n start 0 ms) v in
          (
            record { region = (send_each n start 0 ms).region; woken = woken; result = true },
            rw (g, notify_each, t) k,
            record { messages = q; returned = sym t; valid = v },
          )
      | inr d ↦ (
        record { region = r; woken = []; result = false },
        rw (g, notify_each, d) refl,
        record {
          messages = sym (
              ap (λ l. take queue_max (queued r ++ map strip l)) (nobody n ms d)
              ∙ ap (take queue_max) (append-nil (queued r))
              ∙ take_all queue_max (queued r) (omega (arith, length-queued r w, w.queue_bounded)));
          returned = sym d;
          valid = w;
        },
      )
    ]
