-- ===== src/SharedMem/Tracking.antt =====
-- fjsharedmem.h: the messages that are on their way, whether they wait in the queue or a worker has
-- them, and their payload slots.
pub mod Notifying
use mathlib.Core.List.{append_assoc}
use fjdispatchlite.Prelude.{
  ℕ, zero, suc, ◌+◌, ◌<◌, ◌≤◌, ◌≡◌, refl, ap, sym, ◌∙◌, subst, inl, inr, Bool, true, false, not,
  ◌&&◌, ◌||◌, Option, none, some, List, [], ◌∷◌, ◌++◌, arith, ltb, ◌==◌, ==→eq, eq→==, ltb→ge,
  ltb→lt, lt→ltb, Bool-cases, Option-cases, take, count, one_if, count-append, count-cons,
  count_mono,
}
use fjdispatchlite.SharedMem.{MailAtom, PayloadAtom, SharedRegion, payload_slots, payload_max}
use fjdispatchlite.SharedMem.Region.{IsWellFormed}
use fjdispatchlite.SharedMem.Notify.{Notice, Sending, Notified, push_mail, send, notify}
use fjdispatchlite.SharedMem.Notify.Slots.{
  IsPending, Keeps, is_available, outcome, Allocates, outcome-Allocates, send-Keeps,
}
use fjdispatchlite.SharedMem.Notify.Pushing.{queued, push_mail_lem, push_mail_cases}
use fjdispatchlite.SharedMem.Notify.Queueing.{strip, send_plain, wake_lem, is_addressed}
use fjdispatchlite.SharedMem.Notify.Scan.{
  step_skip, step_send, send_each, is_listened, notify_each, notify-notify_each,
}
use fjdispatchlite.SharedMem.Notify.Payloads.{
  Carries, filled, send-filled, send_unfilled, filled-IsWellFormed, filled_carries,
}

-- A payload in use that waits for its worker, of the message and for its process.
abbrev pub holds : (ℕ → PayloadAtom) → MailAtom → Option ℕ → Bool
holds p m none = true
holds p m (some idx) =
    ltb idx payload_slots
    && (p idx).in_use
    && not (p idx).processed
    && ((p idx).msg == m.msg)
    && ((p idx).to_pid == m.pid)

-- A message whose payload is not in its slot.
abbrev pub is_stray : (ℕ → PayloadAtom) → MailAtom → Bool
is_stray p m = not (holds p m m.payload_idx)

abbrev is_slot : ℕ → Option ℕ → Bool
is_slot idx none = false
is_slot idx (some j) = j == idx

-- A message with its payload in a slot.
abbrev pub has_slot : ℕ → MailAtom → Bool
has_slot idx m = is_slot idx m.payload_idx

-- No message has lost its payload, and no two messages have the same slot.
pub record Tracks (p : ℕ → PayloadAtom) (ms : List MailAtom) : Type 0 where
  pub carried : count (is_stray p) ms ≡ 0
  pub sole : (idx : ℕ) → count (has_slot idx) ms ≤ 1

abbrev pub is_pending : PayloadAtom → Bool
is_pending p = p.in_use && not p.processed

Keeps-pending :
    (p q : ℕ → PayloadAtom) (idx : ℕ) → Keeps p q → is_pending (p idx) ≡ true → q idx ≡ p idx
Keeps-pending p q idx k h = k idx (record { used = ground arith; unprocessed = ground arith })

holds-Keeps :
    (p q : ℕ → PayloadAtom) (m : MailAtom) (o : Option ℕ)
    → Keeps p q
    → holds p m o ≡ true
    → holds q m o ≡ true
holds-Keeps p q m none k h = refl
holds-Keeps p q m (some idx) k h = let e = Keeps-pending p q idx k (ground arith) in rw e h

is_stray-Keeps :
    (p q : ℕ → PayloadAtom) (m : MailAtom) → Keeps p q → is_stray q m ≡ true → is_stray p m ≡ true
is_stray-Keeps p q m k h = elim (Bool-cases (holds p m m.payload_idx)) [
  | inr f ↦ rw f refl
  | inl t ↦ absurd (ground (arith, holds-Keeps p q m m.payload_idx k t))
]

pub Tracks-Keeps :
    (p q : ℕ → PayloadAtom) (ms : List MailAtom) → Keeps p q → Tracks p ms → Tracks q ms
Tracks-Keeps p q ms k t = record {
  carried =
      omega (
        arith,
        t.carried,
        count_mono (is_stray q) (is_stray p) (λ m h. is_stray-Keeps p q m k h) ms,
      );
  sole = t.sole;
}

-- No message that is on its way has a slot that is not pending.
stray_of_slot :
    (p : ℕ → PayloadAtom) (idx : ℕ) (m : MailAtom) (o : Option ℕ)
    → is_pending (p idx) ≡ false
    → is_slot idx o ≡ true
    → not (holds p m o) ≡ true
stray_of_slot p idx m none f h = absurd (ground arith)
stray_of_slot p idx m (some j) f h =
    let e = ==→eq j idx h in subst (λ k. not (holds p m (some k)) ≡ true) (sym e) (ground arith)

pub Tracks-free :
    (p : ℕ → PayloadAtom) (ms : List MailAtom) (idx : ℕ)
    → Tracks p ms
    → is_pending (p idx) ≡ false
    → count (has_slot idx) ms ≡ 0
Tracks-free p ms idx t f = omega (
  arith,
  t.carried,
  count_mono (has_slot idx) (is_stray p) (λ m h. stray_of_slot p idx m m.payload_idx f h) ms,
)

-- A message more, whose slot no other one has.
pub Tracks-insert :
    (p : ℕ → PayloadAtom) (ms rest : List MailAtom) (m : MailAtom)
    → Tracks p (ms ++ rest)
    → holds p m m.payload_idx ≡ true
    → ((idx : ℕ) → has_slot idx m ≡ true → count (has_slot idx) (ms ++ rest) ≡ 0)
    → Tracks p ((ms ++ m ∷ []) ++ rest)
Tracks-insert p ms rest m t h new = record {
  carried = omega (arith, total (is_stray p), t.carried, ap (λ (b : Bool). one_if (not b)) h);
  sole = λ idx. elim (Bool-cases (has_slot idx m)) [
    | inl y ↦ omega (arith, total (has_slot idx), new idx y, ap one_if y)
    | inr n ↦ omega (arith, total (has_slot idx), t.sole idx, ap one_if n)
  ];
}
  where
    total :
        (q : MailAtom → Bool)
        → count q ((ms ++ m ∷ []) ++ rest) ≡ one_if (q m) + count q (ms ++ rest)
    total q = omega (
      arith,
      count-append q (ms ++ m ∷ []) rest,
      count-append q ms (m ∷ []),
      count-cons q m [],
      count-append q ms rest,
    )
