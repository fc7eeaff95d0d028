-- ===== src/SharedMem/System/Calls.antt =====
-- fjsharedmem.h: the call of an object and the mark behind it, as they leave the messages that are on
-- their way.
use fjdispatchlite.Prelude.{
  ℕ, ◌+◌, ◌≡◌, refl, ap, sym, subst, inl, inr, Bool, true, false, not, ◌&&◌, ◌||◌, Option, none,
  some, List, [], ◌∷◌, ◌++◌, arith, ltb, ◌==◌, eq→==, Bool-cases, count, one_if, count-append,
  count-cons, count-middle, count-or,
}
use fjdispatchlite.SharedMem.{MailAtom, PayloadAtom, SharedRegion}
use fjdispatchlite.SharedMem.Region.{IsWellFormed, any_payload-IsWellFormed}
use fjdispatchlite.SharedMem.Notify.Pushing.{queued}
use fjdispatchlite.SharedMem.Worker.{deliver, mark_processed}
use fjdispatchlite.SharedMem.Tracking.{holds, is_stray, has_slot, Tracks}
use fjdispatchlite.SharedMem.System.{World, settle, after_call, after_mark}
use fjdispatchlite.SharedMem.System.Soundness.{outstanding, IsSound, Tracks-le, count-outstanding}

module _ (w : World) (i : IsSound w) (before after : List MailAtom) (m : MailAtom) where
  -- The message has been called without a payload, and is not on its way any more.
  called_plain :
      w.flying ≡ before ++ m ∷ after
      → IsSound (record w { flying = before ++ after; done = w.done ++ m ∷ [] })
  called_plain e = record {
    valid = i.valid;
    tracked =
        Tracks-le w.region.payload (outstanding w)
          (queued w.region ++ ((before ++ after) ++ w.called))
          (λ q. omega (
            arith,
            count-outstanding q (queued w.region) w.flying w.called,
            count-outstanding q (queued w.region) (before ++ after) w.called,
            ap (count q) e,
            count-middle q before m after,
          ))
          i.tracked;
    balanced = λ p. omega (
      arith,
      i.balanced p,
      count-outstanding p (queued w.region) w.flying w.called,
      count-outstanding p (queued w.region) (before ++ after) w.called,
      ap (count p) e,
      count-middle p before m after,
      count-append p w.done (m ∷ []),
      count-cons p m [],
    );
  }

  called_with_payload :
      w.flying ≡ before ++ m ∷ after
      → IsSound (record w { flying = before ++ after; called = w.called ++ m ∷ [] })
  called_with_payload e =
      let same : (q : MailAtom → Bool)
          → count q (queued w.region ++ ((before ++ after) ++ (w.called ++ m ∷ [])))
            ≡ count q (outstanding w) =
        λ q. omega (
          arith,
          count-outstanding q (queued w.region) w.flying w.called,
          count-outstanding q (queued w.region) (before ++ after) (w.called ++ m ∷ []),
          ap (count q) e,
          count-middle q before m after,
          count-append q w.called (m ∷ []),
          count-cons q m [],
        ) in
      record {
        valid = i.valid;
        tracked =
            Tracks-le w.region.payload (outstanding w)
              (queued w.region ++ ((before ++ after) ++ (w.called ++ m ∷ [])))
              (λ q. omega (arith, same q)) i.tracked;
        balanced = λ p. omega (arith, i.balanced p, same p);
      }

  settle-IsSound :
      (o : Option ℕ) → w.flying ≡ before ++ m ∷ after → IsSound (settle w (before ++ after) m o)
  unfolding settle
  settle-IsSound none e = called_plain e
  settle-IsSound (some idx) e = called_with_payload e

  pub after_call-IsSound : w.flying ≡ before ++ m ∷ after → IsSound (after_call w before m after)
  unfolding after_call
  after_call-IsSound e = settle-IsSound (deliver m.pid w.region m).1 e

-- The payloads after a message is marked: only its own slot has changed.
pub mark_processed-payload :
    (now idx : ℕ) (r : SharedRegion) (j : ℕ)
    → (j == idx) ≡ false
    → (mark_processed now idx r).payload j ≡ r.payload j
unfolding mark_processed
mark_processed-payload now idx r j f = elim (Bool-cases (r.payload idx).in_use) [
  | inl t ↦ rw (t, f) refl
  | inr g ↦ rw g refl
]

holds_elsewhere :
    (p q : ℕ → PayloadAtom) (idx : ℕ) (m : MailAtom) (o : Option ℕ)
    → ((j : ℕ) → (j == idx) ≡ false → q j ≡ p j)
    → not (holds q m o) ≡ true
    → (not (holds p m o) || elim o [ none ↦ false | some j ↦ j == idx ]) ≡ true
holds_elsewhere p q idx m none k h = absurd (ground arith)
holds_elsewhere p q idx m (some j) k h = elim (Bool-cases (j == idx)) [
  | inl t ↦ ground (arith, t)
  | inr f ↦
      let e : not (holds p m (some j)) ≡ true =
        subst
          (λ x.
            not
              (ltb j 384 && x.in_use && not x.processed && (x.msg == m.msg) && (x.to_pid == m.pid))
            ≡ true)
          (k j f) h in
      rw e refl
]

Tracks-elsewhere :
    (p q : ℕ → PayloadAtom) (idx : ℕ) (ms : List MailAtom)
    → ((j : ℕ) → (j == idx) ≡ false → q j ≡ p j)
    → count (has_slot idx) ms ≡ 0
    → Tracks p ms
    → Tracks q ms
Tracks-elsewhere p q idx ms k z t = record {
  carried = omega (
    arith,
    t.carried,
    z,
    count-or (is_stray q) (is_stray p) (has_slot idx)
        (λ m h. ground (arith, holds_elsewhere p q idx m m.payload_idx k h)) ms,
  );
  sole = t.sole;
}

pub has_slot_of : (m : MailAtom) (idx : ℕ) → m.payload_idx ≡ some idx → has_slot idx m ≡ true
has_slot_of m idx e = rw (e, has_slot) (eq→== idx idx refl)

-- The region after a mark, but for its payloads.
mark_processed-queued :
    (now idx : ℕ) (r : SharedRegion)
    → IsWellFormed r
    → (queued (mark_processed now idx r) ≡ queued r) × IsWellFormed (mark_processed now idx r)
unfolding mark_processed
mark_processed-queued now idx r w = (refl, any_payload-IsWellFormed r r.initialized _ w)

pub after_mark-IsSound :
    (w : World) (before after : List MailAtom) (m : MailAtom) (idx now : ℕ)
    → IsSound w
    → w.called ≡ before ++ m ∷ after
    → m.payload_idx ≡ some idx
    → IsSound (after_mark w now idx before m after)
unfolding after_mark
after_mark-IsSound w before after m idx now i e k =
    let (sq, valid) = mark_processed-queued now idx w.region i.valid in
    let left = queued w.region ++ (w.flying ++ (before ++ after)) in
    let counts : (q : MailAtom → Bool) → count q (outstanding w) ≡ one_if (q m) + count q left =
      λ q. omega (
        arith,
        count-outstanding q (queued w.region) w.flying w.called,
        count-outstanding q (queued w.region) w.flying (before ++ after),
        ap (count q) e,
        count-middle q before m after,
      ) in
    let none_left : count (has_slot idx) left ≡ 0 =
      omega (arith, counts (has_slot idx), i.tracked.sole idx, ap one_if (has_slot_of m idx k)) in
    record {
      valid = valid;
      tracked =
          subst
            (λ l.
              Tracks (mark_processed now idx w.region).payload
                (l ++ (w.flying ++ (before ++ after))))
            (sym sq)
            (Tracks-elsewhere w.region.payload (mark_processed now idx w.region).payload idx left
              (mark_processed-payload now idx w.region) none_left
              (Tracks-le w.region.payload (outstanding w) left (λ q. omega (arith, counts q))
                i.tracked));
      balanced = λ p. omega (
        arith,
        i.balanced p,
        counts p,
        ap (λ l. count p (l ++ (w.flying ++ (before ++ after)))) sq,
        count-append p w.done (m ∷ []),
        count-cons p m [],
      );
    }
