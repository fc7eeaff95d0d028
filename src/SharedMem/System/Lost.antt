-- ===== src/SharedMem/System/Lost.antt =====
-- fjsharedmem.h: a payload whose message was taken out of the queue without a call.
use fjdispatchlite.Prelude.{
  ℕ, ◌+◌, ◌<◌, ◌≡◌, refl, ap, ◌∙◌, subst, inl, inr, Bool, true, not, Option, none, some, List, ◌∷◌,
  ◌++◌, arith, lt→ltb, ==→eq, eq→==, ◌==◌, Bool-cases, StdSort, count, one_if, count-cons,
  count-middle,
}
use fjdispatchlite.SharedMem.{MailAtom, payload_slots}
use fjdispatchlite.SharedMem.Notify.Slots.{IsPending}
use fjdispatchlite.SharedMem.Notify.Pushing.{queued}
use fjdispatchlite.SharedMem.Worker.{deliver}
use fjdispatchlite.SharedMem.Tracking.{holds, is_stray, has_slot}
use fjdispatchlite.SharedMem.System.{
  World, after_notify, after_drain, after_call, settle, after_mark, after_unregister, Step,
  ends_worker, registers, listens, listens_to_all, notifies, drains, calls, marks, collects,
  releases, unregisters, Reachable, moves,
}
use fjdispatchlite.SharedMem.System.Soundness.{outstanding, IsSound, count-outstanding}
use fjdispatchlite.SharedMem.System.Reached.{Step-IsSound, Reachable-IsSound}
use fjdispatchlite.SharedMem.System.Calls.{has_slot_of}
use fjdispatchlite.SharedMem.System.Payloads.{Marks, Step-Marks, holds-Carries}

-- What one or more steps lead to.
pub data Later (s : StdSort MailAtom) (w : World) : World → Type 0 where
  now : Later s w w
  later : {u v : World} → Later s w u → Step s u v → Later s w v

-- The world with one message more that is being called, and never marked.
unfoldable haunt : MailAtom → World → World
haunt g w = record w { called = g ∷ w.called; sent = g ∷ w.sent }

settle-haunt :
    (g : MailAtom) (w : World) (flying : List MailAtom) (m : MailAtom) (o : Option ℕ)
    → haunt g (settle w flying m o) ≡ settle (haunt g w) flying m o
unfolding settle haunt
settle-haunt g w flying m none = refl
settle-haunt g w flying m (some idx) = refl

-- No section sees that message.
Step-haunt :
    (s : StdSort MailAtom) (g : MailAtom) (w v : World)
    → Step s w v
    → Step s (haunt g w) (haunt g v)
unfolding haunt after_notify after_drain after_call after_mark after_unregister
Step-haunt s g w v (registers this pid thread msgs r self h e) =
    registers this pid thread msgs r self h (ap (haunt g) e)
Step-haunt s g w v (listens self obj msg r ok h e) = listens self obj msg r ok h (ap (haunt g) e)
Step-haunt s g w v (listens_to_all self obj msgs r ok h e) =
    listens_to_all self obj msgs r ok h (ap (haunt g) e)
Step-haunt s g w v (notifies n has_buf out h e) = notifies n has_buf out h (ap (haunt g) e)
Step-haunt s g w v (drains pid r locals h e) = drains pid r locals h (ap (haunt g) e)
Step-haunt s g w v (calls before after m f e) =
    calls before after m f
      (ap (haunt g) e ∙ settle-haunt g w (before ++ after) m (deliver m.pid w.region m).1)
Step-haunt s g w v (marks before after m idx t f k e) =
    marks (g ∷ before) after m idx t (ap (λ l. g ∷ l) f) k (ap (haunt g) e)
Step-haunt s g w v (collects t after e) = collects t after (ap (haunt g) e)
Step-haunt s g w v (releases self r h e) = releases self r h (ap (haunt g) e)
Step-haunt s g w v (ends_worker i r h e) = ends_worker i r h (ap (haunt g) e)
Step-haunt s g w v (unregisters self r last h e) = unregisters self r last h (ap (haunt g) e)

-- A slot with a payload that waits, and that no message on its way has.
pub record IsLost (w : World) (idx : ℕ) : Type 0 where
  pub in_range : idx < payload_slots
  pub pending : IsPending (w.region.payload idx)
  pub nobody : count (has_slot idx) (outstanding w) ≡ 0

-- The message that it belonged to.
abbrev ghost : World → ℕ → MailAtom
ghost w idx = record {
  msg = (w.region.payload idx).msg;
  obj = 0;
  pid = (w.region.payload idx).to_pid;
  payload_idx = some idx;
}

module _ (w : World) (idx : ℕ) (i : IsSound w) (l : IsLost w idx) where
  ghost-holds : holds w.region.payload (ghost w idx) (some idx) ≡ true
  ghost-holds =
      rw
        (
          lt→ltb idx payload_slots l.in_range,
          l.pending.used,
          l.pending.unprocessed,
          eq→== (w.region.payload idx).msg _ refl,
          eq→== (w.region.payload idx).to_pid _ refl,
        )
        refl

  haunt-outstanding :
      (q : MailAtom → Bool)
      → count q (outstanding (haunt (ghost w idx) w))
        ≡ one_if (q (ghost w idx)) + count q (outstanding w)
  unfolding haunt
  haunt-outstanding q = omega (
    arith,
    count-outstanding q (queued w.region) w.flying (ghost w idx ∷ w.called),
    count-outstanding q (queued w.region) w.flying w.called,
    count-cons q (ghost w idx) w.called,
  )

  haunt-IsSound : IsSound (haunt (ghost w idx) w)
  haunt-IsSound = record {
    valid = unfold haunt in i.valid;
    tracked =
        unfold haunt in
        record {
          carried = omega (
            arith,
            haunt-outstanding (is_stray w.region.payload),
            i.tracked.carried,
            ap (λ (b : Bool). one_if (not b)) ghost-holds,
          );
          sole = λ k. elim (Bool-cases (idx == k)) [
            | inl t ↦
                let z : count (has_slot k) (outstanding w) ≡ 0 =
                  subst (λ x. count (has_slot x) (outstanding w) ≡ 0) (==→eq idx k t) l.nobody in
                omega (arith, haunt-outstanding (has_slot k), z, ap one_if t)
            | inr f ↦ omega (arith, haunt-outstanding (has_slot k), i.tracked.sole k, ap one_if f)
          ];
        };
    balanced =
        unfold haunt in
        λ p. omega (arith, i.balanced p, haunt-outstanding p, count-cons p (ghost w idx) w.sent);
  }

-- Where the world with the message more is sound, the slot is lost.
exorcised :
    (v : World) (g : MailAtom) (idx : ℕ)
    → g.payload_idx ≡ some idx
    → IsSound (haunt g v)
    → IsLost v idx
unfolding haunt
exorcised v g idx k i =
    let total : (q : MailAtom → Bool)
        → count q (queued v.region ++ (v.flying ++ (g ∷ v.called)))
          ≡ one_if (q g) + count q (outstanding v) =
      λ q. omega (
        arith,
        count-outstanding q (queued v.region) v.flying (g ∷ v.called),
        count-outstanding q (queued v.region) v.flying v.called,
        count-cons q g v.called,
      ) in
    let here : holds v.region.payload g g.payload_idx ≡ true =
      elim (Bool-cases (holds v.region.payload g g.payload_idx)) [
        | inl t ↦ t
        | inr f ↦ absurd (
            omega (
              arith,
              i.tracked.carried,
              total (is_stray v.region.payload),
              ap (λ (b : Bool). one_if (not b)) f,
            ))
      ] in
    let c =
      holds-Carries v.region.payload g idx
        (subst (λ o. holds v.region.payload g o ≡ true) k here) in
    record {
      in_range = c.in_range;
      pending = c.pending;
      nobody =
          omega (arith, i.tracked.sole idx, total (has_slot idx), ap one_if (has_slot_of g idx k));
    }

Step-IsLost :
    (s : StdSort MailAtom) (w v : World) (idx : ℕ)
    → IsSound w
    → Step s w v
    → IsLost w idx
    → IsLost v idx
Step-IsLost s w v idx i m l = exorcised v (ghost w idx) idx refl (
    Step-IsSound s (haunt (ghost w idx) w) (haunt (ghost w idx) v)
      (Step-haunt s (ghost w idx) w v m) (haunt-IsSound w idx i l))

-- Nobody marks a lost slot.
not_marked : (w v : World) (idx : ℕ) → IsLost w idx → Marks w v idx → ⊥
not_marked w v idx l m = absurd (
    omega (
      arith,
      l.nobody,
      count-outstanding (has_slot idx) (queued w.region) w.flying w.called,
      ap (count (has_slot idx)) m.was_called,
      count-middle (has_slot idx) m.before m.mail m.after,
      ap one_if (has_slot_of m.mail idx m.slot),
    ))

Later-Reachable : (s : StdSort MailAtom) (w v : World) → Reachable s w → Later s w v → Reachable s v
Later-Reachable s w _ r now = r
Later-Reachable s w _ r (later {u} {v} m t) = moves (Later-Reachable s w u r m) t

-- A payload that waits in a slot which no message on its way has stays there in every order of the
-- sections: it is never called, marked or freed, and the slot is not used again, neither by
-- `_allocPayloadSlot` nor after `profileAndGC`.
pub Later-IsLost :
    (s : StdSort MailAtom) (w v : World) (idx : ℕ)
    → Reachable s w
    → Later s w v
    → IsLost w idx
    → IsLost v idx × (v.region.payload idx ≡ w.region.payload idx)
Later-IsLost s w _ idx r now l = (l, refl)
Later-IsLost s w _ idx r (later {u} {v} m t) l =
    let (k, e) = Later-IsLost s w u idx r m l in
    let ru = Later-Reachable s w u r m in
    let n = Step-IsLost s u v idx (Reachable-IsSound s u ru) t k in
    elim (Step-Marks s u v idx ru t k.pending) [
      | inl same ↦ (n, same ∙ e)
      | inr marked ↦ absurd (not_marked u v idx k marked)
    ]
