-- ===== src/SharedMem/System/Sections.antt =====
-- fjsharedmem.h: `_notify`, the worker's section, the destructor and `profileAndGC`, each as it leaves
-- the messages that are on their way.
use fjdispatchlite.Prelude.{
  ℕ, ◌+◌, ◌≡◌, refl, ap, sym, ◌∙◌, subst, inl, inr, Bool, Option, some, List, ◌++◌, arith, ◌==◌,
  Bool-cases, drop, keep, drop-append_left, StdSort, count, count-append, count-perm, count-split,
}
use fjdispatchlite.SharedMem.{MailAtom, SharedRegion, SharedMem}
use fjdispatchlite.SharedMem.Region.{IsWellFormed, any_payload-IsWellFormed, length-queued}
use fjdispatchlite.SharedMem.Notify.{Notice, Notified, notify, profile_and_gc}
use fjdispatchlite.SharedMem.Notify.Pushing.{queued}
use fjdispatchlite.SharedMem.Notify.Collection.{profile_and_gc-Keeps}
use fjdispatchlite.SharedMem.Worker.{is_local, drain}
use fjdispatchlite.SharedMem.Worker.Drain.{is_full}
use fjdispatchlite.SharedMem.Worker.Cleanup.{Drains, drain-Drains, left_by}
use fjdispatchlite.SharedMem.Process.{unregister}
use fjdispatchlite.SharedMem.Process.Ending.{unregister-Quiet, unregister-Unregisters}
use fjdispatchlite.SharedMem.Tracking.{Tracks, Tracks-Keeps}
use fjdispatchlite.SharedMem.Tracking.Notifying.{notify-Grows}
use fjdispatchlite.SharedMem.System.{World, empties, after_notify, after_drain, after_unregister}
use fjdispatchlite.SharedMem.System.Soundness.{
  outstanding, IsSound, Tracks-le, count-outstanding, Quiet-IsSound,
}

pub after_notify-IsSound :
    (w : World) (n : Notice) (has_buf : Bool) (out : Notified)
    → IsSound w
    → notify n has_buf w.region ≡ some out
    → IsSound (after_notify w out.region)
unfolding after_notify
after_notify-IsSound w n has_buf out i h =
    let g = notify-Grows n has_buf w.region (w.flying ++ w.called) out i.valid i.tracked h in
    let new : drop w.region.qptr (queued out.region) ≡ g.added =
      ap (drop w.region.qptr) g.appended
      ∙ drop-append_left w.region.qptr (queued w.region) g.added (length-queued w.region i.valid) in
    record {
      valid = g.valid;
      tracked = g.tracked;
      balanced = λ p. omega (
        arith,
        i.balanced p,
        count-append p w.sent (drop w.region.qptr (queued out.region)),
        ap (count p) new,
        count-outstanding p (queued w.region) w.flying w.called,
        count-outstanding p (queued out.region) w.flying w.called,
        ap (count p) g.appended,
        count-append p (queued w.region) g.added,
      );
    }

after_drain-IsSound :
    (s : StdSort MailAtom) (pid : ℕ) (w : World) (r : SharedRegion)
    → IsSound w
    → Drains pid w.region r
    → IsSound (after_drain pid w r (keep (is_local pid) (queued w.region)))
unfolding after_drain
after_drain-IsSound s pid w r i d =
    let old = queued w.region in
    let locals = keep (is_local pid) old in
    let rest : (p : MailAtom → Bool) → count p (queued r) ≡ count p (left_by (is_local pid) old) =
      λ p. count-perm p d.rest in
    record {
      valid = d.valid;
      tracked =
          subst (λ p. Tracks p (queued r ++ ((w.flying ++ locals) ++ w.called)))
            (sym d.same_payload)
            (Tracks-le w.region.payload (outstanding w)
              (queued r ++ ((w.flying ++ locals) ++ w.called))
              (λ q. omega (
                arith,
                rest q,
                count-split q (is_local pid) is_full old,
                count-outstanding q old w.flying w.called,
                count-outstanding q (queued r) (w.flying ++ locals) w.called,
                count-append q w.flying locals,
              ))
              i.tracked);
      balanced = λ p. omega (
        arith,
        i.balanced p,
        rest p,
        count-split p (is_local pid) is_full old,
        count-outstanding p old w.flying w.called,
        count-outstanding p (queued r) (w.flying ++ locals) w.called,
        count-append p w.flying locals,
        count-append p w.gone (empties (is_local pid) old),
      );
    }

pub after_unregister-IsSound :
    (s : StdSort MailAtom) (w : World) (self : SharedMem) (r : SharedRegion) (last : Bool)
    → IsSound w
    → unregister s self w.region ≡ some (r, last)
    → IsSound (after_unregister w self r)
unfolding after_unregister
after_unregister-IsSound s w self r last i h = elim (Bool-cases self.needworker) [
  | inr f ↦
      let g = Quiet-IsSound w r i (unregister-Quiet s self w.region r last i.valid f h) in
      rw f (record { valid = g.valid; tracked = g.tracked; balanced = g.balanced })
  | inl t ↦
      let u = unregister-Unregisters s self w.region r last i.valid t h in
      let old = queued w.region in
      let own : MailAtom → Bool = λ m. m.obj == self.this in
      let rest : (p : MailAtom → Bool) → count p (queued r) ≡ count p (left_by own old) =
        λ p. count-perm p u.queue in
      rw t (record {
        valid = u.valid;
        tracked =
            subst (λ p. Tracks p (queued r ++ (w.flying ++ w.called))) (sym u.same_payload)
              (Tracks-le w.region.payload (outstanding w) (queued r ++ (w.flying ++ w.called))
                (λ q. omega (
                  arith,
                  rest q,
                  count-split q own is_full old,
                  count-outstanding q old w.flying w.called,
                  count-outstanding q (queued r) w.flying w.called,
                ))
                i.tracked);
        balanced = λ p. omega (
          arith,
          i.balanced p,
          rest p,
          count-split p own is_full old,
          count-outstanding p old w.flying w.called,
          count-outstanding p (queued r) w.flying w.called,
          count-append p w.gone (keep own old),
          count-append p (w.gone ++ keep own old) (empties own old),
        );
      })
]

profile_and_gc-queued :
    (now after : ℕ) (r : SharedRegion)
    → IsWellFormed r
    → (queued (profile_and_gc now after r) ≡ queued r) × IsWellFormed (profile_and_gc now after r)
unfolding profile_and_gc
profile_and_gc-queued now after r w = (refl, any_payload-IsWellFormed r r.initialized _ w)

pub profile_and_gc-IsSound :
    (w : World) (now after : ℕ)
    → IsSound w
    → IsSound (record w { region = profile_and_gc now after w.region })
profile_and_gc-IsSound w now after i =
    let k = profile_and_gc-Keeps now after w.region in
    let (sq, valid) = profile_and_gc-queued now after w.region i.valid in
    record {
      valid = valid;
      tracked =
          subst
            (λ l. Tracks (profile_and_gc now after w.region).payload (l ++ (w.flying ++ w.called)))
            (sym sq)
            (Tracks-Keeps w.region.payload (profile_and_gc now after w.region).payload
              (outstanding w) k i.tracked);
      balanced = λ p.
          i.balanced p
          ∙ ap (λ l. count p (l ++ (w.flying ++ w.called)) + count p w.done + count p w.gone)
              (sym sq);
    }

pub drained-IsSound :
    (s : StdSort MailAtom) (pid : ℕ) (w : World) (r : SharedRegion) (locals : List MailAtom)
    → IsSound w
    → drain s pid w.region ≡ some (r, locals)
    → IsSound (after_drain pid w r locals)
drained-IsSound s pid w r locals i h =
    let (q, e, d) = drain-Drains s pid w.region i.valid in
    let same : ◌≡◌ {A = Option (SharedRegion × List MailAtom)}
        (some (q, keep (is_local pid) (queued w.region))) (some (r, locals)) =
      sym e ∙ h in
    let k : q ≡ r = cc in
    let l : keep (is_local pid) (queued w.region) ≡ locals = cc in
    subst (λ x. IsSound (after_drain pid w x locals)) k
      (subst (λ ls. IsSound (after_drain pid w q ls)) l (after_drain-IsSound s pid w q i d))
