-- ===== src/SharedMem/System/Soundness.antt =====
-- fjsharedmem.h: the messages on their way, in one state of the shared memory.
use fjdispatchlite.Prelude.{
  ℕ, ◌+◌, ◌≤◌, ◌≡◌, refl, ap, sym, ◌∙◌, subst, Bool, List, ◌++◌, arith, length, count, count-append,
}
use fjdispatchlite.SharedMem.{MailAtom, PayloadAtom, SharedRegion, init_shared_region}
use fjdispatchlite.SharedMem.Region.{IsWellFormed, table_capacity, init_shared_region-IsWellFormed}
use fjdispatchlite.SharedMem.Notify.Pushing.{queued}
use fjdispatchlite.SharedMem.Process.Objects.{Quiet}
use fjdispatchlite.SharedMem.Tracking.{is_stray, has_slot, Tracks}
use fjdispatchlite.SharedMem.System.{World, initial}

-- The messages that are on their way.
abbrev pub outstanding : World → List MailAtom
outstanding w = queued w.region ++ (w.flying ++ w.called)

-- The region is well formed, every message on its way with a payload has a slot of its own in which
-- the payload still is, and every message that was put into the queue is, as often as it was, on its
-- way, called, or taken out without a call.
pub record IsSound (w : World) : Type 0 where
  pub valid : IsWellFormed w.region
  pub tracked : Tracks w.region.payload (outstanding w)
  pub balanced :
      (p : MailAtom → Bool)
      → count p w.sent ≡ count p (outstanding w) + count p w.done + count p w.gone

pub Tracks-le :
    (p : ℕ → PayloadAtom) (ms ns : List MailAtom)
    → ((q : MailAtom → Bool) → count q ns ≤ count q ms)
    → Tracks p ms
    → Tracks p ns
Tracks-le p ms ns h t = record {
  carried = omega (arith, h (is_stray p), t.carried);
  sole = λ idx. omega (arith, h (has_slot idx), t.sole idx);
}

-- The messages on their way, counted by where they are.
pub count-outstanding :
    (q : MailAtom → Bool) (a b c : List MailAtom)
    → count q (a ++ (b ++ c)) ≡ count q a + count q b + count q c
count-outstanding q a b c = omega (arith, count-append q a (b ++ c), count-append q b c)

pub initial-IsSound : (r : SharedRegion) → table_capacity ≤ length r.protbl → IsSound (initial r)
unfolding initial init_shared_region
initial-IsSound r h = record {
  valid = unfold init_shared_region in init_shared_region-IsWellFormed r h;
  tracked = record { carried = refl; sole = λ idx. omega arith };
  balanced = λ p. refl;
}

-- A section that leaves the queue and the payloads alone.
pub Quiet-IsSound :
    (w : World) (r : SharedRegion)
    → IsSound w
    → Quiet w.region r
    → IsSound (record w { region = r })
Quiet-IsSound w r i q = record {
  valid = q.valid;
  tracked =
      subst (λ l. Tracks r.payload (l ++ (w.flying ++ w.called))) (sym q.same_queued)
        (subst (λ p. Tracks p (outstanding w)) (sym q.same_payload) i.tracked);
  balanced = λ p.
      i.balanced p
      ∙ ap (λ l. count p (l ++ (w.flying ++ w.called)) + count p w.done + count p w.gone)
          (sym q.same_queued);
}
