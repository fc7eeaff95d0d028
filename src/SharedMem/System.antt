-- ===== src/SharedMem/System.antt =====
-- fjsharedmem.h: the shared memory with the objects, workers and processes that use it, as a relation
-- of steps. A step is one section under the region's mutex, or the call of an object.
pub mod Soundness
pub mod Sections
pub mod Calls
pub mod Reached
pub mod Payloads
pub mod Lost
mod Tests
use fjdispatchlite.Prelude.{
  ℕ, ◌≡◌, Bool, true, not, ◌&&◌, ◌||◌, Option, none, some, List, [], ◌∷◌, ◌++◌, ◌==◌, keep, drop,
  if◌then◌else◌, StdSort, length, ◌≤◌,
}
use fjdispatchlite.SharedMem.{MailAtom, SharedRegion, SharedMem, init_shared_region}
use fjdispatchlite.SharedMem.Region.{table_capacity}
use fjdispatchlite.SharedMem.Listen.{add_listen, add_listen_list}
use fjdispatchlite.SharedMem.Notify.{Notice, Notified, notify, profile_and_gc}
use fjdispatchlite.SharedMem.Notify.Pushing.{queued}
use fjdispatchlite.SharedMem.Worker.{Delivery, is_local, drain, deliver, mark_processed}
use fjdispatchlite.SharedMem.Worker.Drain.{is_full}
use fjdispatchlite.SharedMem.Process.{register, end_worker, release_process, unregister}

-- The region; the messages that a worker has taken and not yet looked at, and those whose object is
-- called with their payload; and all messages that were put into the queue, whose call was made, and
-- that were taken out of the queue without a call. The code does not keep the last three.
pub record World : Type 0 where
  pub region : SharedRegion
  pub flying : List MailAtom
  pub called : List MailAtom
  pub sent : List MailAtom
  pub done : List MailAtom
  pub gone : List MailAtom

unfoldable pub initial : SharedRegion → World
initial r = record {
  region = init_shared_region r;
  flying = [];
  called = [];
  sent = [];
  done = [];
  gone = [];
}

-- The atoms without a message that a clean-up takes out with those that pass a test.
abbrev pub empties : (MailAtom → Bool) → List MailAtom → List MailAtom
empties p = keep (λ m. not (p m) && not (is_full m))

unfoldable pub after_notify : World → SharedRegion → World
after_notify w r = record w { region = r; sent = w.sent ++ drop w.region.qptr (queued r) }

unfoldable pub after_drain : ℕ → World → SharedRegion → List MailAtom → World
after_drain pid w r locals = record w {
  region = r;
  flying = w.flying ++ locals;
  gone = w.gone ++ empties (is_local pid) (queued w.region);
}

-- A worker calls the object of a message: where it has found the payload, the message is marked
-- later, and there is nothing more to do otherwise.
unfoldable pub settle : World → List MailAtom → MailAtom → Option ℕ → World
settle w flying m none = record w { flying = flying; done = w.done ++ m ∷ [] }
settle w flying m (some idx) = record w { flying = flying; called = w.called ++ m ∷ [] }

unfoldable pub after_call : World → List MailAtom → MailAtom → List MailAtom → World
unfolding settle
after_call w before m after = settle w (before ++ after) m (deliver m.pid w.region m).1

unfoldable pub after_mark : World → ℕ → ℕ → List MailAtom → MailAtom → List MailAtom → World
after_mark w now idx before m after = record w {
  region = mark_processed now idx w.region;
  called = before ++ after;
  done = w.done ++ m ∷ [];
}

unfoldable pub after_unregister : World → SharedMem → SharedRegion → World
after_unregister w self r =
    let p : MailAtom → Bool = λ m. m.obj == self.this in
    record w {
      region = r;
      gone =
          if self.needworker
          then w.gone ++ keep p (queued w.region) ++ empties p (queued w.region)
          else w.gone;
    }

-- The functions of `FJSharedMem`, with what they are given and what they give back.
pub data Step (s : StdSort MailAtom) (w v : World) : Type 0 where
  registers :
      (this pid thread : ℕ) (msgs : List ℕ) (r : SharedRegion) (self : SharedMem)
      → register s this pid thread w.region msgs ≡ some (r, self)
      → v ≡ record w { region = r }
      → Step s w v
  listens :
      (self : SharedMem) (obj msg : ℕ) (r : SharedRegion) (ok : Bool)
      → add_listen s self w.region obj msg ≡ some (r, ok)
      → v ≡ record w { region = r }
      → Step s w v
  listens_to_all :
      (self : SharedMem) (obj : ℕ) (msgs : List ℕ) (r : SharedRegion) (ok : Bool)
      → add_listen_list s self w.region obj msgs ≡ some (r, ok)
      → v ≡ record w { region = r }
      → Step s w v
  notifies :
      (n : Notice) (has_buf : Bool) (out : Notified)
      → notify n has_buf w.region ≡ some out
      → v ≡ after_notify w out.region
      → Step s w v
  drains :
      (pid : ℕ) (r : SharedRegion) (locals : List MailAtom)
      → drain s pid w.region ≡ some (r, locals)
      → v ≡ after_drain pid w r locals
      → Step s w v
  calls :
      (before after : List MailAtom) (m : MailAtom)
      → w.flying ≡ before ++ m ∷ after
      → v ≡ after_call w before m after
      → Step s w v
  marks :
      (before after : List MailAtom) (m : MailAtom) (idx now : ℕ)
      → w.called ≡ before ++ m ∷ after
      → m.payload_idx ≡ some idx
      → v ≡ after_mark w now idx before m after
      → Step s w v
  collects :
      (now after : ℕ) → v ≡ record w { region = profile_and_gc now after w.region } → Step s w v
  releases :
      (self : SharedMem) (r : SharedRegion)
      → release_process self w.region ≡ some r
      → v ≡ record w { region = r }
      → Step s w v
  ends_worker :
      (i : ℕ) (r : SharedRegion)
      → end_worker i w.region ≡ some r
      → v ≡ record w { region = r }
      → Step s w v
  unregisters :
      (self : SharedMem) (r : SharedRegion) (last : Bool)
      → unregister s self w.region ≡ some (r, last)
      → v ≡ after_unregister w self r
      → Step s w v

pub data Reachable (s : StdSort MailAtom) : World → Type 0 where
  starts : (r : SharedRegion) → table_capacity ≤ length r.protbl → Reachable s (initial r)
  moves : {w v : World} → Reachable s w → Step s w v → Reachable s v
