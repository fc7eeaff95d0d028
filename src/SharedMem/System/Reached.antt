-- ===== src/SharedMem/System/Reached.antt =====
-- fjsharedmem.h: what holds of the shared memory in every order of its sections.
use fjdispatchlite.Prelude.{sym, subst, StdSort}
use fjdispatchlite.SharedMem.{MailAtom}
use fjdispatchlite.SharedMem.Process.Objects.{
  register-Quiet, add_listen-Quiet, add_listen_list-Quiet, release_process-Quiet,
}
use fjdispatchlite.SharedMem.Process.Ending.{end_worker-Quiet}
use fjdispatchlite.SharedMem.System.{
  World, Step, registers, listens, listens_to_all, notifies, drains, calls, marks, collects,
  releases, ends_worker, unregisters, Reachable, starts, moves,
}
use fjdispatchlite.SharedMem.System.Soundness.{IsSound, initial-IsSound, Quiet-IsSound}
use fjdispatchlite.SharedMem.System.Sections.{
  after_notify-IsSound, after_unregister-IsSound, drained-IsSound, profile_and_gc-IsSound,
}
use fjdispatchlite.SharedMem.System.Calls.{after_call-IsSound, after_mark-IsSound}

pub Step-IsSound : (s : StdSort MailAtom) (w v : World) → Step s w v → IsSound w → IsSound v
Step-IsSound s w v (registers this pid thread msgs r self h e) i =
    subst IsSound (sym e)
      (Quiet-IsSound w r i (register-Quiet s this pid thread w.region msgs r self i.valid h))
Step-IsSound s w v (listens self obj msg r ok h e) i =
    subst IsSound (sym e)
      (Quiet-IsSound w r i (add_listen-Quiet s self w.region obj msg r ok i.valid h))
Step-IsSound s w v (listens_to_all self obj msgs r ok h e) i =
    subst IsSound (sym e)
      (Quiet-IsSound w r i (add_listen_list-Quiet s self w.region obj msgs r ok i.valid h))
Step-IsSound s w v (notifies n has_buf out h e) i =
    subst IsSound (sym e) (after_notify-IsSound w n has_buf out i h)
Step-IsSound s w v (drains pid r locals h e) i =
    subst IsSound (sym e) (drained-IsSound s pid w r locals i h)
Step-IsSound s w v (calls before after m f e) i =
    subst IsSound (sym e) (after_call-IsSound w i before after m f)
Step-IsSound s w v (marks before after m idx now f k e) i =
    subst IsSound (sym e) (after_mark-IsSound w before after m idx now i f k)
Step-IsSound s w v (collects now after e) i =
    subst IsSound (sym e) (profile_and_gc-IsSound w now after i)
Step-IsSound s w v (releases self r h e) i =
    subst IsSound (sym e) (Quiet-IsSound w r i (release_process-Quiet self w.region r i.valid h))
Step-IsSound s w v (ends_worker i r h e) k =
    subst IsSound (sym e) (Quiet-IsSound w r k (end_worker-Quiet i w.region r k.valid h))
Step-IsSound s w v (unregisters self r last h e) i =
    subst IsSound (sym e) (after_unregister-IsSound s w self r last i h)

-- From a region as it is initialised, every order of the sections of every number of processes,
-- workers and objects leaves the region well formed; every message that is in the queue or with a
-- worker and has a payload has a slot of its own, in which that payload still waits; and each message
-- that was put into the queue is, exactly as often as it was, in the queue, with a worker, delivered,
-- or taken out by the clean-up of an object or as an empty one.
pub Reachable-IsSound : (s : StdSort MailAtom) (w : World) → Reachable s w → IsSound w
Reachable-IsSound s _ (starts r h) = initial-IsSound r h
Reachable-IsSound s _ (moves {w} {v} r m) = Step-IsSound s w v m (Reachable-IsSound s w r)
