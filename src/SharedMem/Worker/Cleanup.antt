-- ===== src/SharedMem/Worker/Cleanup.antt =====
-- fjsharedmem.h: the queue after a worker has taken its messages, and the region after an object has
-- been destroyed.
use mathlib.Core.List.Perm
use fjdispatchlite.Prelude.{
  ℕ, ◌≡◌, refl, ap, ◌∙◌, Bool, not, ◌&&◌, some, List, Perm, perm_eq, arith, ◌==◌, take, keep,
  StdSort, IsOrdered,
}
use fjdispatchlite.FixVector
use fjdispatchlite.FixVector.{FixVector, to_list}
use fjdispatchlite.SharedMem.{
  MailAtom, SharedRegion, listen_max, queue_max, listen_vector, queue_vector, put_listen, put_queue,
  by_msg,
}
use fjdispatchlite.SharedMem.Region.{
  IsWellFormed, queue_vector-IsWellFormed, to_list-queue_vector, queue_capacity,
  listen_vector-IsWellFormed, to_list-listen_vector, listen_capacity,
}
use fjdispatchlite.SharedMem.Worker.{is_local, drain, remove_object}
use fjdispatchlite.SharedMem.Worker.Drain.{is_full, extract-Extracts}

-- A vector put back into the region, as the queue and as the table.
put_queue-IsWellFormed :
    (r : SharedRegion) (q : FixVector MailAtom)
    → IsWellFormed r
    → fjdispatchlite.FixVector.IsWellFormed q
    → q.capacity ≡ queue_max
    → IsWellFormed (put_queue r q)
unfolding put_queue
put_queue-IsWellFormed r q w x c = record {
  listen_fits = w.listen_fits;
  listen_bounded = w.listen_bounded;
  listen_ordered = w.listen_ordered;
  queue_fits = omega (arith, x.fits, c);
  queue_bounded = omega (arith, x.bounded, c);
  table_fits = w.table_fits;
  table_bounded = w.table_bounded;
  table_ascending = w.table_ascending;
}

put_listen-IsWellFormed :
    (r : SharedRegion) (q : FixVector MailAtom)
    → IsWellFormed r
    → fjdispatchlite.FixVector.IsWellFormed q
    → q.capacity ≡ listen_max
    → IsOrdered by_msg (to_list q)
    → IsWellFormed (put_listen r q)
unfolding put_listen
put_listen-IsWellFormed r q w x c o = record {
  listen_fits = omega (arith, x.fits, c);
  listen_bounded = omega (arith, x.bounded, c);
  listen_ordered = o;
  queue_fits = w.queue_fits;
  queue_bounded = w.queue_bounded;
  table_fits = w.table_fits;
  table_bounded = w.table_bounded;
  table_ascending = w.table_ascending;
}

-- What stays in a list of atoms from which those that pass a test are taken.
abbrev pub left_by : (MailAtom → Bool) → List MailAtom → List MailAtom
left_by p = keep (λ m. not (p m) && is_full m)

-- The region behind the section of a worker.
pub record Drains (pid : ℕ) (r r' : SharedRegion) : Type 0 where
  pub rest : Perm (take r'.qptr r'.queue) (left_by (is_local pid) (take r.qptr r.queue))
  pub same_listen : (r'.listen ≡ r.listen) × (r'.lptr ≡ r.lptr)
  pub same_payload : r'.payload ≡ r.payload
  pub valid : IsWellFormed r'

-- A worker's section does not fail on a well-formed region. The worker gets exactly the messages of
-- its process, in the order of the queue; the queue keeps each of the others once; the table of
-- listeners and the payloads stay as they are; and the region stays well formed.
pub drain-Drains :
    (s : StdSort MailAtom) (pid : ℕ) (r : SharedRegion)
    → IsWellFormed r
    → (r' : SharedRegion) × (drain s pid r ≡ some (r', keep (is_local pid) (take r.qptr r.queue)))
      × Drains pid r r'
unfolding drain put_queue
drain-Drains s pid r w =
    let t = to_list-queue_vector r w in
    let (v, e, x) =
      extract-Extracts s (is_local pid) (queue_vector r) (queue_vector-IsWellFormed r w) in
    (
      put_queue r v,
      rw e (ap (λ ms. some (put_queue r v, keep (is_local pid) ms)) t),
      record {
        rest = Perm.trans x.rest (perm_eq (ap (left_by (is_local pid)) t));
        same_listen = (refl, refl);
        same_payload = refl;
        valid = put_queue-IsWellFormed r v w x.valid (x.same_capacity ∙ queue_capacity r w);
      },
    )

-- The region behind the destructor of an object.
pub record Removes (this : ℕ) (r r' : SharedRegion) : Type 0 where
  pub queue : Perm (take r'.qptr r'.queue) (left_by (λ m. m.obj == this) (take r.qptr r.queue))
  pub listeners :
      Perm (take r'.lptr r'.listen) (left_by (λ m. m.obj == this) (take r.lptr r.listen))
  pub same_payload : r'.payload ≡ r.payload
  pub same_table : (r'.protbl ≡ r.protbl) × (r'.proptr ≡ r.proptr)
  pub same_count : r'.initialized ≡ r.initialized
  pub valid : IsWellFormed r'

-- The destructor's second section does not fail on a well-formed region. It takes every atom of the
-- object out of the queue and out of the table, keeps each of the others that has a message once,
-- and leaves the payloads and the process table as they are and the region well formed, its table of
-- listeners in order.
pub remove_object-Removes :
    (s : StdSort MailAtom) (this : ℕ) (r : SharedRegion)
    → IsWellFormed r
    → (r' : SharedRegion) × (remove_object s this r ≡ some r') × Removes this r r'
unfolding remove_object put_queue put_listen
remove_object-Removes s this r w =
    let p : MailAtom → Bool = λ m. m.obj == this in
    let (v, e, x) = extract-Extracts s p (queue_vector r) (queue_vector-IsWellFormed r w) in
    let r1 = put_queue r v in
    let w1 = put_queue-IsWellFormed r v w x.valid (x.same_capacity ∙ queue_capacity r w) in
    let (l, f, y) = extract-Extracts s p (listen_vector r1) (listen_vector-IsWellFormed r1 w1) in
    (
      put_listen r1 l,
      rw e (rw f refl),
      record {
        queue = Perm.trans x.rest (perm_eq (ap (left_by p) (to_list-queue_vector r w)));
        listeners = Perm.trans y.rest (perm_eq (ap (left_by p) (to_list-listen_vector r1 w1)));
        same_payload = refl;
        same_table = (refl, refl);
        same_count = refl;
        valid =
            put_listen-IsWellFormed r1 l w1 y.valid (y.same_capacity ∙ listen_capacity r1 w1)
              y.ordered;
      },
    )
