-- ===== src/SharedMem/System/Payloads.antt =====
-- fjsharedmem.h: the payload of a message from the queue to the call of its object, whatever sections
-- come between.
use fjdispatchlite.Prelude.{
  ℕ, ◌≡◌, refl, ap, sym, ◌∙◌, subst, inl, inr, ◌⊎◌, Bool, true, not, Option, none, some, List, [],
  ◌∷◌, ◌++◌, arith, lt→ltb, eq→==, ==→eq, ◌==◌, Bool-cases, StdSort, keep, count, one_if,
  count-middle,
}
use fjdispatchlite.SharedMem.{MailAtom, PayloadAtom, SharedRegion, SharedMem, payload_slots}
use fjdispatchlite.SharedMem.Notify.{Notified, notify}
use fjdispatchlite.SharedMem.Notify.Slots.{IsPending, Keeps}
use fjdispatchlite.SharedMem.Notify.Pushing.{queued}
use fjdispatchlite.SharedMem.Notify.Pending.{NotifiedKeeps, notify-Keeps}
use fjdispatchlite.SharedMem.Notify.Collection.{profile_and_gc-Keeps}
use fjdispatchlite.SharedMem.Notify.Payloads.{Carries}
use fjdispatchlite.SharedMem.Worker.{update_with_data, is_local, drain, deliver}
use fjdispatchlite.SharedMem.Worker.Cleanup.{drain-Drains}
use fjdispatchlite.SharedMem.Process.{unregister}
use fjdispatchlite.SharedMem.Process.Objects.{
  register-Quiet, add_listen-Quiet, add_listen_list-Quiet, release_process-Quiet,
}
use fjdispatchlite.SharedMem.Process.Ending.{
  end_worker-Quiet, unregister-Quiet, unregister-Unregisters,
}
use fjdispatchlite.SharedMem.Tracking.{holds, is_stray}
use fjdispatchlite.SharedMem.System.{
  World, after_notify, after_drain, after_call, settle, after_mark, after_unregister, Step,
  ends_worker, registers, listens, listens_to_all, notifies, drains, calls, marks, collects,
  releases, unregisters, Reachable,
}
use fjdispatchlite.SharedMem.System.Soundness.{IsSound, count-outstanding}
use fjdispatchlite.SharedMem.System.Reached.{Reachable-IsSound}
use fjdispatchlite.SharedMem.System.Calls.{mark_processed-payload}

pub holds-Carries :
    (p : ℕ → PayloadAtom) (m : MailAtom) (idx : ℕ)
    → holds p m (some idx) ≡ true
    → Carries idx (p idx) m
holds-Carries p m idx h = record {
  in_range = ground arith;
  pending = record { used = ground arith; unprocessed = ground arith };
  same_msg = ==→eq _ _ (ground arith);
  same_pid = ==→eq _ _ (ground arith);
}

module _ (w : World) (i : IsSound w) (before after : List MailAtom) (m : MailAtom) where
  -- No message that a worker has is a stray.
  flying_holds : w.flying ≡ before ++ m ∷ after → holds w.region.payload m m.payload_idx ≡ true
  flying_holds e = elim (Bool-cases (holds w.region.payload m m.payload_idx)) [
    | inl t ↦ t
    | inr f ↦
        let q = is_stray w.region.payload in
        absurd (
          omega (
            arith,
            i.tracked.carried,
            count-outstanding q (queued w.region) w.flying w.called,
            ap (count q) e,
            count-middle q before m after,
            ap (λ (b : Bool). one_if (not b)) f,
          ))
  ]

deliver_atom :
    (r : SharedRegion) (m : MailAtom) (idx : ℕ)
    → m.payload_idx ≡ some idx
    → Carries idx (r.payload idx) m
    → deliver m.pid r m
      ≡ (update_with_data m.obj m.msg (r.payload idx).bytes (r.payload idx).size, some idx)
unfolding deliver
deliver_atom r m idx k c =
    rw
      (
        k,
        lt→ltb idx payload_slots c.in_range,
        c.pending.used,
        eq→== _ _ c.same_msg,
        eq→== _ _ c.same_pid,
      )
      refl

-- Whatever the sections of other processes, workers and objects were, a worker that comes to a message
-- with a payload finds it: the object is called with the bytes and the size that the message's slot
-- holds, and that slot is the one that will be marked.
pub Reachable-deliver :
    (s : StdSort MailAtom) (w : World) (before after : List MailAtom) (m : MailAtom) (idx : ℕ)
    → Reachable s w
    → w.flying ≡ before ++ m ∷ after
    → m.payload_idx ≡ some idx
    → let p = w.region.payload idx in
      deliver m.pid w.region m ≡ (update_with_data m.obj m.msg p.bytes p.size, some idx)
Reachable-deliver s w before after m idx r e k =
    let h = flying_holds w (Reachable-IsSound s w r) before after m e in
    deliver_atom w.region m idx k
      (holds-Carries w.region.payload m idx (subst (λ o. holds w.region.payload m o ≡ true) k h))

-- A worker has marked the payload of a slot, after the call of the message that has the slot.
pub record Marks (w v : World) (idx : ℕ) : Type 0 where
  pub before : List MailAtom
  pub after : List MailAtom
  pub mail : MailAtom
  pub was_called : w.called ≡ before ++ mail ∷ after
  pub slot : mail.payload_idx ≡ some idx
  pub finished : v.done ≡ w.done ++ mail ∷ []

notified :
    (p : ℕ → PayloadAtom) (o : Option Notified) (out : Notified)
    → o ≡ some out
    → NotifiedKeeps p o
    → Keeps p out.region.payload
notified p o out e k = subst (NotifiedKeeps p) e k

same_payload-Keeps : (p q : ℕ → PayloadAtom) → q ≡ p → Keeps p q
same_payload-Keeps p q e = λ j _. ap (λ f. f j) e

settle-region :
    (w : World) (flying : List MailAtom) (m : MailAtom) (o : Option ℕ)
    → (settle w flying m o).region ≡ w.region
unfolding settle
settle-region w flying m none = refl
settle-region w flying m (some idx) = refl

mark_pending :
    (w : World) (before after : List MailAtom) (m : MailAtom) (k now idx : ℕ)
    → w.called ≡ before ++ m ∷ after
    → m.payload_idx ≡ some k
    → ((after_mark w now k before m after).region.payload idx ≡ w.region.payload idx)
      ⊎ Marks w (after_mark w now k before m after) idx
unfolding after_mark
mark_pending w before after m k now idx e f = elim (Bool-cases (idx == k)) [
  | inr n ↦ inl (mark_processed-payload now k w.region idx n)
  | inl t ↦ inr (record {
    before = before;
    after = after;
    mail = m;
    was_called = e;
    slot = f ∙ ap some (sym (==→eq idx k t));
    finished = refl;
  })
]

unregister-payload :
    (s : StdSort MailAtom) (w : World) (self : SharedMem) (r : SharedRegion) (last : Bool)
    → IsSound w
    → unregister s self w.region ≡ some (r, last)
    → r.payload ≡ w.region.payload
unregister-payload s w self r last i h = elim (Bool-cases self.needworker) [
  | inl t ↦ (unregister-Unregisters s self w.region r last i.valid t h).same_payload
  | inr f ↦ (unregister-Quiet s self w.region r last i.valid f h).same_payload
]

drain-payload :
    (s : StdSort MailAtom) (pid : ℕ) (w : World) (r : SharedRegion) (locals : List MailAtom)
    → IsSound w
    → drain s pid w.region ≡ some (r, locals)
    → r.payload ≡ w.region.payload
drain-payload s pid w r locals i h =
    let (q, e, d) = drain-Drains s pid w.region i.valid in
    let same : ◌≡◌ {A = Option (SharedRegion × List MailAtom)}
        (some (q, keep (is_local pid) (queued w.region))) (some (r, locals)) =
      sym e ∙ h in
    let k : q ≡ r = cc in ap (λ x. x.payload) (sym k) ∙ d.same_payload

-- Every section but a mark leaves the payloads that wait alone.
Step-pending :
    (s : StdSort MailAtom) (w v : World) (idx : ℕ)
    → IsSound w
    → Step s w v
    → IsPending (w.region.payload idx)
    → (v.region.payload idx ≡ w.region.payload idx) ⊎ Marks w v idx
unfolding after_notify after_drain after_call after_unregister
Step-pending s w v idx i (registers this pid thread msgs r self h e) p = inl (
    ap (λ x. x.region.payload idx) e
    ∙ ap (λ f. f idx)
        (register-Quiet s this pid thread w.region msgs r self i.valid h).same_payload)
Step-pending s w v idx i (listens self obj msg r ok h e) p = inl (
    ap (λ x. x.region.payload idx) e
    ∙ ap (λ f. f idx) (add_listen-Quiet s self w.region obj msg r ok i.valid h).same_payload)
Step-pending s w v idx i (listens_to_all self obj msgs r ok h e) p = inl (
    ap (λ x. x.region.payload idx) e
    ∙ ap (λ f. f idx) (add_listen_list-Quiet s self w.region obj msgs r ok i.valid h).same_payload)
Step-pending s w v idx i (notifies n has_buf out h e) p = inl (
    ap (λ x. x.region.payload idx) e
    ∙ notified w.region.payload (notify n has_buf w.region) out h (notify-Keeps n has_buf w.region)
        idx p)
Step-pending s w v idx i (drains pid r locals h e) p =
    inl (ap (λ x. x.region.payload idx) e ∙ ap (λ f. f idx) (drain-payload s pid w r locals i h))
Step-pending s w v idx i (calls before after m f e) p = inl (
    ap (λ x. x.region.payload idx) e
    ∙ ap (λ x. x.payload idx) (settle-region w (before ++ after) m (deliver m.pid w.region m).1))
Step-pending s w v idx i (marks before after m k now f g e) p =
    subst (λ x. (x.region.payload idx ≡ w.region.payload idx) ⊎ Marks w x idx) (sym e)
      (mark_pending w before after m k now idx f g)
Step-pending s w v idx i (collects now after e) p =
    inl (ap (λ x. x.region.payload idx) e ∙ profile_and_gc-Keeps now after w.region idx p)
Step-pending s w v idx i (releases self r h e) p = inl (
    ap (λ x. x.region.payload idx) e
    ∙ ap (λ f. f idx) (release_process-Quiet self w.region r i.valid h).same_payload)
Step-pending s w v idx i (ends_worker k r h e) p = inl (
    ap (λ x. x.region.payload idx) e
    ∙ ap (λ f. f idx) (end_worker-Quiet k w.region r i.valid h).same_payload)
Step-pending s w v idx i (unregisters self r last h e) p =
    inl
      (ap (λ x. x.region.payload idx) e ∙ ap (λ f. f idx) (unregister-payload s w self r last i h))

-- In every order of the sections, a payload that waits for its worker is changed by one section only:
-- the mark after the call of a message that has its slot. In particular its bytes stay as they are
-- while the object reads them.
pub Step-Marks :
    (s : StdSort MailAtom) (w v : World) (idx : ℕ)
    → Reachable s w
    → Step s w v
    → IsPending (w.region.payload idx)
    → (v.region.payload idx ≡ w.region.payload idx) ⊎ Marks w v idx
Step-Marks s w v idx r m p = Step-pending s w v idx (Reachable-IsSound s w r) m p
