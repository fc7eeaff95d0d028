-- ===== src/SharedMem/Process/Lifespan.antt =====
-- fjsharedmem.h: an object from its constructor to its destructor.
use mathlib.Core.List.{append-nil}
use mathlib.Core.List.Perm
use fjdispatchlite.Prelude.{
  ℕ, ◌+◌, ◌-◌, ◌%◌, ◌<◌, ◌≡◌, refl, ap, sym, ◌∙◌, subst, inl, inr, Bool, true, false, not, ◌&&◌,
  Option, none, some, List, [], ◌∷◌, ◌++◌, Perm, perm_eq, arith, ltb, ltb→ge, ◌==◌, Bool-cases,
  Option-cases, length, take, keep-append, keep-All, keep_none, keep-perm, All, All-map, StdSort,
  u32_mod,
}
use fjdispatchlite.FixMap.Laws.{lookup}
use fjdispatchlite.SharedMem.{MailAtom, SharedRegion, SharedMem}
use fjdispatchlite.SharedMem.Region.{IsWellFormed, any_payload-IsWellFormed}
use fjdispatchlite.SharedMem.Listen.Table.{
  Registers, spec_add, spec_add-extends, add_messages-Registers,
}
use fjdispatchlite.SharedMem.Worker.Drain.{is_full}
use fjdispatchlite.SharedMem.Worker.Cleanup.{left_by, remove_object-Removes}
use fjdispatchlite.SharedMem.Notify.Pushing.{queued}
use fjdispatchlite.SharedMem.Process.{retain_process, register, release_process, unregister}
use fjdispatchlite.SharedMem.Process.Table.{processes}
use fjdispatchlite.SharedMem.Process.Lifecycle.{release_process-Assigns}
use fjdispatchlite.SharedMem.Process.Returning.{IsCounted, back_again}
use fjdispatchlite.SharedMem.Process.Objects.{one_more, one_less, retain_process-some}

abbrev pub listeners : SharedRegion → List MailAtom
listeners r = take r.lptr r.listen

-- No atom of the object, and none without a message.
abbrev pub IsNew : ℕ → List MailAtom → Type 0
IsNew this = All (λ m. ((m.obj == this) ≡ false) × (is_full m ≡ true))

-- Two regions in use alike, up to the order in their arrays.
pub record Restores (r r' : SharedRegion) : Type 0 where
  pub same_listeners : Perm (listeners r') (listeners r)
  pub same_queue : Perm (queued r') (queued r)
  pub same_processes : (j : ℕ) → lookup j (processes r') ≡ lookup j (processes r)
  pub same_count : r'.initialized ≡ r.initialized
  pub valid : IsWellFormed r'

abbrev is_own : ℕ → MailAtom → Bool
is_own this m = m.obj == this

left_by-IsNew : (this : ℕ) (ms : List MailAtom) → IsNew this ms → left_by (is_own this) ms ≡ ms
left_by-IsNew this ms n =
    keep-All (λ m. not (is_own this m) && is_full m) ms
      (All-map _ _ (λ m h. let a = h.0 in let b = h.1 in ground arith) ms n)

left_by-own :
    (this : ℕ) (ms ys : List MailAtom)
    → IsNew this ms
    → All (λ m. is_own this m ≡ true) ys
    → left_by (is_own this) (ms ++ ys) ≡ ms
left_by-own this ms ys n a =
    keep-append (λ m. not (is_own this m) && is_full m) ms ys
    ∙ ap (λ l. l ++ left_by (is_own this) ys) (left_by-IsNew this ms n)
    ∙ ap (λ l. ms ++ l)
        (keep_none (λ m. not (is_own this m) && is_full m) ys
          (All-map _ _ (λ m h. ground arith) ys a))
    ∙ append-nil ms

no_elements : (ys : List MailAtom) → length ys ≡ 0 → ys ≡ []
no_elements [] e = refl
no_elements (y ∷ ys) e = absurd (omega arith)

counted_back : (n : ℕ) → n + 1 < u32_mod → ((n + 1) % u32_mod + (u32_mod - 1)) % u32_mod ≡ n
counted_back n h = omega arith

-- The destructor of an object, run on the region that its constructor left.
pub record Undoes (s : StdSort MailAtom) (self : SharedMem) (r r1 : SharedRegion) : Type 0 where
  pub between : SharedRegion
  pub after : SharedRegion
  pub released : release_process self r1 ≡ some between
  pub unregistered : unregister s self between ≡ some (after, r.initialized == 0)
  pub restored : Restores r after

module _ (s : StdSort MailAtom) (this pid thread : ℕ) (r : SharedRegion) (msgs : List ℕ)
    (small : r.initialized + 1 < u32_mod) (new : IsNew this (listeners r))
    (new_queued : IsNew this (queued r)) (counted : IsCounted (lookup pid (processes r))) where
  abbrev object : Bool → SharedMem
  object listens = record { this = this; pid = pid; needworker = listens }

  -- The object listens to nothing, so that neither section has anything to do but to count.
  undo_silent :
      (a : SharedRegion) → Registers r a (listeners r) 0 → Undoes s (object false) r (one_more a)
  undo_silent a x =
      let c : (one_less (one_more a)).initialized ≡ r.initialized =
        ap (λ n. ((n + 1) % u32_mod + (u32_mod - 1)) % u32_mod) x.same_count
        ∙ counted_back r.initialized small in
      record {
        between = one_more a;
        after = one_less (one_more a);
        released = unfold release_process in refl;
        unregistered = unfold unregister in ap (λ n. some (one_less (one_more a), n == 0)) c;
        restored = record {
          same_listeners = x.listeners;
          same_queue = perm_eq (cc (x.same_queue.0, x.same_queue.1));
          same_processes = λ j. ap (lookup j) (cc (x.same_table.0, x.same_table.1));
          same_count = c;
          valid = any_payload-IsWellFormed a _ a.payload x.valid;
        };
      }

  undo_listener :
      (a b : SharedRegion) (ys : List MailAtom) (n : ℕ)
      → Registers r a (listeners r ++ ys) n
      → All (λ m. is_own this m ≡ true) ys
      → retain_process pid thread a ≡ some b
      → Undoes s (object true) r (one_more b)
  undo_listener a b ys n x own k =
      let t = retain_process-some pid thread a b x.valid k in
      let q = one_more b in
      let wq = any_payload-IsWellFormed b q.initialized b.payload t.valid in
      let (c, e, u) = release_process-Assigns (object true) q wq refl in
      let (d, f, y) = remove_object-Removes s this c u.valid in
      let table : processes a ≡ processes r = cc (x.same_table.0, x.same_table.1) in
      let lc : listeners c ≡ listeners a =
        cc (u.same_listen.0, u.same_listen.1, t.same_listen.0, t.same_listen.1) in
      let qc : queued c ≡ queued r = cc (
        u.same_queue.0, u.same_queue.1, t.same_queue.0, t.same_queue.1, x.same_queue.0,
        x.same_queue.1,
      ) in
      let count : (one_less d).initialized ≡ r.initialized =
        ap (λ i. (i + (u32_mod - 1)) % u32_mod) (y.same_count ∙ u.same_count)
        ∙ ap (λ i. ((i + 1) % u32_mod + (u32_mod - 1)) % u32_mod) (t.same_count ∙ x.same_count)
        ∙ counted_back r.initialized small in
      record {
        between = c;
        after = one_less d;
        released = e;
        unregistered = unfold unregister in rw f (ap (λ i. some (one_less d, i == 0)) count);
        restored = record {
          same_listeners = Perm.trans y.listeners (
              Perm.trans (perm_eq (ap (left_by (is_own this)) lc)) (
                Perm.trans (keep-perm (λ m. not (is_own this m) && is_full m) x.listeners)
                  (perm_eq (left_by-own this (listeners r) ys new own))));
          same_queue =
              Perm.trans y.queue (
                perm_eq (ap (left_by (is_own this)) qc ∙ left_by-IsNew this (queued r) new_queued));
          same_processes = λ j.
              ap (lookup j) (cc (y.same_table.0, y.same_table.1))
              ∙ back_again a b q c pid thread t refl u
                  (subst (λ l. IsCounted (lookup pid l)) (sym table) counted) j
              ∙ ap (lookup j) table;
          same_count = count;
          valid = any_payload-IsWellFormed d _ d.payload y.valid;
        };
      }

  -- An object that is destroyed right after it was made. Where the constructor did not fail, on a
  -- well-formed region in which nothing is the object's and no atom is empty, with less than 2^32 - 1
  -- objects and the users of its process counted without a wrap, neither section of the destructor
  -- fails; the listeners and the waiting messages are those of before, up to their order; every
  -- process's entry and the number of objects are as they were; the region is well formed; and it is to
  -- be unlinked exactly where there was no object before.
  pub register-unregister :
      (r1 : SharedRegion) (self : SharedMem)
      → IsWellFormed r
      → register s this pid thread r msgs ≡ some (r1, self)
      → Undoes s self r r1
  unfolding register
  register-unregister r1 self w h =
      let (a, e, x) = add_messages-Registers s pid r this msgs w in
      let (ys, l, own, n) = spec_add-extends this pid (listeners r) msgs 0 in
      let regi = (spec_add this pid (listeners r) msgs 0).1 in
      elim (Bool-cases (ltb 0 regi)) [
        | inr f ↦
            let none_added : ys ≡ [] = no_elements ys (omega (arith, n, ltb→ge _ _ f)) in
            let same : (spec_add this pid (listeners r) msgs 0).0 ≡ listeners r =
              l ∙ ap (λ z. listeners r ++ z) none_added ∙ append-nil (listeners r) in
            let zero_regi : regi ≡ 0 = omega (arith, ltb→ge _ _ f) in
            undone (one_more a) r1 (object false) self (sym (rw (e, f) refl) ∙ h) (
              undo_silent a (
                subst (λ k. Registers r a (listeners r) k) zero_regi
                  (subst (λ z. Registers r a z regi) same x)))
        | inl t ↦ elim (Option-cases (retain_process pid thread a)) [
          | inl k ↦
              let stuck : ◌≡◌ {A = Option (SharedRegion × SharedMem)} none (some (r1, self)) =
                sym (rw (e, t, k) refl) ∙ h in
              absurd (ground arith)
          | inr (b, k) ↦
              undone (one_more b) r1 (object true) self (sym (rw (e, t, k) refl) ∙ h)
                (undo_listener a b ys regi (subst (λ z. Registers r a z regi) l x) own k)
        ]
      ]
    where
      undone :
          (q r1 : SharedRegion) (o self : SharedMem)
          → ◌≡◌ {A = Option (SharedRegion × SharedMem)} (some (q, o)) (some (r1, self))
          → Undoes s o r q
          → Undoes s self r r1
      undone q r1 o self e u =
          let f : q ≡ r1 = cc in
          let g : o ≡ self = cc in subst (λ z. Undoes s z r r1) g (subst (λ z. Undoes s o r z) f u)
