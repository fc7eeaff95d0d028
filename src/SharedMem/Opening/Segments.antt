-- ===== src/SharedMem/Opening/Segments.antt =====
-- fjsharedmem.h: two processes that open the shared segment at the same time.
use fjdispatchlite.Prelude.{
  ℕ, ◌+◌, ◌-◌, ◌%◌, ◌≤◌, ◌≡◌, refl, ap, sym, ◌∙◌, inl, inr, true, false, Option, none, some, List,
  [], arith, ltb, ◌==◌, Bool-cases, Option-cases, StdSort, length, take, u32_mod,
}
use fjdispatchlite.SharedMem.{MailAtom, SharedRegion, SharedMem, init_shared_region}
use fjdispatchlite.SharedMem.Region.{IsWellFormed, table_capacity, init_shared_region-IsWellFormed}
use fjdispatchlite.SharedMem.Listen.Table.{spec_add, add_messages-Registers}
use fjdispatchlite.SharedMem.Worker.Cleanup.{remove_object-Removes}
use fjdispatchlite.SharedMem.Notify.Pushing.{queued}
use fjdispatchlite.SharedMem.Process.{register, retain_process, release_process, unregister}
use fjdispatchlite.SharedMem.Process.Table.{processes}
use fjdispatchlite.SharedMem.Process.Lifecycle.{release_process-Assigns}
use fjdispatchlite.SharedMem.Process.Objects.{
  one_more, one_less, register-Quiet, retain_process-some, same_region,
}
use fjdispatchlite.SharedMem.Opening.{open_region, init_once, created}

-- A constructor that does not fail counts its object.
register-counts :
    (s : StdSort MailAtom) (this pid thread : ℕ) (r : SharedRegion) (msgs : List ℕ)
    (r' : SharedRegion) (self : SharedMem)
    → IsWellFormed r
    → register s this pid thread r msgs ≡ some (r', self)
    → r'.initialized ≡ (r.initialized + 1) % u32_mod
unfolding register
register-counts s this pid thread r msgs r' self w h =
    let object : ℕ → SharedMem = λ n. record { this = this; pid = pid; needworker = ltb 0 n } in
    let (r1, e, x) = add_messages-Registers s pid r this msgs w in
    let n = (spec_add this pid (take r.lptr r.listen) msgs 0).1 in
    elim (Bool-cases (ltb 0 n)) [
      | inr f ↦
          ap (λ q. q.initialized)
            (sym (same_region (one_more r1) r' (object n) self (sym (rw (e, f) refl) ∙ h)))
          ∙ ap (λ c. (c + 1) % u32_mod) x.same_count
      | inl t ↦ elim (Option-cases (retain_process pid thread r1)) [
        | inl k ↦
            let stuck : ◌≡◌ {A = Option (SharedRegion × SharedMem)} none (some (r', self)) =
              sym (rw (e, t, k) refl) ∙ h in
            absurd (ground arith)
        | inr (r2, k) ↦
            ap (λ q. q.initialized)
              (sym (same_region (one_more r2) r' (object n) self (sym (rw (e, t, k) refl) ∙ h)))
            ∙ ap (λ c. (c + 1) % u32_mod)
                ((retain_process-some pid thread r1 r2 x.valid k).same_count ∙ x.same_count)
      ]
    ]

-- The destructor of the object that is counted last.
unregister-last :
    (s : StdSort MailAtom) (self : SharedMem) (r : SharedRegion)
    → IsWellFormed r
    → r.initialized ≡ 1
    → (r' : SharedRegion) × (unregister s self r ≡ some (r', true))
unfolding unregister
unregister-last s self r w one = elim (Bool-cases self.needworker) [
  | inl t ↦
      let (q, e, x) = remove_object-Removes s self.this r w in
      let c : (q.initialized + (u32_mod - 1)) % u32_mod ≡ 0 =
        ap (λ n. (n + (u32_mod - 1)) % u32_mod) (x.same_count ∙ one) in
      (one_less q, rw (t, e) (ap (λ b. some (one_less q, b)) (ap (λ n. n == 0) c)))
  | inr f ↦
      let c : (r.initialized + (u32_mod - 1)) % u32_mod ≡ 0 =
        ap (λ n. (n + (u32_mod - 1)) % u32_mod) one in
      (one_less r, rw f (ap (λ b. some (one_less r, b)) (ap (λ n. n == 0) c)))
]

-- Both sections of the destructor run, and the second one unlinks the segment.
pub record Unlinks (s : StdSort MailAtom) (self : SharedMem) (r : SharedRegion) : Type 0 where
  pub between : SharedRegion
  pub after : SharedRegion
  pub released : release_process self r ≡ some between
  pub unregistered : unregister s self between ≡ some (after, true)

destructor-Unlinks :
    (s : StdSort MailAtom) (self : SharedMem) (r : SharedRegion)
    → IsWellFormed r
    → r.initialized ≡ 1
    → Unlinks s self r
destructor-Unlinks s self r w one = elim (Bool-cases self.needworker) [
  | inl t ↦
      let (q, e, a) = release_process-Assigns self r w t in
      let (u, f) = unregister-last s self q a.valid (a.same_count ∙ one) in
      record { between = q; after = u; released = e; unregistered = f }
  | inr n ↦
      let (u, f) = unregister-last s self r w one in
      record {
        between = r;
        after = u;
        released = unfold release_process in rw n refl;
        unregistered = f;
      }
]

-- A region in which no object, no process, no listener and no message is left.
pub record IsEmpty (r : SharedRegion) : Type 0 where
  pub no_object : r.initialized ≡ 0
  pub no_process : processes r ≡ []
  pub no_listener : take r.lptr r.listen ≡ []
  pub no_message : queued r ≡ []
  pub valid : IsWellFormed r

emptied-IsEmpty :
    (r : SharedRegion)
    → table_capacity ≤ length r.protbl
    → IsEmpty (open_region false none (some r)).0
unfolding open_region init_once created init_shared_region
emptied-IsEmpty r fits = record {
  no_object = refl;
  no_process = refl;
  no_listener = refl;
  no_message = refl;
  valid = init_shared_region-IsWellFormed r fits;
}

-- Where a process finds no segment, another one makes it and its objects before the second `shm_open`,
-- and the first process has not run `initSharedRegion` before: it empties the region of all objects,
-- processes, listeners and messages, whatever was there in arrays of full size. Where its own object
-- is registered next, without a fault and with no section of another in between, the destructor of any
-- other object that follows runs and unlinks the segment, although the first process's object is alive.
pub open_region-Unlinks :
    (s : StdSort MailAtom) (found : SharedRegion) (this pid thread : ℕ) (msgs : List ℕ)
    (r : SharedRegion) (mine other : SharedMem)
    → table_capacity ≤ length found.protbl
    → register s this pid thread (open_region false none (some found)).0 msgs ≡ some (r, mine)
    → IsEmpty (open_region false none (some found)).0 × Unlinks s other r
open_region-Unlinks s found this pid thread msgs r mine other fits h =
    let q = (open_region false none (some found)).0 in
    let e = emptied-IsEmpty found fits in
    let c : r.initialized ≡ 1 =
      register-counts s this pid thread q msgs r mine e.valid h
      ∙ ap (λ n. (n + 1) % u32_mod) e.no_object in
    (
      e,
      destructor-Unlinks s other r (register-Quiet s this pid thread q msgs r mine e.valid h).valid
          c,
    )
