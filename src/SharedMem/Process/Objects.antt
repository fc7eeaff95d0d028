-- ===== src/SharedMem/Process/Objects.antt =====
-- fjsharedmem.h: the sections of the constructor and of the destructor, as they leave the queue and
-- the payloads.
use fjdispatchlite.Prelude.{
  ℕ, ◌+◌, ◌<◌, ◌≡◌, ◌≢◌, ◌-◌, ◌%◌, ◌||◌, ltb→lt, ltb→ge, refl, sym, ◌∙◌, subst, inl, inr, ◌⊎◌, Bool,
  false, not, Option, none, some, List, [], ◌∷◌, arith, ltb, ◌==◌, Bool-cases, Option-cases,
  StdSort, u32_mod,
}
use fjdispatchlite.FixMap.{index_of}
use fjdispatchlite.SharedMem.{ProAtom, MailAtom, SharedRegion, SharedMem}
use fjdispatchlite.SharedMem.Region.{IsWellFormed, table_capacity, any_payload-IsWellFormed}
use fjdispatchlite.SharedMem.Listen.{add_messages, add_listen, add_listen_list}
use fjdispatchlite.SharedMem.Listen.Table.{add_messages-Registers}
use fjdispatchlite.SharedMem.Notify.Pushing.{queued}
use fjdispatchlite.FixMap.Laws.{lookup}
use fjdispatchlite.SharedMem.Process.{retain, retain_process, register, release_process}
use fjdispatchlite.SharedMem.Process.Table.{processes, retain_process_full}
use fjdispatchlite.SharedMem.Process.Lifecycle.{
  found_or_new, released, retain_process-Assigns, release_process-Assigns,
}
use fjdispatchlite.SharedMem.Process.Changes.{Assigns}

-- The queue and the payloads are as they were.
pub record Quiet (r r' : SharedRegion) : Type 0 where
  pub same_queued : queued r' ≡ queued r
  pub same_payload : r'.payload ≡ r.payload
  pub valid : IsWellFormed r'

pub Quiet-refl : (r : SharedRegion) → IsWellFormed r → Quiet r r
Quiet-refl r w = record { same_queued = refl; same_payload = refl; valid = w }

Quiet-trans : (a b c : SharedRegion) → Quiet a b → Quiet b c → Quiet a c
Quiet-trans a b c x y = record {
  same_queued = y.same_queued ∙ x.same_queued;
  same_payload = y.same_payload ∙ x.same_payload;
  valid = y.valid;
}

-- `initialized` counts the objects.
abbrev pub one_more : SharedRegion → SharedRegion
one_more r = record r { initialized = (r.initialized + 1) % u32_mod }

abbrev pub one_less : SharedRegion → SharedRegion
one_less r = record r { initialized = (r.initialized + (u32_mod - 1)) % u32_mod }

pub Quiet-counted :
    (r r' : SharedRegion) (n : ℕ) → Quiet r r' → Quiet r (record r' { initialized = n })
Quiet-counted r r' n q = record {
  same_queued = q.same_queued;
  same_payload = q.same_payload;
  valid = any_payload-IsWellFormed r' n r'.payload q.valid;
}

pub add_messages-Quiet :
    (s : StdSort MailAtom) (pid : ℕ) (r : SharedRegion) (obj : ℕ) (msgs : List ℕ)
    → IsWellFormed r
    → (r' : SharedRegion) × (n : ℕ) × (add_messages s pid r obj msgs ≡ some (r', n)) × Quiet r r'
add_messages-Quiet s pid r obj msgs w =
    let (r', e, x) = add_messages-Registers s pid r obj msgs w in
    (
      r',
      _,
      e,
      record {
        same_queued = cc (x.same_queue.0, x.same_queue.1);
        same_payload = x.same_payload;
        valid = x.valid;
      },
    )

pub same_region :
    {A : Type 0} (r q : SharedRegion) (a b : A)
    → ◌≡◌ {A = Option (SharedRegion × A)} (some (r, a)) (some (q, b))
    → r ≡ q
same_region r q a b e = cc

pub add_listen_list-Quiet :
    (s : StdSort MailAtom) (self : SharedMem) (r : SharedRegion) (obj : ℕ) (msgs : List ℕ)
    (r' : SharedRegion) (ok : Bool)
    → IsWellFormed r
    → add_listen_list s self r obj msgs ≡ some (r', ok)
    → Quiet r r'
unfolding add_listen_list
add_listen_list-Quiet s self r obj msgs r' ok w h = elim (Bool-cases (obj == 0)) [
  | inl t ↦ subst (Quiet r) (same_region r r' false ok (sym (rw t refl) ∙ h)) (Quiet-refl r w)
  | inr f ↦ elim (Bool-cases (not self.needworker)) [
    | inl t ↦
        subst (Quiet r) (same_region r r' false ok (sym (rw (f, t) refl) ∙ h)) (Quiet-refl r w)
    | inr g ↦
        let (q, n, e, x) = add_messages-Quiet s self.pid r obj msgs w in
        subst (Quiet r) (same_region q r' (not (n == 0)) ok (sym (rw (f, g, e) refl) ∙ h)) x
  ]
]

pub add_listen-Quiet :
    (s : StdSort MailAtom) (self : SharedMem) (r : SharedRegion) (obj msg : ℕ) (r' : SharedRegion)
    (ok : Bool)
    → IsWellFormed r
    → add_listen s self r obj msg ≡ some (r', ok)
    → Quiet r r'
unfolding add_listen
add_listen-Quiet s self r obj msg r' ok w h = elim (Bool-cases ((obj == 0) || (msg == 0))) [
  | inl t ↦ subst (Quiet r) (same_region r r' false ok (sym (rw t refl) ∙ h)) (Quiet-refl r w)
  | inr f ↦ elim (Bool-cases (not self.needworker)) [
    | inl t ↦
        subst (Quiet r) (same_region r r' false ok (sym (rw (f, t) refl) ∙ h)) (Quiet-refl r w)
    | inr g ↦
        let (q, n, e, x) = add_messages-Quiet s self.pid r obj (msg ∷ []) w in
        subst (Quiet r) (same_region q r' (not (n == 0)) ok (sym (rw (f, g, e) refl) ∙ h)) x
  ]
]

-- A constructor's part on the table, where it does not fail.
pub retain_process-some :
    (pid thread : ℕ) (r r' : SharedRegion)
    → IsWellFormed r
    → retain_process pid thread r ≡ some r'
    → Assigns r r' pid (some (retain thread (found_or_new (lookup pid (processes r)))))
retain_process-some pid thread r r' w h =
    let v = some (retain thread (found_or_new (lookup pid (processes r)))) in
    let assigns : ((index_of pid (processes r) ≢ none) ⊎ (r.proptr < table_capacity))
        → Assigns r r' pid v =
      λ room.
        let (q, e, a) = retain_process-Assigns r w pid thread room in
        let k : q ≡ r' = cc in subst (λ x. Assigns r x pid v) k a in
    elim (Option-cases (index_of pid (processes r))) [
      | inr (i, e) ↦ assigns (inl (λ n. absurd (ground arith)))
      | inl e ↦ elim (Bool-cases (ltb r.proptr table_capacity)) [
        | inl t ↦ assigns (inr (ltb→lt _ _ t))
        | inr f ↦
            let full : r.proptr ≡ table_capacity = omega (arith, w.table_bounded, ltb→ge _ _ f) in
            let stuck : none ≡ some r' = sym (retain_process_full r w pid thread e full) ∙ h in
            absurd (ground arith)
      ]
    ]

Assigns-Quiet :
    (r r' : SharedRegion) (pid : ℕ) (v : Option ProAtom) → Assigns r r' pid v → Quiet r r'
Assigns-Quiet r r' pid v a = record {
  same_queued = cc (a.same_queue.0, a.same_queue.1);
  same_payload = a.same_payload;
  valid = a.valid;
}

retain_process-Quiet :
    (pid thread : ℕ) (r r' : SharedRegion)
    → IsWellFormed r
    → retain_process pid thread r ≡ some r'
    → Quiet r r'
retain_process-Quiet pid thread r r' w h =
    Assigns-Quiet r r' pid (some (retain thread (found_or_new (lookup pid (processes r)))))
      (retain_process-some pid thread r r' w h)

-- Where the constructor does not fail on a well-formed region, it leaves the queue and the payloads
-- as they are, and the region well formed.
pub register-Quiet :
    (s : StdSort MailAtom) (this pid thread : ℕ) (r : SharedRegion) (msgs : List ℕ)
    (r' : SharedRegion) (self : SharedMem)
    → IsWellFormed r
    → register s this pid thread r msgs ≡ some (r', self)
    → Quiet r r'
unfolding register
register-Quiet s this pid thread r msgs r' self w h =
    let object : ℕ → SharedMem = λ n. record { this = this; pid = pid; needworker = ltb 0 n } in
    let (r1, n, e, x) = add_messages-Quiet s pid r this msgs w in
    elim (Bool-cases (ltb 0 n)) [
      | inr f ↦
          let y = Quiet-counted r r1 ((r1.initialized + 1) % u32_mod) x in
          subst (Quiet r) (same_region (one_more r1) r' (object n) self (sym (rw (e, f) refl) ∙ h))
            y
      | inl t ↦ elim (Option-cases (retain_process pid thread r1)) [
        | inl k ↦
            let stuck : ◌≡◌ {A = Option (SharedRegion × SharedMem)} none (some (r', self)) =
              sym (rw (e, t, k) refl) ∙ h in
            absurd (ground arith)
        | inr (r2, k) ↦
            let z = Quiet-trans r r1 r2 x (retain_process-Quiet pid thread r1 r2 x.valid k) in
            let y = Quiet-counted r r2 ((r2.initialized + 1) % u32_mod) z in
            subst (Quiet r)
              (same_region (one_more r2) r' (object n) self (sym (rw (e, t, k) refl) ∙ h)) y
      ]
    ]

pub release_process-Quiet :
    (self : SharedMem) (r r' : SharedRegion)
    → IsWellFormed r
    → release_process self r ≡ some r'
    → Quiet r r'
release_process-Quiet self r r' w h = elim (Bool-cases self.needworker) [
  | inl t ↦
      let (q, e, a) = release_process-Assigns self r w t in
      let k : q ≡ r' = cc in
      subst (Quiet r) k (Assigns-Quiet r q self.pid (released (lookup self.pid (processes r))) a)
  | inr f ↦ let k : r ≡ r' = unfold release_process in cc in subst (Quiet r) k (Quiet-refl r w)
]
