-- ===== src/SharedMem/Notify/Collection.antt =====
-- fjsharedmem.h: what `profileAndGC` frees.
use fjdispatchlite.Prelude.{
  ltb, ltb→lt, ltb→ge, ℕ, zero, suc, ◌+◌, ◌≤◌, ◌<◌, ◌≡◌, ◌≢◌, refl, ap, sym, ◌∙◌, inl, inr, ◌⊎◌,
  Bool, ◌&&◌, arith, leb, ◌==◌, ==→eq, ==→ne, if◌then◌else◌, Bool-cases,
}
use fjdispatchlite.SharedMem.{PayloadAtom, SharedRegion, payload_slots, payload_atom_init}
use fjdispatchlite.Dispatch.{update}
use fjdispatchlite.SharedMem.Notify.{gc_payload, gc_loop, profile_and_gc}
use fjdispatchlite.SharedMem.Notify.Slots.{Keeps, update_other}

gc_outside :
    (now after : ℕ) (p : ℕ → PayloadAtom) (i n j : ℕ)
    → (j < i) ⊎ (i + n ≤ j)
    → gc_loop now after p i n j ≡ p j
unfolding gc_loop
gc_outside now after p i zero j h = refl
gc_outside now after p i (suc n) j h =
    let n' : j ≢ i = elim h [ inl a ↦ omega arith | inr b ↦ omega arith ] in
    gc_outside now after (update p i (gc_payload now after (p i))) (i + 1) n j
      (elim h [ inl a ↦ inl (omega arith) | inr b ↦ inr (omega arith) ])
    ∙ update_other p i j (gc_payload now after (p i)) n'

gc_inside :
    (now after : ℕ) (p : ℕ → PayloadAtom) (i n j : ℕ)
    → i ≤ j
    → j < i + n
    → gc_loop now after p i n j ≡ gc_payload now after (p j)
unfolding gc_loop
gc_inside now after p i zero j a b = absurd (omega arith)
gc_inside now after p i (suc n) j a b = elim (Bool-cases (j == i)) [
  | inl t ↦
      let e : j ≡ i = ==→eq _ _ t in
      gc_outside now after (update p i (gc_payload now after (p i))) (i + 1) n j
        (inl (omega (arith, e)))
      ∙ ap (λ (x : Bool). if x then gc_payload now after (p i) else p j) t
      ∙ ap (λ k. gc_payload now after (p k)) (sym e)
  | inr f ↦
      let n' = ==→ne _ _ f in
      gc_inside now after (update p i (gc_payload now after (p i))) (i + 1) n j (omega (arith, n'))
        (omega arith)
      ∙ ap (gc_payload now after) (update_other p i j (gc_payload now after (p i)) n')
]

gc_payload_lem :
    (now after : ℕ) (p : PayloadAtom)
    → gc_payload now after p
      ≡ (if p.in_use && p.processed && leb (p.sent_ms + after) now then payload_atom_init p else p)
unfolding gc_payload
gc_payload_lem now after p = ground arith

-- `profileAndGC` frees exactly those of the 384 payloads that are in use, processed, and sent at least
-- the given time ago; the others it leaves as they are.
pub profile_and_gc_lem :
    (now after : ℕ) (r : SharedRegion) (i : ℕ)
    → i < payload_slots
    → let p = r.payload i in
      (profile_and_gc now after r).payload i
      ≡ (if p.in_use && p.processed && leb (p.sent_ms + after) now then payload_atom_init p else p)
unfolding profile_and_gc
profile_and_gc_lem now after r i h =
    gc_inside now after r.payload 0 payload_slots i (omega arith) (omega arith)
    ∙ gc_payload_lem now after (r.payload i)

-- A payload that waits for its worker is never freed.
pub profile_and_gc-Keeps :
    (now after : ℕ) (r : SharedRegion) → Keeps r.payload (profile_and_gc now after r).payload
unfolding profile_and_gc
profile_and_gc-Keeps now after r j p = elim (Bool-cases (ltb j payload_slots)) [
  | inr f ↦ gc_outside now after r.payload 0 payload_slots j (inr (omega (arith, ltb→ge _ _ f)))
  | inl t ↦
      gc_inside now after r.payload 0 payload_slots j (omega arith) (omega (arith, ltb→lt _ _ t))
      ∙ gc_payload_lem now after (r.payload j)
      ∙ ground (arith, p.used, p.unprocessed)
]
