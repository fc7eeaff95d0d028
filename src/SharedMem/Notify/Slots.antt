-- ===== src/SharedMem/Notify/Slots.antt =====
-- fjsharedmem.h: the payload slots, `_allocPayloadSlot` and its use by `_notify`.
use fjdispatchlite.Prelude.{
  ℕ, zero, suc, ◌+◌, ◌%◌, ◌≤◌, ◌<◌, ◌≡◌, ◌≢◌, refl, ap, sym, ◌∙◌, subst, inl, inr, Bool, true,
  false, Option, none, some, arith, ltb, ◌==◌, if◌then◌else◌, Bool-cases, Option-cases, ==→eq,
  ==→ne,
}
use fjdispatchlite.FixVector.{push_back}
use fjdispatchlite.SharedMem.{
  MailAtom, PayloadAtom, SharedRegion, payload_slots, payload_atom_init, queue_vector, put_queue,
}
use fjdispatchlite.Dispatch.{update}
use fjdispatchlite.SharedMem.Notify.{
  is_expired, alloc_loop, give_slot, send_payload, alloc_payload_slot, Notice, Sending, push_mail,
  drop_mail, send,
}

-- A slot that may be given out.
abbrev pub is_available : ℕ → PayloadAtom → Bool
is_available now p = if p.in_use then is_expired now 5000 p else true

-- A payload that waits for its worker.
pub record IsPending (p : PayloadAtom) : Type 0 where
  pub used : p.in_use ≡ true
  pub unprocessed : p.processed ≡ false

-- What an allocation gives: a slot of the array that was available; the others are left as they are.
pub record Allocates (now : ℕ) (before after : ℕ → PayloadAtom) (idx : ℕ) : Type 0 where
  pub in_range : idx < payload_slots
  pub available : is_available now (before idx) ≡ true
  pub free : (after idx).in_use ≡ false
  pub others : (j : ℕ) → j ≢ idx → after j ≡ before j

-- What the loop gives from round `n` on; where it gives nothing, no slot that it met is available.
abbrev pub Outcome : ℕ → (ℕ → PayloadAtom) → ℕ → ℕ → ℕ → Option (ℕ × (ℕ → PayloadAtom)) → Type 0
Outcome now payload start n rounds none =
    (k : ℕ)
    → n ≤ k
    → k < n + rounds
    → is_available now (payload ((start + k) % payload_slots)) ≡ false
Outcome now payload start n rounds (some (idx, after)) = Allocates now payload after idx

one_more :
    (now : ℕ) (payload : ℕ → PayloadAtom) (start n rounds : ℕ) (o : Option (ℕ × (ℕ → PayloadAtom)))
    → is_available now (payload ((start + n) % payload_slots)) ≡ false
    → Outcome now payload start (n + 1) rounds o
    → Outcome now payload start n (suc rounds) o
one_more now payload start n rounds (some (idx, after)) u r = r
one_more now payload start n rounds none u r = λ k a b. elim (Bool-cases (k == n)) [
  | inl t ↦ let e : k ≡ n = ==→eq _ _ t in rw e u
  | inr f ↦ r k (omega (arith, ==→ne _ _ f)) (omega arith)
]

alloc_loop-Outcome :
    (now : ℕ) (payload : ℕ → PayloadAtom) (start n rounds : ℕ)
    → Outcome now payload start n rounds (alloc_loop now payload start n rounds)
unfolding alloc_loop payload_atom_init
alloc_loop-Outcome now payload start n zero = λ k a b. absurd (omega arith)
alloc_loop-Outcome now payload start n (suc rounds) =
    elim (Bool-cases (payload ((start + n) % payload_slots)).in_use) [
      | inr f ↦
          rw f (record {
            in_range = omega arith;
            available = rw f refl;
            free = f;
            others = λ j h. refl;
          })
      | inl t ↦ elim (Bool-cases (is_expired now 5000 (payload ((start + n) % payload_slots)))) [
        | inl x ↦
            rw (t, x)
              (record {
                in_range = omega arith;
                available = rw (t, x) refl;
                free = ground arith;
                others = λ j h. ground arith;
              })
        | inr y ↦
            rw (t, y)
              (one_more now payload start n rounds (alloc_loop now payload start (n + 1) rounds)
                (rw (t, y) refl) (alloc_loop-Outcome now payload start (n + 1) rounds))
      ]
    ]

-- Every payload that waits is left as it is.
abbrev pub Keeps : (ℕ → PayloadAtom) → (ℕ → PayloadAtom) → Type 0
Keeps before after = (j : ℕ) → IsPending (before j) → after j ≡ before j

pub Keeps-trans : (a b c : ℕ → PayloadAtom) → Keeps a b → Keeps b c → Keeps a c
Keeps-trans a b c h k = λ j p. k j (subst IsPending (sym (h j p)) p) ∙ h j p

not_pending : (now : ℕ) (p : PayloadAtom) → is_available now p ≡ true → IsPending p → ⊥
not_pending now p a w = let u = w.used in let v = w.unprocessed in ground arith

pub Allocates-ne :
    (now : ℕ) (before after : ℕ → PayloadAtom) (idx j : ℕ)
    → Allocates now before after idx
    → IsPending (before j)
    → j ≢ idx
Allocates-ne now before after idx j a w e =
    not_pending now (before idx) a.available (subst (λ k. IsPending (before k)) e w)

pub update_other : (f : ℕ → PayloadAtom) (k j : ℕ) (v : PayloadAtom) → j ≢ k → update f k v j ≡ f j
update_other f k j v h = ground arith

drop_mail_others :
    (s : Sending) (o : Option ℕ) (j : ℕ)
    → o ≢ some j
    → (drop_mail s o).region.payload j ≡ s.region.payload j
unfolding drop_mail
drop_mail_others s none j h = refl
drop_mail_others s (some idx) j h = update_other s.region.payload idx j _ (λ e. h (ap some (sym e)))

pub push_mail_others :
    (s : Sending) (m : MailAtom) (j : ℕ)
    → m.payload_idx ≢ some j
    → (push_mail s m).region.payload j ≡ s.region.payload j
unfolding push_mail put_queue
push_mail_others s m j h = elim (Bool-cases (push_back (queue_vector s.region) m).1) [
  | inl t ↦ rw t refl
  | inr f ↦ rw f (drop_mail_others s m.payload_idx j h)
]

some_ne : (idx j : ℕ) → j ≢ idx → some idx ≢ some j
some_ne idx j h e = h (ground arith)

module _ (now : ℕ) (r : SharedRegion) where
  pub outcome : Option (ℕ × (ℕ → PayloadAtom))
  outcome = alloc_loop now r.payload (r.payload_alloc_hint % payload_slots) 0 payload_slots

  pub alloc_none : outcome ≡ none → alloc_payload_slot now r ≡ (r, none)
  unfolding alloc_payload_slot give_slot outcome
  alloc_none e = ap (give_slot r) e

  pub alloc_some :
      (idx : ℕ) (after : ℕ → PayloadAtom)
      → outcome ≡ some (idx, after)
      → alloc_payload_slot now r
        ≡ (record r { payload = after; payload_alloc_hint = idx + 1 }, some idx)
  unfolding alloc_payload_slot give_slot outcome
  alloc_some idx after e = ap (give_slot r) e

  pub outcome-Allocates :
      (idx : ℕ) (after : ℕ → PayloadAtom)
      → outcome ≡ some (idx, after)
      → Allocates now r.payload after idx
  unfolding outcome
  outcome-Allocates idx after e =
      subst (Outcome now r.payload _ 0 payload_slots) e
        (alloc_loop-Outcome now r.payload _ 0 payload_slots)

  outcome-none :
      outcome ≡ none
      → (k : ℕ) → k < payload_slots
      → is_available now (r.payload ((r.payload_alloc_hint % payload_slots + k) % payload_slots))
        ≡ false
  unfolding outcome
  outcome-none e k h =
      subst (Outcome now r.payload _ 0 payload_slots) e
        (alloc_loop-Outcome now r.payload _ 0 payload_slots) k (omega arith) (omega arith)

send_payload-none :
    (n : Notice) (s : Sending) (i : ℕ) (to : MailAtom)
    → (send_payload n s i to (s.region, none)).region.payload ≡ s.region.payload
unfolding send_payload
send_payload-none n s i to = refl

send_payload_others :
    (n : Notice) (s : Sending) (i : ℕ) (to : MailAtom) (r : SharedRegion) (idx j : ℕ)
    → j ≢ idx
    → (send_payload n s i to (r, some idx)).region.payload j ≡ r.payload j
unfolding send_payload
send_payload_others n s i to r idx j h =
    push_mail_others _ _ j (some_ne idx j h) ∙ update_other r.payload idx j _ h

pub send-Keeps :
    (n : Notice) (s : Sending) (i : ℕ) (to : MailAtom)
    → Keeps s.region.payload (send n s i to).region.payload
unfolding send
send-Keeps n s i to = elim (Bool-cases (ltb 0 n.size)) [
  | inr f ↦ λ j w.
      rw f (push_mail_others s (record to { payload_idx = none }) j (λ e. absurd (ground arith)))
  | inl t ↦ elim (Option-cases (outcome (n.alloc_ms i) s.region)) [
    | inl e ↦ λ j w.
        rw (t, alloc_none (n.alloc_ms i) s.region e) (ap (λ g. g j) (send_payload-none n s i to))
    | inr ((idx, after), e) ↦ λ j w.
        let a = outcome-Allocates (n.alloc_ms i) s.region idx after e in
        let h = Allocates-ne (n.alloc_ms i) s.region.payload after idx j a w in
        rw (t, alloc_some (n.alloc_ms i) s.region idx after e)
          (send_payload_others n s i to
              (record s.region { payload = after; payload_alloc_hint = idx + 1 }) idx j h
            ∙ a.others j h)
  ]
]
