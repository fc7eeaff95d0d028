-- ===== src/SharedMem/Process/Ending.antt =====
-- fjsharedmem.h: the end of a worker and of an object, as they leave the queue and the payloads.
use fjdispatchlite.Prelude.{
  ℕ, zero, suc, get_elem?, set, take, take-set_lt, length-set, ◌+◌, ◌≡◌, ◌-◌, ◌%◌, refl, sym, ◌∙◌,
  subst, inl, inr, Bool, true, false, none, some, List, [], ◌∷◌, Perm, arith, ap, ◌==◌,
  Option-cases, StdSort, u32_mod,
}
use fjdispatchlite.FixMap
use fjdispatchlite.FixMap.{Entry, FixMap, to_list, write_value, index_of}
use fjdispatchlite.SharedMem.{put_table, ProAtom, MailAtom, SharedRegion, SharedMem}
use fjdispatchlite.SharedMem.Region.{IsWellFormed}
use fjdispatchlite.SharedMem.Worker.Cleanup.{left_by, remove_object-Removes}
use fjdispatchlite.SharedMem.Notify.Pushing.{queued}
use fjdispatchlite.FixMap.Laws.{write_value-Maps}
use fjdispatchlite.SharedMem.Process.{end_worker, unregister}
use fjdispatchlite.SharedMem.Process.Table.{table_of, process_table-table_of, table_of-IsWellFormed}
use fjdispatchlite.SharedMem.Process.Objects.{
  Quiet, Quiet-refl, one_less, Quiet-counted, same_region,
}

some_injective : (a b : SharedRegion) → some a ≡ some b → a ≡ b
some_injective a b e = cc

-- A write to an entry, in use or not.
written-IsWellFormed :
    (m : FixMap ProAtom) (i : ℕ) (e : Entry ProAtom) (v : ProAtom)
    → fjdispatchlite.FixMap.IsWellFormed m
    → get_elem? m.entries i ≡ some e
    → fjdispatchlite.FixMap.IsWellFormed (write_value m i v)
      × ((write_value m i v).capacity ≡ m.capacity)
unfolding write_value
written-IsWellFormed m i e v w g = elim (Option-cases (get_elem? (to_list m) i)) [
  | inr (f, k) ↦
      let x = write_value-Maps m i f v w k in
      (unfold write_value in x.valid, unfold write_value in x.same_capacity)
  | inl k ↦
      let new : Entry ProAtom = record e { value = v } in
      let same : take m.count (set m.entries i new) ≡ take m.count m.entries =
        take-set_lt m.count i m.entries new ∙ set_missing (to_list m) i new k in
      rw (g, write_value)
        (
          record {
            fits = omega (arith, w.fits, length-set m.entries i new);
            bounded = w.bounded;
            small = w.small;
            ascending = rw same w.ascending;
          },
          refl,
        )
]
  where
    set_missing :
        (es : List (Entry ProAtom)) (i : ℕ) (f : Entry ProAtom)
        → get_elem? es i ≡ none
        → set es i f ≡ es
    set_missing [] i f k = refl
    set_missing (x ∷ es) zero f k = absurd (ground arith)
    set_missing (x ∷ es) (suc i) f k = ap (λ l. x ∷ l) (set_missing es i f k)

-- The end of a worker, whatever the place of its pointer.
pub end_worker-Quiet :
    (i : ℕ) (r r' : SharedRegion) → IsWellFormed r → end_worker i r ≡ some r' → Quiet r r'
unfolding end_worker put_table
end_worker-Quiet i r r' w h = elim (Option-cases (get_elem? r.protbl i)) [
  | inl g ↦
      let stuck : none ≡ some r' = sym (rw (process_table-table_of r w, g) refl) ∙ h in
      absurd (ground arith)
  | inr (e, g) ↦
      let m = write_value (table_of r) i (record e.value { worker_done = true }) in
      let k : put_table r m ≡ r' =
        some_injective (put_table r m) r' (sym (rw (process_table-table_of r w, g) refl) ∙ h) in
      let x =
        written-IsWellFormed (table_of r) i e (record e.value { worker_done = true })
          (table_of-IsWellFormed r w) g in
      subst (Quiet r) k (record {
        same_queued = refl;
        same_payload = refl;
        valid = record {
          listen_fits = w.listen_fits;
          listen_bounded = w.listen_bounded;
          listen_ordered = w.listen_ordered;
          queue_fits = w.queue_fits;
          queue_bounded = w.queue_bounded;
          table_fits = omega (arith, x.0.fits, x.1);
          table_bounded = omega (arith, x.0.bounded, x.1);
          table_ascending = x.0.ascending;
        };
      })
]

-- What the destructor's second section leaves of an object that has listened.
pub record Unregisters (this : ℕ) (r r' : SharedRegion) : Type 0 where
  pub queue : Perm (queued r') (left_by (λ m. m.obj == this) (queued r))
  pub same_payload : r'.payload ≡ r.payload
  pub valid : IsWellFormed r'

pub unregister-Quiet :
    (s : StdSort MailAtom) (self : SharedMem) (r r' : SharedRegion) (last : Bool)
    → IsWellFormed r
    → self.needworker ≡ false
    → unregister s self r ≡ some (r', last)
    → Quiet r r'
unfolding unregister
unregister-Quiet s self r r' last w f h =
    let y = Quiet-counted r r ((r.initialized + (u32_mod - 1)) % u32_mod) (Quiet-refl r w) in
    subst (Quiet r)
      (same_region (one_less r) r' ((one_less r).initialized == 0) last (sym (rw f refl) ∙ h)) y

pub unregister-Unregisters :
    (s : StdSort MailAtom) (self : SharedMem) (r r' : SharedRegion) (last : Bool)
    → IsWellFormed r
    → self.needworker ≡ true
    → unregister s self r ≡ some (r', last)
    → Unregisters self.this r r'
unfolding unregister
unregister-Unregisters s self r r' last w t h =
    let (q, e, x) = remove_object-Removes s self.this r w in
    let y = Quiet-counted q q ((q.initialized + (u32_mod - 1)) % u32_mod) (Quiet-refl q x.valid) in
    subst (Unregisters self.this r)
      (same_region (one_less q) r' ((one_less q).initialized == 0) last (sym (rw (t, e) refl) ∙ h))
      (record { queue = x.queue; same_payload = x.same_payload; valid = y.valid })
