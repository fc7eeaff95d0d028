-- ===== src/SharedMem/Process/Lifecycle.antt =====
-- fjsharedmem.h: the users of a process's entry, from the constructor to the destructor.
use fjdispatchlite.Prelude.{
  ℕ, ◌<◌, ◌≡◌, ◌≢◌, refl, ap, ◌∙◌, subst, inl, inr, ◌⊎◌, true, false, Option, none, some, arith,
  sub64, ◌==◌, if◌then◌else◌, Bool-cases, Option-cases, get_elem?, get_elem?-of_take,
}
use fjdispatchlite.FixMap.{Entry, FixMap, index_of, to_list, write_value}
use fjdispatchlite.FixMap.Search.{find-index_of}
use fjdispatchlite.FixMap.Insert.{insert_absent}
use fjdispatchlite.FixMap.Laws.{
  lookup, lookup-spec_insert, index_of-get, index_of-lookup, write_value-Maps, unset-Maps, Maps,
}
use fjdispatchlite.SharedMem.{ProAtom, SharedRegion, SharedMem, pro_atom_init, put_table}
use fjdispatchlite.SharedMem.Region.{IsWellFormed, table_capacity}
use fjdispatchlite.SharedMem.Process.{retain, entry_of, retain_process, release_at, release_process}
use fjdispatchlite.SharedMem.Process.Table.{
  processes, table_of, process_table-table_of, table_of-IsWellFormed,
}
use fjdispatchlite.SharedMem.Process.Changes.{
  Assigns, put_table-Assigns, Maps-trans, write_value-get,
}

-- The value that the constructor finds behind its process, or makes.
unfoldable pub found_or_new : Option ProAtom → ProAtom
found_or_new none = pro_atom_init
found_or_new (some p) = p

module _ (r : SharedRegion) (w : IsWellFormed r) (pid : ℕ) where
  -- The entry is in the table, with its index.
  pub record Finds (m : FixMap ProAtom) (i : ℕ) (p : ProAtom) : Type 0 where
    pub result : entry_of (table_of r) pid ≡ some (m, i)
    pub pointed : get_elem? (to_list m) i ≡ some (record { key = pid; value = p })
    pub assigned : Maps (table_of r) m pid (some p)

  pub lookup_present :
      (i : ℕ) (e : Entry ProAtom)
      → index_of pid (processes r) ≡ some i
      → get_elem? (processes r) i ≡ some e
      → lookup pid (processes r) ≡ some e.value
  lookup_present i e h g = ground (arith, index_of-lookup pid (processes r), h, g)

  pub lookup_absent : index_of pid (processes r) ≡ none → lookup pid (processes r) ≡ none
  lookup_absent h = ground (arith, index_of-lookup pid (processes r), h)

  pub entry_of-Finds :
      (index_of pid (processes r) ≢ none) ⊎ (r.proptr < table_capacity)
      → (m : FixMap ProAtom) × (i : ℕ) × Finds m i (found_or_new (lookup pid (processes r)))
  unfolding entry_of found_or_new
  entry_of-Finds h =
      let v = table_of-IsWellFormed r w in
      let f = find-index_of (table_of r) pid v in
      elim (Option-cases (index_of pid (processes r))) [
        | inr (i, e) ↦
            let (x, g, q) = index_of-get (table_of r) v pid i e in
            (
              table_of r,
              i,
              rw (lookup_present i x e g) (record {
                result = rw (f, e) refl;
                pointed = g ∙ ap (λ k. some (record { key = k; value = x.value })) q;
                assigned = record {
                  value = λ j. ground (arith, lookup_present i x e g);
                  same_capacity = refl;
                  valid = v;
                };
              }),
            )
        | inl e ↦
            let room : r.proptr < table_capacity = elim h [ inl n ↦ absurd (n e) | inr l ↦ l ] in
            let (m', i, old, n) = insert_absent (table_of r) pid v e room in
            let x : Entry ProAtom = record { key = pid; value = old } in
            let t = write_value-Maps m' i x pro_atom_init n.valid n.pointed in
            (
              write_value m' i pro_atom_init,
              i,
              rw (lookup_absent e) (record {
                result = rw (f, e, n.result) refl;
                pointed = write_value-get m' i x pro_atom_init n.pointed;
                assigned = record {
                  value = λ j.
                      t.value j
                      ∙ ground
                          (arith, lookup-spec_insert x (processes r) j e, ap (lookup j) n.elements);
                  same_capacity = t.same_capacity ∙ n.same_capacity;
                  valid = t.valid;
                };
              }),
            )
      ]

  -- Where the process has an entry or there is room for one, the constructor's part on the table runs
  -- without a fault: the process's entry is what `retain` makes of the one that was there, or of a new
  -- one; nothing else in the region changes, and it stays well formed.
  pub retain_process-Assigns :
      (thread : ℕ)
      → (index_of pid (processes r) ≢ none) ⊎ (r.proptr < table_capacity)
      → (r' : SharedRegion) × (retain_process pid thread r ≡ some r')
        × Assigns r r' pid (some (retain thread (found_or_new (lookup pid (processes r)))))
  unfolding retain_process
  retain_process-Assigns thread h =
      let (m, i, x) = entry_of-Finds h in
      let p = found_or_new (lookup pid (processes r)) in
      let e : Entry ProAtom = record { key = pid; value = p } in
      let g = get_elem?-of_take m.count i m.entries e x.pointed in
      let t = write_value-Maps m i e (retain thread p) x.assigned.valid x.pointed in
      (
        put_table r (write_value m i (retain thread p)),
        rw (process_table-table_of r w, x.result, g) refl,
        put_table-Assigns r (write_value m i (retain thread p)) pid (some (retain thread p)) w (
            Maps-trans (table_of r) m (write_value m i (retain thread p)) pid (some p)
              (some (retain thread p)) x.assigned t),
      )

-- One user less of an entry: the last one takes it away.
unfoldable pub released : Option ProAtom → Option ProAtom
released none = none
released (some p) =
    if sub64 p.refcount 1 == 0 then none else some (record p { refcount = sub64 p.refcount 1 })

release_at-Assigns :
    (r : SharedRegion) (pid i : ℕ) (e : Entry ProAtom)
    → IsWellFormed r
    → get_elem? (processes r) i ≡ some e
    → e.key ≡ pid
    → (r' : SharedRegion) × (release_at r (table_of r) pid i e.value ≡ some r')
      × Assigns r r' pid (released (some e.value))
unfolding release_at released
release_at-Assigns r pid i e w g q =
    let v = table_of-IsWellFormed r w in
    let less : ProAtom = record e.value { refcount = sub64 e.value.refcount 1 } in
    let gone : ProAtom = record e.value { refcount = 0; running = false } in
    let write : (p : ProAtom) → Maps (table_of r) (write_value (table_of r) i p) pid (some p) = λ p.
      subst (λ k. Maps (table_of r) (write_value (table_of r) i p) k (some p)) q
        (write_value-Maps (table_of r) i e p v g) in
    elim (Bool-cases (sub64 e.value.refcount 1 == 0)) [
      | inr f ↦ (
        put_table r (write_value (table_of r) i less),
        rw f refl,
        rw f (put_table-Assigns r (write_value (table_of r) i less) pid (some less) w (write less)),
      )
      | inl t ↦
          let one = write_value (table_of r) i gone in
          let (m', b, u, x, k) = unset-Maps one (write gone).valid pid in
          (
            put_table r m',
            rw (t, u) refl,
            rw t (
                put_table-Assigns r m' pid none w
                  (Maps-trans (table_of r) one m' pid (some gone) none (write gone) x)),
          )
    ]

-- The destructor's part on the table runs without a fault, whatever the table holds: the process's
-- entry has one user less, the last user removes it, and where there is no entry there is none
-- afterwards; nothing else in the region changes, and it stays well formed.
pub release_process-Assigns :
    (self : SharedMem) (r : SharedRegion)
    → IsWellFormed r
    → self.needworker ≡ true
    → (r' : SharedRegion) × (release_process self r ≡ some r')
      × Assigns r r' self.pid (released (lookup self.pid (processes r)))
unfolding release_process released
release_process-Assigns self r w n =
    let v = table_of-IsWellFormed r w in
    let f = find-index_of (table_of r) self.pid v in
    elim (Option-cases (index_of self.pid (processes r))) [
      | inl e ↦ (
        r,
        rw (n, process_table-table_of r w, f, e) refl,
        rw (lookup_absent r w self.pid e) (record {
          value = λ j. ground (arith, lookup_absent r w self.pid e);
          same_queue = (refl, refl);
          same_listen = (refl, refl);
          same_payload = refl;
          same_count = refl;
          valid = w;
        }),
      )
      | inr (i, e) ↦
          let (x, g, q) = index_of-get (table_of r) v self.pid i e in
          let l = get_elem?-of_take r.proptr i r.protbl x g in
          let (r', c, a) = release_at-Assigns r self.pid i x w g q in
          (
            r',
            rw (n, process_table-table_of r w, f, e, l) c,
            rw (lookup_present r w self.pid i x e g) a,
          )
    ]
