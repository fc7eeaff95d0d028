-- ===== src/SharedMem/Process/Table.antt =====
-- fjsharedmem.h: the process table, as the constructor sees it.
use fjdispatchlite.Prelude.{
  ℕ, ◌≡◌, refl, subst, none, some, List, arith, le→leb, ◌==◌, if◌then◌else◌, get_elem?,
  get_elem?-of_take, take,
}
use fjdispatchlite.FixMap
use fjdispatchlite.FixMap.{Entry, FixMap, ◌>>=◌, find, insert, index_of, to_list, write_value}
use fjdispatchlite.FixMap.Search.{find-index_of}
use fjdispatchlite.FixMap.Insert.{insert_full}
use fjdispatchlite.FixMap.Laws.{lookup, index_of-get, write_value-Maps}
use fjdispatchlite.SharedMem.{ProAtom, SharedRegion, process_table, put_table}
use fjdispatchlite.SharedMem.Region.{IsWellFormed, table_capacity}
use fjdispatchlite.SharedMem.Process.{retain, entry_of, retain_process}

-- The entries in use.
abbrev pub processes : SharedRegion → List (Entry ProAtom)
processes r = take r.proptr r.protbl

abbrev pub table_of : SharedRegion → FixMap ProAtom
table_of r = record { entries = r.protbl; capacity = table_capacity; count = r.proptr }

module _ (r : SharedRegion) (w : IsWellFormed r) where
  pub process_table-table_of : process_table r ≡ some (table_of r)
  unfolding process_table fjdispatchlite.FixMap.create
  process_table-table_of = rw (le→leb r.proptr table_capacity w.table_bounded) refl

  pub table_of-IsWellFormed : fjdispatchlite.FixMap.IsWellFormed (table_of r)
  table_of-IsWellFormed = record {
    fits = w.table_fits;
    bounded = w.table_bounded;
    small = omega arith;
    ascending = w.table_ascending;
  }

  -- A process that is in the table gets one user more, and the first one starts the worker; the other
  -- processes are not touched.
  pub retain_process_present :
      (pid thread i : ℕ)
      → index_of pid (processes r) ≡ some i
      → (e : Entry ProAtom) × (r' : SharedRegion) × (get_elem? (processes r) i ≡ some e)
        × (retain_process pid thread r ≡ some r')
        × ((j : ℕ)
            → lookup j (processes r')
              ≡ (if pid == j then some (retain thread e.value) else lookup j (processes r)))
  unfolding retain_process entry_of put_table
  retain_process_present pid thread i h =
      let v = table_of-IsWellFormed in
      let (e, g, q) = index_of-get (table_of r) v pid i h in
      let l = get_elem?-of_take r.proptr i r.protbl e g in
      let new = write_value (table_of r) i (retain thread e.value) in
      let m = write_value-Maps (table_of r) i e (retain thread e.value) v g in
      (
        e,
        put_table r new,
        g,
        rw (process_table-table_of, find-index_of (table_of r) pid v, h, l) refl,
        subst
            (λ k.
              (j : ℕ)
              → lookup j (to_list new)
                ≡ (if k == j then some (retain thread e.value) else lookup j (processes r)))
            q m.value,
      )

  -- Where 22 processes are in the table, the constructor of a listener in another one fails an
  -- assertion.
  pub retain_process_full :
      (pid thread : ℕ)
      → index_of pid (processes r) ≡ none
      → r.proptr ≡ table_capacity
      → retain_process pid thread r ≡ none
  unfolding retain_process entry_of
  retain_process_full pid thread h c =
      let v = table_of-IsWellFormed in
      rw
        (
          process_table-table_of,
          find-index_of (table_of r) pid v,
          h,
          insert_full (table_of r) pid v h (omega (arith, c)),
        )
        refl
