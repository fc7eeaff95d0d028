-- ===== src/SharedMem/Process/Moving.antt =====
-- fjsharedmem.h: where the entry of a process stands while another process enters the table. The worker
-- keeps a pointer to its entry, found once when it starts.
use fjdispatchlite.Prelude.{
  ℕ, zero, suc, ◌<◌, ◌≡◌, refl, ap, ◌∙◌, inl, inr, none, some, List, [], ◌∷◌, arith, ltb,
  Bool-cases, Option-cases, get_elem?, get_elem?-of_take, set, take-set_lt,
}
use fjdispatchlite.FixMap.{Entry, FixMap, index_of, to_list, write_value}
use fjdispatchlite.FixMap.Search.{find-index_of}
use fjdispatchlite.FixMap.Insert.{insert_absent, spec_insert}
use fjdispatchlite.FixMap.Laws.{spec_insert-cons}
use fjdispatchlite.SharedMem.{ProAtom, SharedRegion, pro_atom_init, put_table}
use fjdispatchlite.SharedMem.Region.{IsWellFormed, table_capacity}
use fjdispatchlite.SharedMem.Process.{retain, entry_of, retain_process}
use fjdispatchlite.SharedMem.Process.Table.{
  processes, table_of, process_table-table_of, table_of-IsWellFormed,
}
use fjdispatchlite.SharedMem.Process.Changes.{write_value-get}

index_of-set :
    (es : List (Entry ProAtom)) (k j : ℕ) (e : Entry ProAtom) (v : ProAtom)
    → get_elem? es k ≡ some e
    → index_of j (set es k (record e { value = v })) ≡ index_of j es
unfolding index_of
index_of-set [] k j e v h = refl
index_of-set (x ∷ es) zero j e v h = let q : e.key ≡ x.key = cc in ground arith
index_of-set (x ∷ es) (suc k) j e v h = ground (arith, index_of-set es k j e v h)

index_of-spec_insert :
    (e : Entry ProAtom) (es : List (Entry ProAtom)) (j i : ℕ)
    → e.key < j
    → index_of j es ≡ some i
    → index_of j (spec_insert e es) ≡ some (suc i)
unfolding index_of
index_of-spec_insert e [] j i l h = absurd (ground arith)
index_of-spec_insert e (x ∷ es) j i l h =
    rw (spec_insert-cons e x es) (elim (Bool-cases (ltb x.key e.key)) [
      | inr f ↦ rw f (ground arith)
      | inl t ↦ elim (Option-cases (index_of j es)) [
        | inl n ↦ absurd (ground arith)
        | inr (k, n) ↦ rw t (ground (arith, index_of-spec_insert e es j k l n))
      ]
    ])

to_list-write_value :
    (m : FixMap ProAtom) (i : ℕ) (e : Entry ProAtom) (v : ProAtom)
    → get_elem? (to_list m) i ≡ some e
    → to_list (write_value m i v) ≡ set (to_list m) i (record e { value = v })
unfolding write_value
to_list-write_value m i e v h =
    let g = get_elem?-of_take m.count i m.entries e h in
    rw (g, write_value) (take-set_lt m.count i m.entries (record e { value = v }))

-- While a process enters the table that has a lower number than another one which is there, the entry
-- of the other one moves: where it stood, another process's entry stands afterwards.
pub retain_process-moves :
    (r : SharedRegion) (pid thread other i : ℕ)
    → IsWellFormed r
    → index_of pid (processes r) ≡ none
    → r.proptr < table_capacity
    → index_of other (processes r) ≡ some i
    → pid < other
    → (r' : SharedRegion) × (retain_process pid thread r ≡ some r')
      × (index_of other (processes r') ≡ some (suc i))
unfolding retain_process entry_of put_table
retain_process-moves r pid thread other i w h room o l =
    let v = table_of-IsWellFormed r w in
    let (m, k, old, n) = insert_absent (table_of r) pid v h room in
    let e : Entry ProAtom = record { key = pid; value = old } in
    let f : Entry ProAtom = record { key = pid; value = pro_atom_init } in
    let one = write_value m k pro_atom_init in
    let two = write_value one k (retain thread pro_atom_init) in
    let g = write_value-get m k e pro_atom_init n.pointed in
    let kept : index_of other (to_list two) ≡ index_of other (to_list m) =
      ap (index_of other) (to_list-write_value one k f (retain thread pro_atom_init) g)
      ∙ index_of-set (to_list one) k other f (retain thread pro_atom_init) g
      ∙ ap (index_of other) (to_list-write_value m k e pro_atom_init n.pointed)
      ∙ index_of-set (to_list m) k other e pro_atom_init n.pointed in
    (
      put_table r two,
      rw
          (
            process_table-table_of r w,
            find-index_of (table_of r) pid v,
            h,
            n.result,
            get_elem?-of_take one.count k one.entries f g,
          )
          refl,
      kept ∙ ap (index_of other) n.elements ∙ index_of-spec_insert e (processes r) other i l o,
    )
