-- ===== src/SharedMem/Process/Changes.antt =====
-- fjsharedmem.h: a process table with the entry of one process changed.
use fjdispatchlite.Prelude.{
  ℕ, zero, suc, ◌≡◌, refl, ap, ◌∙◌, inl, inr, Bool, Option, some, List, [], ◌∷◌, arith, ◌==◌,
  if◌then◌else◌, Bool-cases, get_elem?, get_elem?-of_take, set, take-set_lt,
}
use fjdispatchlite.FixMap.{Entry, FixMap, to_list, write_value}
use fjdispatchlite.FixMap.Laws.{lookup, Maps}
use fjdispatchlite.SharedMem.{ProAtom, SharedRegion, put_table}
use fjdispatchlite.SharedMem.Region.{IsWellFormed}
use fjdispatchlite.SharedMem.Process.Table.{processes, table_of}

-- One process's entry has changed, and nothing else in the region.
pub record Assigns (r r' : SharedRegion) (pid : ℕ) (v : Option ProAtom) : Type 0 where
  pub value : (j : ℕ) → lookup j (processes r') ≡ (if pid == j then v else lookup j (processes r))
  pub same_queue : (r'.queue ≡ r.queue) × (r'.qptr ≡ r.qptr)
  pub same_listen : (r'.listen ≡ r.listen) × (r'.lptr ≡ r.lptr)
  pub same_payload : r'.payload ≡ r.payload
  pub same_count : r'.initialized ≡ r.initialized
  pub valid : IsWellFormed r'

pub put_table-Assigns :
    (r : SharedRegion) (m : FixMap ProAtom) (pid : ℕ) (v : Option ProAtom)
    → IsWellFormed r
    → Maps (table_of r) m pid v
    → Assigns r (put_table r m) pid v
unfolding put_table
put_table-Assigns r m pid v w x = record {
  value = x.value;
  same_queue = (refl, refl);
  same_listen = (refl, refl);
  same_payload = refl;
  same_count = refl;
  valid = record {
    listen_fits = w.listen_fits;
    listen_bounded = w.listen_bounded;
    listen_ordered = w.listen_ordered;
    queue_fits = w.queue_fits;
    queue_bounded = w.queue_bounded;
    table_fits = omega (arith, x.valid.fits, x.same_capacity);
    table_bounded = omega (arith, x.valid.bounded, x.same_capacity);
    table_ascending = x.valid.ascending;
  };
}

-- Two writes behind one key.
pub Maps-trans :
    (a b c : FixMap ProAtom) (key : ℕ) (u v : Option ProAtom)
    → Maps a b key u
    → Maps b c key v
    → Maps a c key v
Maps-trans a b c key u v x y = record {
  value = λ j. y.value j ∙ twice j;
  same_capacity = y.same_capacity ∙ x.same_capacity;
  valid = y.valid;
}
  where
    twice :
        (j : ℕ)
        → (if key == j then v else lookup j (to_list b))
          ≡ (if key == j then v else lookup j (to_list a))
    twice j = elim (Bool-cases (key == j)) [
      | inl t ↦ rw t refl
      | inr f ↦ rw f (x.value j ∙ ap (λ (t : Bool). if t then u else lookup j (to_list a)) f)
    ]

set-get :
    (es : List (Entry ProAtom)) (i : ℕ) (e f : Entry ProAtom)
    → get_elem? es i ≡ some e
    → get_elem? (set es i f) i ≡ some f
set-get [] i e f h = absurd (ground arith)
set-get (x ∷ es) zero e f h = refl
set-get (x ∷ es) (suc i) e f h = set-get es i e f h

pub write_value-get :
    (m : FixMap ProAtom) (i : ℕ) (e : Entry ProAtom) (v : ProAtom)
    → get_elem? (to_list m) i ≡ some e
    → get_elem? (to_list (write_value m i v)) i ≡ some (record { key = e.key; value = v })
unfolding write_value
write_value-get m i e v h =
    let g = get_elem?-of_take m.count i m.entries e h in
    rw (g, write_value)
      (ap (λ es. get_elem? es i) (take-set_lt m.count i m.entries (record e { value = v }))
        ∙ set-get (to_list m) i e (record e { value = v }) h)
