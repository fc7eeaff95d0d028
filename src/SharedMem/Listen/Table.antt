-- ===== src/SharedMem/Listen/Table.antt =====
-- fjsharedmem.h: what `_addListen` makes of the table of listeners.
use mathlib.Core.List.{append_assoc, append-nil}
use mathlib.Core.List.Perm
use fjdispatchlite.Prelude.{
  ℕ, zero, suc, ◌+◌, ◌≤◌, ◌<◌, ◌≡◌, refl, ap, sym, ◌∙◌, subst, inl, inr, Bool, true, false, ◌&&◌,
  ◌||◌, none, some, List, [], ◌∷◌, ◌++◌, take, Perm, perm_eq, arith, leb, leb→le, leb→gt, ◌==◌,
  if◌then◌else◌, Bool-cases, length, length-append, StdSort, IsOrdered, by_key-IsStrictWeakOrder,
  All, eq→==,
}
use fjdispatchlite.FixVector
use fjdispatchlite.FixVector.{FixVector, to_list, push_back, sort}
use fjdispatchlite.FixVector.View.{
  length-to_list, at_middle, push_back-full, push_back-IsWellFormed, to_list-push_back,
  to_list-sort, sort-IsWellFormed,
}
use fjdispatchlite.SharedMem.{MailAtom, SharedRegion, listen_max, listen_vector, put_listen, by_msg}
use fjdispatchlite.SharedMem.Region.{
  IsWellFormed, listen_capacity, length-listeners, listen_vector-IsWellFormed,
  to_list-listen_vector,
}
use fjdispatchlite.SharedMem.Listen.{duplicated, add_loop, add_messages}

abbrev pub atom : ℕ → ℕ → ℕ → MailAtom
atom obj pid msg = record { msg = msg; obj = obj; pid = pid; payload_idx = none }

-- Whether the table has a listener already.
unfoldable pub has : ℕ → ℕ → ℕ → List MailAtom → Bool
has obj pid msg [] = false
has obj pid msg (m ∷ ms) =
    if (m.obj == obj) && (m.msg == msg) && (m.pid == pid) then true else has obj pid msg ms

-- The reference: a message is added unless it is there or the table is full; the count is that of
-- the messages added.
unfoldable pub spec_add : ℕ → ℕ → List MailAtom → List ℕ → ℕ → List MailAtom × ℕ
unfolding has
spec_add obj pid xs [] regi = (xs, regi)
spec_add obj pid xs (msg ∷ msgs) regi =
    let skipped = spec_add obj pid xs msgs regi in
    let added = spec_add obj pid (xs ++ atom obj pid msg ∷ []) msgs (regi + 1) in
    if has obj pid msg xs || leb listen_max (length xs) then skipped else added

duplicated_lem :
    (v : FixVector MailAtom) (obj msg pid : ℕ) (pre ms : List MailAtom) (i n : ℕ)
    → fjdispatchlite.FixVector.IsWellFormed v
    → to_list v ≡ pre ++ ms
    → length pre ≡ i
    → length ms ≡ n
    → duplicated v obj msg pid i n ≡ some (has obj pid msg ms)
unfolding duplicated has
duplicated_lem v obj msg pid pre [] i zero w e l k = refl
duplicated_lem v obj msg pid pre [] i (suc n) w e l k = absurd (omega arith)
duplicated_lem v obj msg pid pre (m ∷ ms) i zero w e l k = absurd (omega arith)
duplicated_lem v obj msg pid pre (m ∷ ms) i (suc n) w e l k =
    elim (Bool-cases ((m.obj == obj) && (m.msg == msg) && (m.pid == pid))) [
      | inl t ↦ rw (at_middle v pre ms m i w e l, t) refl
      | inr f ↦
          rw (at_middle v pre ms m i w e l, f)
            (duplicated_lem v obj msg pid (pre ++ m ∷ []) ms (i + 1) n w
              (e ∙ sym (append_assoc pre (m ∷ []) ms)) (omega (arith, length-append pre (m ∷ [])))
              (omega arith))
    ]

-- What the loop leaves.
pub record Adds (v v' : FixVector MailAtom) (xs : List MailAtom) : Type 0 where
  pub elements : to_list v' ≡ xs
  pub valid : fjdispatchlite.FixVector.IsWellFormed v'
  pub same_capacity : v'.capacity ≡ v.capacity

push_back-capacity :
    (v : FixVector MailAtom) (m : MailAtom) → (push_back v m).0.capacity ≡ v.capacity
unfolding push_back
push_back-capacity v m = ground arith

add_loop_lem :
    (obj pid : ℕ) (v : FixVector MailAtom) (xs : List MailAtom) (msgs : List ℕ) (regi : ℕ)
    → fjdispatchlite.FixVector.IsWellFormed v
    → v.capacity ≡ listen_max
    → to_list v ≡ xs
    → (v' : FixVector MailAtom) × (add_loop obj pid v msgs regi
        ≡ some (v', (spec_add obj pid xs msgs regi).1))
      × Adds v v' (spec_add obj pid xs msgs regi).0
unfolding add_loop spec_add
add_loop_lem obj pid v xs [] regi w c e =
    (v, refl, record { elements = e; valid = w; same_capacity = refl })
add_loop_lem obj pid v xs (msg ∷ msgs) regi w c e =
    let d : duplicated v obj msg pid 0 v.count ≡ some (has obj pid msg xs) =
      duplicated_lem v obj msg pid [] xs 0 v.count w e refl
        (omega (arith, ap length e, length-to_list v w)) in
    let k : length xs ≡ v.count = omega (arith, ap length e, length-to_list v w) in
    elim (Bool-cases (has obj pid msg xs)) [
      | inl t ↦ rw (d, t) (add_loop_lem obj pid v xs msgs regi w c e)
      | inr f ↦ elim (Bool-cases (leb listen_max (length xs))) [
        | inl t ↦
            rw (d, f, t, push_back-full v (atom obj pid msg) (omega (arith, leb→le _ _ t)))
              (add_loop_lem obj pid v xs msgs regi w c e)
        | inr g ↦
            let room : v.count < v.capacity = omega (arith, leb→gt _ _ g) in
            let p = to_list-push_back v (atom obj pid msg) w room in
            let (v', r, a) =
              add_loop_lem obj pid (push_back v (atom obj pid msg)).0 (xs ++ atom obj pid msg ∷ [])
                msgs (regi + 1) (push_back-IsWellFormed v (atom obj pid msg) w)
                (push_back-capacity v (atom obj pid msg) ∙ c)
                (p.0 ∙ ap (λ l. l ++ atom obj pid msg ∷ []) e) in
            rw (d, f, g, p.1)
              (
                v',
                r,
                record {
                  elements = a.elements;
                  valid = a.valid;
                  same_capacity = a.same_capacity ∙ push_back-capacity v (atom obj pid msg);
                },
              )
      ]
    ]

-- As many messages are added as the count says.
spec_add-length :
    (obj pid : ℕ) (xs : List MailAtom) (msgs : List ℕ) (regi : ℕ)
    → length (spec_add obj pid xs msgs regi).0 + regi
      ≡ length xs + (spec_add obj pid xs msgs regi).1
unfolding spec_add
spec_add-length obj pid xs [] regi = refl
spec_add-length obj pid xs (msg ∷ msgs) regi =
    elim (Bool-cases (has obj pid msg xs || leb listen_max (length xs))) [
      | inl t ↦ rw t (spec_add-length obj pid xs msgs regi)
      | inr f ↦ rw f (
          omega (
            arith,
            spec_add-length obj pid (xs ++ atom obj pid msg ∷ []) msgs (regi + 1),
            length-append xs (atom obj pid msg ∷ []),
          ))
    ]

-- The messages added are the object's own, behind those that were there.
pub spec_add-extends :
    (obj pid : ℕ) (xs : List MailAtom) (msgs : List ℕ) (regi : ℕ)
    → (ys : List MailAtom) × ((spec_add obj pid xs msgs regi).0 ≡ xs ++ ys)
      × All (λ m. (m.obj == obj) ≡ true) ys
      × (length ys + regi ≡ (spec_add obj pid xs msgs regi).1)
unfolding spec_add
spec_add-extends obj pid xs [] regi = ([], sym (append-nil xs), tt, omega arith)
spec_add-extends obj pid xs (msg ∷ msgs) regi =
    elim (Bool-cases (has obj pid msg xs || leb listen_max (length xs))) [
      | inl t ↦ rw t (spec_add-extends obj pid xs msgs regi)
      | inr f ↦
          let (ys, e, a, n) =
            spec_add-extends obj pid (xs ++ atom obj pid msg ∷ []) msgs (regi + 1) in
          rw f (
            atom obj pid msg ∷ ys,
            e ∙ append_assoc xs (atom obj pid msg ∷ []) ys,
            (eq→== obj obj refl, a),
            omega (arith, n),
          )
    ]

-- What a registration makes of the region.
pub record Registers (r r' : SharedRegion) (xs : List MailAtom) (regi : ℕ) : Type 0 where
  pub listeners : Perm (take r'.lptr r'.listen) xs
  pub counted : r'.lptr ≡ r.lptr + regi
  pub same_queue : (r'.queue ≡ r.queue) × (r'.qptr ≡ r.qptr)
  pub same_payload : r'.payload ≡ r.payload
  pub same_table : (r'.protbl ≡ r.protbl) × (r'.proptr ≡ r.proptr)
  pub same_count : r'.initialized ≡ r.initialized
  pub valid : IsWellFormed r'

module _ (s : StdSort MailAtom) (v : FixVector MailAtom) where
  sorted_fits :
      fjdispatchlite.FixVector.IsWellFormed (sort s by_msg v)
      → v.capacity ≡ listen_max
      → listen_max ≤ length (sort s by_msg v).buffer
  unfolding sort
  sorted_fits w c = omega (arith, w.fits, c)

  sorted_bounded :
      fjdispatchlite.FixVector.IsWellFormed (sort s by_msg v)
      → v.capacity ≡ listen_max
      → (sort s by_msg v).count ≤ listen_max
  unfolding sort
  sorted_bounded w c = omega (arith, w.bounded, c)

  sorted_counted :
      (xs ys : List MailAtom) (n regi : ℕ)
      → fjdispatchlite.FixVector.IsWellFormed v
      → to_list v ≡ ys
      → length xs ≡ n
      → length ys + 0 ≡ length xs + regi
      → (sort s by_msg v).count ≡ n + regi
  unfolding sort
  sorted_counted xs ys n regi w e k h = omega (arith, ap length e, length-to_list v w, k, h)

-- On a well-formed region `_addListen` does not fail. The table holds what it held and the messages
-- that were not there, as far as 128 fit; the returned count is that of the new entries; the queue,
-- the payloads and the process table are not touched; and the region stays well formed, its table sorted.
pub add_messages-Registers :
    (s : StdSort MailAtom) (pid : ℕ) (r : SharedRegion) (obj : ℕ) (msgs : List ℕ)
    → IsWellFormed r
    → (r' : SharedRegion) × (add_messages s pid r obj msgs
        ≡ some (r', (spec_add obj pid (take r.lptr r.listen) msgs 0).1))
      × Registers r r'
          (spec_add obj pid (take r.lptr r.listen) msgs 0).0
          (spec_add obj pid (take r.lptr r.listen) msgs 0).1
unfolding add_messages put_listen
add_messages-Registers s pid r obj msgs w =
    let v = listen_vector r in
    let wv = listen_vector-IsWellFormed r w in
    let xs = take r.lptr r.listen in
    let (v', e, a) =
      add_loop_lem obj pid v xs msgs 0 wv (listen_capacity r w) (to_list-listen_vector r w) in
    let ws = sort-IsWellFormed s by_msg v' a.valid in
    let t = to_list-sort s by_msg v' a.valid ∙ ap (s.sort by_msg) a.elements in
    let c = a.same_capacity ∙ listen_capacity r w in
    (
      put_listen r (sort s by_msg v'),
      rw e refl,
      record {
        listeners = Perm.trans (perm_eq t) (s.sort_perm by_msg (spec_add obj pid xs msgs 0).0);
        counted =
            sorted_counted s v' xs _ r.lptr _ a.valid a.elements (length-listeners r w)
              (spec_add-length obj pid xs msgs 0);
        same_queue = (refl, refl);
        same_payload = refl;
        same_table = (refl, refl);
        same_count = refl;
        valid = record {
          listen_fits = sorted_fits s v' ws c;
          listen_bounded = sorted_bounded s v' ws c;
          listen_ordered =
              subst (IsOrdered by_msg) (sym t)
                (s.sort_ordered by_msg _ (by_key-IsStrictWeakOrder _));
          queue_fits = w.queue_fits;
          queue_bounded = w.queue_bounded;
          table_fits = w.table_fits;
          table_bounded = w.table_bounded;
          table_ascending = w.table_ascending;
        };
      },
    )
