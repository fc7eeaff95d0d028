-- ===== src/SharedMem/Worker/Drain.antt =====
-- fjsharedmem.h: what is left of a vector when its atoms are taken out, by the worker or by the
-- destructor.
use mathlib.Core.List.{append_assoc}
use mathlib.Core.List.Perm
use fjdispatchlite.Prelude.{
  ℕ, zero, suc, ◌+◌, ◌≤◌, ◌≡◌, refl, ap, sym, ◌∙◌, subst, inl, inr, Bool, true, not, ◌&&◌, some,
  List, [], ◌∷◌, ◌++◌, map, Perm, arith, ltb, ◌==◌, if◌then◌else◌, Bool-cases, lt→ltb, length, set,
  drop, length-append, set-middle, keep, keep-All, keep-perm, perm_eq, All-map, All-kept, StdSort,
  IsOrdered, by_key-IsStrictWeakOrder,
}
use fjdispatchlite.FixVector.{
  FixVector, IsWellFormed, to_list, write_at, size, splice, shift_down, sort,
}
use fjdispatchlite.FixVector.View.{
  length-to_list, at_middle, to_list-write_at, write_at-IsWellFormed, to_list-sort,
  sort-IsWellFormed,
}
use fjdispatchlite.FixVector.Splice.{to_list-splice, splice-IsWellFormed}
use fjdispatchlite.SharedMem.{MailAtom, mail_atom_init, by_msg}
use fjdispatchlite.SharedMem.Worker.{collect, trim, extract}

-- An atom with a message.
abbrev pub is_full : MailAtom → Bool
is_full m = not (m.msg == 0)

-- What the first loop leaves of an atom.
unfoldable pub wiped : (MailAtom → Bool) → MailAtom → MailAtom
wiped p m = if p m then mail_atom_init else m

-- What a loop leaves: it does not fail, and its vector holds these elements.
pub record Leaves (v v' : FixVector MailAtom) (xs : List MailAtom) : Type 0 where
  pub elements : to_list v' ≡ xs
  pub valid : IsWellFormed v'
  pub same_capacity : v'.capacity ≡ v.capacity

write_at-capacity :
    (v : FixVector MailAtom) (i : ℕ) (m : MailAtom) → (write_at v i m).capacity ≡ v.capacity
unfolding write_at
write_at-capacity v i m = ground arith

splice-capacity : (v : FixVector MailAtom) → (splice v 0 1).capacity ≡ v.capacity
unfolding splice shift_down
splice-capacity v = ground arith

sort-capacity :
    (s : StdSort MailAtom) (v : FixVector MailAtom) → (sort s by_msg v).capacity ≡ v.capacity
unfolding sort
sort-capacity s v = refl

collect_lem :
    (p : MailAtom → Bool) (v : FixVector MailAtom) (pre ms : List MailAtom) (i n : ℕ)
    → IsWellFormed v
    → to_list v ≡ pre ++ ms
    → length pre ≡ i
    → length ms ≡ n
    → (v' : FixVector MailAtom) × (collect p v i n ≡ some (v', keep p ms))
      × Leaves v v' (pre ++ map (wiped p) ms)
unfolding collect wiped
collect_lem p v pre [] i zero w e l k =
    (v, refl, record { elements = e; valid = w; same_capacity = refl })
collect_lem p v pre [] i (suc n) w e l k = absurd (omega arith)
collect_lem p v pre (m ∷ ms) i zero w e l k = absurd (omega arith)
collect_lem p v pre (m ∷ ms) i (suc n) w e l k =
    let a = at_middle v pre ms m i w e l in
    elim (Bool-cases (p m)) [
      | inl t ↦
          let (v', c, s) =
            collect_lem p (write_at v i mail_atom_init) (pre ++ mail_atom_init ∷ []) ms (i + 1) n
              (write_at-IsWellFormed v i mail_atom_init w)
              (to_list-write_at v i mail_atom_init w
                ∙ ap (λ xs. set xs i mail_atom_init) e
                ∙ set-middle pre ms m mail_atom_init i l
                ∙ sym (append_assoc pre (mail_atom_init ∷ []) ms))
              (omega (arith, length-append pre (mail_atom_init ∷ []))) (omega arith) in
          (
            v',
            rw (a, t, keep) (rw c refl),
            record {
              elements =
                  rw t (s.elements ∙ append_assoc pre (mail_atom_init ∷ []) (map (wiped p) ms));
              valid = s.valid;
              same_capacity = s.same_capacity ∙ write_at-capacity v i mail_atom_init;
            },
          )
      | inr f ↦
          let (v', c, s) =
            collect_lem p v (pre ++ m ∷ []) ms (i + 1) n w (e ∙ sym (append_assoc pre (m ∷ []) ms))
              (omega (arith, length-append pre (m ∷ []))) (omega arith) in
          (
            v',
            rw (a, f, keep) (rw c refl),
            record {
              elements = rw f (s.elements ∙ append_assoc pre (m ∷ []) (map (wiped p) ms));
              valid = s.valid;
              same_capacity = s.same_capacity;
            },
          )
    ]

trim_lem :
    (v : FixVector MailAtom) (ms : List MailAtom) (fuel : ℕ)
    → IsWellFormed v
    → to_list v ≡ ms
    → IsOrdered by_msg ms
    → length ms ≤ fuel
    → (v' : FixVector MailAtom) × (trim fuel v ≡ some v') × Leaves v v' (keep is_full ms)
unfolding trim size
trim_lem v [] zero w e o h = (v, refl, record { elements = e; valid = w; same_capacity = refl })
trim_lem v (m ∷ ms) zero w e o h = absurd (omega arith)
trim_lem v [] (suc fuel) w e o h =
    let c : v.count ≡ 0 = omega (arith, length-to_list v w, ap length e) in
    (v, rw c refl, record { elements = e; valid = w; same_capacity = refl })
trim_lem v (m ∷ ms) (suc fuel) w e o h =
    let c : ltb 0 v.count ≡ true = lt→ltb _ _ (omega (arith, length-to_list v w, ap length e)) in
    let a = at_middle v [] ms m 0 w e refl in
    elim (Bool-cases (m.msg == 0)) [
      | inl t ↦
          let (v', r, s) =
            trim_lem (splice v 0 1) ms fuel (splice-IsWellFormed v 0 1 w (omega arith))
              (to_list-splice v 0 1 w (omega arith) ∙ ap (λ xs. drop 1 xs) e) o.1 (omega arith) in
          (
            v',
            rw (c, a, t) r,
            record {
              elements = rw (t, keep) s.elements;
              valid = s.valid;
              same_capacity = s.same_capacity ∙ splice-capacity v;
            },
          )
      | inr f ↦ (
        v,
        rw (c, a, f) refl,
        record {
          elements =
              e
              ∙ sym (
                  keep-All is_full (m ∷ ms)
                    (ground arith, All-map _ _ (λ x l. ground arith) ms o.0));
          valid = w;
          same_capacity = refl;
        },
      )
    ]

keep-wiped :
    (p : MailAtom → Bool) (ms : List MailAtom)
    → keep is_full (map (wiped p) ms) ≡ keep (λ m. not (p m) && is_full m) ms
unfolding wiped mail_atom_init
keep-wiped p [] = refl
keep-wiped p (m ∷ ms) = ground (arith, keep-wiped p ms)

sort-count : (s : StdSort MailAtom) (v : FixVector MailAtom) → (sort s by_msg v).count ≡ v.count
unfolding sort
sort-count s v = refl

IsOrdered-keep :
    (p : MailAtom → Bool) (ms : List MailAtom) → IsOrdered by_msg ms → IsOrdered by_msg (keep p ms)
IsOrdered-keep p [] o = tt
IsOrdered-keep p (m ∷ ms) o = elim (Bool-cases (p m)) [
  | inl t ↦ rw (t, keep) (All-kept _ p ms o.0, IsOrdered-keep p ms o.1)
  | inr f ↦ rw (f, keep) (IsOrdered-keep p ms o.1)
]

-- What is left of a vector and what is taken out of it.
pub record Extracts (p : MailAtom → Bool) (v v' : FixVector MailAtom) : Type 0 where
  pub rest : Perm (to_list v') (keep (λ m. not (p m) && is_full m) (to_list v))
  pub ordered : IsOrdered by_msg (to_list v')
  pub valid : IsWellFormed v'
  pub same_capacity : v'.capacity ≡ v.capacity

-- The loop does not fail. It takes exactly the atoms that pass the test, in their order, and the
-- vector is left with the other ones that have a message, each once, in the order of their messages.
pub extract-Extracts :
    (s : StdSort MailAtom) (p : MailAtom → Bool) (v : FixVector MailAtom)
    → IsWellFormed v
    → (v' : FixVector MailAtom) × (extract s p v ≡ some (v', keep p (to_list v))) × Extracts p v v'
unfolding extract
extract-Extracts s p v w =
    let (v1, c, l1) = collect_lem p v [] (to_list v) 0 v.count w refl refl (length-to_list v w) in
    let sorted = s.sort by_msg (map (wiped p) (to_list v)) in
    let o = s.sort_ordered by_msg (map (wiped p) (to_list v)) (by_key-IsStrictWeakOrder _) in
    let w2 = sort-IsWellFormed s by_msg v1 l1.valid in
    let e2 : to_list (sort s by_msg v1) ≡ sorted =
      to_list-sort s by_msg v1 l1.valid ∙ ap (s.sort by_msg) l1.elements in
    let (v2, t, l2) =
      trim_lem (sort s by_msg v1) sorted v1.count w2 e2 o
        (omega (arith, ap length e2, length-to_list (sort s by_msg v1) w2, sort-count s v1)) in
    (
      v2,
      rw (c, t) refl,
      record {
        rest = Perm.trans (perm_eq l2.elements) (
            Perm.trans (keep-perm is_full (s.sort_perm by_msg (map (wiped p) (to_list v))))
              (perm_eq (keep-wiped p (to_list v))));
        ordered = subst (IsOrdered by_msg) (sym l2.elements) (IsOrdered-keep is_full sorted o);
        valid = l2.valid;
        same_capacity = l2.same_capacity ∙ sort-capacity s v1 ∙ l1.same_capacity;
      },
    )
