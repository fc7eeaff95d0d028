-- ===== src/SharedMem/Notify/Scan.antt =====
-- fjsharedmem.h: `_notify` and, as its reference, a run over the whole table of listeners.
use mathlib.Core.List.{append_assoc}
use fjdispatchlite.Prelude.{
  ℕ, zero, suc, ◌+◌, ◌-◌, ◌≤◌, ◌≡◌, refl, ap, sym, ◌∙◌, subst, inl, inr, Bool, true, false, not,
  ◌&&◌, ◌||◌, Option, some, List, [], ◌∷◌, ◌++◌, arith, ltb, ge→ltb, lt→ltb, ◌==◌, if◌then◌else◌,
  Bool-cases, length, length-append, length-take, length-drop, take-append-drop, take, drop, All,
  All-map, IsOrdered,
}
use fjdispatchlite.FixVector
use fjdispatchlite.FixVector.{FixVector, to_list, at}
use fjdispatchlite.FixVector.View.{at_middle}
use fjdispatchlite.SharedMem.{MailAtom, SharedRegion, listen_vector, by_msg, payload_max}
use fjdispatchlite.SharedMem.Region.{
  IsWellFormed, listen_count, listen_vector-IsWellFormed, to_list-listen_vector, length-listeners,
}
use fjdispatchlite.SharedMem.Notify.{
  Notice, Sending, Notified, send, send_loop, wake, send_all, notify_from, lower_bound, notify,
}
use fjdispatchlite.SharedMem.Notify.Search.{
  count_below, count_below-le, splits, lower_bound-count_below,
}

-- The reference: every atom of a list, from index `i` of the table, in turn.
unfoldable pub send_each : Notice → Sending → ℕ → List MailAtom → Sending
send_each n s i [] = s
send_each n s i (m ∷ ms) =
    send_each n (if (m.msg == n.msg) && not (m.obj == n.from) then send n s i m else s) (i + 1) ms

-- Whether anyone listens to a message.
unfoldable pub is_listened : ℕ → List MailAtom → Bool
is_listened msg [] = false
is_listened msg (m ∷ ms) = if m.msg == msg then true else is_listened msg ms

unfoldable pub notify_each : Notice → SharedRegion → List MailAtom → Option Notified
unfolding send_each is_listened
notify_each n r ms =
    if is_listened n.msg ms
    then wake (send_each n (record { region = r; msgcount = 0; pids = [] }) 0 ms)
    else some (record { region = r; woken = []; result = false })

-- Atoms of other messages.
abbrev pub AreOthers : ℕ → List MailAtom → Type 0
AreOthers msg = All (λ m. (m.msg == msg) ≡ false)

-- One step of the reference: an atom that is passed over, and one that is sent.
pub step_skip :
    (n : Notice) (s : Sending) (i : ℕ) (m : MailAtom) (ms : List MailAtom)
    → ((m.msg == n.msg) && not (m.obj == n.from)) ≡ false
    → send_each n s i (m ∷ ms) ≡ send_each n s (i + 1) ms
unfolding send_each
step_skip n s i m ms h = ap (λ b. send_each n (if b then send n s i m else s) (i + 1) ms) h

pub step_send :
    (n : Notice) (s : Sending) (i : ℕ) (m : MailAtom) (ms : List MailAtom)
    → ((m.msg == n.msg) && not (m.obj == n.from)) ≡ true
    → send_each n s i (m ∷ ms) ≡ send_each n (send n s i m) (i + 1) ms
unfolding send_each
step_send n s i m ms h = ap (λ b. send_each n (if b then send n s i m else s) (i + 1) ms) h

send_each_others :
    (n : Notice) (s : Sending) (i j : ℕ) (xs ys : List MailAtom)
    → AreOthers n.msg xs
    → i + length xs ≡ j
    → send_each n s i (xs ++ ys) ≡ send_each n s j ys
unfolding send_each
send_each_others n s i j [] ys h e = let d : i ≡ j = omega arith in ap (λ k. send_each n s k ys) d
send_each_others n s i j (x ∷ xs) ys h e =
    step_skip n s i x (xs ++ ys) (rw h.0 refl)
    ∙ send_each_others n s (i + 1) j xs ys h.1 (omega arith)

send_each_none :
    (n : Notice) (s : Sending) (i : ℕ) (xs : List MailAtom)
    → AreOthers n.msg xs
    → send_each n s i xs ≡ s
unfolding send_each
send_each_none n s i [] h = refl
send_each_none n s i (x ∷ xs) h =
    step_skip n s i x xs (rw h.0 refl) ∙ send_each_none n s (i + 1) xs h.1

is_listened_others :
    (msg : ℕ) (xs ys : List MailAtom)
    → AreOthers msg xs
    → is_listened msg (xs ++ ys) ≡ is_listened msg ys
unfolding is_listened
is_listened_others msg [] ys h = refl
is_listened_others msg (x ∷ xs) ys h = rw h.0 (is_listened_others msg xs ys h.1)

-- In a sorted list from a message on, the atoms behind another message are of other messages.
others_behind :
    (msg : ℕ) (m : MailAtom) (ms : List MailAtom)
    → (m.msg == msg) ≡ false
    → ltb m.msg msg ≡ false
    → All (λ x. by_msg x m ≡ false) ms
    → AreOthers msg (m ∷ ms)
others_behind msg m ms e l o = (e, All-map _ _ (λ x h. ground arith) ms o)

others_below :
    (msg : ℕ) (ms : List MailAtom) → All (λ m. ltb m.msg msg ≡ true) ms → AreOthers msg ms
others_below msg ms h = All-map _ _ (λ x l. ground arith) ms h

send_loop-send_each :
    (n : Notice) (v : FixVector MailAtom) (s : Sending) (pre ms : List MailAtom) (i rounds : ℕ)
    → fjdispatchlite.FixVector.IsWellFormed v
    → to_list v ≡ pre ++ ms
    → length pre ≡ i
    → length ms ≡ rounds
    → IsOrdered by_msg ms
    → All (λ m. ltb m.msg n.msg ≡ false) ms
    → send_loop n v s i rounds ≡ some (send_each n s i ms)
unfolding send_loop send_each
send_loop-send_each n v s pre [] i zero w e l k o a = refl
send_loop-send_each n v s pre [] i (suc rounds) w e l k o a = absurd (omega arith)
send_loop-send_each n v s pre (m ∷ ms) i zero w e l k o a = absurd (omega arith)
send_loop-send_each n v s pre (m ∷ ms) i (suc rounds) w e l k o a =
    let g = at_middle v pre ms m i w e l in
    let next = λ (s' : Sending).
      send_loop-send_each n v s' (pre ++ m ∷ []) ms (i + 1) rounds w
        (e ∙ sym (append_assoc pre (m ∷ []) ms)) (omega (arith, length-append pre (m ∷ [])))
        (omega arith) o.1 a.1 in
    elim (Bool-cases (m.msg == n.msg)) [
      | inr f ↦
          rw (g, f)
            (ap some (sym (send_each_none n s (i + 1) ms (others_behind n.msg m ms f a.0 o.0).1)))
      | inl t ↦ elim (Bool-cases (m.obj == n.from)) [
        | inl f ↦ rw (g, t, f) (next s)
        | inr f ↦ rw (g, t, f) (next (send n s i m))
      ]
    ]

-- A region whose table is listed around the point that the search gives.
module _ (n : Notice) (r : SharedRegion) (w : IsWellFormed r) where
  abbrev listeners : List MailAtom
  listeners = take r.lptr r.listen

  abbrev bound : ℕ
  bound = count_below n.msg listeners

  abbrev before : List MailAtom
  before = take bound listeners

  abbrev after : List MailAtom
  after = drop bound listeners

  length-before : length before ≡ bound
  length-before = omega (arith, length-take bound listeners, count_below-le n.msg listeners)

  bound-le : bound ≤ r.lptr
  bound-le = omega (arith, count_below-le n.msg listeners, length-listeners r w)

  search_lem : lower_bound (listen_vector r) n.msg r.lptr 0 r.lptr ≡ some bound
  search_lem =
      let e = to_list-listen_vector r w in
      lower_bound-count_below (listen_vector r) n.msg r.lptr 0 r.lptr
        (listen_vector-IsWellFormed r w) (subst (IsOrdered by_msg) (sym e) w.listen_ordered)
        (omega (arith, listen_count r w)) (omega arith) (omega arith)
        (omega (arith, bound-le, ap (count_below n.msg) e))
      ∙ ap (λ ms. some (count_below n.msg ms)) e

  send_all_lem :
      (s : Sending)
      → send_loop n (listen_vector r) s bound (r.lptr - bound) ≡ some (send_each n s 0 listeners)
  send_all_lem s =
      let p = splits n.msg listeners w.listen_ordered in
      send_loop-send_each n (listen_vector r) s before after bound (r.lptr - bound)
        (listen_vector-IsWellFormed r w)
        (to_list-listen_vector r w ∙ sym (take-append-drop bound listeners)) length-before
        (omega (arith, length-drop bound listeners, length-listeners r w)) p.ordered p.above
      ∙ ap some (
          sym (
            send_each_others n s 0 bound before after (others_below n.msg before p.below)
              (omega (arith, length-before)))
          ∙ ap (send_each n s 0) (take-append-drop bound listeners))

  -- Whether anyone listens is read off the atom at the bound.
  listened_lem : is_listened n.msg after ≡ is_listened n.msg listeners
  listened_lem =
      let p = splits n.msg listeners w.listen_ordered in
      sym (is_listened_others n.msg before after (others_below n.msg before p.below))
      ∙ ap (is_listened n.msg) (take-append-drop bound listeners)

  is_listened_none : (xs : List MailAtom) → AreOthers n.msg xs → is_listened n.msg xs ≡ false
  unfolding is_listened
  is_listened_none [] h = refl
  is_listened_none (x ∷ xs) h = rw h.0 (is_listened_none xs h.1)

  is_listened_first :
      (m : MailAtom) (ms : List MailAtom)
      → (m.msg == n.msg) ≡ true
      → is_listened n.msg (m ∷ ms) ≡ true
  unfolding is_listened
  is_listened_first m ms t = rw t refl

  from_after : (xs : List MailAtom) → after ≡ xs → notify_from n r bound ≡ notify_each n r listeners
  unfolding notify_from send_all notify_each
  from_after [] e =
      let l : is_listened n.msg listeners ≡ false =
        sym listened_lem ∙ is_listened_none after (subst (AreOthers n.msg) (sym e) tt) in
      let b : ltb bound r.lptr ≡ false =
        ge→ltb _ _
          (omega (arith, ap length e, length-drop bound listeners, length-listeners r w)) in
      rw (b, l) refl
  from_after (m ∷ ms) e =
      let b : ltb bound r.lptr ≡ true =
        lt→ltb _ _
          (omega (arith, ap length e, length-drop bound listeners, length-listeners r w)) in
      let a : at (listen_vector r) bound ≡ some m =
        at_middle (listen_vector r) before ms m bound (listen_vector-IsWellFormed r w)
          (to_list-listen_vector r w
            ∙ sym (take-append-drop bound listeners)
            ∙ ap (λ ys. before ++ ys) e)
          length-before in
      let p = splits n.msg listeners w.listen_ordered in
      let o : IsOrdered by_msg (m ∷ ms) = subst (IsOrdered by_msg) e p.ordered in
      let v : ltb m.msg n.msg ≡ false = (subst (All (λ x. ltb x.msg n.msg ≡ false)) e p.above).0 in
      elim (Bool-cases (m.msg == n.msg)) [
        | inl t ↦
            let l : is_listened n.msg listeners ≡ true =
              sym listened_lem ∙ ap (is_listened n.msg) e ∙ is_listened_first m ms t in
            rw (b, a, t, l, send_all_lem (record { region = r; msgcount = 0; pids = [] })) refl
        | inr f ↦
            let l : is_listened n.msg listeners ≡ false =
              sym listened_lem
              ∙ ap (is_listened n.msg) e
              ∙ is_listened_none (m ∷ ms) (others_behind n.msg m ms f v o.0) in
            rw (b, a, f, l) refl
      ]

-- On a well-formed region, and a call whose arguments are in order, `_notify` does what a run over
-- the whole table does that sends to each listener of the message but the sender; where there is no
-- listener, nothing changes and it returns false.
pub notify-notify_each :
    (n : Notice) (has_buf : Bool) (r : SharedRegion)
    → IsWellFormed r
    → ((n.from == 0) || (ltb 0 n.size && not has_buf) || ltb payload_max n.size) ≡ false
    → notify n has_buf r ≡ notify_each n r (take r.lptr r.listen)
unfolding notify
notify-notify_each n has_buf r w h = rw h (rw (search_lem n r w) (from_after n r w _ refl))
