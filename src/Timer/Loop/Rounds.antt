-- ===== src/Timer/Loop/Rounds.antt =====
-- fjtimerlite.h: a timer that is due, over the rounds of `timerThread`.
use fjdispatchlite.Prelude.{
  ℕ, zero, suc, ◌+◌, ◌<◌, ◌≤◌, ◌≡◌, ◌≢◌, refl, ap, ◌∙◌, inl, inr, ◌⊎◌, Bool, true, Option, none,
  some, List, [], ◌∷◌, arith, leb, leb→le, leb→gt, ◌==◌, eq→==, one_if, count-cons, Bool-cases,
  length, get_elem?, All, count,
}
use fjdispatchlite.Timer.{TimerInfo}
use fjdispatchlite.Timer.Loop.{Loop, turn, turns, follow}
use fjdispatchlite.Timer.Loop.Standing.{Stands, Passes}
use fjdispatchlite.Timer.Loop.Turns.{turn_cases}

-- How many rounds it takes at most until the iterator stands at `k` and that round is over.
IsWithin : Loop → ℕ → ℕ → Type 0
IsWithin l k n =
    ((l.it ≤ k) × (k < l.it + n)) ⊎ ((k < l.it) × (length l.timer.timers + 1 + k < l.it + n))

IsWithin-next :
    (l l' : Loop) (k h n : ℕ) (info : TimerInfo)
    → Passes l l' k h info
    → k < length l.timer.timers
    → l.it ≢ k
    → IsWithin l k (suc n)
    → IsWithin l' k n
unfolding IsWithin
IsWithin-next l l' k h n info p b d w = elim p.moved [
  | inl (a, e) ↦ elim w [
    | inl (c, f) ↦ inl (omega arith, omega arith)
    | inr (c, f) ↦ inr (omega arith, omega (arith, p.same_length))
  ]
  | inr (a, e) ↦ elim w [
    | inl (c, f) ↦ absurd (omega arith)
    | inr (c, f) ↦ inl (omega arith, omega arith)
  ]
]

turns_called :
    (rounds : List (ℕ × Bool)) (now h : ℕ) (value : Bool) (l l' : Loop) (o : Option ℕ)
    → turn now value l ≡ some (o, l')
    → count (λ j. j == h) (turns ((now, value) ∷ rounds) l)
      ≡ (elim o [ none ↦ 0 | some j ↦ one_if (j == h) ]) + count (λ j. j == h) (turns rounds l')
unfolding turns follow
turns_called rounds now h value l l' none e =
    omega (arith, ap (λ x. count (λ j. j == h) (follow (turns rounds) x)) e)
turns_called rounds now h value l l' (some j) e =
    ap (λ x. count (λ j. j == h) (follow (turns rounds) x)) e
    ∙ count-cons (λ j. j == h) j (turns rounds l')

fires_within :
    (rounds : List (ℕ × Bool)) (k h : ℕ) (l : Loop) (info : TimerInfo)
    → Stands l k h info
    → k < length l.timer.timers
    → info.active ≡ true
    → info.obj ≢ 0
    → info.mf ≢ 0
    → All (λ round. info.next_time ≤ round.0) rounds
    → IsWithin l k (length rounds)
    → 0 < count (λ j. j == h) (turns rounds l)
fires_within [] k h l info s b a x y d w =
    unfold IsWithin in
    elim w [ inl (c, f) ↦ absurd (omega arith) | inr (c, f) ↦ absurd (omega (arith, s.in_range)) ]
fires_within ((now, value) ∷ rounds) k h l info s b a x y d w =
    elim (turn_cases now k h value l info s b a d.0 x y) [
      | inl (l', e) ↦
          omega (arith, turns_called rounds now h value l l' (some h) e, ap one_if (eq→== h h refl))
      | inr (o, l', e, p, n) ↦
          let rest =
            fires_within rounds k h l' info p.stands (omega (arith, p.same_length)) a x y d.1
              (IsWithin-next l l' k h (length rounds) info p b n w) in
          omega (arith, turns_called rounds now h value l l' o e, rest)
    ]

-- While no other section changes the table, the method of a timer that is active, due in every round,
-- and has an object and a method, is called within one round more than there are timers, wherever the iterator stands, whatever the other timers are and
-- whatever their methods give.
pub turns-fires :
    (rounds : List (ℕ × Bool)) (k h : ℕ) (l : Loop) (info : TimerInfo)
    → Stands l k h info
    → info.active ≡ true
    → info.obj ≢ 0
    → info.mf ≢ 0
    → All (λ round. info.next_time ≤ round.0) rounds
    → length l.timer.timers < length rounds
    → 0 < count (λ j. j == h) (turns rounds l)
turns-fires rounds k h l info s a x y d n =
    let b : k < length l.timer.timers = get_in_range l.timer.timers k (h, info) s.there in
    fires_within rounds k h l info s b a x y d (start b)
  where
    get_in_range :
        (m : List (ℕ × TimerInfo)) (i : ℕ) (e : ℕ × TimerInfo)
        → get_elem? m i ≡ some e
        → i < length m
    get_in_range [] i e g = absurd (ground arith)
    get_in_range (x ∷ m) zero e g = omega arith
    get_in_range (x ∷ m) (suc i) e g = omega (arith, get_in_range m i e g)

    start : k < length l.timer.timers → IsWithin l k (length rounds)
    start b =
        unfold IsWithin in
        elim (Bool-cases (leb l.it k)) [
          | inl t ↦ inl (leb→le _ _ t, omega (arith, leb→le _ _ t))
          | inr f ↦ inr (leb→gt _ _ f, omega (arith, leb→gt _ _ f))
        ]
