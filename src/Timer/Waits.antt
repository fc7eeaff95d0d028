-- ===== src/Timer/Waits.antt =====
-- fjtimerlite.h: how long `timerThread` waits before it looks at the timers again.
use fjdispatchlite.Prelude.{
  ℕ, ◌+◌, ◌≤◌, ◌<◌, ◌≡◌, ap, sym, subst, inl, inr, ◌⊎◌, true, false, ◌&&◌, List, [], ◌∷◌, arith,
  ltb, leb, le→leb, ◌-◌, refl, Bool, count, count_mono, count-cons, one_if, ltb→lt, ltb→ge,
  if◌then◌else◌, Bool-cases, All, All-map,
}
use fjdispatchlite.Timer.{TimerInfo, Timer, min_tick, max_tick, next_due, wait_time}

next_due-le : (limit : ℕ) (ts : List (ℕ × TimerInfo)) → next_due limit ts ≤ limit
unfolding next_due
next_due-le limit [] = omega arith
next_due-le limit ((h, info) ∷ ts) = elim (Bool-cases (info.active && ltb info.next_time limit)) [
  | inl t ↦
      let l : info.next_time < limit = ground arith in
      rw t (omega (arith, next_due-le info.next_time ts, l))
  | inr f ↦ rw f (next_due-le limit ts)
]

-- No active timer is due before a time.
abbrev pub IsBefore : ℕ → ℕ × TimerInfo → Type 0
IsBefore time (h, info) = info.active ≡ true → time ≤ info.next_time

due_sooner :
    (limit h : ℕ) (info : TimerInfo) (ts : List (ℕ × TimerInfo))
    → (info.active && ltb info.next_time limit) ≡ true
    → next_due limit ((h, info) ∷ ts) ≡ next_due info.next_time ts
unfolding next_due
due_sooner limit h info ts t = ap (λ b. next_due (if b then info.next_time else limit) ts) t

due_later :
    (limit h : ℕ) (info : TimerInfo) (ts : List (ℕ × TimerInfo))
    → (info.active && ltb info.next_time limit) ≡ false
    → next_due limit ((h, info) ∷ ts) ≡ next_due limit ts
unfolding next_due
due_later limit h info ts f = ap (λ b. next_due (if b then info.next_time else limit) ts) f

next_due-IsBefore : (limit : ℕ) (ts : List (ℕ × TimerInfo)) → All (IsBefore (next_due limit ts)) ts
next_due-IsBefore limit [] = tt
next_due-IsBefore limit ((h, info) ∷ ts) =
    elim (Bool-cases (info.active && ltb info.next_time limit)) [
      | inl t ↦
          subst (λ n. All (IsBefore n) ((h, info) ∷ ts)) (sym (due_sooner limit h info ts t))
            ((λ a. next_due-le info.next_time ts), next_due-IsBefore info.next_time ts)
      | inr f ↦
          subst (λ n. All (IsBefore n) ((h, info) ∷ ts)) (sym (due_later limit h info ts f))
            (
              (λ a.
                  let l : limit ≤ info.next_time = ground arith in
                  omega (arith, next_due-le limit ts, l)),
              next_due-IsBefore limit ts,
            )
    ]

-- Whether a timer is active and due by a time.
abbrev pub is_due : ℕ → ℕ × TimerInfo → Bool
is_due time (h, info) = info.active && leb info.next_time time

-- A time before the limit is that of an active timer.
next_due_found :
    (limit : ℕ) (ts : List (ℕ × TimerInfo))
    → (next_due limit ts ≡ limit) ⊎ (0 < count (is_due (next_due limit ts)) ts)
next_due_found limit [] = unfold next_due in inl refl
next_due_found limit ((h, info) ∷ ts) =
    elim (Bool-cases (info.active && ltb info.next_time limit)) [
      | inl t ↦
          let next = next_due info.next_time ts in
          let a : info.active ≡ true = ground arith in
          inr (
            subst (λ n. 0 < count (is_due n) ((h, info) ∷ ts)) (sym (due_sooner limit h info ts t))
              (elim (next_due_found info.next_time ts) [
                | inl e ↦
                    let d : is_due next (h, info) ≡ true = rw a (le→leb _ _ (omega (arith, e))) in
                    omega (arith, count-cons (is_due next) (h, info) ts, ap one_if d)
                | inr d ↦ omega (arith, d, count-cons (is_due next) (h, info) ts)
              ]))
      | inr f ↦
          let next = next_due limit ts in
          subst (λ n. (n ≡ limit) ⊎ (0 < count (is_due n) ((h, info) ∷ ts)))
            (sym (due_later limit h info ts f))
            (elim (next_due_found limit ts) [
              | inl e ↦ inl e
              | inr d ↦ inr (omega (arith, d, count-cons (is_due next) (h, info) ts))
            ])
    ]

due_later_too :
    (time more : ℕ) (ts : List (ℕ × TimerInfo))
    → time ≤ more
    → 0 < count (is_due time) ts
    → 0 < count (is_due more) ts
due_later_too time more ts h d =
    omega (arith, d, count_mono (is_due time) (is_due more) (λ e t. ground (arith, h)) ts)

-- The wait that `timerThread` computes from the timers of that moment is 15 to 2000 milliseconds.
-- Unless it is 15, none of these timers is active and due before its end; and unless it is 2000, one of
-- them is active and due by its end.
pub wait_time-IsBefore :
    (now : ℕ) (t : Timer)
    → (min_tick ≤ wait_time now t)
      × (wait_time now t ≤ max_tick)
      × ((wait_time now t ≡ min_tick) ⊎ All (IsBefore (now + wait_time now t)) t.timers)
      × ((wait_time now t ≡ max_tick) ⊎ (0 < count (is_due (now + wait_time now t)) t.timers))
unfolding wait_time
wait_time-IsBefore now t =
    let next = next_due (now + max_tick) t.timers in
    let l = next_due-le (now + max_tick) t.timers in
    let found = next_due_found (now + max_tick) t.timers in
    elim (Bool-cases (ltb next (now + min_tick))) [
      | inl s ↦ rw s (
        omega arith,
        omega arith,
        inl (omega arith),
        elim found [
          | inl e ↦ absurd (omega (arith, e, ltb→lt _ _ s))
          | inr d ↦
              inr (due_later_too next (now + min_tick) t.timers (omega (arith, ltb→lt _ _ s)) d)
        ],
      )
      | inr f ↦
          let g = ltb→ge _ _ f in
          let back : now + (next - now) ≡ next = omega (arith, g) in
          rw f (
            omega (arith, g),
            omega (arith, l),
            inr (
                All-map _ _ (λ x b a. omega (arith, g, b a)) t.timers
                  (next_due-IsBefore (now + max_tick) t.timers)),
            elim found [
              | inl e ↦ inl (omega (arith, e))
              | inr d ↦ inr (due_later_too next (now + (next - now)) t.timers (omega (arith, g)) d)
            ],
          )
    ]
