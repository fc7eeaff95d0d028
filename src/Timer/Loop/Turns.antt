-- ===== src/Timer/Loop/Turns.antt =====
-- fjtimerlite.h: what one round of `timerThread` does to a timer that is due.
use fjdispatchlite.Prelude.{
  ℕ, ◌+◌, ◌<◌, ◌≤◌, ◌≡◌, ◌≢◌, refl, ap, sym, ◌∙◌, subst, inl, inr, ◌⊎◌, Bool, true, false, ◌||◌,
  Option, none, some, arith, ltb, leb, ltb→lt, ltb→ge, ◌==◌, ==→eq, ==→ne, if◌then◌else◌,
  Bool-cases, length, get_elem?, get_elem?_lt, get_elem?-set_self,
}
use fjdispatchlite.Prelude.Assoc.{IsDistinct, assign, assign-set}
use fjdispatchlite.Timer.{TimerInfo, visit_at, reschedule, deactivate, after_call, rest}
use fjdispatchlite.Timer.Firing.{visit_due}
use fjdispatchlite.Timer.Loop.{
  called, Loop, at_end, advance, look_at, look, call, settle, turn, look_if,
}
use fjdispatchlite.Timer.Loop.Standing.{
  Stands, Others, Others-refl, Others-trans, assign-Others, deactivate-Others, visit_cases, Passes,
  step-Stands, rested, end-Stands,
}

turn_end :
    (now k h : ℕ) (value : Bool) (l : Loop) (info : TimerInfo)
    → Stands l k h info
    → l.it ≡ length l.timer.timers
    → (l' : Loop) × (turn now value l ≡ some (none, l')) × Passes l l' k h info
unfolding turn look look_if settle rest at_end
turn_end now k h value l info s e =
    let b : leb (length l.timer.timers) l.it ≡ true = ground (arith, e) in
    (
      at_end (rested l),
      ap (λ x. settle value (look_if x (leb (length l.timer.timers) l.it) now (rested l))) s.running
          ∙ ap (λ x. settle value (look_if false x now (rested l))) b,
      end-Stands l k h info (length l.timer.timers == 0) s e,
    )

settle_at :
    (now : ℕ) (value : Bool) (l : Loop) (e : ℕ × TimerInfo)
    → l.timer.stop ≡ false
    → l.it < length l.timer.timers
    → get_elem? l.timer.timers l.it ≡ some e
    → turn now value l
      ≡ settle value (advance (rested l) e.0 (visit_at now e.0 (rest l.timer) (some e.1)))
unfolding turn look look_if look_at rest
settle_at now value l e s b g =
    let c : leb (length l.timer.timers) l.it ≡ false = ground (arith, b) in
    ap (λ x. settle value (look_if x (leb (length l.timer.timers) l.it) now (rested l))) s
    ∙ ap (λ x. settle value (look_if false x now (rested l))) c
    ∙ ap (λ o. settle value (look_at now (rested l) o)) g

called_itself : (h obj mf : ℕ) → obj ≢ 0 → mf ≢ 0 → called h obj mf ≡ some h
unfolding called
called_itself h obj mf x y = ground arith

-- The iterator stands at the timer, which is due.
turn_here :
    (now k h : ℕ) (value : Bool) (l : Loop) (info : TimerInfo)
    → Stands l k h info
    → l.it ≡ k
    → k < length l.timer.timers
    → info.active ≡ true
    → info.next_time ≤ now
    → info.obj ≢ 0
    → info.mf ≢ 0
    → (l' : Loop) × (turn now value l ≡ some (some h, l'))
unfolding settle advance called
turn_here now k h value l info s e b a d x y =
    let g : get_elem? l.timer.timers l.it ≡ some (h, info) =
      ap (get_elem? l.timer.timers) e ∙ s.there in
    let b' : l.it < length l.timer.timers = omega arith in
    (
      _,
      settle_at now value l (h, info) s.running b' g
          ∙ ap (λ v. settle value (advance (rested l) h v))
              (visit_due now h (rest l.timer) info a d)
          ∙ ap
              (λ o. some (
                o,
                call h info.obj info.mf value
                    (record (rested l) { timer = reschedule now h info (rest l.timer) }),
              ))
              (called_itself h info.obj info.mf x y),
    )

-- Another timer is called.
called_other :
    (now i k j h : ℕ) (value : Bool) (l : Loop) (v info : TimerInfo)
    → Stands l k h info
    → l.it ≡ i
    → i ≢ k
    → i < length l.timer.timers
    → get_elem? l.timer.timers i ≡ some (j, v)
    → Passes l
        (call j v.obj v.mf value (record (rested l) { timer = reschedule now j v (rest l.timer) }))
        k
        h
        info
unfolding call after_call reschedule rest
called_other now i k j h value l v info s e n b g =
    let new : TimerInfo = record v { next_time = now + v.interval_msec } in
    let m = l.timer.timers in
    let o = assign-Others m i k j v new s.distinct g n in
    let g' : get_elem? (assign j new m) i ≡ some (j, new) =
      ap (λ x. get_elem? x i) (assign-set m i j v new s.distinct g)
      ∙ get_elem?-set_self m i (j, new) b in
    let d =
      deactivate-Others (assign j new m) i k j new (subst IsDistinct (sym o.same_keys) s.distinct)
        g' n in
    step_after (if (v.obj == 0) || (v.mf == 0) then l.negative else value) new o d
  where
    step_after :
        (negative : Bool) (new : TimerInfo)
        → Others l.timer.timers (assign j new l.timer.timers) k
        → Others (assign j new l.timer.timers) (deactivate j (assign j new l.timer.timers)) k
        → Passes l
            (record {
              timer =
                  after_call j negative (record (rest l.timer) {
                    running = true;
                    timers = assign j new l.timer.timers;
                  });
              it = l.it + 1;
              negative = negative;
            })
            k
            h
            info
    step_after true new o d =
        step-Stands l _ k h info s refl
          (Others-trans l.timer.timers (assign j new l.timer.timers)
            (deactivate j (assign j new l.timer.timers)) k o d)
          (omega (arith, e, b)) refl
    step_after false new o d = step-Stands l _ k h info s refl o (omega (arith, e, b)) refl

-- A round where the iterator does not stand at `k`.
turn_elsewhere :
    (now k h : ℕ) (value : Bool) (l : Loop) (info : TimerInfo)
    → Stands l k h info
    → l.it < length l.timer.timers
    → l.it ≢ k
    → (o : Option ℕ) × (l' : Loop) × (turn now value l ≡ some (o, l')) × Passes l l' k h info
unfolding settle advance rest
turn_elsewhere now k h value l info s b n =
    let ((j, v), g) = get_elem?_lt l.timer.timers l.it b in
    let t = settle_at now value l (j, v) s.running b g in
    elim (visit_cases now j (rest l.timer) v) [
      | inl p ↦ (
        none,
        record (rested l) { it = l.it + 1 },
        t ∙ ap (λ x. settle value (advance (rested l) j x)) p,
        step-Stands l (record (rested l) { it = l.it + 1 }) k h info s refl
            (Others-refl l.timer.timers k) b refl,
      )
      | inr f ↦ (
        called j v.obj v.mf,
        call j v.obj v.mf value (record (rested l) { timer = reschedule now j v (rest l.timer) }),
        t ∙ ap (λ x. settle value (advance (rested l) j x)) f,
        called_other now l.it k j h value l v info s refl n b g,
      )
    ]

-- What a round does to the timer at `k`.
pub turn_cases :
    (now k h : ℕ) (value : Bool) (l : Loop) (info : TimerInfo)
    → Stands l k h info
    → k < length l.timer.timers
    → info.active ≡ true
    → info.next_time ≤ now
    → info.obj ≢ 0
    → info.mf ≢ 0
    → ((l' : Loop) × (turn now value l ≡ some (some h, l')))
      ⊎ ((o : Option ℕ) × (l' : Loop) × (turn now value l ≡ some (o, l'))
          × Passes l l' k h info
          × (l.it ≢ k))
turn_cases now k h value l info s b a d x y = elim (Bool-cases (l.it == k)) [
  | inl t ↦ inl (turn_here now k h value l info s (==→eq _ _ t) b a d x y)
  | inr f ↦
      let n = ==→ne l.it k f in
      elim (Bool-cases (ltb l.it (length l.timer.timers))) [
        | inl t ↦
            let (o, l', e, p) = turn_elsewhere now k h value l info s (ltb→lt _ _ t) n in
            inr (o, l', e, p, n)
        | inr g ↦
            let at : l.it ≡ length l.timer.timers = omega (arith, s.in_range, ltb→ge _ _ g) in
            let (l', e, p) = turn_end now k h value l info s at in inr (none, l', e, p, n)
      ]
]
