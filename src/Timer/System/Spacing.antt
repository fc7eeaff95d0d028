-- ===== src/Timer/System/Spacing.antt =====
-- fjtimerlite.h: how often a timer is found due, in every order of the sections.
use fjdispatchlite.Prelude.{
  ℕ, suc, ◌*◌, ◌==◌, ==→eq, ==→ne, false, count, count-cons, one_if, if◌then◌else◌, ◌+◌, ◌≤◌, ◌≡◌,
  refl, ap, sym, ◌∙◌, subst, inl, inr, not, ◌||◌, some, List, [], ◌∷◌, arith, ltb, ltb→ge, eq→==,
  Bool-cases, All, All-map,
}
use fjdispatchlite.Prelude.Assoc.{lookup, assign, lookup-assign}
use fjdispatchlite.Timer.{
  TimerInfo, Timer, passes, fires, create, set_base_interval, create_timer, remove_timer,
  declare_stop, visit, visit_at, reschedule, after_call, rest,
}
use fjdispatchlite.Timer.System.{
  Due, System, initial, after_due, Step, creates, removes, removes_all, sets_base, finds_due,
  returns, rests, halts, Reachable, starts, moves,
}
use fjdispatchlite.Timer.System.Tables.{
  of_timer, IsPast, ArePast, Follows, Follows-ArePast, Follows-refl, create_timer-Follows,
  set_base_interval-timers, remove_all-timers, nothing-Follows, after_call-Follows,
  remove_timer-Follows, rest-timers, declare_stop-timers,
}

-- Between two looks that found one timer due lies its interval, and the first ones of any number are
-- as many intervals behind its start.
abbrev pub IsSpaced : List Due → Type 0
IsSpaced [] = Unit
IsSpaced (f ∷ fs) =
    All (λ g. g.handle ≡ f.handle → g.time + f.interval ≤ f.time) fs
    × (f.start + suc (count (of_timer f.handle) fs) * f.interval ≤ f.time)
    × IsSpaced fs

pub record IsTimed (s : System) : Type 0 where
  pub past : ArePast s.timer.timers s.found
  pub spaced : IsSpaced s.found

initial-IsTimed : IsTimed initial
unfolding initial create lookup
initial-IsTimed = record { past = λ h info e. absurd (ground arith); spaced = tt }

-- A section that finds no timer due.
quiet-IsTimed :
    (s : System) (u : Timer)
    → Follows s.found s.timer.timers u.timers
    → IsTimed s
    → IsTimed (record s { timer = u })
quiet-IsTimed s u m i = record {
  past = Follows-ArePast s.found s.timer.timers u.timers m i.past;
  spaced = i.spaced;
}

-- What a visit tells of a timer that fires.
visit_due :
    (now h obj mf : ℕ) (t u : Timer) (info : TimerInfo)
    → lookup h t.timers ≡ some info
    → visit now h t ≡ fires obj mf u
    → (info.next_time ≤ now) × (u ≡ reschedule now h info t)
unfolding visit visit_at
visit_due now h obj mf t u info e v =
    let here : visit_at now h t (some info) ≡ fires obj mf u = sym (ap (visit_at now h t) e) ∙ v in
    elim (Bool-cases (not info.active || ltb now info.next_time)) [
      | inl y ↦
          let stuck : passes ≡ fires obj mf u = sym (rw y refl) ∙ here in absurd (ground arith)
      | inr f ↦
          let same : fires info.obj info.mf (reschedule now h info t) ≡ fires obj mf u =
            sym (rw f refl) ∙ here in
          (ltb→ge now info.next_time (ground arith), cc)
    ]

reschedule-timers :
    (now h : ℕ) (info : TimerInfo) (t : Timer)
    → (reschedule now h info t).timers
      ≡ assign h (record info { next_time = now + info.interval_msec }) t.timers
unfolding reschedule
reschedule-timers now h info t = refl

-- The look that finds a timer due, before the others.
abbrev seen : ℕ → ℕ → TimerInfo → Due
seen now h info = record {
  handle = h;
  time = now;
  interval = info.interval_msec;
  start = info.start;
}

seen-IsPast :
    (now h : ℕ) (info : TimerInfo) (found : List Due)
    → IsPast h info found
    → info.next_time ≤ now
    → IsPast h (record info { next_time = now + info.interval_msec }) (seen now h info ∷ found)
seen-IsPast now h info found p d = (
  ((λ q. omega arith), All-map _ _ (λ f g q. omega (arith, g q, d)) found p.0),
  omega (
    arith,
    p.1,
    d,
    ap (λ c. suc c * info.interval_msec)
        (count-cons (of_timer h) (seen now h info) found
          ∙ ap (λ b. one_if b + count (of_timer h) found) (eq→== h h refl)),
  ),
)

other-IsPast :
    (now h j : ℕ) (info other : TimerInfo) (found : List Due)
    → (h == j) ≡ false
    → IsPast j other found
    → IsPast j other (seen now h info ∷ found)
other-IsPast now h j info other found n p = (
  ((λ q. absurd (==→ne h j n q)), p.0),
  omega (
    arith,
    p.1,
    ap (λ c. suc c * other.interval_msec)
        (count-cons (of_timer j) (seen now h info) found
          ∙ ap (λ b. one_if b + count (of_timer j) found) n),
  ),
)

after_due-IsTimed :
    (s : System) (now h : ℕ) (info : TimerInfo)
    → IsTimed s
    → lookup h s.timer.timers ≡ some info
    → info.next_time ≤ now
    → IsTimed (after_due s now h info (reschedule now h info s.timer))
unfolding after_due
after_due-IsTimed s now h info i e d =
    let new : TimerInfo = record info { next_time = now + info.interval_msec } in
    let p = i.past h info e in
    let stored : (j : ℕ)
        → lookup j (reschedule now h info s.timer).timers
          ≡ (if h == j then some new else lookup j s.timer.timers) =
      λ j.
        ap (lookup j) (reschedule-timers now h info s.timer)
        ∙ lookup-assign h j new s.timer.timers in
    record {
      past = λ j other k. elim (Bool-cases (h == j)) [
        | inl t ↦
            let here : some new ≡ some other = sym (stored j ∙ rw t refl) ∙ k in
            let same : new ≡ other = cc in
            subst (λ x. IsPast j x (seen now h info ∷ s.found)) same
              (subst (λ x. IsPast x new (seen now h info ∷ s.found)) (==→eq h j t)
                (seen-IsPast now h info s.found p d))
        | inr f ↦
            other-IsPast now h j info other s.found f
              (i.past j other (sym (stored j ∙ rw f refl) ∙ k))
      ];
      spaced = (
        All-map _ _ (λ f g q. omega (arith, g q, d)) s.found p.0,
        omega (arith, p.1, d),
        i.spaced,
      );
    }

Step-IsTimed : (s t : System) → Step s t → IsTimed s → IsTimed t
Step-IsTimed s t (creates handle now obj mf interval fresh e) i = subst IsTimed (sym e) (
    quiet-IsTimed s (create_timer s.timer handle now obj mf interval).0
      (create_timer-Follows s.found s.timer handle now obj mf interval fresh) i)
Step-IsTimed s t (removes handle e) i = subst IsTimed (sym e) (
    quiet-IsTimed s (remove_timer s.timer handle).0 (remove_timer-Follows s.found s.timer handle) i)
Step-IsTimed s t (removes_all u r e) i = subst IsTimed (sym e) (
    quiet-IsTimed s u
      (subst (Follows s.found s.timer.timers) (sym (remove_all-timers s.timer u r))
        (nothing-Follows s.found s.timer.timers))
      i)
Step-IsTimed s t (sets_base msec e) i = subst IsTimed (sym e) (
    quiet-IsTimed s (set_base_interval s.timer msec).0
      (subst (Follows s.found s.timer.timers) (sym (set_base_interval-timers s.timer msec))
        (Follows-refl s.found s.timer.timers))
      i)
Step-IsTimed s t (finds_due now handle obj mf info u l v e) i =
    let (d, q) = visit_due now handle obj mf s.timer u info l v in
    subst IsTimed (sym e) (
      subst (λ x. IsTimed (after_due s now handle info x)) (sym q)
        (after_due-IsTimed s now handle info i l d))
Step-IsTimed s t (returns handle negative e) i = subst IsTimed (sym e) (
    quiet-IsTimed s (after_call handle negative s.timer)
      (after_call-Follows s.found s.timer handle negative) i)
Step-IsTimed s t (rests e) i = subst IsTimed (sym e) (
    quiet-IsTimed s (rest s.timer)
      (subst (Follows s.found s.timer.timers) (sym (rest-timers s.timer))
        (Follows-refl s.found s.timer.timers))
      i)
Step-IsTimed s t (halts e) i = subst IsTimed (sym e) (
    quiet-IsTimed s (declare_stop s.timer)
      (subst (Follows s.found s.timer.timers) (sym (declare_stop-timers s.timer))
        (Follows-refl s.found s.timer.timers))
      i)

-- Whatever threads make, remove and set meanwhile, and in whatever order the thread comes to the timers:
-- between two looks under the mutex that find one timer due lies its interval, by the times that the
-- looks read, and the n-th such look comes no sooner than n intervals after the timer was made. A new
-- timer's handle is taken to be none of a timer that was found due before.
pub Reachable-IsSpaced : (s : System) → Reachable s → IsSpaced s.found
Reachable-IsSpaced s r = (timed s r).spaced
  where
    timed : (s : System) → Reachable s → IsTimed s
    timed _ starts = initial-IsTimed
    timed _ (moves {s} {t} r m) = Step-IsTimed s t m (timed s r)
