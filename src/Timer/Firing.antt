-- ===== src/Timer/Firing.antt =====
-- fjtimerlite.h: when a timer fires.
use fjdispatchlite.Prelude.{
  ℕ, ◌+◌, ◌≤◌, ◌<◌, ◌≡◌, ◌≢◌, refl, ap, sym, ◌∙◌, true, false, not, ◌||◌, Option, none, some, List,
  arith, ltb, lt→ltb, ge→ltb, eq→==, ne→==,
}
use fjdispatchlite.Prelude.Assoc.{lookup, assign, lookup-assign}
use fjdispatchlite.Timer.{
  TimerInfo, Timer, min_tick, create_timer, new_timer, emplace, emplace_at, deactivate,
  deactivate_at, remove_timer, is_active_timer, active_at, passes, fires, reschedule, visit,
  visit_at, after_call,
}

assigned : (h : ℕ) (v : TimerInfo) (m : List (ℕ × TimerInfo)) → lookup h (assign h v m) ≡ some v
assigned h v m = rw (lookup-assign h h v m, eq→== h h refl) refl

others_kept :
    (h j : ℕ) (v : TimerInfo) (m : List (ℕ × TimerInfo))
    → j ≢ h
    → lookup j (assign h v m) ≡ lookup j m
others_kept h j v m n = rw (lookup-assign h j v m, ne→== h j (λ e. n (sym e))) refl

others_kept-deactivate :
    (h j : ℕ) (m : List (ℕ × TimerInfo)) (o : Option TimerInfo)
    → j ≢ h
    → lookup j (deactivate_at h m o) ≡ lookup j m
unfolding deactivate_at
others_kept-deactivate h j m none n = refl
others_kept-deactivate h j m (some info) n = others_kept h j _ m n

emplaced :
    (h : ℕ) (v : TimerInfo) (m : List (ℕ × TimerInfo)) → lookup h (emplace_at h v m none) ≡ some v
unfolding emplace_at
emplaced h v m = assigned h v m

-- A visit, by what the table holds.
visit_early :
    (now h : ℕ) (t : Timer) (info : TimerInfo)
    → now < info.next_time
    → visit_at now h t (some info) ≡ passes
unfolding visit_at
visit_early now h t info l =
    let g : (not info.active || ltb now info.next_time) ≡ true =
      ground (arith, lt→ltb now info.next_time l) in
    rw g refl

pub visit_due :
    (now h : ℕ) (t : Timer) (info : TimerInfo)
    → info.active ≡ true
    → info.next_time ≤ now
    → visit_at now h t (some info) ≡ fires info.obj info.mf (reschedule now h info t)
unfolding visit_at
visit_due now h t info a l =
    let g : (not info.active || ltb now info.next_time) ≡ false =
      ground (arith, a, ge→ltb now info.next_time l) in
    rw g refl

visit_off :
    (now h : ℕ) (t : Timer) (info : TimerInfo)
    → info.active ≡ false
    → visit_at now h t (some info) ≡ passes
unfolding visit_at
visit_off now h t info a =
    let g : (not info.active || ltb now info.next_time) ≡ true = ground (arith, a) in rw g refl

created :
    (t : Timer) (h now obj mf interval : ℕ)
    → lookup h t.timers ≡ none
    → min_tick ≤ interval
    → lookup h (create_timer t h now obj mf interval).0.timers
      ≡ some (new_timer now obj mf interval)
unfolding create_timer emplace
created t h now obj mf interval e b =
    let new = new_timer now obj mf interval in
    rw (ge→ltb interval min_tick b)
      (ap (λ o. lookup h (emplace_at h new t.timers o)) e ∙ emplaced h new t.timers)

-- A new timer under a new handle, of at least 15 milliseconds, is active. It does not fire before
-- its interval is over, and fires at a visit from then on.
pub create_timer-fires :
    (t : Timer) (h now obj mf interval : ℕ)
    → lookup h t.timers ≡ none
    → min_tick ≤ interval
    → let t' = (create_timer t h now obj mf interval).0 in
      (is_active_timer t' h ≡ true)
      × ((later : ℕ) → later < now + interval → visit later h t' ≡ passes)
      × ((later : ℕ)
          → now + interval ≤ later
          → visit later h t' ≡ fires obj mf (reschedule later h (new_timer now obj mf interval) t'))
unfolding visit is_active_timer active_at new_timer
create_timer-fires t h now obj mf interval e b =
    let new = new_timer now obj mf interval in
    let t' = (create_timer t h now obj mf interval).0 in
    let c = created t h now obj mf interval e b in
    (
      ap active_at c,
      (λ later l. ap (visit_at later h t') c ∙ visit_early later h t' new l),
      (λ later l. ap (visit_at later h t') c ∙ visit_due later h t' new refl l),
    )

-- An active timer that is due fires, and then not again before its interval is over; the visits of
-- the other timers are not affected.
pub visit-reschedule :
    (t : Timer) (h now : ℕ) (info : TimerInfo)
    → lookup h t.timers ≡ some info
    → info.active ≡ true
    → info.next_time ≤ now
    → let t' = reschedule now h info t in
      (visit now h t ≡ fires info.obj info.mf t')
      × ((later : ℕ) → later < now + info.interval_msec → visit later h t' ≡ passes)
      × ((j : ℕ) → j ≢ h → lookup j t'.timers ≡ lookup j t.timers)
unfolding visit reschedule
visit-reschedule t h now info e a l =
    let new : TimerInfo = record info { next_time = now + info.interval_msec } in
    (
      ap (visit_at now h t) e ∙ visit_due now h t info a l,
      (λ later k.
          ap (visit_at later h (reschedule now h info t)) (assigned h new t.timers)
          ∙ visit_early later h (reschedule now h info t) new k),
      (λ j n. others_kept h j new t.timers n),
    )

deactivated :
    (now h : ℕ) (t : Timer) (m : List (ℕ × TimerInfo)) (o : Option TimerInfo)
    → lookup h m ≡ o
    → visit_at now h t (lookup h (deactivate_at h m o)) ≡ passes
unfolding deactivate_at visit_at
deactivated now h t m none e = ap (visit_at now h t) e
deactivated now h t m (some info) e =
    ap (visit_at now h t) (assigned h (record info { active = false }) m)
    ∙ visit_off now h t (record info { active = false }) refl

-- Behind the removal of a timer, and behind a call whose method gave a negative value, a visit of the
-- timer passes it over, whatever the time; the other timers are as they were.
pub deactivate-passes :
    (t : Timer) (h : ℕ)
    → ((now : ℕ)
        → (visit now h (remove_timer t h).0 ≡ passes)
          × (visit now h (after_call h true t) ≡ passes))
      × ((j : ℕ)
          → j ≢ h
          → (lookup j (remove_timer t h).0.timers ≡ lookup j t.timers)
            × (lookup j (after_call h true t).timers ≡ lookup j t.timers))
unfolding remove_timer after_call deactivate visit
deactivate-passes t h = (
  (λ now. (
    deactivated now h (remove_timer t h).0 t.timers _ refl,
    deactivated now h (after_call h true t) t.timers _ refl,
  )),
  (λ j n. (others_kept-deactivate h j t.timers _ n, others_kept-deactivate h j t.timers _ n)),
)
