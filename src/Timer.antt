-- ===== src/Timer.antt =====
-- fjdispatchlite/fjtimerlite.h: `FJTimerLite`. A function is one section under `mutex_`. The map of the
-- timers is an association list; a visit is given the handle at which the iterator of `timerThread`
-- stands.
pub mod Waits
pub mod Firing
pub mod Loop
pub mod System
mod Tests
use fjdispatchlite.Prelude.{
  ℕ, ◌+◌, ◌-◌, ◌/◌, Bool, true, false, not, ◌&&◌, ◌||◌, Option, none, some, List, [], ◌∷◌, ltb, leb,
  ◌==◌, if◌then◌else◌,
}
use fjdispatchlite.Prelude.Assoc.{lookup, assign}

-- FJTIMERLITE_MIN_TICK_MSEC and FJTIMERLITE_MAX_TICK_MSEC
abbrev pub min_tick : ℕ
min_tick = 15

abbrev pub max_tick : ℕ
max_tick = 2000

-- 0 is an object or a method that is null.
pub record TimerInfo : Type 0 where
  pub obj : ℕ
  pub mf : ℕ
  pub interval_msec : ℕ
  pub next_time : ℕ
  pub active : Bool
  pub start : ℕ

pub record Timer : Type 0 where
  pub base_interval_msec : ℕ
  pub running : Bool
  pub stop : Bool
  pub timers : List (ℕ × TimerInfo)

unfoldable pub create : Timer
create = record { base_interval_msec = max_tick; running = false; stop = false; timers = [] }

unfoldable pub set_base_interval : Timer → ℕ → Timer × Bool
set_base_interval t msec =
    if leb min_tick msec && leb msec max_tick
    then (record t { base_interval_msec = msec }, true)
    else (t, false)

unfoldable pub new_timer : ℕ → ℕ → ℕ → ℕ → TimerInfo
new_timer now obj mf interval = record {
  obj = obj;
  mf = mf;
  interval_msec = interval;
  next_time = now + interval;
  active = true;
  start = now;
}

-- `std::unordered_map::emplace` does not touch an entry that is there.
unfoldable pub emplace_at :
    ℕ → TimerInfo → List (ℕ × TimerInfo) → Option TimerInfo → List (ℕ × TimerInfo)
unfolding assign
emplace_at handle info timers none = assign handle info timers
emplace_at handle info timers (some old) = timers

unfoldable pub emplace : ℕ → TimerInfo → List (ℕ × TimerInfo) → List (ℕ × TimerInfo)
unfolding lookup emplace_at
emplace handle info timers = emplace_at handle info timers (lookup handle timers)

-- `handle` is what `getHandle` gives; where the interval is too short it is not called.
unfoldable pub create_timer : Timer → ℕ → ℕ → ℕ → ℕ → ℕ → Timer × ℕ
unfolding new_timer emplace
create_timer t handle now obj mf interval = if ltb interval min_tick then (t, 0) else (
  record t {
    timers = emplace handle (new_timer now obj mf interval) t.timers;
    base_interval_msec =
        if ltb (interval / 5) t.base_interval_msec then interval / 5 else t.base_interval_msec;
  },
  handle,
)

-- An entry is made inactive, where there is one.
unfoldable pub deactivate_at : ℕ → List (ℕ × TimerInfo) → Option TimerInfo → List (ℕ × TimerInfo)
unfolding assign
deactivate_at handle timers none = timers
deactivate_at handle timers (some info) = assign handle (record info { active = false }) timers

unfoldable pub deactivate : ℕ → List (ℕ × TimerInfo) → List (ℕ × TimerInfo)
unfolding lookup deactivate_at
deactivate handle timers = deactivate_at handle timers (lookup handle timers)

unfoldable pub remove_timer : Timer → ℕ → Timer × Bool
unfolding deactivate
remove_timer t handle = (
  record t { timers = deactivate handle t.timers },
  elim (lookup handle t.timers) [ none ↦ false | some info ↦ true ],
)

unfoldable pub active_at : Option TimerInfo → Bool
active_at none = false
active_at (some info) = info.active

unfoldable pub is_active_timer : Timer → ℕ → Bool
unfolding lookup active_at
is_active_timer t handle = active_at (lookup handle t.timers)

-- One round of `removeTimer` of all timers; `none` is a round that tries again.
unfoldable pub remove_all : Timer → Option Timer
remove_all t =
    if t.running then none else some (record t { timers = []; base_interval_msec = max_tick })

unfoldable pub declare_stop : Timer → Timer
declare_stop t = record t { stop = true }

-- The loop of `timerThread` that looks for the next time.
unfoldable pub next_due : ℕ → List (ℕ × TimerInfo) → ℕ
next_due limit [] = limit
next_due limit ((handle, info) ∷ timers) =
    next_due (if info.active && ltb info.next_time limit then info.next_time else limit) timers

-- How long `timerThread` waits.
unfoldable pub wait_time : ℕ → Timer → ℕ
unfolding next_due
wait_time now t =
    let next = next_due (now + max_tick) t.timers in
    if ltb next (now + min_tick) then min_tick else next - now

-- What `timerThread` does with the timer that its iterator is at: the method to call.
pub data Visit : Type 0 where
  passes : Visit
  fires : (obj mf : ℕ) → Timer → Visit

unfoldable pub reschedule : ℕ → ℕ → TimerInfo → Timer → Timer
unfolding assign
reschedule now handle info t = record t {
  running = true;
  timers = assign handle (record info { next_time = now + info.interval_msec }) t.timers;
}

unfoldable pub visit_at : ℕ → ℕ → Timer → Option TimerInfo → Visit
unfolding reschedule
visit_at now handle t none = passes
visit_at now handle t (some info) =
    if not info.active || ltb now info.next_time
    then passes
    else fires info.obj info.mf (reschedule now handle info t)

unfoldable pub visit : ℕ → ℕ → Timer → Visit
unfolding lookup visit_at
visit now handle t = visit_at now handle t (lookup handle t.timers)

-- The section behind the call; `negative` is whether the method gave a negative value.
unfoldable pub after_call : ℕ → Bool → Timer → Timer
unfolding deactivate
after_call handle negative t =
    if negative then record t { timers = deactivate handle t.timers } else t

-- The head of the loop.
unfoldable pub rest : Timer → Timer
rest t = record t { running = false }
