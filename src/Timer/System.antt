-- ===== src/Timer/System.antt =====
-- fjtimerlite.h: the timers with all threads that use them, as a relation of steps. A step is one section
-- under `mutex_`; the thread may come to the timers in any order.
pub mod Spacing
pub mod Tables
use fjdispatchlite.Prelude.{ℕ, ◌≡◌, ◌≢◌, Bool, some, List, [], ◌∷◌, All}
use fjdispatchlite.Prelude.Assoc.{lookup}
use fjdispatchlite.Timer.{
  TimerInfo, Timer, fires, create, set_base_interval, create_timer, remove_timer, remove_all,
  declare_stop, visit, after_call, rest,
}

-- A look of the thread that found a timer due: the time that it read under `mutex_`, the interval and
-- the time when the timer was made. The call comes later, without the mutex, and only where the timer
-- has an object and a method.
pub record Due : Type 0 where
  pub handle : ℕ
  pub time : ℕ
  pub interval : ℕ
  pub start : ℕ

-- The timers, and all such looks so far, the last one first; the code does not keep them.
pub record System : Type 0 where
  pub timer : Timer
  pub found : List Due

unfoldable pub initial : System
initial = record { timer = create; found = [] }

unfoldable pub after_due : System → ℕ → ℕ → TimerInfo → Timer → System
after_due s now handle info t = record {
  timer = t;
  found =
      record { handle = handle; time = now; interval = info.interval_msec; start = info.start }
      ∷ s.found;
}

-- A handle that `createTimer` gets is not one of a timer found due before.
pub data Step (s t : System) : Type 0 where
  creates :
      (handle now obj mf interval : ℕ)
      → All (λ f. f.handle ≢ handle) s.found
      → t ≡ record s { timer = (create_timer s.timer handle now obj mf interval).0 }
      → Step s t
  removes : (handle : ℕ) → t ≡ record s { timer = (remove_timer s.timer handle).0 } → Step s t
  removes_all : (u : Timer) → remove_all s.timer ≡ some u → t ≡ record s { timer = u } → Step s t
  sets_base : (msec : ℕ) → t ≡ record s { timer = (set_base_interval s.timer msec).0 } → Step s t
  finds_due :
      (now handle obj mf : ℕ) (info : TimerInfo) (u : Timer)
      → lookup handle s.timer.timers ≡ some info
      → visit now handle s.timer ≡ fires obj mf u
      → t ≡ after_due s now handle info u
      → Step s t
  returns :
      (handle : ℕ) (negative : Bool)
      → t ≡ record s { timer = after_call handle negative s.timer }
      → Step s t
  rests : t ≡ record s { timer = rest s.timer } → Step s t
  halts : t ≡ record s { timer = declare_stop s.timer } → Step s t

pub data Reachable : System → Type 0 where
  starts : Reachable initial
  moves : {s t : System} → Reachable s → Step s t → Reachable t
