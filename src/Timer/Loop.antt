-- ===== src/Timer/Loop.antt =====
-- fjtimerlite.h: the loop of `timerThread`. Its iterator is an index into the map's entries, in the order
-- in which the map keeps them while nothing is inserted or cleared; the index behind the last one is
-- `timers_.end()`.
pub mod Rounds
pub mod Standing
pub mod Turns
use fjdispatchlite.Prelude.{
  ℕ, ◌+◌, Bool, true, false, ◌||◌, Option, none, some, List, [], ◌∷◌, leb, ◌==◌, if◌then◌else◌,
  length, get_elem?,
}
use fjdispatchlite.Timer.{
  TimerInfo, Timer, max_tick, Visit, passes, fires, visit_at, after_call, rest,
}

-- The local variables of the thread that outlive a round; `negative` is `result < 0`.
pub record Loop : Type 0 where
  pub timer : Timer
  pub it : ℕ
  pub negative : Bool

-- What a round finds when its wait is over.
pub data Round : Type 0 where
  stopped : Round
  again : Loop → Round
  calling : (handle obj mf : ℕ) → Loop → Round

unfoldable pub begin : Timer → Loop
begin t = record { timer = t; it = 0; negative = true }

-- Where the map is empty the base interval is the longest one again.
unfoldable pub reset_base : Bool → Timer → Timer
reset_base true t = record t { base_interval_msec = max_tick }
reset_base false t = t

unfoldable pub at_end : Loop → Loop
unfolding reset_base
at_end l = record l { it = 0; timer = reset_base (length l.timer.timers == 0) l.timer }

unfoldable pub advance : Loop → ℕ → Visit → Round
advance l handle passes = again (record l { it = l.it + 1 })
advance l handle (fires obj mf t) = calling handle obj mf (record l { timer = t })

unfoldable pub look_at : ℕ → Loop → Option (ℕ × TimerInfo) → Round
unfolding advance
look_at now l none = again l
look_at now l (some (handle, info)) = advance l handle (visit_at now handle l.timer (some info))

-- The section behind the wait, by whether the end is declared and whether the iterator is at the end.
unfoldable pub look_if : Bool → Bool → ℕ → Loop → Round
unfolding at_end look_at
look_if true ended now l = stopped
look_if false true now l = again (at_end l)
look_if false false now l = look_at now l (get_elem? l.timer.timers l.it)

unfoldable pub look : ℕ → Loop → Round
unfolding look_if
look now l = look_if l.timer.stop (leb (length l.timer.timers) l.it) now l

-- The call and the section behind it; a null object or method is not called, and leaves the result
-- of an earlier call.
unfoldable pub call : ℕ → ℕ → ℕ → Bool → Loop → Loop
call handle obj mf value l =
    let negative = if (obj == 0) || (mf == 0) then l.negative else value in
    record { timer = after_call handle negative l.timer; it = l.it + 1; negative = negative }

-- `if (mf && obj)`: the handle that the method is called with, where one is called.
unfoldable pub called : ℕ → ℕ → ℕ → Option ℕ
called handle obj mf = if (obj == 0) || (mf == 0) then none else some handle

-- One round, with no other section in between: the handle whose method was called, if one was, and the
-- loop; `none` is the end of the thread. `value` is whether the method gives a negative value.
unfoldable pub settle : Bool → Round → Option (Option ℕ × Loop)
unfolding call called
settle value stopped = none
settle value (again l) = some (none, l)
settle value (calling handle obj mf l) = some (called handle obj mf, call handle obj mf value l)

unfoldable pub turn : ℕ → Bool → Loop → Option (Option ℕ × Loop)
unfolding look settle
turn now value l = settle value (look now (record l { timer = rest l.timer }))

unfoldable pub follow : (Loop → List ℕ) → Option (Option ℕ × Loop) → List ℕ
follow later none = []
follow later (some (none, l)) = later l
follow later (some (some handle, l)) = handle ∷ later l

-- The handles called in several rounds.
unfoldable pub turns : List (ℕ × Bool) → Loop → List ℕ
unfolding turn follow
turns [] l = []
turns ((now, value) ∷ rounds) l = follow (turns rounds) (turn now value l)
