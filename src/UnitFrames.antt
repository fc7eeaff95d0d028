-- ===== src/UnitFrames.antt =====
-- fjdispatchlite/fjunitframes.h: the macros by which an object of `FJUnitFrames` sends to itself. The
-- message map of a class gives each message its method, so that a task is known by its message. The
-- caller's name is `srcfunc`, and the priority is not used, as in the code.
pub mod Sends
mod Tests
use fjdispatchlite.Prelude.{ℕ, Bool, true, false, List}
use fjdispatchlite.Dispatch.{Env, Dispatch, post_event, post_queue}
use fjdispatchlite.Timer
use fjdispatchlite.Timer.{Timer}

pub data EnMsgId : Type 0 where
  c_message_high c_message_mid c_message_low : EnMsgId

unfoldable pub send_evt_self_s : Dispatch → Env → ℕ → ℕ → List ℕ → Dispatch × ℕ
unfolding post_event
send_evt_self_s d env this mid srcfunc = post_event d env this mid srcfunc

unfoldable pub send_msg_self_s :
    Dispatch → Env → ℕ → ℕ → EnMsgId → List ℕ → ℕ → List ℕ → Dispatch × ℕ
unfolding post_queue
send_msg_self_s d env this mid prio buf size srcfunc =
    post_queue d env this mid buf size true srcfunc

unfoldable pub send_msg_self_p :
    Dispatch → Env → ℕ → ℕ → EnMsgId → List ℕ → ℕ → List ℕ → Dispatch × ℕ
unfolding post_queue
send_msg_self_p d env this mid prio buf size srcfunc =
    post_queue d env this mid buf size false srcfunc

-- `handle` is what `getHandle` gives.
unfoldable pub create_timer : Timer → ℕ → ℕ → ℕ → ℕ → ℕ → Timer × ℕ
create_timer t handle now this mf msec = fjdispatchlite.Timer.create_timer t handle now this mf msec
