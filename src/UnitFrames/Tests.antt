-- ===== src/UnitFrames/Tests.antt =====
-- The macros, at inputs.
use fjdispatchlite.Prelude.{ℕ, ◌≤◌, false, [], ◌∷◌, take}
use fjdispatchlite.Dispatch.{message, event, Env, new_handle}
use fjdispatchlite.Dispatch.System.{System, initial, Reachable, starts}
use fjdispatchlite.Dispatch.Scheduling.{occurrences, insts}
use fjdispatchlite.UnitFrames.{c_message_mid, send_evt_self_s, send_msg_self_s}
use fjdispatchlite.UnitFrames.Sends.{sent, sends_one_at_a_time}

abbrev env : ℕ → ℕ → Env
env now thread = record { now = now; new_thread = thread }

abbrev start : System
start = initial (env 100 1) (env 100 2)

sends_one_at_a_time_example :
    let evt =
      sent start
        (send_evt_self_s start.dispatch (env 200 3) 70 5 (1 ∷ []))
        70
        (event (new_handle start.dispatch).1 (1 ∷ []) 5) in
    let msg =
      sent start
        (send_msg_self_s start.dispatch (env 200 3) 70 5 c_message_mid (8 ∷ 9 ∷ []) 1 (1 ∷ []))
        70
        (message (new_handle start.dispatch).1 (1 ∷ []) 5 (take 1 (8 ∷ 9 ∷ []))) in
    (Reachable false evt × (occurrences 70 (insts evt.executing) ≤ 1))
    × (Reachable false msg × (occurrences 70 (insts msg.executing) ≤ 1))
sends_one_at_a_time_example =
    sends_one_at_a_time start (env 200 3) 70 5 (1 ∷ []) c_message_mid (8 ∷ 9 ∷ []) 1 70
      (starts (env 100 1) (env 100 2))
