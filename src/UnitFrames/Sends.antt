-- ===== src/UnitFrames/Sends.antt =====
-- fjunitframes.h: what the macros are to the dispatcher with its threads.
use fjdispatchlite.Prelude.{ℕ, ◌≤◌, refl, Bool, true, false, List, [], ◌∷◌, ◌++◌, take}
use fjdispatchlite.Dispatch.{
  Task, message, event, Env, Dispatch, new_handle, post_event, post_queue,
}
use fjdispatchlite.Dispatch.System.{System, after_post, posts, hands_out, Reachable, moves}
use fjdispatchlite.Dispatch.Scheduling.{occurrences, insts}
use fjdispatchlite.Dispatch.Exclusion.{one_at_a_time}
use fjdispatchlite.UnitFrames.{EnMsgId, send_evt_self_s, send_msg_self_s}

-- The system behind a macro: the dispatcher, and the task that was posted.
abbrev pub sent : System → Dispatch × ℕ → ℕ → Task → System
sent s out this task = record s { dispatch = out.0; posted = s.posted ++ (this, task) ∷ [] }

-- The handle, then the post.
module _ (parallel : Bool) (s : System) (env : Env) (this mid : ℕ) (srcfunc : List ℕ)
    (r : Reachable parallel s) where
  handed : Reachable parallel (record s { dispatch = (new_handle s.dispatch).0 })
  handed = moves r (hands_out refl)

  evt_Reachable : Reachable parallel (
      sent s
        (send_evt_self_s s.dispatch env this mid srcfunc)
        this
        (event (new_handle s.dispatch).1 srcfunc mid))
  unfolding send_evt_self_s post_event after_post
  evt_Reachable =
      moves handed (posts env this (event (new_handle s.dispatch).1 srcfunc mid) true refl refl)

  msg_Reachable :
      (prio : EnMsgId) (buf : List ℕ) (size : ℕ)
      → Reachable parallel (
          sent s
            (send_msg_self_s s.dispatch env this mid prio buf size srcfunc)
            this
            (message (new_handle s.dispatch).1 srcfunc mid (take size buf)))
  unfolding send_msg_self_s post_queue after_post
  msg_Reachable prio buf size = moves handed (
      posts env this (message (new_handle s.dispatch).1 srcfunc mid (take size buf)) true refl refl)

-- From a system in which every task was posted to run after the others of its instance, an object that
-- sends itself an event by `SendEvtSelf_S` or a message by `SendMsgSelf_S` still has at most one task
-- running, and so has every other object; a task is added for the object only, behind all posted ones.
pub sends_one_at_a_time :
    (s : System) (env : Env) (this mid : ℕ) (srcfunc : List ℕ) (prio : EnMsgId) (buf : List ℕ)
    (size i : ℕ)
    → Reachable false s
    → let evt =
        sent s
          (send_evt_self_s s.dispatch env this mid srcfunc)
          this
          (event (new_handle s.dispatch).1 srcfunc mid) in
      let msg =
        sent s
          (send_msg_self_s s.dispatch env this mid prio buf size srcfunc)
          this
          (message (new_handle s.dispatch).1 srcfunc mid (take size buf)) in
      (Reachable false evt × (occurrences i (insts evt.executing) ≤ 1))
      × (Reachable false msg × (occurrences i (insts msg.executing) ≤ 1))
sends_one_at_a_time s env this mid srcfunc prio buf size i r =
    let evt = evt_Reachable false s env this mid srcfunc r in
    let msg = msg_Reachable false s env this mid srcfunc r prio buf size in
    ((evt, one_at_a_time _ i evt), (msg, one_at_a_time _ i msg))
