-- ===== src/Results/System.antt =====
-- fjdispatchlite.h: the results with all threads that post, run tasks and wait, as a relation of
-- steps. A step is one section under `mutex_` or `result_mutex_`; `waitResult` changes nothing.
pub mod Ordered
pub mod Answers
mod Tests
use fjdispatchlite.Prelude.{ℕ, ◌+◌, ◌≡◌, List, [], ◌∷◌, ◌++◌}
use fjdispatchlite.Results.{ResultTable, get_handle, new_resultitem, post_resultitem}

-- The counter and the table, with what the code does not keep: how often `getHandle` was called, the
-- handles whose caller has not come to the table yet, those whose task has not given its value, and
-- the values given, the last one first.
pub record System : Type 0 where
  pub handle_counter : ℕ
  pub table : ResultTable
  pub given : ℕ
  pub pending : List ℕ
  pub at_work : List ℕ
  pub posted : List (ℕ × ℕ)

unfoldable pub initial : System
initial = record {
  handle_counter = 0;
  table = record { results = []; result_order = [] };
  given = 0;
  pending = [];
  at_work = [];
  posted = [];
}

-- The first section of `postQueue` and of `postEvent`.
unfoldable pub after_ask : System → System
after_ask s = record s {
  handle_counter = (get_handle s.handle_counter).0;
  given = s.given + 1;
  pending = (get_handle s.handle_counter).1 ∷ s.pending;
}

-- `enqueueTask` takes a handle as well, and makes no entry for it.
unfoldable pub after_enqueue : System → System
after_enqueue s = record s { handle_counter = (get_handle s.handle_counter).0; given = s.given + 1 }

-- A handle's entry is made once, and its task runs once.
pub data Step (s t : System) : Type 0 where
  asks : t ≡ after_ask s → Step s t
  enqueues : t ≡ after_enqueue s → Step s t
  registers :
      (before after : List ℕ) (handle : ℕ)
      → s.pending ≡ before ++ handle ∷ after
      → t ≡ record s {
        table = new_resultitem s.table handle;
        pending = before ++ after;
        at_work = handle ∷ s.at_work;
      }
      → Step s t
  posts :
      (before after : List ℕ) (handle value : ℕ)
      → s.at_work ≡ before ++ handle ∷ after
      → t ≡ record s {
        table = post_resultitem s.table handle value;
        at_work = before ++ after;
        posted = (handle, value) ∷ s.posted;
      }
      → Step s t

pub data Reachable : System → Type 0 where
  starts : Reachable initial
  moves : {s t : System} → Reachable s → Step s t → Reachable t
