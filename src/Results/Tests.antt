-- ===== src/Results/Tests.antt =====
-- The theorems on handles and results, at inputs, and runs.
use fjdispatchlite.Prelude.{ℕ, ◌-◌, ◌≤◌, ◌≡◌, refl, true, none, List, [], ◌∷◌, arith, All, All-map}
use fjdispatchlite.Prelude.Assoc.{lookup, assign, erase}
use fjdispatchlite.Results.{
  ResultItem, ResultTable, Look, got, get_handle, int64_max, evict, new_resultitem, post_resultitem,
  poll, wait_result,
}
use fjdispatchlite.Results.Handles.{take_handles, take_handles_above}
use fjdispatchlite.Results.Store.{IsWellFormed}
use fjdispatchlite.Results.Retention.{register_all, take_handles-AreNew, dropped}
use fjdispatchlite.Results.Wait.{Explains, wait_result-Explains}

program : Unit {0}
unfolding get_handle take_handles evict new_resultitem post_resultitem poll wait_result lookup
    assign erase register_all
program = tt

abbrev item : ℕ → ResultItem
item v = record { value = v; ready = true }

abbrev two : ResultTable
two = record { results = (1, item 11) ∷ (2, item 22) ∷ []; result_order = 1 ∷ 2 ∷ [] }

two-IsWellFormed : IsWellFormed two
two-IsWellFormed = record { in_step = refl; distinct = omega arith; bounded = omega arith }

wraps : get_handle (int64_max - 1) ≡ (1, int64_max)
unfolding program
wraps = refl

dropped_example :
    poll (post_resultitem (register_all (new_resultitem two 3) (take_handles 100 3)) 3 33) 3 ≡ none
dropped_example =
    dropped two 3 (take_handles 100 3) two-IsWellFormed (omega arith)
      (take_handles-AreNew 100 3 (new_resultitem two 3) (omega arith) old) 33
      (All-map _ _ (λ n l. omega arith) _ (take_handles_above 100 3 (omega arith)))
      (unfold take_handles get_handle in omega arith)
  where
    old : All (λ h. h ≤ 3) (new_resultitem two 3).result_order
    old = unfold new_resultitem evict in omega arith

abbrev nowait : List Look
nowait =
    record { table = two; now = 1005 }
    ∷ record { table = record two { results = (3, item 5) ∷ two.results }; now = 1030 }
    ∷ []

wait_result-Explains_example : Explains 3 1000 50 nowait (wait_result 3 1000 50 nowait)
wait_result-Explains_example = wait_result-Explains 3 1000 50 nowait

waits : wait_result 3 1000 50 nowait ≡ got 5
unfolding program
waits = refl

-- Three looks in the millisecond of the start, and one when the timeout has passed.
abbrev same_ms : List Look
same_ms =
    record { table = two; now = 1000 }
    ∷ record { table = two; now = 1000 }
    ∷ record { table = two; now = 1000 }
    ∷ []

abbrev late : Look
late = record { table = two; now = 1050 }
