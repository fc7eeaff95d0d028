-- ===== src/Results.antt =====
-- fjdispatchlite/fjdispatchlite.h: handles and the table of results (`getHandle`, `_new_resultitem`,
-- `_post_resultitem`, `waitResult`), guarded by `result_mutex_`. A result is an `int` that is only
-- moved, so it is any number. A `std::shared_ptr<ResultItem>` stays in the table alone.
pub mod Handles
pub mod Store
pub mod Retention
pub mod Wait
pub mod System
pub mod Evicting
mod Tests
use fjdispatchlite.Prelude.{
  ℕ, suc, ◌+◌, ◌-◌, ◌%◌, ◌^◌, ◌≤◌, ◌<◌, Bool, true, false, Option, none, some, List, [], ◌∷◌, ◌++◌,
  ltb, leb, if◌then◌else◌, length, add64,
}
use fjdispatchlite.Prelude.Assoc.{lookup, assign, erase}

-- FJDISPATCHLITE_MAX_RESULTS and INT64_MAX
abbrev pub max_results : ℕ
max_results = 100

abbrev pub int64_max : ℕ
int64_max = 0x7FFF_FFFF_FFFF_FFFF

pub record ResultItem : Type 0 where
  pub value : ℕ
  pub ready : Bool

pub record ResultTable : Type 0 where
  pub results : List (ℕ × ResultItem)
  pub result_order : List ℕ

-- `getHandle`: the new counter and the handle.
unfoldable pub get_handle : ℕ → ℕ × ℕ
get_handle handle_counter =
    let handle = add64 handle_counter 1 in (if leb int64_max handle then 1 else handle, handle)

-- `std::make_shared<ResultItem>()`
abbrev pub fresh_item : ResultItem
fresh_item = record { value = 0; ready = false }

-- `if (result_order_.size() > FJDISPATCHLITE_MAX_RESULTS)`: the oldest handle goes.
unfoldable pub evict : ResultTable → ResultTable
evict t =
    if ltb max_results (length t.result_order)
    then elim t.result_order [
      | [] ↦ t
      | old ∷ rest ↦ record { results = erase old t.results; result_order = rest }
    ]
    else t

-- `_new_resultitem`, behind its `getHandle`.
unfoldable pub new_resultitem : ResultTable → ℕ → ResultTable
unfolding evict
new_resultitem t handle = evict (record {
  results = assign handle fresh_item t.results;
  result_order = t.result_order ++ handle ∷ [];
})

-- `_post_resultitem`
unfoldable pub post_resultitem : ResultTable → ℕ → ℕ → ResultTable
post_resultitem t handle value = elim (lookup handle t.results) [
  | none ↦ t
  | some _ ↦ record t { results = assign handle (record { value = value; ready = true }) t.results }
]

-- One look of `waitResult` at the table: the value, where it is there.
unfoldable pub poll : ResultTable → ℕ → Option ℕ
poll t handle = elim (lookup handle t.results) [
  | none ↦ none
  | some item ↦ if item.ready then some item.value else none
]

-- What one round of `waitResult` sees: the table, and the time after the look.
pub record Look : Type 0 where
  pub table : ResultTable
  pub now : ℕ

pub data Waited : Type 0 where
  got : ℕ → Waited
  timed_out still_waiting : Waited

-- `waitResult` from `start` on, over the rounds that the condition variable lets it make; a run whose
-- rounds are used up still waits. The clock is monotone, so `now - start` is exact.
unfoldable pub wait_result : ℕ → ℕ → ℕ → List Look → Waited
unfolding poll
wait_result handle start timeout_msec [] = still_waiting
wait_result handle start timeout_msec (look ∷ looks) =
    let rest = wait_result handle start timeout_msec looks in
    elim (poll look.table handle) [
      | some value ↦ got value
      | none ↦ if leb timeout_msec (look.now - start) then timed_out else rest
    ]
