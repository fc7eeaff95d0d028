-- ===== src/Results/Handles.antt =====
-- fjdispatchlite.h, `getHandle`: the handles and their counter.
use fjdispatchlite.Prelude.{ℕ, zero, suc, ◌+◌, ◌≤◌, ◌<◌, ◌≡◌, List, [], ◌∷◌, arith, All, All-map}
use fjdispatchlite.Prelude.Assoc.{IsDistinct}
use fjdispatchlite.Results.{get_handle, int64_max}

-- From a counter below INT64_MAX, the counter stays below INT64_MAX, and the handle is between 1
-- and INT64_MAX.
pub get_handle_bounds :
    (counter : ℕ)
    → counter < int64_max
    → ((get_handle counter).0 < int64_max)
      × (0 < (get_handle counter).1)
      × ((get_handle counter).1 ≤ int64_max)
unfolding get_handle
get_handle_bounds counter h = ground arith

-- The handles of `n` calls one after the other.
unfoldable pub take_handles : ℕ → ℕ → List ℕ
take_handles zero counter = []
take_handles (suc n) counter = (get_handle counter).1 ∷ take_handles n (get_handle counter).0

pub get_handle_next :
    (counter : ℕ) → counter + 1 < int64_max → get_handle counter ≡ (counter + 1, counter + 1)
unfolding get_handle
get_handle_next counter h = ground arith

pub take_handles_above :
    (n counter : ℕ) → counter + n < int64_max → All (λ h. counter < h) (take_handles n counter)
unfolding take_handles
take_handles_above zero counter h = tt
take_handles_above (suc n) counter h = rw (get_handle_next counter (omega arith)) (
  omega arith,
  All-map _ _ (λ k l. omega arith) _ (take_handles_above n (counter + 1) (omega arith)),
)

-- As long as the counter stays below INT64_MAX, no handle is given twice.
pub take_handles-IsDistinct :
    (n counter : ℕ) → counter + n < int64_max → IsDistinct (take_handles n counter)
unfolding take_handles
take_handles-IsDistinct zero counter h = tt
take_handles-IsDistinct (suc n) counter h = rw (get_handle_next counter (omega arith)) (
  All-map _ _ (λ k l. omega arith) _ (take_handles_above n (counter + 1) (omega arith)),
  take_handles-IsDistinct n (counter + 1) (omega arith),
)
