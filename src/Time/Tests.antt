-- ===== src/Time/Tests.antt =====
-- The theorems on time, at inputs.
use fjdispatchlite.Prelude.{◌+◌, ◌*◌, ◌≡◌, refl, arith}
use fjdispatchlite.Time.{
  Timespec, IsNormal, nanoseconds, get_future_timespec, get_future_timespec_exact,
}

abbrev reading : Timespec
reading = record { tv_sec = 12; tv_nsec = 999000000 }

carried : get_future_timespec reading 2005 ≡ record { tv_sec = 15; tv_nsec = 4000000 }
unfolding get_future_timespec
carried = refl

get_future_timespec_exact_example :
    IsNormal (get_future_timespec reading 2005)
    × (nanoseconds (get_future_timespec reading 2005) ≡ nanoseconds reading + 2005 * 1000000)
get_future_timespec_exact_example = get_future_timespec_exact reading 2005 (omega arith)
