-- ===== src/Time.antt =====
-- fjdispatchlite/fjtypes.cpp: the clock in milliseconds, and deadlines. What `clock_gettime` reads is
-- an argument. Timeouts are not negative: every caller passes a clamped or a measured time.
mod Tests
use fjdispatchlite.Prelude.{
  ℕ, ◌+◌, ◌-◌, ◌*◌, ◌/◌, ◌%◌, ◌≤◌, ◌<◌, ◌≡◌, Bool, true, false, arith, ltb, leb, if◌then◌else◌,
  u64_mod,
}

pub record Timespec : Type 0 where
  pub tv_sec : ℕ
  pub tv_nsec : ℕ

-- `_get_time`, on what the clock reads.
unfoldable pub get_time : Timespec → ℕ
get_time ts = (ts.tv_sec * 1000 % u64_mod + ts.tv_nsec / 1000000) % u64_mod

-- `_get_future_timespec`, on what the clock reads.
unfoldable pub get_future_timespec : Timespec → ℕ → Timespec
get_future_timespec now timeout_msec =
    let sec = now.tv_sec + timeout_msec / 1000 in
    let nsec = (now.tv_nsec + timeout_msec % 1000 * 1000000) % u64_mod in
    if leb 1000000000 nsec
    then record { tv_sec = sec + 1; tv_nsec = (nsec + (u64_mod - 1000000000)) % u64_mod }
    else record { tv_sec = sec; tv_nsec = nsec }

abbrev pub IsNormal : Timespec → Type 0
IsNormal ts = ts.tv_nsec < 1000000000

abbrev pub nanoseconds : Timespec → ℕ
nanoseconds ts = ts.tv_sec * 1000000000 + ts.tv_nsec

-- From a normalised reading of the clock, the deadline is normalised too, and lies exactly the
-- timeout after the reading.
pub get_future_timespec_exact :
    (now : Timespec) (timeout_msec : ℕ)
    → IsNormal now
    → IsNormal (get_future_timespec now timeout_msec)
      × (nanoseconds (get_future_timespec now timeout_msec)
          ≡ nanoseconds now + timeout_msec * 1000000)
unfolding get_future_timespec
get_future_timespec_exact now timeout_msec n = ground arith

-- For a normalised reading of less than 18014398509481984 seconds, the clock in milliseconds is the
-- whole milliseconds of the reading.
pub get_time_exact :
    (ts : Timespec)
    → IsNormal ts
    → ts.tv_sec < 18014398509481984
    → get_time ts ≡ nanoseconds ts / 1000000
unfolding get_time
get_time_exact ts n h = omega arith
