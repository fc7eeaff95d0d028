-- ===== src/SyncGuard/Tests.antt =====
-- The scoped locks, run, and the theorem on them at an input.
use fjdispatchlite.Prelude.{◌≡◌, refl, true, false, none, some}
use fjdispatchlite.FixMap.{◌>>=◌}
use fjdispatchlite.SyncGuard.{Guarded, lock, enter_mutex, enter, leave}
use fjdispatchlite.SyncGuard.Scopes.{Apart, enter-Apart}

abbrev in_use : Guarded
in_use = record { initialized = 2; mutex = none }

enter-Apart_example :
    let first = enter false (some true) 4 in_use in
    let second = enter false (some true) 7 first.1 in Apart first.0 second.0 4 7 in_use second.1
enter-Apart_example = enter-Apart false true true 4 7 in_use

-- A thread that enters the scope of a mutex twice waits for itself.
waits_for_itself : (enter_mutex true 4 none >>= λ (g, m). enter_mutex true 4 m) ≡ none
unfolding enter_mutex lock
waits_for_itself = refl

-- The second of two threads goes on without the lock.
goes_on : (enter false (some true) 7 (enter false (some true) 4 in_use).1).0.lock ≡ false
unfolding enter
goes_on = refl

-- A guard without an object whose `lock_` happens to be true reads a null pointer.
null_obj : leave (enter true none 4 in_use).0 4 (enter true none 4 in_use).1 ≡ none
unfolding enter leave
null_obj = refl
