-- ===== src/SyncGuard.antt =====
-- fjdispatchlite/fjsyncguard.h: the scoped locks, and `_lock` and `_unlock` of fjsharedmem.h, which
-- `FJSyncGuard` calls. A mutex is its holder. A thread that must wait, a null pointer that is read and
-- an unlock by another thread than the holder are `none`: the thread does not go on.
pub mod Scopes
mod Tests
use fjdispatchlite.Prelude.{
  ℕ, Bool, true, false, ◌&&◌, Option, none, some, ltb, ◌==◌, if◌then◌else◌,
}
use fjdispatchlite.FixMap.{◌>>=◌}

-- The thread that holds the mutex.
abbrev pub Mutex : Type 0
Mutex = Option ℕ

unfoldable pub lock : ℕ → Mutex → Option Mutex
lock thread none = some (some thread)
lock thread (some holder) = none

unfoldable pub trylock : ℕ → Mutex → Mutex × Bool
trylock thread none = (some thread, true)
trylock thread (some holder) = (some holder, false)

unfoldable pub unlock : ℕ → Mutex → Option Mutex
unlock thread none = none
unlock thread (some holder) = if holder == thread then some none else none

-- `FJMutex` holds a pointer, which may be null.
pub record ScopedMutex : Type 0 where
  pub has_mutex : Bool

-- Its constructor, and its destructor.
unfoldable pub enter_mutex : Bool → ℕ → Mutex → Option (ScopedMutex × Mutex)
unfolding lock
enter_mutex has_mutex thread m =
    if has_mutex
    then (lock thread m >>= λ m'. some (record { has_mutex = true }, m'))
    else some (record { has_mutex = false }, m)

unfoldable pub leave_mutex : ScopedMutex → ℕ → Mutex → Option Mutex
unfolding unlock
leave_mutex g thread m = if g.has_mutex then unlock thread m else some m

-- What `_lock` and `_unlock` use of the shared region.
pub record Guarded : Type 0 where
  pub initialized : ℕ
  pub mutex : Mutex

-- `mapped` is whether `shared_region_` is not null.
unfoldable pub lock_region : Bool → ℕ → Guarded → Guarded × Bool
unfolding trylock
lock_region mapped thread r =
    let (m, ok) = trylock thread r.mutex in
    if mapped && ltb 0 r.initialized
    then (if ok then (record r { mutex = m }, true) else (r, false))
    else (r, false)

-- The code returns no value where it does not unlock.
unfoldable pub unlock_region : Bool → ℕ → Guarded → Option (Guarded × Option Bool)
unfolding unlock
unlock_region mapped thread r =
    if mapped && ltb 0 r.initialized
    then (unlock thread r.mutex >>= λ m. some (record r { mutex = m }, some true))
    else some (r, none)

-- `obj` is `mapped` of the object, and `none` where `obj_` is null.
pub record SyncGuard : Type 0 where
  pub lock : Bool
  pub obj : Option Bool

-- The constructor; `unset` is what an uninitialised `lock_` holds.
unfoldable pub enter : Bool → Option Bool → ℕ → Guarded → SyncGuard × Guarded
unfolding lock_region
enter unset none thread r = (record { lock = unset; obj = none }, r)
enter unset (some mapped) thread r =
    let (r', ok) = lock_region mapped thread r in (record { lock = ok; obj = some mapped }, r')

unfoldable pub leave_obj : Option Bool → ℕ → Guarded → Option Guarded
unfolding unlock_region
leave_obj none thread r = none
leave_obj (some mapped) thread r = unlock_region mapped thread r >>= λ (r', value). some r'

-- The destructor.
unfoldable pub leave : SyncGuard → ℕ → Guarded → Option Guarded
unfolding leave_obj
leave g thread r = if g.lock then leave_obj g.obj thread r else some r
