-- ===== src/SyncGuard/Scopes.antt =====
-- fjsyncguard.h: what a scope of a lock does to the mutex.
use fjdispatchlite.Prelude.{
  ℕ, ◌≡◌, refl, inl, inr, Bool, true, false, ◌&&◌, none, some, ltb, eq→==, Bool-cases,
}
use fjdispatchlite.FixMap.{◌>>=◌}
use fjdispatchlite.SyncGuard.{
  Mutex, Guarded, SyncGuard, trylock, unlock, lock_region, unlock_region, enter, leave, leave_obj,
}

-- Two guards on objects that share a region.
pub record Apart (g h : SyncGuard) (t u : ℕ) (before after : Guarded) : Type 0 where
  pub not_both : (g.lock && h.lock) ≡ false
  pub inner_first : (leave h u after >>= λ r. leave g t r) ≡ some before
  pub outer_first : (leave g t after >>= λ r. leave h u r) ≡ some before

leave-locked :
    (mapped : Bool) (thread count : ℕ)
    → (mapped && ltb 0 count) ≡ true
    → leave
        (record { lock = true; obj = some mapped })
        thread
        (record { initialized = count; mutex = some thread })
      ≡ some (record { initialized = count; mutex = none })
unfolding leave leave_obj unlock_region unlock
leave-locked mapped thread count t = rw (t, eq→== thread thread refl) refl

enter-free :
    (unset mapped : Bool) (thread count : ℕ)
    → (mapped && ltb 0 count) ≡ true
    → enter unset (some mapped) thread (record { initialized = count; mutex = none }) ≡ (
      record { lock = true; obj = some mapped },
      record { initialized = count; mutex = some thread },
    )
unfolding enter lock_region trylock
enter-free unset mapped thread count t = rw t refl

enter-idle :
    (unset mapped : Bool) (thread count : ℕ) (m : Mutex)
    → (mapped && ltb 0 count) ≡ false
    → enter unset (some mapped) thread (record { initialized = count; mutex = m })
      ≡ (record { lock = false; obj = some mapped }, record { initialized = count; mutex = m })
unfolding enter lock_region trylock
enter-idle unset mapped thread count m f = rw f refl

enter-held :
    (unset mapped : Bool) (thread count holder : ℕ)
    → enter unset (some mapped) thread (record { initialized = count; mutex = some holder }) ≡ (
      record { lock = false; obj = some mapped },
      record { initialized = count; mutex = some holder },
    )
unfolding enter lock_region trylock
enter-held unset mapped thread count holder = elim (Bool-cases (mapped && ltb 0 count)) [
  | inl t ↦ rw t refl
  | inr f ↦ rw f refl
]

-- Where the first guard has no lock, the second one is alone.
alone :
    (unset a b : Bool) (t u count : ℕ) (m : Mutex)
    → let r : Guarded = record { initialized = count; mutex = m } in
      Apart
        (record { lock = false; obj = some a })
        (enter unset (some b) u r).0
        t
        u
        r
        (enter unset (some b) u r).1
unfolding leave
alone unset a b t u count (some holder) =
    rw (enter-held unset b u count holder)
      (record { not_both = refl; inner_first = refl; outer_first = refl })
alone unset a b t u count none = elim (Bool-cases (b && ltb 0 count)) [
  | inr f ↦
      rw (enter-idle unset b u count none f)
        (record { not_both = refl; inner_first = refl; outer_first = refl })
  | inl e ↦ rw (enter-free unset b u count e) (record {
    not_both = refl;
    inner_first = rw (leave-locked b u count e) refl;
    outer_first = leave-locked b u count e;
  })
]

-- Of two guards that are built one after the other on objects of one region, by one thread or by two,
-- at most one has the lock; and when both are destroyed, in either order, no thread has released a
-- mutex that it does not hold, and the mutex is again as it was before the first.
pub enter-Apart :
    (unset a b : Bool) (t u : ℕ) (r : Guarded)
    → let first = enter unset (some a) t r in
      let second = enter unset (some b) u first.1 in Apart first.0 second.0 t u r second.1
unfolding leave
enter-Apart unset a b t u r = go r.initialized r.mutex
  where
    go :
        (count : ℕ) (m : Mutex)
        → let r : Guarded = record { initialized = count; mutex = m } in
          let first = enter unset (some a) t r in
          let second = enter unset (some b) u first.1 in Apart first.0 second.0 t u r second.1
    go count (some holder) =
        rw (enter-held unset a t count holder) (alone unset a b t u count (some holder))
    go count none = elim (Bool-cases (a && ltb 0 count)) [
      | inr f ↦ rw (enter-idle unset a t count none f) (alone unset a b t u count none)
      | inl e ↦
          rw (enter-free unset a t count e, enter-held unset b u count t)
            (record {
              not_both = refl;
              inner_first = leave-locked a t count e;
              outer_first = rw (leave-locked a t count e) refl;
            })
    ]
