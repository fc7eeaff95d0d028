-- ===== src/Timer/System/Tables.antt =====
-- fjtimerlite.h: what a section makes of the table of timers, beside the looks that found a timer due.
use fjdispatchlite.Prelude.{
  ℕ, suc, ◌∷◌, ◌*◌, count, ◌+◌, ◌≤◌, ◌≡◌, ◌≢◌, refl, ap, sym, ◌∙◌, subst, inl, inr, ◌⊎◌, Bool, true,
  false, Option, none, some, List, [], arith, ltb, leb, ◌==◌, ==→eq, Bool-cases, All, All-map, ◌&&◌,
}
use fjdispatchlite.Prelude.Assoc.{lookup, assign, lookup-assign}
use fjdispatchlite.Timer.{
  TimerInfo, Timer, min_tick, max_tick, set_base_interval, create_timer, new_timer, emplace,
  emplace_at, remove_timer, deactivate, deactivate_at, remove_all, declare_stop, after_call, rest,
}
use fjdispatchlite.Timer.System.{Due}

abbrev pub of_timer : ℕ → Due → Bool
of_timer h f = f.handle == h

-- The times when a timer was found due lie before its next time by its interval at least, and the
-- next time is behind its start by one interval more than there are such times.
abbrev pub IsPast : ℕ → TimerInfo → List Due → Type 0
IsPast h info found =
    All (λ f. f.handle ≡ h → f.time + info.interval_msec ≤ info.next_time) found
    × (info.start + suc (count (of_timer h) found) * info.interval_msec ≤ info.next_time)

none_found :
    (h : ℕ) (found : List Due) → All (λ f. f.handle ≢ h) found → count (of_timer h) found ≡ 0
none_found h [] n = refl
none_found h (f ∷ found) n = ground (arith, n.0, none_found h found n.1)

-- Every timer of a table has those times behind it.
abbrev pub ArePast : List (ℕ × TimerInfo) → List Due → Type 0
ArePast timers found =
    (h : ℕ) (info : TimerInfo) → lookup h timers ≡ some info → IsPast h info found

-- Where a timer comes from: from one that was there, with its interval, its start and a next time that
-- is not later, or it is new.
abbrev Comes : List Due → List (ℕ × TimerInfo) → ℕ → TimerInfo → Type 0
Comes found before h info =
    ((old : TimerInfo) × (lookup h before ≡ some old)
      × (old.interval_msec ≡ info.interval_msec)
      × (old.start ≡ info.start)
      × (old.next_time ≤ info.next_time))
    ⊎ (All (λ f. f.handle ≢ h) found × (info.start + info.interval_msec ≤ info.next_time))

-- What a table may become.
pub Follows : List Due → List (ℕ × TimerInfo) → List (ℕ × TimerInfo) → Type 0
Follows found before after =
    (h : ℕ) (info : TimerInfo) → lookup h after ≡ some info → Comes found before h info

pub Follows-ArePast :
    (found : List Due) (before after : List (ℕ × TimerInfo))
    → Follows found before after
    → ArePast before found
    → ArePast after found
unfolding Follows
Follows-ArePast found before after m a h info e = elim (m h info e) [
  | inl (old, k, i, b, n) ↦ (
    All-map _ _ (λ f p q. omega (arith, p q, i, n)) found (a h old k).0,
    omega (arith, (a h old k).1, ap (λ x. suc (count (of_timer h) found) * x) i, b, n),
  )
  | inr (fresh, l) ↦ (
    All-map _ _ (λ f p q. absurd (p q)) found fresh,
    omega (arith, l, ap (λ c. suc c * info.interval_msec) (none_found h found fresh)),
  )
]

pub Follows-refl : (found : List Due) (timers : List (ℕ × TimerInfo)) → Follows found timers timers
unfolding Follows
Follows-refl found timers h info e = inl (info, e, refl, refl, omega arith)

-- A write behind a key.
pub assign-Follows :
    (found : List Due) (timers : List (ℕ × TimerInfo)) (h : ℕ) (new : TimerInfo)
    → Comes found timers h new
    → Follows found timers (assign h new timers)
unfolding Follows
assign-Follows found timers h new w j info e = elim (Bool-cases (h == j)) [
  | inl t ↦
      let k : h ≡ j = ==→eq h j t in
      let same : some new ≡ some info = sym (lookup-assign h j new timers ∙ rw t refl) ∙ e in
      let q : new ≡ info = cc in
      subst (λ x. Comes found timers j x) q (subst (λ i. Comes found timers i new) k w)
  | inr f ↦ inl (info, sym (lookup-assign h j new timers ∙ rw f refl) ∙ e, refl, refl, omega arith)
]

emplace_at-Follows :
    (found : List Due) (timers : List (ℕ × TimerInfo)) (h : ℕ) (new : TimerInfo)
    (o : Option TimerInfo)
    → All (λ f. f.handle ≢ h) found
    → new.start + new.interval_msec ≤ new.next_time
    → Follows found timers (emplace_at h new timers o)
unfolding emplace_at
emplace_at-Follows found timers h new none w l = assign-Follows found timers h new (inr (w, l))
emplace_at-Follows found timers h new (some old) w l = Follows-refl found timers

deactivate_at-Follows :
    (found : List Due) (timers : List (ℕ × TimerInfo)) (h : ℕ) (o : Option TimerInfo)
    → lookup h timers ≡ o
    → Follows found timers (deactivate_at h timers o)
unfolding deactivate_at
deactivate_at-Follows found timers h none e = Follows-refl found timers
deactivate_at-Follows found timers h (some old) e =
    assign-Follows found timers h (record old { active = false })
      (inl (old, e, refl, refl, omega arith))

pub create_timer-Follows :
    (found : List Due) (t : Timer) (h now obj mf interval : ℕ)
    → All (λ f. f.handle ≢ h) found
    → Follows found t.timers (create_timer t h now obj mf interval).0.timers
unfolding create_timer emplace new_timer
create_timer-Follows found t h now obj mf interval w = elim (Bool-cases (ltb interval min_tick)) [
  | inl s ↦ rw s (Follows-refl found t.timers)
  | inr f ↦ rw f (
      emplace_at-Follows found t.timers h (new_timer now obj mf interval) (lookup h t.timers) w
        (omega arith))
]

pub set_base_interval-timers :
    (t : Timer) (msec : ℕ) → (set_base_interval t msec).0.timers ≡ t.timers
unfolding set_base_interval
set_base_interval-timers t msec = elim (Bool-cases (leb min_tick msec && leb msec max_tick)) [
  | inl s ↦ rw s refl
  | inr f ↦ rw f refl
]

pub remove_all-timers : (t u : Timer) → remove_all t ≡ some u → u.timers ≡ []
unfolding remove_all
remove_all-timers t u e = elim (Bool-cases t.running) [
  | inl s ↦ let stuck : none ≡ some u = sym (rw s refl) ∙ e in absurd (ground arith)
  | inr f ↦
      let same : some (record t { timers = []; base_interval_msec = max_tick }) ≡ some u =
        sym (rw f refl) ∙ e in
      let q : record t { timers = []; base_interval_msec = max_tick } ≡ u = cc in
      ap (λ x. x.timers) (sym q)
]

pub nothing-Follows : (found : List Due) (timers : List (ℕ × TimerInfo)) → Follows found timers []
unfolding Follows lookup
nothing-Follows found timers h info e = absurd (ground arith)

pub after_call-Follows :
    (found : List Due) (t : Timer) (h : ℕ) (negative : Bool)
    → Follows found t.timers (after_call h negative t).timers
unfolding after_call deactivate
after_call-Follows found t h true = deactivate_at-Follows found t.timers h (lookup h t.timers) refl
after_call-Follows found t h false = Follows-refl found t.timers

pub remove_timer-Follows :
    (found : List Due) (t : Timer) (h : ℕ) → Follows found t.timers (remove_timer t h).0.timers
unfolding remove_timer deactivate
remove_timer-Follows found t h = deactivate_at-Follows found t.timers h (lookup h t.timers) refl

pub rest-timers : (t : Timer) → (rest t).timers ≡ t.timers
unfolding rest
rest-timers t = refl

pub declare_stop-timers : (t : Timer) → (declare_stop t).timers ≡ t.timers
unfolding declare_stop
declare_stop-timers t = refl
