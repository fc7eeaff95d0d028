-- ===== src/Timer/Loop/Standing.antt =====
-- fjtimerlite.h: the table of timers around one entry, over a section of `timerThread`.
use fjdispatchlite.Prelude.{
  ℕ, ◌+◌, ◌<◌, ◌≤◌, ◌≡◌, ◌≢◌, refl, sym, ◌∙◌, subst, inl, inr, ◌⊎◌, Bool, true, false, not, ◌||◌,
  some, List, arith, ltb, Bool-cases, length, get_elem?, get_elem?-set_ne, length-set,
}
use fjdispatchlite.Prelude.Assoc.{IsDistinct, keys, assign, lookup_get, assign-set, keys-set}
use fjdispatchlite.Timer.{
  TimerInfo, Timer, passes, fires, visit_at, reschedule, deactivate, deactivate_at, rest,
}
use fjdispatchlite.Timer.Loop.{Loop, reset_base}

-- The thread runs, its iterator is in the map, and an entry stands at an index of the map.
pub record Stands (l : Loop) (k h : ℕ) (info : TimerInfo) : Type 0 where
  pub running : l.timer.stop ≡ false
  pub distinct : IsDistinct (keys l.timer.timers)
  pub in_range : l.it ≤ length l.timer.timers
  pub there : get_elem? l.timer.timers k ≡ some (h, info)

-- A table with one entry other than the one at `k` changed.
pub record Others (m m' : List (ℕ × TimerInfo)) (k : ℕ) : Type 0 where
  pub same_keys : keys m' ≡ keys m
  pub same_length : length m' ≡ length m
  pub same_at : get_elem? m' k ≡ get_elem? m k

pub Others-refl : (m : List (ℕ × TimerInfo)) (k : ℕ) → Others m m k
Others-refl m k = record { same_keys = refl; same_length = refl; same_at = refl }

pub Others-trans :
    (a b c : List (ℕ × TimerInfo)) (k : ℕ) → Others a b k → Others b c k → Others a c k
Others-trans a b c k x y = record {
  same_keys = y.same_keys ∙ x.same_keys;
  same_length = y.same_length ∙ x.same_length;
  same_at = y.same_at ∙ x.same_at;
}

pub assign-Others :
    (m : List (ℕ × TimerInfo)) (i k j : ℕ) (v u : TimerInfo)
    → IsDistinct (keys m)
    → get_elem? m i ≡ some (j, v)
    → i ≢ k
    → Others m (assign j u m) k
assign-Others m i k j v u d e n =
    subst (λ x. Others m x k) (sym (assign-set m i j v u d e))
      (record {
        same_keys = keys-set m i j v u e;
        same_length = length-set m i (j, u);
        same_at = get_elem?-set_ne m i k (j, u) n;
      })

pub deactivate-Others :
    (m : List (ℕ × TimerInfo)) (i k j : ℕ) (v : TimerInfo)
    → IsDistinct (keys m)
    → get_elem? m i ≡ some (j, v)
    → i ≢ k
    → Others m (deactivate j m) k
unfolding deactivate deactivate_at
deactivate-Others m i k j v d e n =
    subst (λ o. Others m (deactivate_at j m o) k) (sym (lookup_get m i j v d e))
      (assign-Others m i k j v (record v { active = false }) d e n)

-- A visit, with what becomes of the table if the timer fires.
pub visit_cases :
    (now h : ℕ) (t : Timer) (info : TimerInfo)
    → (visit_at now h t (some info) ≡ passes)
      ⊎ (visit_at now h t (some info) ≡ fires info.obj info.mf (reschedule now h info t))
unfolding visit_at
visit_cases now h t info = elim (Bool-cases (not info.active || ltb now info.next_time)) [
  | inl t' ↦ inl (rw t' refl)
  | inr f ↦ inr (rw f refl)
]

-- A round that does not call the timer at `k`: its entry stands, and the iterator has gone on.
pub record Passes (l l' : Loop) (k h : ℕ) (info : TimerInfo) : Type 0 where
  pub stands : Stands l' k h info
  pub same_length : length l'.timer.timers ≡ length l.timer.timers
  pub moved :
      ((l.it < length l.timer.timers) × (l'.it ≡ l.it + 1))
      ⊎ ((l.it ≡ length l.timer.timers) × (l'.it ≡ 0))

pub step-Stands :
    (l l' : Loop) (k h : ℕ) (info : TimerInfo)
    → Stands l k h info
    → l'.timer.stop ≡ l.timer.stop
    → Others l.timer.timers l'.timer.timers k
    → l.it < length l.timer.timers
    → l'.it ≡ l.it + 1
    → Passes l l' k h info
step-Stands l l' k h info s a o b e = record {
  stands = record {
    running = a ∙ s.running;
    distinct = subst IsDistinct (sym o.same_keys) s.distinct;
    in_range = omega (arith, o.same_length, e, b);
    there = o.same_at ∙ s.there;
  };
  same_length = o.same_length;
  moved = inl (b, e);
}

-- The loop whose thread rests.
abbrev pub rested : Loop → Loop
rested l = record l { timer = rest l.timer }

pub end-Stands :
    (l : Loop) (k h : ℕ) (info : TimerInfo) (x : Bool)
    → Stands l k h info
    → l.it ≡ length l.timer.timers
    → Passes l (record l { it = 0; timer = reset_base x (rest l.timer) }) k h info
unfolding reset_base rest
end-Stands l k h info true s e = record {
  stands = record {
    running = s.running;
    distinct = s.distinct;
    in_range = omega arith;
    there = s.there;
  };
  same_length = refl;
  moved = inr (e, refl);
}
end-Stands l k h info false s e = record {
  stands = record {
    running = s.running;
    distinct = s.distinct;
    in_range = omega arith;
    there = s.there;
  };
  same_length = refl;
  moved = inr (e, refl);
}
