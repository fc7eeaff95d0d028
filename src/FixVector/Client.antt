-- ===== src/FixVector/Client.antt =====
-- fjfixvector.h: sequences of calls of a client, and a bounded list as their reference.
use fjdispatchlite.Prelude.{
  ℕ, ◌+◌, ◌<◌, ◌≡◌, refl, ap, subst, ◌∙◌, Bool, true, false, Option, List, [], ◌∷◌, ◌++◌, inl, inr,
  arith, leb, if◌then◌else◌, Bool-cases, leb→le, leb→gt, length, get_elem?, All, u64_mod, StdSort,
}
use fjdispatchlite.FixVector.{
  FixVector, IsWellFormed, to_list, push_back, push_front, at, splice, sort, size,
}
use fjdispatchlite.FixVector.View.{
  length-to_list, push_back-full, to_list-push_back, push_back-IsWellFormed, push_front-full,
  to_list-push_front, push_front-IsWellFormed, at_lem, to_list-sort, sort-IsWellFormed,
}
use fjdispatchlite.FixVector.Splice.{without, to_list-splice, splice-IsWellFormed}

pub data Call (A : Type 0) : Type 0 where
  pushes_back pushes_front : A → Call A
  reads : ℕ → Call A
  splices : ℕ → ℕ → Call A
  sorts : (A → A → Bool) → Call A
  sizes : Call A

pub data Reply (A : Type 0) : Type 0 where
  pushed : Bool → Reply A
  pointed : Option A → Reply A
  done : Reply A
  counted : ℕ → Reply A

-- A client asks to remove a range whose end a `size_t` can hold.
abbrev pub IsSafe : {A : Type 0} → Call A → Type 0
IsSafe (splices start n) = start + n < u64_mod
IsSafe _ = Unit

module _ {A : Type 0} (s : StdSort A) where
  unfoldable pub call : FixVector A → Call A → FixVector A × Reply A
  call v (pushes_back x) = let (v', b) = push_back v x in (v', pushed b)
  call v (pushes_front x) = let (v', b) = push_front v x in (v', pushed b)
  call v (reads i) = (v, pointed (at v i))
  call v (splices start n) = (splice v start n, done)
  call v (sorts comp) = (sort s comp v, done)
  call v sizes = (v, counted (size v))

  unfoldable pub run : FixVector A → List (Call A) → List (Reply A)
  run v [] = []
  run v (c ∷ cs) = (call v c).1 ∷ run (call v c).0 cs

  -- The specification: a list of at most `cap` elements.
  unfoldable pub spec_call : ℕ → List A → Call A → List A × Reply A
  spec_call cap xs (pushes_back x) =
      if leb cap (length xs) then (xs, pushed false) else (xs ++ x ∷ [], pushed true)
  spec_call cap xs (pushes_front x) =
      if leb cap (length xs) then (xs, pushed false) else (x ∷ xs, pushed true)
  spec_call cap xs (reads i) = (xs, pointed (get_elem? xs i))
  spec_call cap xs (splices start n) = (without start n xs, done)
  spec_call cap xs (sorts comp) = (s.sort comp xs, done)
  spec_call cap xs sizes = (xs, counted (length xs))

  unfoldable pub spec_run : ℕ → List A → List (Call A) → List (Reply A)
  spec_run cap xs [] = []
  spec_run cap xs (c ∷ cs) = (spec_call cap xs c).1 ∷ spec_run cap (spec_call cap xs c).0 cs

  pub call-IsWellFormed :
      (v : FixVector A) (c : Call A) → IsWellFormed v → IsSafe c → IsWellFormed (call v c).0
  unfolding call
  call-IsWellFormed v (pushes_back x) w h = push_back-IsWellFormed v x w
  call-IsWellFormed v (pushes_front x) w h = push_front-IsWellFormed v x w
  call-IsWellFormed v (reads i) w h = w
  call-IsWellFormed v (splices start n) w h = splice-IsWellFormed v start n w h
  call-IsWellFormed v (sorts comp) w h = sort-IsWellFormed s comp v w
  call-IsWellFormed v sizes w h = w

  call-capacity : (v : FixVector A) (c : Call A) → (call v c).0.capacity ≡ v.capacity
  unfolding call push_back push_front splice sort
  call-capacity v (pushes_back x) = ground arith
  call-capacity v (pushes_front x) = ground arith
  call-capacity v (reads i) = refl
  call-capacity v (splices start n) = ground arith
  call-capacity v (sorts comp) = refl
  call-capacity v sizes = refl

  call-spec_call :
      (v : FixVector A) (c : Call A)
      → IsWellFormed v
      → IsSafe c
      → spec_call v.capacity (to_list v) c ≡ (to_list (call v c).0, (call v c).1)
  unfolding call spec_call size
  call-spec_call v (pushes_back x) w h =
      rw (length-to_list v w) (elim (Bool-cases (leb v.capacity v.count)) [
        | inl e ↦ rw (e, push_back-full v x (leb→le _ _ e))
        | inr e ↦ let p = to_list-push_back v x w (leb→gt _ _ e) in rw (e, p.0, p.1)
      ])
  call-spec_call v (pushes_front x) w h =
      rw (length-to_list v w) (elim (Bool-cases (leb v.capacity v.count)) [
        | inl e ↦ rw (e, push_front-full v x (leb→le _ _ e))
        | inr e ↦ let p = to_list-push_front v x w (leb→gt _ _ e) in rw (e, p.0, p.1)
      ])
  call-spec_call v (reads i) w h = rw (at_lem v i w)
  call-spec_call v (splices start n) w h = rw (to_list-splice v start n w h)
  call-spec_call v (sorts comp) w h = rw (to_list-sort s comp v w)
  call-spec_call v sizes w h = rw (length-to_list v w)

  run-eq_at :
      (cap : ℕ) (v : FixVector A) (cs : List (Call A))
      → v.capacity ≡ cap
      → IsWellFormed v
      → All IsSafe cs
      → run v cs ≡ spec_run cap (to_list v) cs
  unfolding run spec_run
  run-eq_at cap v [] e w h = refl
  run-eq_at cap v (c ∷ cs) e w h =
      rw
        (subst (λ k. spec_call k (to_list v) c ≡ (to_list (call v c).0, (call v c).1)) e
          (call-spec_call v c w h.0))
        (ap (λ l. (call v c).1 ∷ l)
          (run-eq_at cap (call v c).0 cs (call-capacity v c ∙ e) (call-IsWellFormed v c w h.0) h.1))

  -- A client whose ranges a `size_t` can hold, that starts on a well-formed vector, gets from any
  -- sequence of calls the replies that a list bounded by the capacity gives.
  pub run-spec_run :
      (v : FixVector A) (cs : List (Call A))
      → IsWellFormed v
      → All IsSafe cs
      → run v cs ≡ spec_run v.capacity (to_list v) cs
  run-spec_run v cs w h = run-eq_at v.capacity v cs refl w h
