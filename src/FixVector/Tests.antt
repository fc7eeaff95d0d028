-- ===== src/FixVector/Tests.antt =====
-- test/test_fixvector.cpp and the theorems on the vector, at inputs.
use fjdispatchlite.Prelude.{
  ℕ, ◌-◌, ◌≡◌, refl, true, false, none, some, List, [], ◌∷◌, ◌++◌, take, arith, u64_mod,
  stable_sort, by_key,
}
use fjdispatchlite.FixVector.{
  FixVector, IsWellFormed, to_list, create, push_back, push_front, at, splice, sort, size,
}
use fjdispatchlite.FixVector.Splice.{splice_wraps}
use fjdispatchlite.FixVector.Client.{
  Call, pushes_back, pushes_front, reads, splices, sorts, sizes, pushed, pointed, done, counted,
  call, run, spec_call, spec_run, run-spec_run,
}

program : Unit {0}
unfolding create push_back push_front at splice sort size call run spec_call spec_run stable_sort
program = tt

-- A buffer of four slots of eight bytes, with two elements.
abbrev small : FixVector ℕ
small = record { buffer = 11 ∷ 7 ∷ 0 ∷ 0 ∷ []; capacity = 4; count = 2 }

small-IsWellFormed : IsWellFormed small
small-IsWellFormed = omega arith

created : create (11 ∷ 7 ∷ 0 ∷ 0 ∷ []) 35 8 2 ≡ small
unfolding program
created = refl

cut_down : (create {A = ℕ} (11 ∷ 7 ∷ []) 16 8 9).count ≡ 2
unfolding program
cut_down = refl

abbrev script : List (Call ℕ)
script =
    pushes_back 15
    ∷ sorts (by_key (λ n. n))
    ∷ splices 1 1
    ∷ reads 1
    ∷ pushes_front 3
    ∷ pushes_front 4
    ∷ pushes_front 5
    ∷ sizes
    ∷ reads 4
    ∷ []

script_runs :
    run (stable_sort ℕ) small script
    ≡ pushed true
      ∷ done
      ∷ done
      ∷ pointed (some 15)
      ∷ pushed true
      ∷ pushed true
      ∷ pushed false
      ∷ counted 4
      ∷ pointed none
      ∷ []
unfolding program
script_runs = refl

run-spec_run_example :
    run (stable_sort ℕ) small script ≡ spec_run (stable_sort ℕ) 4 (11 ∷ 7 ∷ []) script
run-spec_run_example = run-spec_run (stable_sort ℕ) small script small-IsWellFormed (omega arith)

splice_wraps_example :
    let v' = splice small 1 (u64_mod - 1) in
    (v'.count ≡ 3) × (to_list v' ≡ take 1 (to_list small) ++ to_list small)
splice_wraps_example =
    splice_wraps small 1 small-IsWellFormed (omega arith) (omega arith) (omega arith)
