-- ===== src/FixMap/Tests.antt =====
-- The theorems on the map, at inputs, and runs of its operations.
use fjdispatchlite.Prelude.{
  ℕ, ◌≡◌, ◌≢◌, refl, inr, ◌↔◌, Bool, true, Option, none, some, [], ◌∷◌, arith,
}
use fjdispatchlite.FixMap.{
  Entry, FixMap, IsWellFormed, to_list, create, insert, unset, find, index_of, clear, size,
  write_value,
}
use fjdispatchlite.FixMap.Laws.{lookup, deref, put, Maps, find-lookup, put-Maps, unset-Maps}

program : Unit {0}
unfolding create insert unset find index_of clear size write_value lookup deref put
program = tt

abbrev entry : ℕ → ℕ → Entry ℕ
entry k v = record { key = k; value = v }

-- Five slots, three of them in use.
abbrev sample : FixMap ℕ
sample = record {
  entries = entry 3 30 ∷ entry 5 50 ∷ entry 9 90 ∷ entry 0 7 ∷ entry 0 0 ∷ [];
  capacity = 5;
  count = 3;
}

sample-IsWellFormed : IsWellFormed sample
sample-IsWellFormed = omega arith

created : create sample.entries 40 8 3 ≡ some sample
unfolding program
created = refl

too_many : create sample.entries 16 8 3 ≡ none
unfolding program
too_many = refl

-- The new entry holds what its slot held before.
insert_middle :
    insert sample 4
    ≡ some (
      record sample {
        entries = entry 3 30 ∷ entry 4 50 ∷ entry 5 50 ∷ entry 9 90 ∷ entry 0 0 ∷ [];
        count = 4;
      },
      1,
    )
unfolding program
insert_middle = refl

unset_first :
    unset sample 3
    ≡ some (
      record sample {
        entries = entry 5 50 ∷ entry 9 90 ∷ entry 9 90 ∷ entry 0 7 ∷ entry 0 0 ∷ [];
        count = 2;
      },
      true,
    )
unfolding program
unset_first = refl

find-lookup_example :
    (p : Option ℕ) × (find sample 5 ≡ some p) × (deref sample p ≡ lookup 5 (to_list sample))
find-lookup_example = find-lookup sample sample-IsWellFormed 5

four_is_new : index_of 4 (to_list sample) ≡ none
unfolding program
four_is_new = refl

put-Maps_example : (m : FixMap ℕ) × (put sample 4 44 ≡ some m) × Maps sample m 4 (some 44)
put-Maps_example = put-Maps sample sample-IsWellFormed 4 44 (inr (omega arith))

unset-Maps_example :
    (m : FixMap ℕ) × (b : Bool) × (unset sample 5 ≡ some (m, b))
    × Maps sample m 5 none
    × ((b ≡ true) ↔ (lookup 5 (to_list sample) ≢ none))
unset-Maps_example = unset-Maps sample sample-IsWellFormed 5
