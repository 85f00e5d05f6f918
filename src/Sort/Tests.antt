-- ===== src/Sort/Tests.antt =====
-- lib/sort.c: runs, and the theorem at a concrete array.
use sandix.Common.{ℕ, ◌≡◌, refl, [], ◌∷◌, ltb, ◌==◌, arith}
use sandix.Sort.{element_at, sort, heapify, extract, sift_down, larger_child, is_below, swap}
use sandix.Sort.Sift.{IsOrder}
use sandix.Sort.Sorted.{IsSorted, sort-IsSorted}
use sandix.Sort.Keeps.{count, sort-Keeps}

abbrev nines : ℕ → ℕ
nines i = 9

sort_runs : sort ltb nines (3 ∷ 1 ∷ 4 ∷ 1 ∷ 5 ∷ 9 ∷ 2 ∷ []) ≡ 1 ∷ 1 ∷ 2 ∷ 3 ∷ 4 ∷ 5 ∷ 9 ∷ []
unfolding sort heapify extract sift_down larger_child is_below swap element_at
sort_runs = refl

sort_empty : sort ltb nines [] ≡ []
unfolding sort heapify extract
sort_empty = refl

abbrev zeros : ℕ → ℕ
zeros i = 0

sort-Keeps_example :
    (count (λ x. x == 1) (sort ltb nines (3 ∷ 1 ∷ 4 ∷ 1 ∷ []))
      ≡ count (λ x. x == 1) (3 ∷ 1 ∷ 4 ∷ 1 ∷ []))
    × (sort ltb nines (3 ∷ 1 ∷ 4 ∷ 1 ∷ []) ≡ sort ltb zeros (3 ∷ 1 ∷ 4 ∷ 1 ∷ []))
sort-Keeps_example = sort-Keeps ltb (λ x. x == 1) nines zeros (3 ∷ 1 ∷ 4 ∷ 1 ∷ [])

ltb-IsOrder : IsOrder ltb
ltb-IsOrder = record { trans = λ h k. ground arith; asym = λ h. ground arith }

sort-IsSorted_example : IsSorted ltb (sort ltb nines (3 ∷ 1 ∷ 4 ∷ 1 ∷ []))
sort-IsSorted_example = sort-IsSorted ltb ltb-IsOrder nines (3 ∷ 1 ∷ 4 ∷ 1 ∷ [])
