-- ===== src/Sort.antt =====
-- lib/sort.c: heap sort.
pub mod Keeps
pub mod Array
pub mod Sift
pub mod Sorted
mod Tests
use sandix.Common.{
  ℕ, zero, suc, ◌+◌, ◌-◌, ◌*◌, ◌/◌, Bool, true, false, not, ◌&&◌, Option, none, some, List, ltb,
  if◌then◌else◌, get_elem?, set, length,
}

-- The array is a list of its elements, and a byte offset is size times an index. `below x y` is
-- `cmp_func(x, y) < 0`, so its negation at the same arguments is `cmp_func(x, y) >= 0`. `behind` is
-- what a read at an index behind the array finds there; a write there does not change the array.
module _ {A : Type 0} (below : A → A → Bool) (behind : ℕ → A) where
  -- base + i
  unfoldable pub element_at : List A → ℕ → A
  element_at xs i = elim (get_elem? xs i) [ none ↦ behind i | some x ↦ x ]

  -- Any of the swap functions, which exchange the `size` bytes of two elements.
  unfoldable pub swap : List A → ℕ → ℕ → List A
  swap xs i j = let x = element_at xs i in let y = element_at xs j in set (set xs i y) j x

  -- cmp_func(base + i, base + j) < 0
  unfoldable pub is_below : List A → ℕ → ℕ → Bool
  is_below xs i j = below (element_at xs i) (element_at xs j)

  -- The child that a round looks at: the second one, if it is there and the first is below it.
  unfoldable pub larger_child : List A → ℕ → ℕ → ℕ
  larger_child xs n r =
      let c = r * 2 + 1 in if ltb c (n - 1) && is_below xs c (c + 1) then c + 1 else c

  -- The inner loop over the first `n` elements. `r` at least doubles, so `n` rounds are enough.
  unfoldable pub sift_down : ℕ → ℕ → List A → ℕ → List A
  sift_down zero n xs r = xs
  sift_down (suc k) n xs r = elim (ltb (r * 2 + 1) n) [
    | false ↦ xs
    | true ↦
        let c = larger_child xs n r in
        elim (is_below xs r c) [ false ↦ xs | true ↦ sift_down k n (swap xs r c) c ]
  ]

  -- The first loop, from i - 1 down to 0.
  unfoldable pub heapify : ℕ → List A → ℕ → List A
  heapify n xs zero = xs
  heapify n xs (suc i) = heapify n (sift_down n n xs i) i

  -- The second loop, from i down to 1.
  unfoldable pub extract : List A → ℕ → List A
  extract xs zero = xs
  extract xs (suc i) = extract (sift_down (suc i) (suc i) (swap xs 0 (suc i)) 0) i

  -- num elements; `num/2 - 1` and `num - 1` are -1 where the model stops at 0, and no loop runs.
  unfoldable pub sort : List A → List A
  sort xs = extract (heapify (length xs) xs (length xs / 2)) (length xs - 1)
