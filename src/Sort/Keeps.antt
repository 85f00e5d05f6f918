-- ===== src/Sort/Keeps.antt =====
-- lib/sort.c: the elements that an array has before and after a sort.
use sandix.Common.{
  ℕ, zero, suc, ◌+◌, ◌-◌, ◌*◌, ◌/◌, ◌≤◌, ◌<◌, ◌≡◌, refl, ap, ◌∙◌, Bool, true, false, some, List, [],
  ◌∷◌, arith, ltb, get_elem?, set, length, length-set, Bool-cases, ◌⊎◌, inl, inr,
}
use sandix.Sort.Array.{element_at-some}
use sandix.Sort.{swap, is_below, larger_child, sift_down, heapify, extract, sort}

abbrev pub bit : Bool → ℕ
bit true = 1
bit false = 0

module _ {A : Type 0} (f : A → Bool) where
  -- How many elements pass the test.
  abbrev pub count : List A → ℕ
  count [] = 0
  count (x ∷ xs) = bit (f x) + count xs

  count-set :
      (xs : List A) (i : ℕ) (x v : A)
      → get_elem? xs i ≡ some x
      → count (set xs i v) + bit (f x) ≡ count xs + bit (f v)
  count-set [] i x v h = ground arith
  count-set (y ∷ ys) zero x v h = grind arith
  count-set (y ∷ ys) (suc i) x v h = omega (arith, count-set ys i x v h)

-- A second read of the element that is written.
get_elem?-set :
    {A : Type 0} (xs : List A) (i j : ℕ) (y : A)
    → get_elem? xs j ≡ some y
    → get_elem? (set xs i y) j ≡ some y
get_elem?-set [] i j y k = k
get_elem?-set (z ∷ zs) zero zero y k = refl
get_elem?-set (z ∷ zs) zero (suc j) y k = k
get_elem?-set (z ∷ zs) (suc i) zero y k = k
get_elem?-set (z ∷ zs) (suc i) (suc j) y k = get_elem?-set zs i j y k

get_elem?-some :
    {A : Type 0} (xs : List A) (i : ℕ) → i < length xs → (x : A) × (get_elem? xs i ≡ some x)
get_elem?-some [] i h = absurd (omega arith)
get_elem?-some (x ∷ xs) zero h = (x, refl)
get_elem?-some (x ∷ xs) (suc i) h = get_elem?-some xs i (omega arith)

module _ {A : Type 0} (below : A → A → Bool) (f : A → Bool) (behind other : ℕ → A) where
  -- `ys` is the array that the code makes of `xs`, whatever is behind it: `zs` is what it makes with
  -- something else there.
  record Keeps (xs ys zs : List A) : Type 0 where
    counted : count f ys ≡ count f xs
    long : length ys ≡ length xs
    alone : ys ≡ zs

  Keeps-refl : (xs : List A) → Keeps xs xs xs
  Keeps-refl xs = record { counted = refl; long = refl; alone = refl }

  swap-Keeps :
      (xs : List A) (i j : ℕ)
      → i < length xs
      → j < length xs
      → Keeps xs (swap below behind xs i j) (swap below other xs i j)
  unfolding swap
  swap-Keeps xs i j a b =
      let (x, e) = get_elem?-some xs i a in
      let (y, e') = get_elem?-some xs j b in
      rw
        (
          swap,
          element_at-some below behind xs i x e,
          element_at-some below behind xs j y e',
          element_at-some below other xs i x e,
          element_at-some below other xs j y e',
        )
        (record {
          counted = omega (
            arith,
            count-set f xs i x y e,
            count-set f (set xs i y) j y x (get_elem?-set xs i j y e'),
          );
          long = length-set (set xs i y) j x ∙ length-set xs i y;
          alone = refl;
        })

  is_below-alone :
      (xs : List A) (i j : ℕ)
      → i < length xs
      → j < length xs
      → is_below below behind xs i j ≡ is_below below other xs i j
  unfolding is_below
  is_below-alone xs i j a b =
      let (x, e) = get_elem?-some xs i a in
      let (y, e') = get_elem?-some xs j b in
      rw
        (
          is_below,
          element_at-some below behind xs i x e,
          element_at-some below behind xs j y e',
          element_at-some below other xs i x e,
          element_at-some below other xs j y e',
        )
        refl

  larger_child-alone :
      (xs : List A) (n r : ℕ)
      → n ≤ length xs
      → r * 2 + 1 < n
      → (larger_child below behind xs n r ≡ larger_child below other xs n r)
        × (larger_child below behind xs n r < n)
  unfolding larger_child
  larger_child-alone xs n r fits b = elim (Bool-cases (ltb (r * 2 + 1) (n - 1))) [
    | inr last ↦ rw (larger_child, last) (refl, b)
    | inl two ↦
        let same = is_below-alone xs (r * 2 + 1) (r * 2 + 1 + 1) (omega arith) (ground arith) in
        rw (larger_child, two, same) (refl, ground arith)
  ]

  -- A step on what the first step left in both runs.
  Keeps-then :
      {xs ys zs : List A} (g g' : List A → List A)
      → Keeps xs ys zs
      → Keeps ys (g ys) (g' ys)
      → Keeps xs (g ys) (g' zs)
  Keeps-then g g' a b = record {
    counted = b.counted ∙ a.counted;
    long = b.long ∙ a.long;
    alone = b.alone ∙ ap g' a.alone;
  }

  sift_down-Keeps :
      (k n : ℕ) (xs : List A) (r : ℕ)
      → n ≤ length xs
      → Keeps xs (sift_down below behind k n xs r) (sift_down below other k n xs r)
  unfolding sift_down
  sift_down-Keeps zero n xs r fits = Keeps-refl xs
  sift_down-Keeps (suc k) n xs r fits = elim (Bool-cases (ltb (r * 2 + 1) n)) [
    | inr e ↦ rw (sift_down, e) (Keeps-refl xs)
    | inl e ↦
        let c = larger_child below other xs n r in
        let (same, inside) = larger_child-alone xs n r fits (ground arith) in
        let low : c < n = omega (arith, same, inside) in
        let alike = is_below-alone xs r c (ground arith) (omega arith) in
        elim (Bool-cases (is_below below other xs r c)) [
          | inr e' ↦ rw (sift_down, e, same, alike, e') (Keeps-refl xs)
          | inl e' ↦
              let step = swap-Keeps xs r c (ground arith) (omega arith) in
              rw (sift_down, e, same, alike, e', same)
                (Keeps-then (λ ys. sift_down below behind k n ys c)
                  (λ ys. sift_down below other k n ys c) step
                  (sift_down-Keeps k n (swap below behind xs r c) c (omega (arith, step.long))))
        ]
  ]

  heapify-Keeps :
      (n : ℕ) (xs : List A) (i : ℕ)
      → n ≤ length xs
      → Keeps xs (heapify below behind n xs i) (heapify below other n xs i)
  unfolding heapify
  heapify-Keeps n xs zero fits = Keeps-refl xs
  heapify-Keeps n xs (suc i) fits =
      let step = sift_down-Keeps n n xs i fits in
      Keeps-then (λ ys. heapify below behind n ys i) (λ ys. heapify below other n ys i) step
        (heapify-Keeps n (sift_down below behind n n xs i) i (omega (arith, step.long)))

  extract-Keeps :
      (xs : List A) (i : ℕ)
      → (i ≡ 0) ⊎ (i < length xs)
      → Keeps xs (extract below behind xs i) (extract below other xs i)
  unfolding extract
  extract-Keeps xs zero fits = Keeps-refl xs
  extract-Keeps xs (suc i) fits =
      let first = swap-Keeps xs 0 (suc i) (ground arith) (ground arith) in
      let sift : (ℕ → A) → List A → List A =
        λ memory ys. sift_down below memory (suc i) (suc i) ys 0 in
      let step = Keeps-then (sift behind) (sift other) first (
        sift_down-Keeps (suc i) (suc i) (swap below behind xs 0 (suc i)) 0
          (ground (arith, first.long))) in
      Keeps-then (λ ys. extract below behind ys i) (λ ys. extract below other ys i) step
        (extract-Keeps (sift behind (swap below behind xs 0 (suc i))) i
          (inr (ground (arith, step.long))))

-- A sort keeps the elements, whatever the comparison says: each Boolean test passes on as many
-- elements after it as before it. What is behind the array has no influence on the result, so that
-- no element behind it is taken in, nor does a comparison with one decide anything.
pub sort-Keeps :
    {A : Type 0} (below : A → A → Bool) (f : A → Bool) (behind other : ℕ → A) (xs : List A)
    → (count f (sort below behind xs) ≡ count f xs) × (sort below behind xs ≡ sort below other xs)
unfolding sort
sort-Keeps below f behind other xs =
    let n = length xs in
    let built = heapify-Keeps below f behind other n xs (n / 2) (omega arith) in
    let r =
      Keeps-then below f behind other (λ ys. extract below behind ys (n - 1))
        (λ ys. extract below other ys (n - 1)) built
        (extract-Keeps below f behind other (heapify below behind n xs (n / 2)) (n - 1)
          (omega (arith, built.long))) in
    (r.counted, r.alone)

pub sort-count :
    {A : Type 0} (below : A → A → Bool) (f : A → Bool) (behind : ℕ → A) (xs : List A)
    → count f (sort below behind xs) ≡ count f xs
sort-count below f behind xs = (sort-Keeps below f behind behind xs).0
