-- ===== src/Sort/Array.antt =====
-- lib/sort.c: the array as a function from indices, and what a swap does to it.
use native.Mathlib.Decide.{ℕ_discrete}
use sandix.Common.{
  ℕ, zero, suc, ◌<◌, ◌≡◌, ◌≢◌, refl, sym, ap, ◌∙◌, Bool, some, List, [], ◌∷◌, arith, if◌then◌else◌,
  ◌==◌, get_elem?, set, length, length-set,
}
use sandix.Sort.{element_at, swap, is_below}

module _ {A : Type 0} where
  -- The list has the elements of `h`.
  abbrev pub Reads : List A → (ℕ → A) → Type 0
  Reads xs h = (k : ℕ) → k < length xs → get_elem? xs k ≡ some (h k)

  abbrev pub exchange : (ℕ → A) → ℕ → ℕ → ℕ → A
  exchange h i j q = if q == j then h i else if q == i then h j else h q

  pub exchange-right : (h : ℕ → A) (i j q : ℕ) → q ≡ j → exchange h i j q ≡ h i
  exchange-right h i j q e = ground arith

  pub exchange-left : (h : ℕ → A) (i j q : ℕ) → q ≡ i → i ≢ j → exchange h i j q ≡ h j
  exchange-left h i j q e ne = ground arith

  pub exchange-other : (h : ℕ → A) (i j q : ℕ) → q ≢ i → q ≢ j → exchange h i j q ≡ h q
  exchange-other h i j q a b = ground arith

  get_elem?-set_same :
      (xs : List A) (i : ℕ) (v : A) → i < length xs → get_elem? (set xs i v) i ≡ some v
  get_elem?-set_same [] i v h = absurd (omega arith)
  get_elem?-set_same (x ∷ xs) zero v h = refl
  get_elem?-set_same (x ∷ xs) (suc i) v h = get_elem?-set_same xs i v (omega arith)

  get_elem?-set_other :
      (xs : List A) (i j : ℕ) (v : A) → j ≢ i → get_elem? (set xs i v) j ≡ get_elem? xs j
  get_elem?-set_other [] i j v h = refl
  get_elem?-set_other (x ∷ xs) zero zero v h = absurd (h refl)
  get_elem?-set_other (x ∷ xs) zero (suc j) v h = refl
  get_elem?-set_other (x ∷ xs) (suc i) zero v h = refl
  get_elem?-set_other (x ∷ xs) (suc i) (suc j) v h =
      get_elem?-set_other xs i j v (λ e. h (ap suc e))

module _ {A : Type 0} (below : A → A → Bool) (behind : ℕ → A) where
  -- An entry of the array is not one behind it.
  pub element_at-some :
      (xs : List A) (i : ℕ) (x : A) → get_elem? xs i ≡ some x → element_at below behind xs i ≡ x
  unfolding element_at
  element_at-some xs i x e = rw (element_at, e) refl

  pub is_below-Reads :
      (xs : List A) (h : ℕ → A) (i j : ℕ)
      → Reads xs h
      → i < length xs
      → j < length xs
      → is_below below behind xs i j ≡ below (h i) (h j)
  unfolding is_below
  is_below-Reads xs h i j r a b =
      rw (is_below, element_at-some xs i (h i) (r i a), element_at-some xs j (h j) (r j b)) refl

  swap-set :
      (xs : List A) (h : ℕ → A) (i j : ℕ)
      → Reads xs h
      → i < length xs
      → j < length xs
      → swap below behind xs i j ≡ set (set xs i (h j)) j (h i)
  unfolding swap
  swap-set xs h i j r a b =
      rw (swap, element_at-some xs i (h i) (r i a), element_at-some xs j (h j) (r j b)) refl

  pub swap-Reads :
      (xs : List A) (h : ℕ → A) (i j : ℕ)
      → Reads xs h
      → i < length xs
      → j < length xs
      → Reads (swap below behind xs i j) (exchange h i j)
        × (length (swap below behind xs i j) ≡ length xs)
  swap-Reads xs h i j r a b =
      let once : length (set xs i (h j)) ≡ length xs = length-set xs i (h j) in
      let twice : length (set (set xs i (h j)) j (h i)) ≡ length xs =
        length-set (set xs i (h j)) j (h i) ∙ once in
      rw (swap-set xs h i j r a b) (
        (λ k c. elim (ℕ_discrete k j) [
          | yes e ↦ rw e (
              get_elem?-set_same (set xs i (h j)) j (h i) (omega (arith, once))
              ∙ ap some (sym (exchange-right h i j j refl)))
          | no n ↦ get_elem?-set_other (set xs i (h j)) j k (h i) n ∙ elim (ℕ_discrete k i) [
            | yes e ↦ rw e (
                get_elem?-set_same xs i (h j) a
                ∙ ap some (sym (exchange-left h i j i refl (λ z. n (e ∙ z)))))
            | no m ↦
                get_elem?-set_other xs i k (h j) m
                ∙ r k (omega (arith, c, twice))
                ∙ ap some (sym (exchange-other h i j k m n))
          ]
        ]),
        twice,
      )
