-- ===== src/E820/Overlap.antt =====
-- sanitize_e820_map (arch/x86/kernel/e820.c): the indices that the overlap list holds.
use sandix.Common.{
  ℕ, ◌+◌, ◌≤◌, ◌≡◌, refl, sym, ap, ◌∙◌, inl, inr, Bool, List, [], ◌∷◌, ◌++◌, arith, ltb, ◌==◌, max,
  get_elem?, if◌then◌else◌, Bool-cases,
}
use sandix.Sort.Keeps.{bit, count}
use sandix.E820.{E820Entry, type_of, last_of, drop_last, replace, overlap_type}
use sandix.E820.Points.{covering, spans, From, From-all, From-next, From-head}

pub count-snoc :
    {A : Type 0} (f : A → Bool) (xs : List A) (x : A)
    → count f (xs ++ x ∷ []) ≡ count f xs + bit (f x)
count-snoc f [] x = omega arith
count-snoc f (y ∷ ys) x = omega (arith, count-snoc f ys x)

module _ (i l : ℕ) (g : ℕ → Bool) where
  replace-absent :
      (xs : List ℕ) → count (λ x. x == i) xs ≡ 0 → count g (replace i l xs) ≡ count g xs
  replace-absent [] h = refl
  replace-absent (x ∷ xs) h = elim (Bool-cases (x == i)) [
    | inl e ↦ absurd (ground (arith, h))
    | inr e ↦ rw e (omega (arith, replace-absent xs (ground (arith, h))))
  ]

  replace-count :
      (xs : List ℕ)
      → count (λ x. x == i) xs ≡ 1
      → count g (replace i l xs) + bit (g i) ≡ count g xs + bit (g l)
  replace-count [] h = absurd (ground arith)
  replace-count (x ∷ xs) h = elim (Bool-cases (x == i)) [
    | inl e ↦
        let rest = replace-absent xs (ground (arith, h)) in
        let same : g x ≡ g i = ap g (ground (arith, e)) in rw (e, same) (omega (arith, rest))
    | inr e ↦ rw e (omega (arith, replace-count xs (ground (arith, h))))
  ]

replace-last :
    (i l d x : ℕ) (xs : List ℕ)
    → last_of d (x ∷ xs) ≡ l
    → (e : ℕ) → last_of e (replace i l (x ∷ xs)) ≡ l
replace-last i l d x [] h e = ground arith
replace-last i l d x (y ∷ ys) h e = replace-last i l x y ys h (if x == i then l else x)

drop_last-count :
    (g : ℕ → Bool) (d x : ℕ) (xs : List ℕ)
    → count g (drop_last (x ∷ xs)) + bit (g (last_of d (x ∷ xs))) ≡ count g (x ∷ xs)
drop_last-count g d x [] = omega arith
drop_last-count g d x (y ∷ ys) = omega (arith, drop_last-count g x y ys)

-- An index that is once in the list is taken from it.
pub removed-count :
    (g : ℕ → Bool) (i : ℕ) (xs : List ℕ)
    → count (λ x. x == i) xs ≡ 1
    → count g (drop_last (replace i (last_of i xs) xs)) + bit (g i) ≡ count g xs
removed-count g i [] h = absurd (ground arith)
removed-count g i (x ∷ xs) h =
    let l = last_of i (x ∷ xs) in
    let swapped = replace-count i l g (x ∷ xs) h in
    let dropped = drop_last-count g i (if x == i then l else x) (replace i l xs) in
    let same = ap (λ y. bit (g y)) (replace-last i l i x xs refl i) in
    omega (arith, swapped, dropped, same)

-- The largest type of the entries that hold `x`, or 0.
abbrev pub max_type : List E820Entry → ℕ → ℕ
max_type [] x = 0
max_type (e ∷ es) x = max (if spans e x then e.type else 0) (max_type es x)

module _ (biosmap : List E820Entry) where
  -- The entry has a type above `t`.
  abbrev above : ℕ → ℕ → Bool
  above t i = ltb t (type_of (get_elem? biosmap i))

  le-overlap_type : (t : ℕ) (is : List ℕ) → count (above t) is ≡ 0 → overlap_type biosmap is ≤ t
  unfolding overlap_type
  le-overlap_type t [] h = omega arith
  le-overlap_type t (i ∷ is) h =
      let rest = le-overlap_type t is (omega (arith, h)) in ground (arith, rest, h)

  overlap_type-le : (t : ℕ) (is : List ℕ) → overlap_type biosmap is ≤ t → count (above t) is ≡ 0
  unfolding overlap_type
  overlap_type-le t [] h = refl
  overlap_type-le t (i ∷ is) h =
      let rest = overlap_type-le t is (omega (arith, h)) in ground (arith, rest, h)

  le-max_type :
      (t x i : ℕ) (es : List E820Entry)
      → From biosmap i es
      → covering (above t) x i es ≡ 0
      → max_type es x ≤ t
  le-max_type t x i [] from h = omega arith
  le-max_type t x i (e ∷ es) from h =
      let rest = le-max_type t x (i + 1) es (From-next biosmap i e es from) (omega (arith, h)) in
      let at = ap type_of (From-head biosmap i e es from) in
      elim (Bool-cases (spans e x)) [
        | inl on ↦ rw on (ground (arith, rest, h, at))
        | inr off ↦ rw off (omega (arith, rest))
      ]

  max_type-le :
      (t x i : ℕ) (es : List E820Entry)
      → From biosmap i es
      → max_type es x ≤ t
      → covering (above t) x i es ≡ 0
  max_type-le t x i [] from h = refl
  max_type-le t x i (e ∷ es) from h =
      let rest = max_type-le t x (i + 1) es (From-next biosmap i e es from) (omega (arith, h)) in
      let at = ap type_of (From-head biosmap i e es from) in
      elim (Bool-cases (spans e x)) [
        | inl on ↦ rw on (ground (arith, rest, rw on at h, at))
        | inr off ↦ rw off (omega (arith, rest))
      ]

  -- A list with the entries that hold `x` has their largest type.
  pub overlap_type-max_type :
      (x : ℕ) (is : List ℕ)
      → ((g : ℕ → Bool) → count g is ≡ covering g x 0 biosmap)
      → overlap_type biosmap is ≡ max_type biosmap x
  overlap_type-max_type x is same =
      let from = From-all biosmap in
      let t = max_type biosmap x in
      let u = overlap_type biosmap is in
      let low =
        le-overlap_type t is (same (above t) ∙ max_type-le t x 0 biosmap from (omega arith)) in
      let high =
        le-max_type u x 0 biosmap from
          (sym (same (above u)) ∙ overlap_type-le u is (omega arith)) in
      omega (arith, low, high)
