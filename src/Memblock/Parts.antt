-- ===== src/Memblock/Parts.antt =====
-- The parts of a region array (mm/memblock.c) below, inside and above a range, as functions on
-- lists. The regions that cross a boundary are split there.
use sandix.Common.{
  ℕ, suc, ◌+◌, ◌-◌, ◌≤◌, ◌<◌, ◌≡◌, inl, inr, none, List, [], ◌∷◌, ◌++◌, arith, ltb, leb,
  if◌then◌else◌, length, Bool-cases, leb→le, leb→lt, ltb→lt, ltb→le,
}
use sandix.Memblock.Types.{Region}
use sandix.Memblock.Cover.{attr_at, attr_at-below, IsOrdered, IsOrdered-mono, sum_sizes}

-- The parts of `r` below and from `a` on.
abbrev pub lower : Region → ℕ → Region
lower r a = record r { size = a - r.base }

abbrev pub upper : Region → ℕ → Region
upper r a = record r { base = a; size = r.size - (a - r.base) }

-- What lies below `a`, and what lies from `a` on.
unfoldable pub below : ℕ → List Region → List Region
below a [] = []
below a (r ∷ rs) =
    if leb (r.base + r.size) a then r ∷ below a rs else if ltb r.base a then lower r a ∷ [] else []

unfoldable pub above : ℕ → List Region → List Region
above a [] = []
above a (r ∷ rs) =
    if leb (r.base + r.size) a then above a rs else if ltb r.base a then upper r a ∷ rs else r ∷ rs

module _ (a : ℕ) (r : Region) (rs : List Region) where
  -- A region ends at `a` or below, crosses `a`, or begins there or above.
  pub parts_cases {ℓ} :
      (P : List Region → List Region → Type ℓ)
      → (r.base + r.size ≤ a → P (r ∷ below a rs) (above a rs))
      → (r.base < a → a < r.base + r.size → P (lower r a ∷ []) (upper r a ∷ rs))
      → (a ≤ r.base → a < r.base + r.size → P [] (r ∷ rs))
      → P (below a (r ∷ rs)) (above a (r ∷ rs))
  unfolding below above
  parts_cases P under cross over = elim (Bool-cases (leb (r.base + r.size) a)) [
    | inl e ↦ rw e (under (leb→le _ _ e))
    | inr e ↦ elim (Bool-cases (ltb r.base a)) [
      | inl c ↦ rw (e, c) (cross (ltb→lt _ _ c) (leb→lt _ _ e))
      | inr c ↦ rw (e, c) (over (ltb→le _ _ c) (leb→lt _ _ e))
    ]
  ]

-- Each address keeps its node and flags on its side of `a`.
pub attr_at-below_part :
    (lo a : ℕ) (rs : List Region) (x : ℕ)
    → IsOrdered lo rs
    → (attr_at (below a rs) x ≡ (if ltb x a then attr_at rs x else none))
      × (attr_at (above a rs) x ≡ (if ltb x a then none else attr_at rs x))
attr_at-below_part lo a [] x o = unfold below above in (ground arith, ground arith)
attr_at-below_part lo a (r ∷ rs) x o =
    let ih = attr_at-below_part (r.base + r.size) a rs x o.3 in
    let rest = attr_at-below (r.base + r.size) rs x o.3 in
    parts_cases a r rs
      (λ bs us.
        (attr_at bs x ≡ (if ltb x a then attr_at (r ∷ rs) x else none))
        × (attr_at us x ≡ (if ltb x a then none else attr_at (r ∷ rs) x)))
      (λ h. (ground (arith, ih.0, rest), ground (arith, ih.1, rest)))
      (λ h k. (ground (arith, rest), ground (arith, rest)))
      λ h k. (ground (arith, rest), ground (arith, rest))

-- The part below `a` may be followed by what is in order from `a` on.
pub below-IsOrdered :
    (lo a : ℕ) (rs ys : List Region)
    → lo ≤ a
    → IsOrdered lo rs
    → IsOrdered a ys
    → IsOrdered lo (below a rs ++ ys)
below-IsOrdered lo a [] ys h o q = unfold below in IsOrdered-mono lo a ys h q
below-IsOrdered lo a (r ∷ rs) ys h o q =
    parts_cases a r rs (λ bs us. IsOrdered lo (bs ++ ys))
      (λ k. (o.0, o.1, o.2, below-IsOrdered (r.base + r.size) a rs ys k o.3 q))
      (λ k l.
        let top : r.base + (a - r.base) ≡ a = omega arith in
        rw top (o.0, omega arith, omega (arith, o.2), q))
      λ k l. IsOrdered-mono lo a ys h q

pub above-IsOrdered : (lo a : ℕ) (rs : List Region) → IsOrdered lo rs → IsOrdered a (above a rs)
above-IsOrdered lo a [] o = unfold above in tt
above-IsOrdered lo a (r ∷ rs) o =
    parts_cases a r rs (λ bs us. IsOrdered a us) (λ k. above-IsOrdered (r.base + r.size) a rs o.3)
      (λ k l.
        let top : a + (r.size - (a - r.base)) ≡ r.base + r.size = omega arith in
        rw top (omega arith, omega arith, o.2, o.3))
      λ k l. (k, o.1, o.2, o.3)

pub above-IsOrdered_lo : (lo a : ℕ) (rs : List Region) → IsOrdered lo rs → IsOrdered lo (above a rs)
above-IsOrdered_lo lo a [] o = unfold above in tt
above-IsOrdered_lo lo a (r ∷ rs) o =
    parts_cases a r rs (λ bs us. IsOrdered lo us)
      (λ k.
        IsOrdered-mono lo (r.base + r.size) (above a rs) (omega (arith, o.0))
          (above-IsOrdered_lo (r.base + r.size) a rs o.3))
      (λ k l.
        let top : a + (r.size - (a - r.base)) ≡ r.base + r.size = omega arith in
        rw top (omega (arith, o.0), omega arith, o.2, o.3))
      λ k l. o

-- A split adds one entry at most, and no byte.
pub parts_size :
    (a : ℕ) (rs : List Region)
    → (length (below a rs) + length (above a rs) ≤ suc (length rs))
      × (length rs ≤ length (below a rs) + length (above a rs))
      × (sum_sizes (below a rs) + sum_sizes (above a rs) ≡ sum_sizes rs)
parts_size a [] = unfold below above in (omega arith, omega arith, omega arith)
parts_size a (r ∷ rs) =
    let ih = parts_size a rs in
    parts_cases a r rs
      (λ bs us.
        (length bs + length us ≤ suc (length (r ∷ rs)))
        × (length (r ∷ rs) ≤ length bs + length us)
        × (sum_sizes bs + sum_sizes us ≡ sum_sizes (r ∷ rs)))
      (λ k. (omega (arith, ih.0), omega (arith, ih.1), omega (arith, ih.2)))
      (λ k l. (omega arith, omega arith, omega arith))
      λ k l. (omega arith, omega arith, omega arith)
