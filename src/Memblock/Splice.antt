-- ===== src/Memblock/Splice.antt =====
-- The array that one round of memblock_add_range (mm/memblock.c) leaves, as a function on lists.
use sandix.Common.{
  ℕ, ◌+◌, ◌-◌, ◌≤◌, ◌<◌, ◌≡◌, true, false, ◌||◌, none, some, List, [], ◌∷◌, ◌++◌, arith, min, ltb,
  leb, if◌then◌else◌, length, length-append, Bool-cases, inl, inr, leb→le, leb→lt, ltb→lt,
}
use mathlib.Core.List.{append-nil}
use sandix.Word.{ullong_max}
use sandix.Memblock.Types.{Region}
use sandix.Memblock.Ops.{NewRange}
use sandix.Memblock.Cover.{
  within, covers, covers-append, sum_sizes, sum_sizes-append, IsOrdered, attr_at, attr_at-append,
  attr_at-below, or_else,
}

-- The new region over [base, to), if there is any.
unfoldable pub gap : NewRange → ℕ → ℕ → List Region
gap n base to =
    if ltb base to
    then record { base = base; size = to - base; flags = n.flags; nid = n.nid } ∷ []
    else []

unfoldable pub splice : NewRange → ℕ → List Region → List Region
splice n base [] = gap n base n.end
splice n base (r ∷ rs) = elim (leb n.end r.base) [
  | true ↦ gap n base n.end ++ r ∷ rs
  | false ↦ elim (leb (r.base + r.size) base) [
    | true ↦ r ∷ splice n base rs
    | false ↦ gap n base r.base ++ r ∷ splice n (min (r.base + r.size) n.end) rs
  ]
]

pub covers-gap : (n : NewRange) (base to a : ℕ) → covers (gap n base to) a ≡ within base to a
unfolding gap
covers-gap n base to a = ground arith

module _ (n : NewRange) (base : ℕ) (r : Region) (rs : List Region) where
  -- The three ways of a round at an entry: it ends, passes by, or fills the part below the entry.
  pub splice-end : leb n.end r.base ≡ true → splice n base (r ∷ rs) ≡ gap n base n.end ++ r ∷ rs
  unfolding splice
  splice-end h = ground arith

  pub splice-pass :
      leb n.end r.base ≡ false
      → leb (r.base + r.size) base ≡ true
      → splice n base (r ∷ rs) ≡ r ∷ splice n base rs
  unfolding splice
  splice-pass h k = ground arith

  pub splice-fill :
      leb n.end r.base ≡ false
      → leb (r.base + r.size) base ≡ false
      → splice n base (r ∷ rs) ≡ gap n base r.base ++ r ∷ splice n (min (r.base + r.size) n.end) rs
  unfolding splice
  splice-fill h k = ground arith

  pub splice_cases {ℓ} :
      (P : List Region → Type ℓ)
      → (n.end ≤ r.base → P (gap n base n.end ++ r ∷ rs))
      → (r.base < n.end → r.base + r.size ≤ base → P (r ∷ splice n base rs))
      → (r.base < n.end
          → base < r.base + r.size
          → P (gap n base r.base ++ r ∷ splice n (min (r.base + r.size) n.end) rs))
      → P (splice n base (r ∷ rs))
  splice_cases P stop skip fill = elim (Bool-cases (leb n.end r.base)) [
    | inl e ↦ rw (splice-end e) (stop (leb→le _ _ e))
    | inr e ↦ elim (Bool-cases (leb (r.base + r.size) base)) [
      | inl k ↦ rw (splice-pass e k) (skip (leb→lt _ _ e) (leb→le _ _ k))
      | inr k ↦ rw (splice-fill e k) (fill (leb→lt _ _ e) (leb→lt _ _ k))
    ]
  ]

-- Exactly the new range is added to what the array covers.
pub covers-splice :
    (n : NewRange) (base : ℕ) (rs : List Region) (a : ℕ)
    → covers (splice n base rs) a ≡ (covers rs a || within base n.end a)
covers-splice n base [] a = unfold splice in covers-gap n base n.end a
covers-splice n base (r ∷ rs) a =
    splice_cases n base r rs (λ ss. covers ss a ≡ (covers (r ∷ rs) a || within base n.end a))
      (λ h. ground (arith, covers-append (gap n base n.end) (r ∷ rs) a, covers-gap n base n.end a))
      (λ h k. ground (arith, covers-splice n base rs a))
      λ h k.
        let next : ℕ = min (r.base + r.size) n.end in
        ground (
          arith,
          covers-append (gap n base r.base) (r ∷ splice n next rs) a,
          covers-gap n base r.base a,
          covers-splice n next rs a,
        )

gap-IsOrdered :
    (n : NewRange) (lo base to : ℕ) (rs : List Region)
    → to ≤ ullong_max
    → (base < to → lo ≤ base)
    → (base < to → IsOrdered to rs)
    → IsOrdered lo rs
    → IsOrdered lo (gap n base to ++ rs)
unfolding gap
gap-IsOrdered n lo base to rs e h k o = elim (Bool-cases (ltb base to)) [
  | inl p ↦
      let q = ltb→lt base to p in
      let top : base + (to - base) ≡ to = omega arith in rw (p, top) (h q, omega arith, e, k q)
  | inr p ↦ rw p o
]

-- The order survives: the new regions lie in the gaps.
pub splice-IsOrdered :
    (n : NewRange) (lo base : ℕ) (rs : List Region)
    → n.end ≤ ullong_max
    → min lo n.end ≤ base
    → IsOrdered lo rs
    → IsOrdered lo (splice n base rs)
splice-IsOrdered n lo base [] e h o =
    unfold splice in
    rw append-nil at (gap-IsOrdered n lo base n.end [] e (λ p. omega arith) (λ p. tt) tt)
splice-IsOrdered n lo base (r ∷ rs) e h o =
    splice_cases n base r rs (IsOrdered lo)
      (λ p. gap-IsOrdered n lo base n.end (r ∷ rs) e (λ q. omega arith) (λ q. (p, o.1, o.2, o.3)) o)
      (λ p q. (o.0, o.1, o.2, splice-IsOrdered n (r.base + r.size) base rs e (omega arith) o.3))
      λ p q.
        let next : ℕ = min (r.base + r.size) n.end in
        let rest = splice-IsOrdered n (r.base + r.size) next rs e (omega arith) o.3 in
        gap-IsOrdered n lo base r.base (r ∷ splice n next rs) (omega arith) (λ s. omega arith)
          (λ s. (omega arith, o.1, o.2, rest)) (o.0, o.1, o.2, rest)

-- No region is lost, and none shrinks.
pub splice_grows :
    (n : NewRange) (base : ℕ) (rs : List Region)
    → (length rs ≤ length (splice n base rs)) × (sum_sizes rs ≤ sum_sizes (splice n base rs))
splice_grows n base [] = (omega arith, omega arith)
splice_grows n base (r ∷ rs) =
    splice_cases n base r rs
      (λ ss. (length (r ∷ rs) ≤ length ss) × (sum_sizes (r ∷ rs) ≤ sum_sizes ss))
      (λ h. measure (gap n base n.end) (r ∷ rs))
      (λ h k. let ih = splice_grows n base rs in (omega (arith, ih.0), omega (arith, ih.1)))
      λ h k.
        let next : ℕ = min (r.base + r.size) n.end in
        let ih = splice_grows n next rs in
        let m = measure (gap n base r.base) (r ∷ splice n next rs) in
        (omega (arith, ih.0, m.0), omega (arith, ih.1, m.1))
  where
    measure :
        (gs ss : List Region)
        → (length ss ≤ length (gs ++ ss)) × (sum_sizes ss ≤ sum_sizes (gs ++ ss))
    measure gs ss = (omega (arith, length-append gs ss), omega (arith, sum_sizes-append gs ss))

attr_at-gap :
    (n : NewRange) (base to a : ℕ)
    → attr_at (gap n base to) a ≡ (if within base to a then some (n.nid, n.flags) else none)
unfolding gap
attr_at-gap n base to a = ground arith

-- What was covered keeps its node and flags; the rest of the new range gets the new ones.
pub attr_at-splice :
    (n : NewRange) (lo base : ℕ) (rs : List Region) (a : ℕ)
    → IsOrdered lo rs
    → attr_at (splice n base rs) a
      ≡ or_else (attr_at rs a) (if within base n.end a then some (n.nid, n.flags) else none)
attr_at-splice n lo base [] a o = unfold splice in attr_at-gap n base n.end a
attr_at-splice n lo base (r ∷ rs) a o =
    splice_cases n base r rs
      (λ ss.
        attr_at ss a
        ≡ or_else (attr_at (r ∷ rs) a)
            (if within base n.end a then some (n.nid, n.flags) else none))
      (λ h. ground (
        arith,
        attr_at-append (gap n base n.end) (r ∷ rs) a,
        attr_at-gap n base n.end a,
        attr_at-below n.end (r ∷ rs) a (h, o.1, o.2, o.3),
      ))
      (λ h k. ground (arith, attr_at-splice n (r.base + r.size) base rs a o.3))
      λ h k.
        let next : ℕ = min (r.base + r.size) n.end in
        ground (
          arith,
          attr_at-append (gap n base r.base) (r ∷ splice n next rs) a,
          attr_at-gap n base r.base a,
          attr_at-below (r.base + r.size) rs a o.3,
          attr_at-splice n (r.base + r.size) next rs a o.3,
        )
