-- ===== src/Memblock/Merge.antt =====
-- memblock_merge_regions (mm/memblock.c): what the merged array stands for.
use sandix.Common.{
  ℕ, ◌+◌, ◌≤◌, ◌≡◌, ◌≢◌, ◌⊎◌, refl, ap, ◌∙◌, ◌||◌, true, false, inl, inr, some, if◌then◌else◌, List,
  [], ◌∷◌, arith, length, Bool-cases,
}
use sandix.Word.{ullong_max, add64-eq}
use sandix.Memblock.Types.{Region, ok}
use sandix.Memblock.Ops.{keeps_apart, merge_from}
use sandix.Memblock.Cover.{holds, covers, attr_at, sum_sizes, IsOrdered, region_end-eq}

-- Two regions that lie one behind the other with a gap, or differ in their node or flags.
abbrev pub AreApart : Region → Region → Type 0
AreApart r s = (r.base + r.size ≢ s.base) ⊎ (r.nid ≢ s.nid) ⊎ (r.flags ≢ s.flags)

-- No two neighbours touch and agree in node and flags.
abbrev pub IsMinimal : List Region → Type 0
IsMinimal [] = Unit {0}
IsMinimal (r ∷ []) = Unit {0}
IsMinimal (r ∷ s ∷ rs) = AreApart r s × IsMinimal (s ∷ rs)

-- `ms` is the array `this ∷ rest` with its compatible neighbours merged.
pub record Merges (lo : ℕ) (this : Region) (rest : List Region) : Type 0 where
  pub first : Region
  pub others : List Region
  pub runs : merge_from this rest ≡ ok (first ∷ others)
  pub base : first.base ≡ this.base
  pub nid : first.nid ≡ this.nid
  pub flags : first.flags ≡ this.flags
  pub ordered : IsOrdered lo (first ∷ others)
  pub minimal : IsMinimal (first ∷ others)
  pub total : sum_sizes (first ∷ others) ≡ sum_sizes (this ∷ rest)
  pub shorter : length others ≤ length rest
  pub same : (a : ℕ) → covers (first ∷ others) a ≡ covers (this ∷ rest) a
  pub attrs : (a : ℕ) → attr_at (first ∷ others) a ≡ attr_at (this ∷ rest) a

keeps_apart-same :
    (this next : Region)
    → keeps_apart this next ≡ false
    → (this.nid ≡ next.nid) × (this.flags ≡ next.flags)
unfolding keeps_apart
keeps_apart-same this next h = (ground arith, ground arith)

module _ (this next : Region) (rest : List Region) (top : this.base + this.size ≤ ullong_max) where
  -- Only regions that touch are merged.
  keeps_apart-touch : keeps_apart this next ≡ false → this.base + this.size ≡ next.base
  unfolding keeps_apart
  keeps_apart-touch h = ground (arith, region_end-eq this top)

  merge_from-apart :
      {ms : List Region}
      → keeps_apart this next ≡ true
      → this.base + this.size ≤ next.base
      → merge_from next rest ≡ ok ms
      → merge_from this (next ∷ rest) ≡ ok (this ∷ ms)
  unfolding merge_from
  merge_from-apart h k e = ground (arith, region_end-eq this top)

  merge_from-joined :
      this.size + next.size ≤ ullong_max
      → keeps_apart this next ≡ false
      → merge_from this (next ∷ rest)
        ≡ merge_from (record this { size = this.size + next.size }) rest
  unfolding merge_from
  merge_from-joined room h = ground (arith, add64-eq this.size next.size room)

keeps_apart-AreApart :
    (this next first : Region)
    → this.base + this.size ≤ ullong_max
    → first.base ≡ next.base
    → first.nid ≡ next.nid
    → first.flags ≡ next.flags
    → keeps_apart this next ≡ true
    → AreApart this first
unfolding keeps_apart
keeps_apart-AreApart this next first top b n f h = ground (arith, region_end-eq this top)

abbrev joint : Region → Region → Region
joint this next = record this { size = this.size + next.size }

module _ (lo : ℕ) (this next : Region) (rest : List Region)
    (o : IsOrdered lo (this ∷ next ∷ rest)) where
  apart_Merges :
      keeps_apart this next ≡ true
      → Merges (this.base + this.size) next rest
      → Merges lo this (next ∷ rest)
  apart_Merges h m = record {
    first = this;
    others = m.first ∷ m.others;
    runs = merge_from-apart this next rest o.2 h o.3.0 m.runs;
    base = refl;
    nid = refl;
    flags = refl;
    ordered = (o.0, o.1, o.2, m.ordered);
    minimal = (keeps_apart-AreApart this next m.first o.2 m.base m.nid m.flags h, m.minimal);
    total = omega (arith, m.total);
    shorter = omega (arith, m.shorter);
    same = λ a. ap (λ c. holds this a || c) (m.same a);
    attrs = λ a. ap (λ c. if holds this a then some (this.nid, this.flags) else c) (m.attrs a);
  }

  joint-IsOrdered : keeps_apart this next ≡ false → IsOrdered lo (joint this next ∷ rest)
  joint-IsOrdered h =
      let touch = keeps_apart-touch this next rest o.2 h in
      let top : this.base + (this.size + next.size) ≡ next.base + next.size = omega arith in
      rw top (o.0, omega arith, o.3.2, o.3.3)

  joined_Merges :
      keeps_apart this next ≡ false
      → Merges lo (joint this next) rest
      → Merges lo this (next ∷ rest)
  joined_Merges h m =
      let touch = keeps_apart-touch this next rest o.2 h in
      let alike = keeps_apart-same this next h in
      record {
        first = m.first;
        others = m.others;
        runs = merge_from-joined this next rest o.2 (omega arith) h ∙ m.runs;
        base = m.base;
        nid = m.nid;
        flags = m.flags;
        ordered = m.ordered;
        minimal = m.minimal;
        total = omega (arith, m.total);
        shorter = omega (arith, m.shorter);
        same = λ a. m.same a ∙ ground arith;
        attrs = λ a. m.attrs a ∙ ground arith;
      }

-- On an array in order the loop of memblock_merge_regions ends and hits no BUG_ON. It leaves an
-- array in order in which no two neighbours touch and have the same node and
-- flags, with no more entries, the same number of bytes, and at
-- each address the node and the flags that were there.
pub merge_from-Merges :
    (lo : ℕ) (this : Region) (rest : List Region) → IsOrdered lo (this ∷ rest) → Merges lo this rest
merge_from-Merges lo this [] o = record {
  first = this;
  others = [];
  runs = unfold merge_from in refl;
  base = refl;
  nid = refl;
  flags = refl;
  ordered = o;
  minimal = tt;
  total = refl;
  shorter = omega arith;
  same = λ a. refl;
  attrs = λ a. refl;
}
merge_from-Merges lo this (next ∷ rest) o = elim (Bool-cases (keeps_apart this next)) [
  | inl apart ↦
      apart_Merges lo this next rest o apart
        (merge_from-Merges (this.base + this.size) next rest o.3)
  | inr joined ↦
      joined_Merges lo this next rest o joined
        (merge_from-Merges lo (joint this next) rest (joint-IsOrdered lo this next rest o joined))
]
