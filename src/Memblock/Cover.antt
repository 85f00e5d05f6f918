-- ===== src/Memblock/Cover.antt =====
-- The addresses that a region array of mm/memblock.c stands for, and when the array is in order.
use sandix.Common.{
  ℕ, ◌+◌, ◌≤◌, ◌<◌, ◌≡◌, refl, ◌⊎◌, Bool, false, Option, none, some, if◌then◌else◌, ◌&&◌, ◌||◌,
  List, [], ◌∷◌, ◌++◌, arith, ltb, leb,
}
use sandix.Word.{ullong_max, add64-eq}
use sandix.Memblock.Types.{Region, MemblockType, nr_regions}
use sandix.Memblock.Ops.{region_end}

-- `a` lies in [lo, hi).
abbrev pub within : ℕ → ℕ → ℕ → Bool
within lo hi a = leb lo a && ltb a hi

abbrev pub holds : Region → ℕ → Bool
holds r a = within r.base (r.base + r.size) a

abbrev pub covers : List Region → ℕ → Bool
covers [] a = false
covers (r ∷ rs) a = holds r a || covers rs a

abbrev pub sum_sizes : List Region → ℕ
sum_sizes [] = 0
sum_sizes (r ∷ rs) = r.size + sum_sizes rs

-- The node and the flags of the first region that holds `a`.
abbrev pub attr_at : List Region → ℕ → Option (ℕ × ℕ)
attr_at [] a = none
attr_at (r ∷ rs) a = if holds r a then some (r.nid, r.flags) else attr_at rs a

abbrev pub or_else {ℓ} : {A : Type ℓ} → Option A → Option A → Option A
or_else none y = y
or_else (some x) y = some x

pub attr_at-append :
    (rs ss : List Region) (a : ℕ) → attr_at (rs ++ ss) a ≡ or_else (attr_at rs a) (attr_at ss a)
attr_at-append [] ss a = refl
attr_at-append (r ∷ rs) ss a = ground (arith, attr_at-append rs ss a)

pub sum_sizes-append : (rs ss : List Region) → sum_sizes (rs ++ ss) ≡ sum_sizes rs + sum_sizes ss
sum_sizes-append [] ss = omega arith
sum_sizes-append (r ∷ rs) ss = omega (arith, sum_sizes-append rs ss)

-- The regions are not empty, lie at `lo` or above, one behind the other, and end in the address
-- space.
abbrev pub IsOrdered : ℕ → List Region → Type 0
IsOrdered lo [] = Unit {0}
IsOrdered lo (r ∷ rs) =
    (lo ≤ r.base) × (0 < r.size) × (r.base + r.size ≤ ullong_max) × IsOrdered (r.base + r.size) rs

pub covers-append :
    (rs ss : List Region) (a : ℕ) → covers (rs ++ ss) a ≡ (covers rs a || covers ss a)
covers-append [] ss a = refl
covers-append (r ∷ rs) ss a = ground (arith, covers-append rs ss a)

pub IsOrdered-mono : (lo hi : ℕ) (rs : List Region) → lo ≤ hi → IsOrdered hi rs → IsOrdered lo rs
IsOrdered-mono lo hi [] h o = tt
IsOrdered-mono lo hi (r ∷ rs) h o = (omega arith, o.1, o.2, o.3)

-- What lies below an ordered array is not covered.
pub IsOrdered-below :
    (lo : ℕ) (rs : List Region) (a : ℕ) → IsOrdered lo rs → a < lo → covers rs a ≡ false
IsOrdered-below lo [] a o h = refl
IsOrdered-below lo (r ∷ rs) a o h = ground (arith, IsOrdered-below (r.base + r.size) rs a o.3)

pub attr_at-below :
    (lo : ℕ) (rs : List Region) (a : ℕ) → IsOrdered lo rs → a < lo → attr_at rs a ≡ none
attr_at-below lo [] a o h = refl
attr_at-below lo (r ∷ rs) a o h = ground (arith, attr_at-below (r.base + r.size) rs a o.3)

-- Disjoint regions in the address space have no more bytes than it.
pub IsOrdered-sum :
    (lo : ℕ) (rs : List Region) → lo ≤ ullong_max → IsOrdered lo rs → lo + sum_sizes rs ≤ ullong_max
IsOrdered-sum lo [] h o = omega arith
IsOrdered-sum lo (r ∷ rs) h o = omega (arith, IsOrdered-sum (r.base + r.size) rs o.2 o.3)

pub region_end-eq : (r : Region) → r.base + r.size ≤ ullong_max → region_end r ≡ r.base + r.size
region_end-eq r h = add64-eq r.base r.size h

-- An array in use: no region yet, which is one empty entry, or regions in order. It fits its
-- storage, and its total is that of its regions.
abbrev pub IsVacant : MemblockType → Type 0
IsVacant t = (r : Region) × (t.regions ≡ r ∷ []) × (r.base ≡ 0) × (r.size ≡ 0) × (t.total_size ≡ 0)

pub record IsFilled (t : MemblockType) : Type 0 where
  pub occupied : 0 < nr_regions t
  pub ordered : IsOrdered 0 t.regions
  pub total : t.total_size ≡ sum_sizes t.regions

pub record IsValid (t : MemblockType) : Type 0 where
  pub shape : IsVacant t ⊎ IsFilled t
  pub roomy : 0 < t.max
  pub bounded : nr_regions t ≤ t.max
