-- ===== src/Zones/Ranges.antt =====
-- mm/page_alloc.c: for_each_mem_pfn_range visits the page ranges of memory, in order.
use sandix.Common.{
  ℕ, zero, suc, ◌+◌, ◌-◌, ◌/◌, ◌≤◌, ◌<◌, ◌≡◌, refl, ap, sym, subst, ◌∙◌, inl, inr, Bool, ◌&&◌, ◌||◌,
  Option, none, some, List, [], ◌∷◌, arith, ltb, ◌==◌, if◌then◌else◌, Bool-cases, length, get_elem?,
  drop, drop-length,
}
use sandix.Word.{ullong_max, add64-eq}
use sandix.Memblock.Types.{Region, nr_regions}
use sandix.Memblock.Ops.{region_end}
use sandix.Memblock.Cut.{max_nr_nodes}
use sandix.Memblock.Cover.{IsOrdered, IsOrdered-mono, region_end-eq}
use sandix.Memblock.State.{Memblock}
use sandix.Memblock.Walk.{pfn_up, pfn_down, PfnRange, next_pfn_range, next_mem_pfn_range}
use sandix.Zones.{mem_pfn_ranges}
use sandix.Zones.Frames.{InOrder, done, next}

-- The whole page frames of a region, and whether the walk of a node visits them.
abbrev pub pages : Region → PfnRange
pages r = record { start_pfn = pfn_up r.base; end_pfn = pfn_down (region_end r); nid = r.nid }

abbrev pub visited : ℕ → Region → Bool
visited nid r =
    ltb (pfn_up r.base) (pfn_down (region_end r)) && (nid == max_nr_nodes || nid == r.nid)

-- The ranges of the regions of a node.
unfoldable pub node_ranges : ℕ → List Region → List PfnRange
node_ranges nid [] = []
node_ranges nid (r ∷ rs) =
    let rest = node_ranges nid rs in if visited nid r then pages r ∷ rest else rest

entry_at :
    (rs : List Region) (i : ℕ)
    → i < length rs
    → (r : Region) × (get_elem? rs i ≡ some r) × (drop i rs ≡ r ∷ drop (suc i) rs)
entry_at [] i h = absurd (omega arith)
entry_at (r ∷ rs) zero h = (r, refl, refl)
entry_at (r ∷ rs) (suc i) h = entry_at rs i (omega arith)

module _ (nid : ℕ) (m : Memblock) where
  abbrev regions : List Region
  regions = m.memory.regions

  -- What follows a step of the walk.
  abbrev follow : ℕ → ℕ × Option PfnRange → List PfnRange
  follow fuel (i, range) = elim range [ none ↦ [] | some r ↦ r ∷ mem_pfn_ranges fuel (i + 1) nid m ]

  visits :
      (k i fuel : ℕ)
      → i + k ≡ length regions
      → k ≤ fuel
      → follow fuel (next_pfn_range k i nid regions) ≡ node_ranges nid (drop i regions)
  unfolding next_pfn_range node_ranges mem_pfn_ranges next_mem_pfn_range
  visits zero i fuel h enough =
      let last : i ≡ length regions = omega (arith, h) in
      let nothing : drop i regions ≡ [] = ap (λ n. drop n regions) last ∙ drop-length regions in
      rw nothing refl
  visits (suc k) i zero h enough = absurd (omega arith)
  visits (suc k) i (suc fuel) h enough =
      let (r, at, rest) = entry_at regions i (omega (arith, h)) in
      let left : length regions - (i + 1) ≡ k = omega (arith, h) in
      let one : i + 1 ≡ suc i = omega arith in
      elim (Bool-cases (visited nid r)) [
        | inl taken ↦
            let step : next_pfn_range (suc k) i nid regions ≡ (i, some (pages r)) =
              rw (next_pfn_range, at, taken) refl in
            let found : node_ranges nid (r ∷ drop (suc i) regions)
                ≡ pages r ∷ node_ranges nid (drop (suc i) regions) =
              rw (node_ranges, taken) refl in
            ap (follow (suc fuel)) step
            ∙ ap (λ n. pages r ∷ follow fuel (next_pfn_range n (i + 1) nid regions)) left
            ∙ ap (◌∷◌ (pages r)) (visits k (i + 1) fuel (omega (arith, h)) (omega (arith, enough)))
            ∙ ap (λ n. pages r ∷ node_ranges nid (drop n regions)) one
            ∙ sym found
            ∙ ap (node_ranges nid) (sym rest)
        | inr left_out ↦
            let step : next_pfn_range (suc k) i nid regions ≡ next_pfn_range k (i + 1) nid regions =
              rw (next_pfn_range, at, left_out) refl in
            let passed : node_ranges nid (r ∷ drop (suc i) regions)
                ≡ node_ranges nid (drop (suc i) regions) =
              rw (node_ranges, left_out) refl in
            ap (follow (suc fuel)) step
            ∙ visits k (i + 1) (suc fuel) (omega (arith, h)) (omega (arith, enough))
            ∙ ap (λ n. node_ranges nid (drop n regions)) one
            ∙ sym passed
            ∙ ap (node_ranges nid) (sym rest)
      ]

  -- The walk visits every range, with one round more than there are entries.
  pub mem_pfn_ranges-all :
      (fuel : ℕ)
      → nr_regions m.memory < fuel
      → mem_pfn_ranges fuel 0 nid m ≡ node_ranges nid m.memory.regions
  unfolding mem_pfn_ranges next_mem_pfn_range
  mem_pfn_ranges-all zero h = absurd (omega arith)
  mem_pfn_ranges-all (suc fuel) h =
      let all : length regions - 0 ≡ length regions = omega arith in
      ap (λ n. follow fuel (next_pfn_range n 0 nid regions)) all
      ∙ visits (length regions) 0 fuel (omega arith) (omega (arith, h))

-- No region reaches into the last page of the address space.
unfoldable pub IsLow : List Region → Type 0
IsLow rs = (i : ℕ) (r : Region) → get_elem? rs i ≡ some r → r.base + 4095 ≤ ullong_max

pub in_order :
    (nid lo : ℕ) (rs : List Region)
    → IsOrdered lo rs
    → IsLow rs
    → InOrder (lo / 4096) (node_ranges nid rs)
unfolding node_ranges IsLow
in_order nid lo [] o low = done
in_order nid lo (r ∷ rs) o low =
    let end = region_end-eq r o.2 in
    let start = add64-eq r.base 4095 (low 0 r refl) in
    let rest = in_order nid (r.base + r.size) rs o.3 (λ i e. low (suc i) e) in
    elim (Bool-cases (visited nid r)) [
      | inl taken ↦ rw taken (
          next (omega (arith, start, o.0)) (ground (arith, taken)) (omega (arith, end, o.2))
            (subst (λ n. InOrder (n / 4096) (node_ranges nid rs)) (sym end) rest))
      | inr left_out ↦ rw left_out (
          in_order nid lo rs (IsOrdered-mono lo (r.base + r.size) rs (omega (arith, o.0)) o.3)
            (λ i e. low (suc i) e))
    ]
