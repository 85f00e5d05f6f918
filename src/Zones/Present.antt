-- ===== src/Zones/Present.antt =====
-- mm/page_alloc.c: the sizes of a zone by the bytes of memory.
use sandix.Common.{
  ℕ, zero, suc, ◌+◌, ◌*◌, ◌≤◌, ◌<◌, ◌≡◌, refl, ap, subst, ◌∙◌, inl, inr, Bool, false, ◌&&◌, ◌||◌,
  List, [], ◌∷◌, arith, leb, ◌==◌, Bool-cases,
}
use sandix.Word.{ullong_max, add64-eq}
use sandix.Memblock.Types.{Region, nr_regions}
use sandix.Memblock.Cut.{max_nr_nodes}
use sandix.Memblock.Cover.{IsOrdered, region_end-eq, IsFilled}
use sandix.Memblock.State.{Memblock}
use sandix.Zones.{mem_pfn_ranges, ZoneLimits, zone_size}
use sandix.Zones.Frames.{
  in_range, held, as_number, frames, zone_start, zone_pages, zone_size-frames,
}
use sandix.Zones.Ranges.{pages, visited, node_ranges, mem_pfn_ranges-all, IsLow, in_order}

-- Whether all bytes of a page frame are in a region, and in one of the regions of a node.
abbrev pub whole_in : ℕ → Region → ℕ → Bool
whole_in nid r n =
    (nid == max_nr_nodes || nid == r.nid)
    && (leb r.base (4096 * n) && leb (4096 * n + 4096) (r.base + r.size))

abbrev pub whole : ℕ → List Region → ℕ → Bool
whole nid [] n = false
whole nid (r ∷ rs) n = whole_in nid r n || whole nid rs n

-- How many of the `k` page frames from `lo` on are memory of a node.
unfoldable pub whole_frames : ℕ → List Region → ℕ → ℕ → ℕ
whole_frames nid rs lo zero = 0
whole_frames nid rs lo (suc k) = as_number (whole nid rs lo) + whole_frames nid rs (lo + 1) k

range-whole :
    (nid n : ℕ) (r : Region)
    → r.base + 4095 ≤ ullong_max
    → r.base + r.size ≤ ullong_max
    → (visited nid r && in_range (pages r) n) ≡ whole_in nid r n
range-whole nid n r low top =
    let start = add64-eq r.base 4095 low in
    let end = region_end-eq r top in ground (arith, start, end)

held-whole :
    (nid lo n : ℕ) (rs : List Region)
    → IsOrdered lo rs
    → IsLow rs
    → held (node_ranges nid rs) n ≡ whole nid rs n
unfolding node_ranges IsLow
held-whole nid lo n [] o low = refl
held-whole nid lo n (r ∷ rs) o low =
    let same = range-whole nid n r (low 0 r refl) o.2 in
    let rest = held-whole nid (r.base + r.size) n rs o.3 (λ i e. low (suc i) e) in
    elim (Bool-cases (visited nid r)) [
      | inl taken ↦ rw taken (
          ap (λ x. x || held (node_ranges nid rs) n)
            (subst (λ v. (v && in_range (pages r) n) ≡ whole_in nid r n) taken same)
          ∙ ap (λ y. whole_in nid r n || y) rest)
      | inr left_out ↦ rw left_out (
          rest
          ∙ ap (λ x. x || whole nid rs n)
              (subst (λ v. (v && in_range (pages r) n) ≡ whole_in nid r n) left_out same))
    ]

frames-whole :
    (nid : ℕ) (rs : List Region) (lo k : ℕ)
    → IsOrdered 0 rs
    → IsLow rs
    → frames (node_ranges nid rs) lo k ≡ whole_frames nid rs lo k
unfolding frames whole_frames
frames-whole nid rs lo zero o low = refl
frames-whole nid rs lo (suc k) o low =
    omega (arith, ap as_number (held-whole nid 0 lo rs o low), frames-whole nid rs (lo + 1) k o low)

-- Where the array `memory` is in use, the sizes of a zone of a node that goes from page frame `a` to `b`
-- are right: it spans the pages between its limits cut to the node, and its present pages are those
-- among them whose bytes are all in a region of the node. No region reaches into the last page of
-- the address space.
pub zone_size-present :
    (nid : ℕ) (m : Memblock) (fuel : ℕ) (z : ZoneLimits) (a b : ℕ)
    → IsFilled m.memory
    → IsLow m.memory.regions
    → nr_regions m.memory < fuel
    → a ≤ b
    → z.low ≤ z.high
    → z.high ≤ ullong_max
    → let size = zone_size z a b (mem_pfn_ranges fuel 0 nid m) in
      (size.spanned_pages ≡ zone_pages z a b)
      × (size.present_pages ≡ whole_frames nid m.memory.regions (zone_start z a) (zone_pages z a b))
zone_size-present nid m fuel z a b f low enough order limits top =
    let ranges = mem_pfn_ranges-all nid m fuel enough in
    let (spanned, present) =
      zone_size-frames z a b order limits top 0 (node_ranges nid m.memory.regions)
        (in_order nid 0 m.memory.regions f.ordered low) in
    rw ranges (
      spanned,
      present ∙ frames-whole nid m.memory.regions (zone_start z a) (zone_pages z a b) f.ordered low,
    )
