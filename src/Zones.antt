-- ===== src/Zones.antt =====
-- mm/page_alloc.c: the sizes of the zones of a node, by the page frames of memory.
pub mod Frames
pub mod Ranges
pub mod Present
mod Tests
use sandix.Common.{
  ℕ, zero, suc, ◌+◌, ◌-◌, ◌<◌, Bool, true, false, ◌&&◌, ◌||◌, Option, none, some, List, [], ◌∷◌,
  min, max, ltb, ◌==◌, if◌then◌else◌,
}
use sandix.Word.{ullong_max, add64, sub64}
use sandix.Memblock.State.{Memblock}
use sandix.Memblock.Find.{clamp}
use sandix.Memblock.Walk.{PfnRange, next_mem_pfn_range}

-- The ranges that for_each_mem_pfn_range visits, with `next` for i + 1.
unfoldable pub mem_pfn_ranges : ℕ → ℕ → ℕ → Memblock → List PfnRange
mem_pfn_ranges zero next nid m = []
mem_pfn_ranges (suc fuel) next nid m =
    let (i, range) = next_mem_pfn_range next nid m in
    elim range [ none ↦ [] | some r ↦ r ∷ mem_pfn_ranges fuel (i + 1) nid m ]

-- The loop of find_min_pfn_for_node.
unfoldable pub min_start : List PfnRange → ℕ → ℕ
min_start [] min_pfn = min_pfn
min_start (r ∷ rs) min_pfn = min_start rs (min min_pfn r.start_pfn)

unfoldable pub find_min_pfn_for_node : List PfnRange → ℕ
find_min_pfn_for_node rs =
    let min_pfn = min_start rs ullong_max in if min_pfn == ullong_max then 0 else min_pfn

-- arch_zone_lowest_possible_pfn and arch_zone_highest_possible_pfn of a zone.
pub record ZoneLimits : Type 0 where
  pub low : ℕ
  pub high : ℕ

-- The number of pages, with the start that is written through zone_start_pfn; it is none where the
-- function returns first.
unfoldable pub zone_spanned_pages_in_node : ZoneLimits → ℕ → ℕ → ℕ × Option ℕ
zone_spanned_pages_in_node z node_start_pfn node_end_pfn =
    if node_start_pfn == 0 && node_end_pfn == 0
    then (0, none)
    else if ltb z.high node_start_pfn || ltb node_end_pfn z.low
    then (0, some z.low)
    else (let zone_end_pfn = min z.high node_end_pfn in
        let zone_start_pfn = max z.low node_start_pfn in
        (sub64 zone_end_pfn zone_start_pfn, some zone_start_pfn))

-- The loop of __absent_pages_in_range.
unfoldable pub absent_loop : ℕ → ℕ → List PfnRange → ℕ → ℕ
absent_loop range_start_pfn range_end_pfn [] nr_absent = nr_absent
absent_loop range_start_pfn range_end_pfn (r ∷ rs) nr_absent =
    let start_pfn = clamp r.start_pfn range_start_pfn range_end_pfn in
    let end_pfn = clamp r.end_pfn range_start_pfn range_end_pfn in
    absent_loop range_start_pfn range_end_pfn rs (sub64 nr_absent (sub64 end_pfn start_pfn))

unfoldable pub absent_pages_in_range : ℕ → ℕ → List PfnRange → ℕ
absent_pages_in_range range_start_pfn range_end_pfn rs =
    absent_loop range_start_pfn range_end_pfn rs (sub64 range_end_pfn range_start_pfn)

unfoldable pub zone_absent_pages_in_node : ZoneLimits → ℕ → ℕ → List PfnRange → ℕ
zone_absent_pages_in_node z node_start_pfn node_end_pfn rs =
    if node_start_pfn == 0 && node_end_pfn == 0
    then 0
    else absent_pages_in_range (clamp node_start_pfn z.low z.high) (clamp node_end_pfn z.low z.high)
        rs

-- The sizes of a zone.
pub record ZoneSize : Type 0 where
  pub zone_start_pfn : ℕ
  pub spanned_pages : ℕ
  pub present_pages : ℕ

-- A round of calculate_node_totalpages.
unfoldable pub zone_size : ZoneLimits → ℕ → ℕ → List PfnRange → ZoneSize
zone_size z node_start_pfn node_end_pfn rs =
    let (size, start) = zone_spanned_pages_in_node z node_start_pfn node_end_pfn in
    record {
      zone_start_pfn = if size == 0 then 0 else elim start [ none ↦ 0 | some pfn ↦ pfn ];
      spanned_pages = size;
      present_pages = sub64 size (zone_absent_pages_in_node z node_start_pfn node_end_pfn rs);
    }

-- The zones, node_spanned_pages and node_present_pages.
pub record NodeSize : Type 0 where
  pub node_zones : List ZoneSize
  pub node_spanned_pages : ℕ
  pub node_present_pages : ℕ

unfoldable pub calculate_node_totalpages : List ZoneLimits → ℕ → ℕ → List PfnRange → NodeSize
calculate_node_totalpages [] node_start_pfn node_end_pfn rs = record {
  node_zones = [];
  node_spanned_pages = 0;
  node_present_pages = 0;
}
calculate_node_totalpages (z ∷ zs) node_start_pfn node_end_pfn rs =
    let size = zone_size z node_start_pfn node_end_pfn rs in
    let rest = calculate_node_totalpages zs node_start_pfn node_end_pfn rs in
    record {
      node_zones = size ∷ rest.node_zones;
      node_spanned_pages = add64 size.spanned_pages rest.node_spanned_pages;
      node_present_pages = add64 size.present_pages rest.node_present_pages;
    }

-- The loop of get_pfn_range_for_nid.
unfoldable pub range_loop : List PfnRange → ℕ → ℕ → ℕ × ℕ
range_loop [] start_pfn end_pfn = (start_pfn, end_pfn)
range_loop (r ∷ rs) start_pfn end_pfn =
    range_loop rs (min start_pfn r.start_pfn) (max end_pfn r.end_pfn)

unfoldable pub get_pfn_range_for_nid : List PfnRange → ℕ × ℕ
get_pfn_range_for_nid rs =
    let (start_pfn, end_pfn) = range_loop rs ullong_max 0 in
    (if start_pfn == ullong_max then 0 else start_pfn, end_pfn)
