-- ===== src/Zones/Tests.antt =====
-- mm/page_alloc.c: runs, and the theorem at a concrete memory.
use sandix.Common.{zero, suc, ◌+◌, ◌≡◌, refl, ap, false, [], ◌∷◌, arith}
use sandix.Word.{ullong_max, add64, sub64}
use sandix.Memblock.Types.{Region, MemblockType}
use sandix.Memblock.State.{Memblock}
use sandix.Memblock.Cover.{IsFilled}
use sandix.Memblock.Walk.{next_pfn_range, next_mem_pfn_range}
use sandix.Zones.{
  mem_pfn_ranges, min_start, find_min_pfn_for_node, ZoneLimits, zone_spanned_pages_in_node,
  absent_loop, absent_pages_in_range, zone_absent_pages_in_node, zone_size,
  calculate_node_totalpages, range_loop, get_pfn_range_for_nid,
}
use sandix.Zones.Frames.{zone_start, zone_pages}
use sandix.Zones.Ranges.{IsLow}
use sandix.Zones.Present.{whole_frames, zone_size-present}

-- 639 KB below the hole for devices, and 3 MB above it.
abbrev low_memory : Region
low_memory = record { base = 0; size = 0x9_fc00; nid = 0; flags = 0 }

abbrev high_memory : Region
high_memory = record { base = 0x10_0000; size = 0x30_0000; nid = 0; flags = 0 }

abbrev memory : MemblockType
memory = record {
  max = 128;
  total_size = 0x9_fc00 + 0x30_0000;
  regions = low_memory ∷ high_memory ∷ [];
}

abbrev small : Memblock
small = record {
  memory = memory;
  reserved = memory;
  current_limit = ullong_max;
  is_bottom_up = false;
}

-- A zone of the first 512 pages, and the rest.
abbrev first_zone : ZoneLimits
first_zone = record { low = 0; high = 512 }

abbrev second_zone : ZoneLimits
second_zone = record { low = 512; high = 1024 }

-- The last page of the low memory is not whole.
zones_run :
    let rs = mem_pfn_ranges 3 0 0 small in
    let node = calculate_node_totalpages (first_zone ∷ second_zone ∷ []) 0 1024 rs in
    (node.node_spanned_pages ≡ 1024)
    × (node.node_present_pages ≡ 159 + 768)
    × (get_pfn_range_for_nid rs ≡ (0, 1024))
    × (find_min_pfn_for_node rs ≡ 0)
unfolding mem_pfn_ranges next_mem_pfn_range next_pfn_range calculate_node_totalpages zone_size
    zone_spanned_pages_in_node zone_absent_pages_in_node absent_pages_in_range absent_loop
    get_pfn_range_for_nid range_loop find_min_pfn_for_node min_start add64 sub64
zones_run = (refl, refl, refl, refl)

memory-IsFilled : IsFilled memory
memory-IsFilled = omega arith

memory-IsLow : IsLow memory.regions
unfolding IsLow
memory-IsLow zero r e =
    let same : low_memory ≡ r = cc in omega (arith, ap (λ (q : Region). q.base) same)
memory-IsLow (suc zero) r e =
    let same : high_memory ≡ r = cc in omega (arith, ap (λ (q : Region). q.base) same)
memory-IsLow (suc (suc i)) r e = absurd cc

zone_size-present_example :
    let size = zone_size first_zone 0 1024 (mem_pfn_ranges 3 0 0 small) in
    (size.spanned_pages ≡ zone_pages first_zone 0 1024)
    × (size.present_pages
        ≡ whole_frames 0 memory.regions (zone_start first_zone 0) (zone_pages first_zone 0 1024))
zone_size-present_example =
    zone_size-present 0 small 3 first_zone 0 1024 memory-IsFilled memory-IsLow (omega arith)
      (omega arith) (omega arith) (omega arith)
