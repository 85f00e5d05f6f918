-- ===== src/Memblock/Tests.antt =====
-- mm/memblock.c: runs on small arrays, and the theorems at such inputs.
use sandix.Memblock.Walk.{trim_regions}
use sandix.Memblock.Cut.{memblock_remove_region}
use sandix.Memblock.Find.{round_up, round_down}
use sandix.Common.{ℕ, ◌≡◌, refl, ◌⊎◌, inr, false, Option, some, List, [], ◌∷◌, arith, max}
use sandix.Word.{ullong_max, add64, sub64}
use sandix.Memblock.Types.{Region, MemblockType, Status, success, enomem, ok}
use sandix.Memblock.Ops.{
  keeps_apart, merge_from, memblock_merge_regions, add_loop, add_round, add_rounds,
  memblock_add_range,
}
use sandix.Memblock.Cover.{IsFilled, IsValid, attr_at}
use sandix.Memblock.Merge.{Merges, merge_from-Merges}
use sandix.Memblock.Add.{new_range}
use sandix.Memblock.Add.Outcome.{
  AddOutcome, memblock_add_range-AddOutcome, memblock_add_range-enomem,
}
use sandix.Memblock.Splice.{splice, gap}
use sandix.Memblock.Cut.{
  isolate_step, isolate_loop, memblock_isolate_range, remove_regions, memblock_remove_range,
  empty_region,
}
use sandix.Memblock.Cut.Outcome.{RemoveOutcome, memblock_remove_range-RemoveOutcome}
use sandix.Memblock.State.{Memblock, memblock, memblock_reserve, memblock_free}
use sandix.Memblock.State.Calls.{add, call, IsSound, call-IsSound, memblock-IsSound, free-reserve}
use sandix.Memblock.Range.{
  skips, area_start, area_end, scan_areas, scan_regions, next_mem_range, scan_areas_rev,
  scan_regions_rev, next_mem_range_rev,
}
use sandix.Memblock.Range.Finds.{Finds, scan_regions_rev-Finds}
use sandix.Memblock.Find.{
  Request, bounded, round_up, round_down, try_bottom_up, try_top_down, find_bottom_up,
  find_top_down, memblock_find_in_range_node, memblock_find_in_range, memblock_virt_alloc_internal,
}
use sandix.Memblock.Find.TopDown.{IsFreeBlock, memblock_find_in_range_node_sound}
use sandix.Memblock.Find.Alloc.{Allocates, memblock_virt_alloc_internal_lem}

abbrev region : ℕ → ℕ → Region
region base size = record { base = base; size = size; flags = 0; nid = 1 }

abbrev array : ℕ → ℕ → List Region → MemblockType
array max total rs = record { max = max; total_size = total; regions = rs }

abbrev two : MemblockType
two = array 8 0x3000 (region 0x1000 0x1000 ∷ region 0x4000 0x2000 ∷ [])

-- The new range fills the hole and touches both regions: all is merged.
add_two :
    memblock_add_range two 0x1800 0x3000 1 0
    ≡ ok (success, array 8 0x5000 (region 0x1000 0x5000 ∷ []))
unfolding memblock_add_range add_rounds add_round add_loop memblock_merge_regions merge_from
    keeps_apart add64 sub64
add_two = refl

-- A hole in the middle of a region.
remove_two :
    memblock_remove_range two 0x4800 0x800
    ≡ ok (
      success,
      array 8 0x2800 (region 0x1000 0x1000 ∷ region 0x4000 0x800 ∷ region 0x5000 0x1000 ∷ []),
    )
unfolding memblock_remove_range memblock_isolate_range isolate_loop isolate_step remove_regions
    add64 sub64
remove_two = refl

two-IsFilled : IsFilled two
two-IsFilled = omega arith

two-IsValid : IsValid two
two-IsValid = record { shape = inr two-IsFilled; roomy = omega arith; bounded = omega arith }

memblock_add_range-AddOutcome_example :
    (o : Status × MemblockType) × (memblock_add_range two 0x1800 0x3000 1 0 ≡ ok o)
    × AddOutcome two (new_range 0x1800 0x3000 1 0) 0x1800 o
memblock_add_range-AddOutcome_example =
    memblock_add_range-AddOutcome two 0x1800 0x3000 1 0 two-IsValid (omega arith)

memblock_remove_range-RemoveOutcome_example :
    (o : Status × MemblockType) × (memblock_remove_range two 0x4800 0x800 ≡ ok o)
    × RemoveOutcome two 0x4800 0x5000 o
memblock_remove_range-RemoveOutcome_example =
    memblock_remove_range-RemoveOutcome two 0x4800 0x800 (omega arith) two-IsValid

-- An array with its one entry in use.
abbrev packed : MemblockType
packed = array 1 0x1000 (region 0x1000 0x1000 ∷ [])

packed-IsFilled : IsFilled packed
packed-IsFilled = omega arith

memblock_add_range-enomem_example :
    memblock_add_range packed 0x3000 0x1000 1 0 ≡ ok (enomem, packed)
unfolding splice gap
memblock_add_range-enomem_example =
    memblock_add_range-enomem packed 0x3000 0x1000 1 0 packed-IsFilled (omega arith) (omega arith)
      (omega arith)

merge_from-Merges_example : Merges 0 (region 0x1000 0x1000) (region 0x2000 0x1000 ∷ [])
merge_from-Merges_example =
    merge_from-Merges 0 (region 0x1000 0x1000) (region 0x2000 0x1000 ∷ []) (omega arith)

-- Two regions of memory, and a reservation in the second.
abbrev booted : Memblock
booted = record memblock { memory = two; reserved = packed_high }
  where
    packed_high : MemblockType
    packed_high = array 8 0x1000 (region 0x5000 0x1000 ∷ [])

booted-IsSound : IsSound booted
booted-IsSound = record { memory = two-IsValid; reserved = high }
  where
    high : IsValid booted.reserved
    high = record { shape = inr (omega arith); roomy = omega arith; bounded = omega arith }

-- The first page is left out, so the search goes to 0x4000, and stops below the reservation.
find_booted : memblock_find_in_range 0 0 0 0x800 0x100 booted ≡ ok 0x4800
unfolding memblock_find_in_range memblock_find_in_range_node find_top_down try_top_down round_down
    next_mem_range_rev scan_regions_rev scan_areas_rev area_start area_end skips add64 sub64
find_booted = refl

-- The forward search.
find_booted_up :
    find_bottom_up 10
      (record {
        start = 0;
        end = 0x10000;
        size = 0x800;
        align = 0x1000;
        nid = 0xffff_ffff;
        flags = 0;
      })
      booted
      0
    ≡ ok 0x1000
unfolding find_bottom_up try_bottom_up round_up next_mem_range scan_regions scan_areas area_start
    area_end skips add64 sub64
find_booted_up = refl

abbrev request : Request
request = record {
  start = 0;
  end = 0x10000;
  size = 0x800;
  align = 0x100;
  nid = 0xffff_ffff;
  flags = 0;
}

memblock_find_in_range_node_sound_example :
    (cand : ℕ) × (memblock_find_in_range_node 0 request booted ≡ ok cand)
    × ((cand ≡ 0) ⊎ IsFreeBlock (bounded request booted) booted cand)
memblock_find_in_range_node_sound_example =
    memblock_find_in_range_node_sound 0 request booted booted-IsSound (omega arith) (omega arith)
      (omega arith) (omega arith) (omega arith)

scan_regions_rev-Finds_example :
    Finds two booted.reserved 2 2 (scan_regions_rev 0xffff_ffff 0 two (some booted.reserved) 2 2)
scan_regions_rev-Finds_example =
    scan_regions_rev-Finds two booted.reserved 0xffff_ffff 0 two-IsValid booted-IsSound.reserved
      (omega arith) (omega arith) 2 2 (omega arith) (omega arith)

memblock_virt_alloc_internal_lem_example :
    (r : Option ℕ × Memblock) × (memblock_virt_alloc_internal false 0 0x800 0x100 0 0 1 booted
      ≡ ok r)
    × Allocates 0x800 (max (max 0 4096) ullong_max) booted r
memblock_virt_alloc_internal_lem_example =
    memblock_virt_alloc_internal_lem 0 booted booted-IsSound (omega arith) (omega arith)
      (omega arith) 0x800 0x100 0 0 1 (omega arith) (omega arith)

call-IsSound_example :
    (r : Status) × (w : Memblock) × (call (add 0x8000 0x1000) booted ≡ ok (r, w)) × IsSound w
call-IsSound_example = call-IsSound (add 0x8000 0x1000) booted booted-IsSound (omega arith)

-- The variable behind one reservation.
abbrev first_reserved : Memblock
first_reserved = record memblock { reserved = array 128 0x1000 (region 0x2000 0x1000 ∷ []) }

reserve_first : memblock_reserve 0x2000 0x1000 memblock ≡ ok (success, first_reserved)
unfolding memblock_reserve memblock_add_range
reserve_first = refl

abbrev released : Memblock
released = record memblock { reserved = array 128 0 (empty_region ∷ []) }

free_first : memblock_free 0x2000 0x1000 first_reserved ≡ ok (success, released)
unfolding memblock_free memblock_remove_range memblock_isolate_range isolate_loop isolate_step
    remove_regions add64 sub64
free_first = refl

free-reserve_example :
    ((a : ℕ) → attr_at released.reserved.regions a ≡ attr_at memblock.reserved.regions a)
    × (released.memory ≡ memblock.memory)
free-reserve_example =
    free-reserve memblock first_reserved released 0x2000 0x1000 memblock-IsSound (omega arith)
      (λ a h. ground arith) reserve_first free_first

-- memblock_trim_memory leaves total_size behind: the one page left has 0x1000 bytes.
abbrev ragged : MemblockType
ragged = record {
  max = 8;
  total_size = 0x2900;
  regions =
      record { base = 0x800; size = 0x1900; flags = 0; nid = 1 }
      ∷ record { base = 0x3100; size = 0x300; flags = 0; nid = 1 }
      ∷ [];
}

-- The first region is cut to whole pages, and the second goes away.
trim_regions_runs :
    trim_regions 4 4096 ragged 0
    ≡ ok (record {
      max = 8;
      total_size = 0x2600;
      regions = record { base = 0x1000; size = 0x1000; flags = 0; nid = 1 } ∷ [];
    })
unfolding trim_regions memblock_remove_region round_up round_down add64 sub64
trim_regions_runs = refl
