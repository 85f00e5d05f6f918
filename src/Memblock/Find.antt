-- ===== src/Memblock/Find.antt =====
-- mm/memblock.c: the search for free memory and the boot-time allocation.
pub mod TopDown
pub mod Alloc
use Prim.Native.Nat.{bit_and, bit_or}
use sandix.Common.{
  ℕ, zero, suc, ◌+◌, ◌-◌, Bool, true, false, ◌&&◌, ◌||◌, not, Option, none, some, min, max, ltb,
  leb, ◌==◌, if◌then◌else◌,
}
use sandix.Word.{ullong_max, add64, sub64}
use sandix.Memblock.Types.{
  MemblockType, nr_regions, Status, Run, ok, bug, fault, out_of_fuel, ◌>>=◌,
}
use sandix.Memblock.State.{Memblock, memblock_reserve}
use sandix.Memblock.Cut.{max_nr_nodes}
use sandix.Memblock.Range.{
  Area, numa_no_node, memblock_mirror, has_flag, any_node, next_mem_range, next_mem_range_rev,
}

-- clamp(val, lo, hi)
abbrev pub clamp : ℕ → ℕ → ℕ → ℕ
clamp val lo hi = min (max val lo) hi

-- ((x - 1) | (y - 1)) + 1
unfoldable pub round_up : ℕ → ℕ → ℕ
round_up x y = add64 (bit_or (sub64 x 1) (sub64 y 1)) 1

-- x & ~(y - 1)
unfoldable pub round_down : ℕ → ℕ → ℕ
round_down x y = bit_and x (ullong_max - sub64 y 1)

-- A request: the range that is searched, and what is looked for.
pub record Request : Type 0 where
  pub start : ℕ
  pub end : ℕ
  pub size : ℕ
  pub align : ℕ
  pub nid : ℕ
  pub flags : ℕ

-- The loop's body for one area; `none` goes on with the next area.
unfoldable pub try_bottom_up : Request → Area → Option ℕ
try_bottom_up q g =
    let this_start = clamp g.start q.start q.end in
    let this_end = clamp g.end q.start q.end in
    let cand = round_up this_start q.align in
    if ltb cand this_end && leb q.size (sub64 this_end cand) then some cand else none

unfoldable pub try_top_down : Request → Area → Option ℕ
try_top_down q g =
    let this_start = clamp g.start q.start q.end in
    let this_end = clamp g.end q.start q.end in
    if ltb this_end q.size
    then none
    else let cand = round_down (sub64 this_end q.size) q.align in
      if leb this_start cand then some cand else none

-- The two for_each loops, with `i` the last index. 0 is the result of a search that fails.
unfoldable pub find_bottom_up : ℕ → Request → Memblock → ℕ → Run ℕ
find_bottom_up zero q m i = out_of_fuel
find_bottom_up (suc k) q m i =
    next_mem_range i q.nid q.flags m.memory (some m.reserved) >>= λ (i', g).
    elim (i' == ullong_max) [
      | true ↦ ok 0
      | false ↦ elim g [
        | none ↦ fault
        | some area ↦ elim (try_bottom_up q area) [
          | some cand ↦ ok cand
          | none ↦ find_bottom_up k q m i'
        ]
      ]
    ]

unfoldable pub find_top_down : ℕ → Request → Memblock → ℕ → Run ℕ
find_top_down zero q m i = out_of_fuel
find_top_down (suc k) q m i =
    next_mem_range_rev i q.nid q.flags m.memory (some m.reserved) >>= λ (i', g).
    elim (i' == ullong_max) [
      | true ↦ ok 0
      | false ↦ elim g [
        | none ↦ fault
        | some area ↦ elim (try_top_down q area) [
          | some cand ↦ ok cand
          | none ↦ find_top_down k q m i'
        ]
      ]
    ]

-- A call moves one of the two indices, so a search has fewer rounds than this.
abbrev pub find_fuel : Memblock → ℕ
find_fuel m = nr_regions m.memory + nr_regions m.reserved + 3

-- include/sandix/memblock.h has it return false.
abbrev pub memblock_bottom_up : Bool
memblock_bottom_up = false

abbrev pub page_size : ℕ
page_size = 4096

-- The searched range: `end` 0 is MEMBLOCK_ALLOC_ACCESSIBLE, and the first page is left out.
abbrev pub bounded : Request → Memblock → Request
bounded q m =
    let end = if q.end == 0 then m.current_limit else q.end in
    let start = max q.start page_size in record q { start = start; end = max start end }

-- `kernel_end` is __pa(__kend), which the linker gives.
unfoldable pub memblock_find_in_range_node : ℕ → Request → Memblock → Run ℕ
memblock_find_in_range_node kernel_end q m =
    let r = bounded q m in
    let top_down = find_top_down (find_fuel m) r m ullong_max in
    if memblock_bottom_up && ltb kernel_end r.end
    then (find_bottom_up (find_fuel m) (record r { start = max r.start kernel_end }) m 0 >>= λ ret.
        if ret == 0 then top_down else ok ret)
    else top_down

-- The flags are 0, so the loop back to `again` is not taken.
unfoldable pub memblock_find_in_range : ℕ → ℕ → ℕ → ℕ → ℕ → Memblock → Run ℕ
memblock_find_in_range kernel_end start end size align m =
    memblock_find_in_range_node kernel_end
      (record {
        start = start;
        end = end;
        size = size;
        align = align;
        nid = numa_no_node;
        flags = 0;
      })
      m

-- L1_CACHE_BYTES, with CONFIG_X86_L1_CACHE_SHIFT 6.
abbrev pub l1_cache_bytes : ℕ
l1_cache_bytes = 64

-- One round from the label `again`: the wanted node, then any.
unfoldable pub alloc_round : ℕ → Request → Memblock → Run ℕ
alloc_round kernel_end q m = memblock_find_in_range_node kernel_end q m >>= λ alloc.
    if not (alloc == 0) || q.nid == numa_no_node
    then ok alloc
    else memblock_find_in_range_node kernel_end (record q { nid = numa_no_node }) m

-- The label `done`: the result of memblock_reserve is not looked at. The memory is then cleared.
unfoldable pub alloc_done : ℕ → ℕ → Memblock → Run (Option ℕ × Memblock)
alloc_done alloc size m = memblock_reserve alloc size m >>= λ (ret, m'). ok (some alloc, m')

-- The block's physical address, or none for NULL; the flags are those of choose_memblock_flags.
-- `slab` is what slab_is_available returns, and a panic is `bug`.
unfoldable pub memblock_virt_alloc_internal :
    Bool → ℕ → ℕ → ℕ → ℕ → ℕ → ℕ → Memblock → Run (Option ℕ × Memblock)
memblock_virt_alloc_internal slab kernel_end size align min_addr max_addr nid m =
    if slab
    then bug
    else let q : Request = record {
      start = min_addr;
      end = if ltb m.current_limit max_addr then m.current_limit else max_addr;
      size = size;
      align = if align == 0 then l1_cache_bytes else align;
      nid = any_node nid;
      flags = 0;
    } in
      alloc_round kernel_end q m >>= λ first.
      if not (first == 0)
      then alloc_done first size m
      else if min_addr == 0
      then ok (none, m)
      else (alloc_round kernel_end (record q { start = 0 }) m >>= λ second.
          if not (second == 0) then alloc_done second size m else ok (none, m))

unfoldable pub memblock_virt_alloc_try_nid_nopanic :
    Bool → ℕ → ℕ → ℕ → ℕ → ℕ → ℕ → Memblock → Run (Option ℕ × Memblock)
memblock_virt_alloc_try_nid_nopanic = memblock_virt_alloc_internal

-- It panics in place of NULL.
unfoldable pub memblock_virt_alloc_try_nid :
    Bool → ℕ → ℕ → ℕ → ℕ → ℕ → ℕ → Memblock → Run (ℕ × Memblock)
memblock_virt_alloc_try_nid slab kernel_end size align min_addr max_addr nid m =
    memblock_virt_alloc_internal slab kernel_end size align min_addr max_addr nid m >>= λ (ptr, m').
    elim ptr [ none ↦ bug | some addr ↦ ok (addr, m') ]
