-- ===== src/Memblock/Walk.antt =====
-- mm/memblock.c: the walks over the array `memory` that trim its regions and count their pages.
use sandix.Common.{
  ℕ, zero, suc, ◌+◌, ◌-◌, ◌/◌, Option, none, some, List, true, false, ◌&&◌, ◌||◌, ltb, ◌==◌,
  get_elem?, set,
}
use sandix.Word.{add64, sub64}
use sandix.Memblock.Types.{Region, MemblockType, nr_regions, Run, ok, out_of_fuel, ◌>>=◌}
use sandix.Memblock.Ops.{region_end}
use sandix.Memblock.Cut.{memblock_remove_region, max_nr_nodes}
use sandix.Memblock.Range.{numa_no_node}
use sandix.Memblock.Find.{round_up, round_down}
use sandix.Memblock.State.{Memblock}

-- The loop of memblock_trim_memory at entry `i`; a region that goes away leaves `i` where it is, as
-- `r--` and the loop's `r++` do. total_size keeps what the cut regions lose.
unfoldable pub trim_regions : ℕ → ℕ → MemblockType → ℕ → Run MemblockType
trim_regions zero align t i = out_of_fuel
trim_regions (suc k) align t i = elim (get_elem? t.regions i) [
  | none ↦ ok t
  | some r ↦
      let start = round_up r.base align in
      let end = round_down (region_end r) align in
      elim (start == r.base && end == region_end r) [
        | true ↦ trim_regions k align t (i + 1)
        | false ↦ elim (ltb start end) [
          | true ↦
              let cut : Region = record r { base = start; size = sub64 end start } in
              trim_regions k align (record t { regions = set t.regions i cut }) (i + 1)
          | false ↦ memblock_remove_region t i >>= λ t'. trim_regions k align t' i
        ]
      ]
]

-- A round moves on or takes an entry out, and the empty entry that can be left takes one more.
unfoldable pub memblock_trim_memory : ℕ → Memblock → Run Memblock
memblock_trim_memory align m =
    trim_regions (nr_regions m.memory + 2) align m.memory 0 >>= λ t. ok (record m { memory = t })

-- PFN_UP and PFN_DOWN
abbrev pub pfn_up : ℕ → ℕ
pfn_up x = add64 x 4095 / 4096

abbrev pub pfn_down : ℕ → ℕ
pfn_down x = x / 4096

-- What the walk reports: the out parameters.
pub record PfnRange : Type 0 where
  pub start_pfn : ℕ
  pub end_pfn : ℕ
  pub nid : ℕ

-- The loop of __next_mem_pfn_range with *idx at `i` and `k` entries to go. The result is the new
-- *idx, and the range if there is one.
unfoldable pub next_pfn_range : ℕ → ℕ → ℕ → List Region → ℕ × Option PfnRange
next_pfn_range zero i nid rs = (numa_no_node, none)
next_pfn_range (suc k) i nid rs = elim (get_elem? rs i) [
  | none ↦ (numa_no_node, none)
  | some r ↦
      let start = pfn_up r.base in
      let end = pfn_down (region_end r) in
      elim (ltb start end && (nid == max_nr_nodes || nid == r.nid)) [
        | true ↦ (i, some (record { start_pfn = start; end_pfn = end; nid = r.nid }))
        | false ↦ next_pfn_range k (i + 1) nid rs
      ]
]

-- `next` is *idx + 1.
unfoldable pub next_mem_pfn_range : ℕ → ℕ → Memblock → ℕ × Option PfnRange
next_mem_pfn_range next nid m =
    next_pfn_range (nr_regions m.memory - next) next nid m.memory.regions
