-- ===== src/Memblock/Range.antt =====
-- mm/memblock.c: the iteration over the areas of one array that another leaves free.
pub mod Free
pub mod Rev
pub mod Finds
use Prim.Native.Nat.{bit_and}
use sandix.Common.{
  ℕ, zero, suc, ◌+◌, ◌-◌, ◌*◌, ◌/◌, ◌%◌, Bool, true, false, not, ◌&&◌, ◌||◌, Option, none, some,
  List, [], ◌∷◌, min, max, ltb, leb, ◌==◌, if◌then◌else◌, get_elem?,
}
use sandix.Word.{ullong_max}
use sandix.Memblock.Types.{
  Region, MemblockType, nr_regions, Run, ok, bug, fault, out_of_fuel, ◌>>=◌,
}
use sandix.Memblock.Ops.{region_end}
use sandix.Memblock.Cut.{max_nr_nodes}

-- An int and the halves of the u64 index, as 32-bit patterns.
abbrev pub word32 : ℕ
word32 = 0x1_0000_0000

-- -1
abbrev pub numa_no_node : ℕ
numa_no_node = 0xffff_ffff

abbrev pub memblock_hotplug : ℕ
memblock_hotplug = 1

abbrev pub memblock_mirror : ℕ
memblock_mirror = 2

abbrev pub memblock_nomap : ℕ
memblock_nomap = 4

abbrev pub has_flag : ℕ → ℕ → Bool
has_flag flags flag = not (bit_and flags flag == 0)

-- include/sandix/memblock.h has it return false.
abbrev pub movable_node_is_enabled : Bool
movable_node_is_enabled = false

-- The four tests that `continue` with the next region.
unfoldable pub skips : ℕ → ℕ → Region → Bool
skips nid flags m =
    (not (nid == numa_no_node) && not (nid == m.nid))
    || (movable_node_is_enabled && has_flag m.flags memblock_hotplug)
    || (has_flag flags memblock_mirror && not (has_flag m.flags memblock_mirror))
    || (not (has_flag flags memblock_nomap) && has_flag m.flags memblock_nomap)

-- The out parameters.
pub record Area : Type 0 where
  pub start : ℕ
  pub end : ℕ
  pub nid : ℕ

-- r_start and r_end: the area before entry `i`.
unfoldable pub area_start : List Region → ℕ → Run ℕ
area_start rs zero = ok 0
area_start rs (suc i) = elim (get_elem? rs i) [ none ↦ fault | some r ↦ ok (region_end r) ]

unfoldable pub area_end : List Region → ℕ → ℕ
area_end rs i = elim (get_elem? rs i) [ none ↦ ullong_max | some r ↦ r.base ]

-- What a walk over the areas comes to: it found one and has the indices for the next call, or it
-- goes on with the next region of type_a from this idx_b.
pub data Scan : Type 0 where
  hit : Area → ℕ → ℕ → Scan
  miss : ℕ → Scan

-- (u32)idx_a | (u64)idx_b << 32
abbrev pub pack : ℕ → ℕ → ℕ
pack idx_a idx_b = idx_a % word32 + idx_b % word32 * word32

-- x - 1 as an int
abbrev pub less_one : ℕ → ℕ
less_one x = (x + word32 - 1) % word32

-- The inner loop of __next_mem_range, with `k` rounds to go.
unfoldable pub scan_areas : ℕ → List Region → Region → ℕ → ℕ → Run Scan
scan_areas zero rs m idx_a idx_b = ok (miss idx_b)
scan_areas (suc k) rs m idx_a idx_b = area_start rs idx_b >>= λ r_start.
    let r_end = area_end rs idx_b in
    if leb (region_end m) r_start then ok (miss idx_b) else elim (ltb m.base r_end) [
      | true ↦
          let found : Area = record {
            start = max m.base r_start;
            end = min (region_end m) r_end;
            nid = m.nid;
          } in
          ok (
            if leb (region_end m) r_end
            then hit found (idx_a + 1) idx_b
            else hit found idx_a (idx_b + 1))
      | false ↦ scan_areas k rs m idx_a (idx_b + 1)
    ]

-- The outer loop, with `k` regions to go. The result is the new index and the area, if one is left.
unfoldable pub scan_regions :
    ℕ → ℕ → ℕ → MemblockType → Option MemblockType → ℕ → ℕ → Run (ℕ × Option Area)
scan_regions zero nid flags type_a type_b idx_a idx_b = ok (ullong_max, none)
scan_regions (suc k) nid flags type_a type_b idx_a idx_b = elim (get_elem? type_a.regions idx_a) [
  | none ↦ ok (ullong_max, none)
  | some m ↦ elim (skips nid flags m) [
    | true ↦ scan_regions k nid flags type_a type_b (idx_a + 1) idx_b
    | false ↦ elim type_b [
      | none ↦ ok (
        pack (idx_a + 1) idx_b,
        some (record { start = m.base; end = region_end m; nid = m.nid }),
      )
      | some b ↦ scan_areas (nr_regions b + 1 - idx_b) b.regions m idx_a idx_b >>= λ s. elim s [
        | hit found a' b' ↦ ok (pack a' b', some found)
        | miss b' ↦ scan_regions k nid flags type_a (some b) (idx_a + 1) b'
      ]
    ]
  ]
]

abbrev pub any_node : ℕ → ℕ
any_node nid = if nid == max_nr_nodes then numa_no_node else nid

unfoldable pub next_mem_range :
    ℕ → ℕ → ℕ → MemblockType → Option MemblockType → Run (ℕ × Option Area)
next_mem_range idx nid flags type_a type_b =
    scan_regions (nr_regions type_a - idx % word32) (any_node nid) flags type_a type_b
      (idx % word32) (idx / word32)

-- The inner loop of __next_mem_range_rev, with idx_b one less than its last argument.
unfoldable pub scan_areas_rev : List Region → Region → ℕ → ℕ → Run Scan
scan_areas_rev rs m idx_a zero = ok (miss 0)
scan_areas_rev rs m idx_a (suc idx_b) = area_start rs idx_b >>= λ r_start.
    let r_end = area_end rs idx_b in
    if leb r_end m.base then ok (miss (suc idx_b)) else elim (ltb r_start (region_end m)) [
      | true ↦
          let found : Area = record {
            start = max m.base r_start;
            end = min (region_end m) r_end;
            nid = m.nid;
          } in
          ok (
            if leb r_start m.base
            then hit found (less_one idx_a) idx_b
            else hit found idx_a (less_one idx_b))
      | false ↦ scan_areas_rev rs m idx_a idx_b
    ]

-- The outer loop, with idx_a and idx_b one less than the last two arguments. Without a type_b it
-- counts idx_a up.
unfoldable pub scan_regions_rev :
    ℕ → ℕ → MemblockType → Option MemblockType → ℕ → ℕ → Run (ℕ × Option Area)
scan_regions_rev nid flags type_a type_b zero nb = ok (ullong_max, none)
scan_regions_rev nid flags type_a type_b (suc idx_a) nb = elim (get_elem? type_a.regions idx_a) [
  | none ↦ fault
  | some m ↦ elim (skips nid flags m) [
    | true ↦ scan_regions_rev nid flags type_a type_b idx_a nb
    | false ↦ elim type_b [
      | none ↦ ok (
        pack (idx_a + 1) (less_one nb),
        some (record { start = m.base; end = region_end m; nid = m.nid }),
      )
      | some b ↦ scan_areas_rev b.regions m idx_a nb >>= λ s. elim s [
        | hit found a' b' ↦ ok (pack a' b', some found)
        | miss nb' ↦ scan_regions_rev nid flags type_a type_b idx_a nb'
      ]
    ]
  ]
]

-- The first call reads type_b->nr_regions, also where type_b is NULL.
unfoldable pub next_mem_range_rev :
    ℕ → ℕ → ℕ → MemblockType → Option MemblockType → Run (ℕ × Option Area)
next_mem_range_rev idx nid flags type_a type_b =
    if idx == ullong_max
    then elim type_b [
      | none ↦ fault
      | some b ↦
          scan_regions_rev (any_node nid) flags type_a (some b) (nr_regions type_a)
            (nr_regions b + 1)
    ]
    else scan_regions_rev (any_node nid) flags type_a type_b ((idx + 1) % word32)
        ((idx / word32 + 1) % word32)
