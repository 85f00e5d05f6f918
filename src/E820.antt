-- ===== src/E820.antt =====
-- arch/x86/kernel/e820.c: the map of physical memory that the firmware gives.
pub mod Sanitize
pub mod Points
pub mod Order
pub mod Overlap
pub mod Sweep
pub mod Typed
pub mod Outcome
pub mod Setup
pub mod Pfn
pub mod Fill
mod Tests
use sandix.Common.{
  ℕ, zero, suc, ◌+◌, ◌-◌, ◌*◌, ◌/◌, ◌≤◌, Bool, true, false, not, ◌&&◌, ◌||◌, Option, none, some,
  List, [], ◌∷◌, ◌++◌, length, ltb, leb, ◌==◌, max, get_elem?, if◌then◌else◌,
}
use sandix.Word.{ullong_max, add64, sub64}
use sandix.Memblock.Types.{Run, ok, bug, ◌>>=◌}
use sandix.Memblock.State.{Memblock, memblock_add}
use sandix.Memblock.Walk.{memblock_trim_memory}
use sandix.Sort.{sort}

-- struct e820entry
pub record E820Entry : Type 0 where
  pub addr : ℕ
  pub size : ℕ
  pub type : ℕ

abbrev pub e820_max : ℕ
e820_max = 128

abbrev pub e820_ram : ℕ
e820_ram = 1

abbrev pub e820_pram : ℕ
e820_pram = 12

-- A struct e820map is the list of its entries in use. MAX_ARCH_PFN is an argument.
unfoldable pub end_pfn_loop : ℕ → List E820Entry → ℕ → ℕ
end_pfn_loop limit_pfn [] last_pfn = last_pfn
end_pfn_loop limit_pfn (e ∷ es) last_pfn =
    let start_pfn = e.addr / 4096 in
    let end_pfn = add64 e.addr e.size / 4096 in
    elim ((not (e.type == e820_ram) && not (e.type == e820_pram)) || ltb limit_pfn start_pfn) [
      | true ↦ end_pfn_loop limit_pfn es last_pfn
      | false ↦ elim (ltb limit_pfn end_pfn) [
        | true ↦ limit_pfn
        | false ↦ end_pfn_loop limit_pfn es (max last_pfn end_pfn)
      ]
    ]

unfoldable pub e820_end_pfn : ℕ → List E820Entry → ℕ → ℕ
e820_end_pfn max_arch_pfn map limit_pfn =
    let last_pfn = end_pfn_loop limit_pfn map 0 in
    if ltb max_arch_pfn last_pfn then max_arch_pfn else last_pfn

unfoldable pub e820_end_of_ram_pfn : ℕ → List E820Entry → ℕ
e820_end_of_ram_pfn max_arch_pfn map = e820_end_pfn max_arch_pfn map max_arch_pfn

unfoldable pub e820_end_of_low_ram_pfn : ℕ → List E820Entry → ℕ
e820_end_of_low_ram_pfn max_arch_pfn map = e820_end_pfn max_arch_pfn map 0x10_0000

-- struct change_member: the address, and the index of the entry that pbios points at.
pub record ChangeMember : Type 0 where
  pub addr : ℕ
  pub pbios : ℕ

-- `i` is the index of the first entry.
unfoldable pub change_points : ℕ → List E820Entry → List ChangeMember
change_points i [] = []
change_points i (e ∷ es) =
    let rest = change_points (i + 1) es in
    if e.size == 0
    then rest
    else record { addr = e.addr; pbios = i }
      ∷ record { addr = add64 e.addr e.size; pbios = i }
      ∷ rest

abbrev pub addr_of : Option E820Entry → ℕ
addr_of none = 0
addr_of (some e) = e.addr

abbrev pub type_of : Option E820Entry → ℕ
type_of none = 0
type_of (some e) = e.type

-- The last element of a list, or `d`.
abbrev pub last_of : ℕ → List ℕ → ℕ
last_of d [] = d
last_of d (x ∷ xs) = last_of x xs

abbrev pub drop_last : List ℕ → List ℕ
drop_last [] = []
drop_last (x ∷ []) = []
drop_last (x ∷ y ∷ xs) = x ∷ drop_last (y ∷ xs)

-- overlap_list[i] = overlap_list[overlap_entries - 1], where the entry is the one that ends.
abbrev pub replace : ℕ → ℕ → List ℕ → List ℕ
replace pbios last [] = []
replace pbios last (x ∷ xs) = (if x == pbios then last else x) ∷ replace pbios last xs

-- What the loop over the change points changes: `done` is new_bios up to new_bios_entry, and `last`
-- has last_addr and last_type, which that entry gets.
pub record Sanitized : Type 0 where
  pub overlap : List ℕ
  pub done : List E820Entry
  pub last_addr : ℕ
  pub last_type : ℕ

-- The entry that ends at `addr`, if there is one and it is not empty.
unfoldable pub close_entry : ℕ → Sanitized → List E820Entry
close_entry addr s =
    let size = sub64 addr s.last_addr in
    if s.last_type == 0 || size == 0
    then s.done
    else s.done ++ record { addr = s.last_addr; size = size; type = s.last_type } ∷ []

-- `biosmap` does not change before the end, so a pointer into it is an index.
module _ (biosmap : List E820Entry) where
  abbrev pub is_start : ChangeMember → Bool
  is_start c = c.addr == addr_of (get_elem? biosmap c.pbios)

  -- cpcompare(a, b) < 0
  abbrev pub comes_before : ChangeMember → ChangeMember → Bool
  comes_before a b = if a.addr == b.addr then is_start a && not (is_start b) else ltb a.addr b.addr

  -- overlap_list behind a change point.
  unfoldable pub update_overlap : ChangeMember → List ℕ → List ℕ
  update_overlap c list =
      if is_start c
      then list ++ c.pbios ∷ []
      else drop_last (replace c.pbios (last_of c.pbios list) list)

  -- The largest type in the list, or 0.
  unfoldable pub overlap_type : List ℕ → ℕ
  overlap_type [] = 0
  overlap_type (i ∷ is) = max (type_of (get_elem? biosmap i)) (overlap_type is)

  -- One round: whether the loop goes on, and the state.
  unfoldable pub sanitize_step : ℕ → ChangeMember → Sanitized → Bool × Sanitized
  sanitize_step max_nr c s =
      let overlap = update_overlap c s.overlap in
      let current = overlap_type overlap in
      if not (current == s.last_type) || current == e820_pram
      then (let done = close_entry c.addr s in
          (
            ltb (length done) max_nr || length done == length s.done,
            record {
              overlap = overlap;
              done = done;
              last_addr = if current == 0 then s.last_addr else c.addr;
              last_type = current;
            },
          ))
      else (true, record s { overlap = overlap })

  unfoldable pub sanitize_loop : ℕ → List ChangeMember → Sanitized → List E820Entry
  sanitize_loop max_nr [] s = s.done
  sanitize_loop max_nr (c ∷ cs) s =
      let (on, s') = sanitize_step max_nr c s in
      elim on [ true ↦ sanitize_loop max_nr cs s' | false ↦ s'.done ]

-- What is behind the change points; sort does not look at it.
abbrev pub no_member : ℕ → ChangeMember
no_member i = record { addr = 0; pbios = 0 }

-- `biosmap[i].addr + biosmap[i].size < biosmap[i].addr` for some entry.
unfoldable pub any_wraps : List E820Entry → Bool
any_wraps [] = false
any_wraps (e ∷ es) = ltb (add64 e.addr e.size) e.addr || any_wraps es

-- The return value is 0 or -1; a -1 leaves the map alone.
unfoldable pub sanitize_e820_map : List E820Entry → ℕ → Run (Bool × List E820Entry)
sanitize_e820_map biosmap max_nr =
    if ltb (length biosmap) 2
    then ok (false, biosmap)
    else if ltb max_nr (length biosmap)
    then bug
    else if any_wraps biosmap
    then ok (false, biosmap)
    else ok (
      true,
      sanitize_loop biosmap max_nr (sort (comes_before biosmap) no_member (change_points 0 biosmap))
          (record { overlap = []; done = []; last_addr = 0; last_type = 0 }),
    )

unfoldable pub e820_add_region : List E820Entry → ℕ → ℕ → ℕ → List E820Entry
e820_add_region map start size type =
    if leb e820_max (length map)
    then map
    else map ++ record { addr = start; size = size; type = type } ∷ []

-- False is the return value -1.
unfoldable pub append_loop : List E820Entry → List E820Entry → Bool × List E820Entry
append_loop map [] = (true, map)
append_loop map (e ∷ es) = elim (ltb (add64 e.addr e.size) e.addr) [
  | true ↦ (false, map)
  | false ↦ append_loop (e820_add_region map e.addr e.size e.type) es
]

unfoldable pub append_e820_map : List E820Entry → List E820Entry → Bool × List E820Entry
append_e820_map map biosmap =
    if ltb (length biosmap) 2 then (false, map) else append_loop map biosmap

-- The maps e820 and boot_params.e820_map behind the call; e820_bios is a copy of the first.
unfoldable pub setup_memory_map :
    List E820Entry → List E820Entry → Run (List E820Entry × List E820Entry)
setup_memory_map e820 params = sanitize_e820_map params e820_max >>= λ (ret, params').
    let (fine, e820') = append_e820_map e820 params' in if fine then ok (e820', params') else bug

-- The loop of memblock_x86_fill; no address is cut, since resource_size_t has 64 bits. What
-- memblock_add returns is not looked at.
unfoldable pub fill_loop : List E820Entry → Memblock → Run Memblock
fill_loop [] m = ok m
fill_loop (e ∷ es) m = elim (e.type == e820_ram) [
  | false ↦ fill_loop es m
  | true ↦ memblock_add e.addr e.size m >>= λ (ret, m'). fill_loop es m'
]

unfoldable pub memblock_x86_fill : List E820Entry → Memblock → Run Memblock
memblock_x86_fill map m = fill_loop map m >>= memblock_trim_memory 4096
