-- ===== src/Ioremap.antt =====
-- mm/early_ioremap.c: temporary mappings in the slots of the fixed addresses, with the part of
-- arch/x86/mm/ioremap.c and asm-generic/fixmap.h that it uses. The code compiles for 32 bits only
-- (FIXADDR_TOP of asm/fixmap.h): an unsigned long has 32 bits, a physical address has 64 (PAE).
pub mod Pages
pub mod Map
pub mod Outcome
pub mod Back
pub mod Calls
pub mod History
mod Tests
use sandix.Common.{
  ℕ, zero, suc, ◌+◌, ◌-◌, ◌*◌, ◌/◌, ◌%◌, Bool, true, false, ◌||◌, Option, none, some, ltb, ◌==◌,
  if◌then◌else◌,
}
use sandix.Word.{word, add64, sub64}

abbrev pub nr_fix_btmaps : ℕ
nr_fix_btmaps = 64

abbrev pub fix_btmaps_slots : ℕ
fix_btmaps_slots = 8

-- The number of values of an unsigned long.
abbrev pub ulong : ℕ
ulong = 0x1_0000_0000

-- PAGE_ALIGN, in the type of its argument, which has `w` values.
unfoldable pub page_align : ℕ → ℕ → ℕ
page_align w x = (x + 4095) % w / 4096 * 4096

-- An address with its low 12 bits cleared. Where the code masks a physical address by PAGE_MASK, which
-- is an unsigned long, the bits from 32 on are cleared as well.
abbrev pub page_of : ℕ → ℕ
page_of x = x / 4096 * 4096

-- A slot of an array, or an entry of the page table.
abbrev pub update : {A : Type 0} → (ℕ → A) → ℕ → A → ℕ → A
update f i v j = if j == i then v else f j

-- A page table entry for a fixed address: the page frame and the protection.
abbrev pub Fixmap : Type 0
Fixmap = ℕ → Option (ℕ × ℕ)

-- prev_map, prev_size and slot_virt, and the entries by the index of their fixed
-- address. NULL is 0.
pub record Slots : Type 0 where
  pub prev_map : ℕ → ℕ
  pub prev_size : ℕ → ℕ
  pub slot_virt : ℕ → ℕ
  pub fixmap : Fixmap
  pub after_paging_init : Bool

unfoldable pub early_ioremap_reset : Slots → Slots
early_ioremap_reset s = record s { after_paging_init = true }

-- __early_set_fixmap, and __set_fixmap that takes its place behind early_ioremap_reset; a protection
-- of 0 clears the entry. The BUG for an index from __end_of_fixed_addresses on is left out: that is
-- FIX_BTMAP_BEGIN + 1 in the enum, and the loops below go down from FIX_BTMAP_BEGIN at most.
unfoldable pub set_fixmap : ℕ → ℕ → ℕ → Fixmap → Fixmap
set_fixmap idx phys prot f = update f idx (if prot == 0 then none else some (phys / 4096, prot))

-- The loop that maps `nrpages` pages.
unfoldable pub map_pages : ℕ → ℕ → ℕ → ℕ → Fixmap → Fixmap
map_pages zero idx phys prot f = f
map_pages (suc nrpages) idx phys prot f =
    map_pages nrpages (idx - 1) (add64 phys 4096) prot (set_fixmap idx phys prot f)

-- The loop that clears them.
unfoldable pub clear_pages : ℕ → ℕ → Fixmap → Fixmap
clear_pages zero idx f = f
clear_pages (suc nrpages) idx f = clear_pages nrpages (idx - 1) (set_fixmap idx 0 0 f)

-- The first of `n` slots from `i` on that holds `key`.
unfoldable pub find_slot : ℕ → (ℕ → ℕ) → ℕ → ℕ → Option ℕ
find_slot key map zero i = none
find_slot key map (suc n) i =
    let rest = find_slot key map n (i + 1) in if map i == key then some i else rest

-- FIXADDR_TOP and FIX_BTMAP_BEGIN, which the configuration gives.
module _ (fixaddr_top btmap_begin : ℕ) where
  unfoldable pub fix_to_virt : ℕ → ℕ
  fix_to_virt x = (fixaddr_top + ulong - x * 4096 % ulong) % ulong

  unfoldable pub early_ioremap_setup : Slots → Slots
  early_ioremap_setup s = record s {
    slot_virt = λ i.
        if ltb i fix_btmaps_slots
        then fix_to_virt (btmap_begin - i * nr_fix_btmaps)
        else s.slot_virt i;
  }

  -- __early_ioremap, which early_ioremap and early_memremap call with their protections.
  unfoldable pub early_ioremap : ℕ → ℕ → ℕ → Slots → ℕ × Slots
  early_ioremap phys_addr size prot s = elim (find_slot 0 s.prev_map fix_btmaps_slots 0) [
    | none ↦ (0, s)
    | some slot ↦
        let last_addr = sub64 (add64 phys_addr size) 1 in
        if size == 0 || ltb last_addr phys_addr
        then (0, s)
        else (let sized : Slots = record s { prev_size = update s.prev_size slot size } in
            let offset = phys_addr % 4096 in
            let page = page_of phys_addr % ulong in
            let nrpages = sub64 (page_align word (add64 last_addr 1)) page % ulong / 4096 in
            if ltb nr_fix_btmaps nrpages
            then (0, sized)
            else (let addr = (offset + s.slot_virt slot) % ulong in
                (
                  addr,
                  record sized {
                    prev_map = update s.prev_map slot addr;
                    fixmap =
                        map_pages nrpages (btmap_begin - nr_fix_btmaps * slot) page prot s.fixmap;
                  },
                )))
  ]

  unfoldable pub early_iounmap : ℕ → ℕ → Slots → Slots
  early_iounmap addr size s = elim (find_slot addr s.prev_map fix_btmaps_slots 0) [
    | none ↦ s
    | some slot ↦
        if s.prev_size slot == size
        then (if ltb addr (fix_to_virt btmap_begin)
            then s
            else (let nrpages = page_align ulong ((addr % 4096 + size) % ulong) / 4096 in
                record s {
                  prev_map = update s.prev_map slot 0;
                  fixmap = clear_pages nrpages (btmap_begin - nr_fix_btmaps * slot) s.fixmap;
                }))
        else s
  ]
