-- ===== src/Ioremap/Tests.antt =====
-- mm/early_ioremap.c: runs, and the theorems at concrete slots.
use sandix.Common.{ℕ, ◌-◌, ◌*◌, ◌≡◌, refl, inl, false, none, some, arith}
use sandix.Word.{add64, sub64}
use sandix.Ioremap.{
  Slots, find_slot, page_align, set_fixmap, map_pages, fix_to_virt, early_ioremap_setup,
  early_ioremap, early_iounmap,
}
use sandix.Ioremap.Map.{IsLayout, translate}
use sandix.Ioremap.History.{setup, map, unmap, Reach-IsSlots}
use sandix.Ioremap.Back.{IsSlots, early_iounmap-early_ioremap}
use sandix.Ioremap.Outcome.{MapOutcome, early_ioremap-MapOutcome}

abbrev top : ℕ
top = 0xffff_f000

abbrev begin : ℕ
begin = 1023

abbrev empty_slots : Slots
empty_slots = record {
  prev_map = λ i. 0;
  prev_size = λ i. 0;
  slot_virt = λ i. top - (begin - 64 * i) * 4096;
  fixmap = λ i. none;
  after_paging_init = false;
}

-- Two pages at 0xfee00ffe, for four bytes.
abbrev after_map : ℕ × Slots
after_map = early_ioremap top begin 0xfee0_0ffe 4 3 empty_slots

map_runs : after_map.0 ≡ 0xffc0_0ffe
unfolding early_ioremap find_slot page_align map_pages set_fixmap add64 sub64
map_runs = refl

after_map-eq : after_map ≡ (0xffc0_0ffe, after_map.1)
unfolding early_ioremap find_slot page_align map_pages set_fixmap add64 sub64
after_map-eq = refl

byte_runs : translate top begin (after_map.1).fixmap 0xffc0_1001 ≡ some 0xfee0_1001
unfolding early_ioremap find_slot page_align map_pages set_fixmap add64 sub64
byte_runs = refl

setup_runs : (early_ioremap_setup top begin empty_slots).slot_virt 1 ≡ 0xffc4_0000
unfolding early_ioremap_setup fix_to_virt
setup_runs = refl

-- The pages of 2 ^ 32 - 4095 bytes are 0 in an unsigned long: an address is returned with nothing
-- mapped.
huge_runs :
    let r : ℕ × Slots = early_ioremap top begin 0 0xffff_f001 3 empty_slots in
    (r.0 ≡ 0xffc0_0000) × (translate top begin (r.1).fixmap 0xffc0_0000 ≡ none)
unfolding early_ioremap find_slot page_align map_pages set_fixmap add64 sub64
huge_runs = (refl, refl)

-- The byte at 4 GB is asked for, and the byte at 0 is mapped.
high_runs :
    let r : ℕ × Slots = early_ioremap top begin 0x1_0000_0000 1 3 empty_slots in
    translate top begin (r.1).fixmap r.0 ≡ some 0
unfolding early_ioremap find_slot page_align map_pages set_fixmap add64 sub64
high_runs = refl

layout : IsLayout top begin
layout = record {
  aligned = omega arith;
  word_top = omega arith;
  enough = omega arith;
  above = omega arith;
}

early_ioremap-MapOutcome_example : MapOutcome top begin layout 0xfee0_0ffe 4 empty_slots after_map
early_ioremap-MapOutcome_example =
    early_ioremap-MapOutcome top begin layout 0xfee0_0ffe 4 3 empty_slots (omega arith)
      (omega arith) (omega arith) (λ i h. refl)

empty_slots-IsSlots : IsSlots top begin layout empty_slots
empty_slots-IsSlots = record {
  virt = λ i h. refl;
  held = λ i h. inl refl;
  spare = λ i j h low high. inl refl;
  short = λ i h. inl refl;
}

early_iounmap-early_ioremap_example :
    ((early_iounmap top begin 0xffc0_0ffe 4 (after_map.1)).prev_map 0 ≡ empty_slots.prev_map 0)
    × ((early_iounmap top begin 0xffc0_0ffe 4 (after_map.1)).fixmap 0 ≡ empty_slots.fixmap 0)
early_iounmap-early_ioremap_example =
    early_iounmap-early_ioremap top begin layout 0xfee0_0ffe 4 3 empty_slots 0xffc0_0ffe
      (after_map.1) empty_slots-IsSlots (omega arith) (omega arith) (omega arith) after_map-eq
      (omega arith) 0

abbrev blank : Slots
blank = record {
  prev_map = λ i. 0;
  prev_size = λ i. 0;
  slot_virt = λ i. 0;
  fixmap = λ i. none;
  after_paging_init = false;
}

abbrev used : Slots
used = (early_ioremap top begin 0xfee0_0ffe 4 3 (early_ioremap_setup top begin blank)).1

Reach-IsSlots_example : IsSlots top begin layout (early_iounmap top begin 0xffc0_0ffe 4 used)
Reach-IsSlots_example =
    Reach-IsSlots top begin layout blank (early_iounmap top begin 0xffc0_0ffe 4 used)
      (record { free = λ i. refl; empty = λ j. refl })
      (unmap 0xffc0_0ffe 4 (map 0xfee0_0ffe 4 3 setup (omega arith) (omega arith) (omega arith)))
