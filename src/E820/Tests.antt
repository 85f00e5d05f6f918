-- ===== src/E820/Tests.antt =====
-- arch/x86/kernel/e820.c: runs, and the theorems at concrete maps.
use sandix.Common.{ℕ, ◌≡◌, min, refl, List, [], ◌∷◌, true, arith}
use sandix.Memblock.Types.{ok}
use sandix.Sort.{element_at, swap, is_below, larger_child, sift_down, heapify, extract, sort}
use sandix.E820.{
  E820Entry, change_points, update_overlap, overlap_type, close_entry, sanitize_step, sanitize_loop,
  any_wraps, sanitize_e820_map, setup_memory_map, e820_end_pfn, fill_loop,
}
use sandix.E820.Outcome.{SanitizeOutcome, sanitize_e820_map-SanitizeOutcome}
use sandix.E820.Order.{AreU64}
use sandix.E820.Setup.{SetupOutcome, setup_memory_map-SetupOutcome}
use sandix.E820.Pfn.{highest, e820_end_pfn-highest}
use sandix.E820.Fill.{Filled, fill_loop-Filled}
use sandix.Memblock.State.{Memblock, memblock}
use sandix.Memblock.State.Calls.{memblock-IsSound}
use sandix.Word.{add64, sub64}

abbrev entry : ℕ → ℕ → ℕ → E820Entry
entry addr size type = record { addr = addr; size = size; type = type }

-- Reserved memory in the middle of RAM, and an empty entry.
abbrev firmware : List E820Entry
firmware = entry 0x1000 0x9000 1 ∷ entry 0x4000 0x1000 2 ∷ entry 0x7000 0 3 ∷ []

firmware-AreU64 : AreU64 firmware
firmware-AreU64 =
    (omega arith, omega arith, (omega arith, omega arith, (omega arith, omega arith, tt)))

sanitize_runs :
    sanitize_e820_map firmware 128
    ≡ ok (true, entry 0x1000 0x3000 1 ∷ entry 0x4000 0x1000 2 ∷ entry 0x5000 0x5000 1 ∷ [])
unfolding sanitize_e820_map sanitize_loop sanitize_step close_entry overlap_type update_overlap
    change_points any_wraps sort heapify extract sift_down larger_child is_below swap element_at
    add64 sub64
sanitize_runs = refl

sanitize_e820_map-SanitizeOutcome_example :
    SanitizeOutcome firmware 128 (sanitize_e820_map firmware 128)
sanitize_e820_map-SanitizeOutcome_example =
    sanitize_e820_map-SanitizeOutcome firmware 128 firmware-AreU64

e820_end_pfn-highest_example :
    e820_end_pfn 0x4_0000_0000 firmware 0x10_0000 ≡ min 0x4_0000_0000 (highest 0x10_0000 firmware)
e820_end_pfn-highest_example = e820_end_pfn-highest 0x4_0000_0000 firmware 0x10_0000

fill_loop-Filled_example :
    (w : Memblock) × (fill_loop firmware memblock ≡ ok w) × Filled firmware memblock w
fill_loop-Filled_example = fill_loop-Filled firmware memblock memblock-IsSound firmware-AreU64

setup_memory_map-SetupOutcome_example : SetupOutcome firmware (setup_memory_map [] firmware)
setup_memory_map-SetupOutcome_example = setup_memory_map-SetupOutcome firmware firmware-AreU64
