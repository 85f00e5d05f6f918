-- ===== src/Strings/Mem.antt =====
-- lib/string.c: the functions on areas of memory.
pub mod Copy
pub mod Scan
use sandix.Common.{ℕ, zero, suc, ◌+◌, ◌-◌, ◌%◌, Bool, true, false, if◌then◌else◌, leb, ◌==◌}

-- The bytes by address. An area does not wrap around the end of the address space.
abbrev pub Memory : Type 0
Memory = ℕ → ℕ

abbrev pub write : Memory → ℕ → ℕ → Memory
write m p v q = if q == p then v else m q

abbrev pub null : ℕ
null = 0

-- x - y as an int, by its 32-bit pattern
abbrev pub int_sub : ℕ → ℕ → ℕ
int_sub x y = (x + 0x1_0000_0000 - y) % 0x1_0000_0000

-- The loops have `count` rounds to go.
unfoldable pub memset : Memory → ℕ → ℕ → ℕ → Memory
memset m xs c zero = m
memset m xs c (suc count) = memset (write m xs (c % 256)) (xs + 1) c count

unfoldable pub memcpy : Memory → ℕ → ℕ → ℕ → Memory
memcpy m tmp s zero = m
memcpy m tmp s (suc count) = memcpy (write m tmp (m s)) (tmp + 1) (s + 1) count

-- The loop of memmove from the end on, where `tmp` is dest + count and `s` is src + count.
unfoldable pub copy_down : Memory → ℕ → ℕ → ℕ → Memory
copy_down m dest src zero = m
copy_down m dest src (suc count) =
    copy_down (write m (dest + count) (m (src + count))) dest src count

-- Its first loop is that of memcpy.
unfoldable pub memmove : Memory → ℕ → ℕ → ℕ → Memory
memmove m dest src count =
    if leb dest src then memcpy m dest src count else copy_down m dest src count

unfoldable pub memcmp : Memory → ℕ → ℕ → ℕ → ℕ
memcmp m su1 su2 zero = 0
memcmp m su1 su2 (suc count) = elim (m su1 == m su2) [
  | true ↦ memcmp m (su1 + 1) (su2 + 1) count
  | false ↦ int_sub (m su1) (m su2)
]

-- `c` is not cut to a byte.
unfoldable pub memscan : Memory → ℕ → ℕ → ℕ → ℕ
memscan m p c zero = p
memscan m p c (suc size) = elim (m p == c) [ true ↦ p | false ↦ memscan m (p + 1) c size ]

unfoldable pub memchr : Memory → ℕ → ℕ → ℕ → ℕ
memchr m p c zero = null
memchr m p c (suc n) = elim (c % 256 == m p) [ true ↦ p | false ↦ memchr m (p + 1) c n ]
