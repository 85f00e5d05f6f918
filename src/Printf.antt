-- ===== src/Printf.antt =====
-- lib/vsprintf.c: formatted printing. This file has what its parts share: the output, the
-- specification of a conversion, and the int fields by their bit patterns.
pub mod Digits
pub mod Bounds
pub mod Number
pub mod Text
pub mod Decode
pub mod Format
mod Tests
use Prim.Native.Nat.{bit_and}
use sandix.Common.{
  ℕ, zero, suc, ◌+◌, ◌-◌, ◌%◌, Bool, not, List, [], ◌∷◌, if◌then◌else◌, ltb, leb, ◌==◌,
}
use sandix.Strings.Mem.{Memory, write}

-- enum format_type
pub data FormatType : Type 0 where
  type_none type_width type_precision type_char type_str type_ptr : FormatType
  type_percent_char type_invalid type_long_long type_ulong type_long : FormatType
  type_ubyte type_byte type_ushort type_short type_uint type_int : FormatType
  type_size_t type_ptrdiff : FormatType

-- struct printf_spec; the two signed shorts are 16-bit patterns.
pub record PrintfSpec : Type 0 where
  pub type : FormatType
  pub flags : ℕ
  pub base : ℕ
  pub modifier : ℕ
  pub field_width : ℕ
  pub precision : ℕ

abbrev pub sign : ℕ
sign = 0x01

abbrev pub left : ℕ
left = 0x02

abbrev pub plus : ℕ
plus = 0x04

abbrev pub space : ℕ
space = 0x08

abbrev pub zeropad : ℕ
zeropad = 0x10

abbrev pub small : ℕ
small = 0x20

abbrev pub special : ℕ
special = 0x40

abbrev pub has : ℕ → ℕ → Bool
has flags flag = not (bit_and flags flag == 0)

-- A signed short, and its sum with an int.
abbrev pub is_negative : ℕ → Bool
is_negative x = leb 0x8000 x

abbrev pub minus : ℕ → ℕ → ℕ
minus x y = (x + 0x1_0000_0000_0000_0000 - y) % 0x1_0000

-- Where the next character goes, and the memory.
pub record Output : Type 0 where
  pub at : ℕ
  pub mem : Memory

-- `if (buf < end) *buf = c; ++buf;`
unfoldable pub put : ℕ → ℕ → Output → Output
put end c o = record { at = o.at + 1; mem = if ltb o.at end then write o.mem o.at c else o.mem }

unfoldable pub put_all : ℕ → List ℕ → Output → Output
put_all end [] o = o
put_all end (c ∷ cs) o = put_all end cs (put end c o)

unfoldable pub pad : ℕ → ℕ → ℕ → Output → Output
pad end c zero o = o
pad end c (suc n) o = pad end c n (put end c o)

-- The rounds of `while (--width >= 0)`, and the width behind it.
abbrev pub rounds : ℕ → ℕ
rounds width = if leb width 0x8000 then width else 0

abbrev pub behind : ℕ → ℕ
behind width = minus width (rounds width + 1)
