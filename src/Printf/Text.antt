-- ===== src/Printf/Text.antt =====
-- lib/vsprintf.c: string, resource_string, hex_string, address_val and pointer.
use Prim.Native.Nat.{bit_or}
use sandix.Common.{
  ℕ, zero, suc, ◌+◌, ◌-◌, ◌*◌, ◌/◌, ◌%◌, Bool, true, false, not, ◌&&◌, ◌||◌, List, [], ◌∷◌, min,
  length, ltb, ◌==◌, if◌then◌else◌,
}
use sandix.Word.{add64, sub64}
use sandix.Strings.Mem.{Memory, write}
use sandix.Strings.Str.{strnlen}
use sandix.Resource.{Resource}
use sandix.Printf.{
  PrintfSpec, type_none, left, zeropad, small, special, has, is_negative, minus, Output, put, pad,
}
use sandix.Printf.Number.{number}

-- A string as it is read: from the memory at an address, or the bytes of a constant.
pub data Source : Type 0 where
  at_address : ℕ → Source
  constant : List ℕ → Source

abbrev byte_at : List ℕ → ℕ → ℕ
byte_at [] i = 0
byte_at (c ∷ cs) zero = c
byte_at (c ∷ cs) (suc i) = byte_at cs i

-- s[i]
abbrev read : Source → Memory → ℕ → ℕ
read (at_address s) m i = m (s + i)
read (constant cs) m i = byte_at cs i

-- strnlen(s, limit)
unfoldable pub source_length : Source → Memory → ℕ → ℕ
source_length (at_address s) m limit = strnlen m s limit
source_length (constant cs) m limit = min (length cs) limit

-- A signed short as a size_t.
abbrev as_size : ℕ → ℕ
as_size x = if is_negative x then x + 0xffff_ffff_ffff_0000 else x

-- The loop over the bytes, from `i` on.
unfoldable pub copy_source : ℕ → Source → ℕ → ℕ → Output → Output
copy_source end s i zero o = o
copy_source end s i (suc n) o = copy_source end s (i + 1) n (put end (read s o.mem i) o)

-- The rounds of `while (len < width--)`, where the least width is 32767 behind the test.
abbrev over : ℕ → ℕ → ℕ
over len field = if is_negative field then 0 else field - len

-- "(null)"
abbrev pub null_text : List ℕ
null_text = 40 ∷ 110 ∷ 117 ∷ 108 ∷ 108 ∷ 41 ∷ []

-- A pointer into the first page stands for no string.
abbrev pub from_pointer : ℕ → Source
from_pointer s = if ltb s 4096 then constant null_text else at_address s

-- The length that strnlen returns goes to an int; the model is for strings below 2 GB, as that keeps
-- it.
unfoldable pub string : ℕ → Source → PrintfSpec → Output → Output
string end s spec o =
    let len = source_length s o.mem (as_size spec.precision) in
    let leading = not (has spec.flags left) in
    let o1 = if leading then pad end 32 (over len spec.field_width) o else o in
    let field =
      if leading
      then minus spec.field_width (over len spec.field_width + 1)
      else spec.field_width in
    pad end 32 (over len field) (copy_source end s 0 len o1)

abbrev spec_of : ℕ → ℕ → ℕ → ℕ → PrintfSpec
spec_of flags base field precision = record {
  type = type_none;
  flags = flags;
  base = base;
  modifier = 0;
  field_width = field;
  precision = precision;
}

-- -1 as a signed short
abbrev pub no_value : ℕ
no_value = 0xffff

abbrev io_spec : PrintfSpec
io_spec = spec_of (special + small + zeropad) 16 6 no_value

abbrev mem_spec : PrintfSpec
mem_spec = spec_of (special + small + zeropad) 16 10 no_value

abbrev bus_spec : PrintfSpec
bus_spec = spec_of (small + zeropad) 16 2 no_value

abbrev dec_spec : PrintfSpec
dec_spec = spec_of 0 10 0 no_value

abbrev str_spec : PrintfSpec
str_spec = spec_of left 0 no_value 10

abbrev flag_spec : PrintfSpec
flag_spec = spec_of (special + small) 16 0 no_value

-- sizeof(sym), with 64-bit addresses and flags
abbrev sym_size : ℕ
sym_size = 75

-- `*p++ = c`, with no look at pend.
unfoldable pub push : ℕ → Output → Output
push c o = record { at = o.at + 1; mem = write o.mem o.at c }

abbrev text : List ℕ → Output → Output
text cs o = string sym_size (constant cs) str_spec o

-- The name of the resource's kind, how its ends are printed, and whether its flags are decoded.
unfoldable pub kind : ℕ → Bool → List ℕ × PrintfSpec × Bool
kind flags decode =
    if has flags 0x100
    then (105 ∷ 111 ∷ 32 ∷ 32 ∷ [], io_spec, decode)
    else if has flags 0x200
    then (109 ∷ 101 ∷ 109 ∷ 32 ∷ [], mem_spec, decode)
    else if has flags 0x400
    then (105 ∷ 114 ∷ 113 ∷ 32 ∷ [], dec_spec, decode)
    else if has flags 0x800
    then (100 ∷ 109 ∷ 97 ∷ 32 ∷ [], dec_spec, decode)
    else if has flags 0x1000
    then (98 ∷ 117 ∷ 115 ∷ 32 ∷ [], bus_spec, decode)
    else (63 ∷ 63 ∷ 63 ∷ 32 ∷ [], mem_spec, false)

-- res->end - res->start + 1
abbrev resource_size : Resource → ℕ
resource_size res = add64 (sub64 res.end res.start) 1

-- What is printed between the name and the flags.
unfoldable pub put_range : Bool → PrintfSpec → Resource → Output → Output
put_range decode spec res o =
    if decode && has res.flags 0x2000_0000
    then number sym_size (resource_size res) spec (text (115 ∷ 105 ∷ 122 ∷ 101 ∷ 32 ∷ []) o)
    else (let o1 = number sym_size res.start spec o in
        if res.start == res.end then o1 else number sym_size res.end spec (push 45 o1))

unfoldable pub put_flags : Bool → ℕ → Output → Output
put_flags false flags o =
    number sym_size flags flag_spec (text (32 ∷ 102 ∷ 108 ∷ 97 ∷ 103 ∷ 115 ∷ 32 ∷ []) o)
put_flags true flags o =
    let o1 = if has flags 0x0010_0000 then text (32 ∷ 54 ∷ 52 ∷ 98 ∷ 105 ∷ 116 ∷ []) o else o in
    let o2 = if has flags 0x2000 then text (32 ∷ 112 ∷ 114 ∷ 101 ∷ 102 ∷ []) o1 else o1 in
    let o3 =
      if has flags 0x0020_0000 then text (32 ∷ 119 ∷ 105 ∷ 110 ∷ 100 ∷ 111 ∷ 119 ∷ []) o2 else o2 in
    if has flags 0x1000_0000
    then text (32 ∷ 100 ∷ 105 ∷ 115 ∷ 97 ∷ 98 ∷ 108 ∷ 101 ∷ 100 ∷ []) o3
    else o3

-- The text in the array `sym`, which starts at 0 in a memory of its own. The array's size bounds the
-- code's writes; the memory here has no end, so an overflow does not show.
unfoldable pub resource_text : Bool → Resource → Output
resource_text decode res =
    let start = push 91 (record { at = 0; mem = λ p. 0 }) in
    let (name, spec, decode) = kind res.flags decode in
    push 0 (push 93 (put_flags decode res.flags (put_range decode spec res (text name start))))

-- The bytes from `p` on.
unfoldable pub bytes_of : Memory → ℕ → ℕ → List ℕ
bytes_of m p zero = []
bytes_of m p (suc n) = m p ∷ bytes_of m (p + 1) n

-- The last push is the NUL.
unfoldable pub resource_string : ℕ → Bool → Resource → PrintfSpec → Output → Output
resource_string end decode res spec o =
    let sym = resource_text decode res in
    string end (constant (bytes_of sym.mem 0 (sym.at - 1))) spec o

-- hex_asc[x]
abbrev hex_asc : ℕ → ℕ
hex_asc x = if ltb x 10 then 48 + x else 87 + x

-- The loop of hex_string from byte `i` on, with `n` bytes to go.
unfoldable pub put_bytes : ℕ → ℕ → ℕ → ℕ → ℕ → Output → Output
put_bytes end addr separator i zero o = o
put_bytes end addr separator i (suc n) o =
    let byte = o.mem (addr + i) in
    let o1 = put end (hex_asc (byte / 16 % 16)) o in
    let o2 = put end (hex_asc (o1.mem (addr + i) % 16)) o1 in
    let o3 = if separator == 0 || n == 0 then o2 else put end separator o2 in
    put_bytes end addr separator (i + 1) n o3

abbrev separator_of : ℕ → ℕ
separator_of c = if c == 67 then 58 else if c == 68 then 45 else if c == 78 then 0 else 32

unfoldable pub hex_string : ℕ → ℕ → PrintfSpec → ℕ → Output → Output
hex_string end addr spec c o =
    if spec.field_width == 0
    then o
    else (let len = if is_negative spec.field_width then 1 else min spec.field_width 64 in
        put_bytes end addr (separator_of c) 0 len o)

-- *(const phys_addr_t *)addr, least byte first; dma_addr_t has as many bytes.
unfoldable pub load64 : Memory → ℕ → ℕ → ℕ
load64 m p zero = 0
load64 m p (suc n) = m p + 256 * load64 m (p + 1) n

unfoldable pub address_val : ℕ → ℕ → PrintfSpec → Output → Output
address_val end addr spec o =
    number end (load64 o.mem addr 8)
      (record spec {
        flags = bit_or spec.flags (special + small + zeropad);
        base = 16;
        field_width = 18;
      })
      o

-- `fmt` and `next` are the two characters behind the `p`; `resource_at` gives the resource at an
-- address.
unfoldable pub pointer : (ℕ → Resource) → ℕ → ℕ → ℕ → ℕ → PrintfSpec → Output → Output
pointer resource_at fmt next end ptr spec o =
    let unset = spec.field_width == no_value in
    if ptr == 0 && not (fmt == 75)
    then string end (constant null_text)
        (record spec { field_width = if unset then 16 else spec.field_width }) o
    else if fmt == 82 || fmt == 114
    then resource_string end (fmt == 82) (resource_at ptr) spec o
    else if fmt == 104
    then hex_string end ptr spec next o
    else if fmt == 97
    then address_val end ptr spec o
    else (let flags = bit_or spec.flags small in
        number end ptr
          (record spec {
            flags = if unset then bit_or flags zeropad else flags;
            base = 16;
            field_width = if unset then 16 else spec.field_width;
          })
          o)
