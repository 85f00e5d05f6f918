-- ===== src/Printf/Format.antt =====
-- lib/vsprintf.c: vsnprintf and the functions on it.
pub mod Tasks
pub mod Result
pub mod Literal
use sandix.Common.{
  ℕ, zero, suc, ◌+◌, ◌-◌, ◌*◌, ◌%◌, Bool, true, false, not, ◌&&◌, Option, none, some, List, [], ◌∷◌,
  length, ltb, leb, ◌==◌, if◌then◌else◌,
}
use sandix.Strings.Mem.{Memory, write}
use sandix.Strings.Ctype.{isalnum}
use sandix.Resource.{Resource}
use sandix.Printf.{
  FormatType, type_none, type_width, type_precision, type_char, type_str, type_ptr,
  type_percent_char, type_invalid, type_long_long, type_ulong, type_long, type_ubyte, type_byte,
  type_ushort, type_short, type_uint, type_int, type_size_t, type_ptrdiff, PrintfSpec, left, has,
  minus, Output, put, put_all, pad,
}
use sandix.Printf.Number.{number}
use sandix.Printf.Text.{from_pointer, string, pointer}
use sandix.Printf.Decode.{Decoded, head, tail, format_decode}

-- The rounds of `while (--width > 0)`, and the width behind it.
abbrev inner_rounds : ℕ → ℕ
inner_rounds field = if leb field 0x8000 then field - 1 else 0

abbrev inner_behind : ℕ → ℕ
inner_behind field = minus field (inner_rounds field + 1)

unfoldable pub put_char : ℕ → ℕ → PrintfSpec → Output → Output
put_char end c spec o =
    let leading = not (has spec.flags left) in
    let o1 = if leading then pad end 32 (inner_rounds spec.field_width) o else o in
    let field = if leading then inner_behind spec.field_width else spec.field_width in
    pad end 32 (inner_rounds field) (put end (c % 256) o1)

-- An int of `2 * half` values, as a long long.
abbrev sign_extend : ℕ → ℕ → ℕ
sign_extend half x =
    let low = x % (2 * half) in
    if leb half low then low + 0x1_0000_0000_0000_0000 - 2 * half else low

-- The argument as the number that is printed.
unfoldable pub number_arg : FormatType → ℕ → ℕ
number_arg type x = elim type [
  | type_long_long ↦ x
  | type_ulong ↦ x
  | type_long ↦ x
  | type_size_t ↦ x
  | type_ptrdiff ↦ x
  | type_ubyte ↦ x % 0x100
  | type_byte ↦ sign_extend 0x80 x
  | type_ushort ↦ x % 0x1_0000
  | type_short ↦ sign_extend 0x8000 x
  | type_int ↦ sign_extend 0x8000_0000 x
  | _ ↦ x % 0x1_0000_0000
]

-- `while (isalnum(*fmt)) fmt++;`
unfoldable pub skip_alnum : List ℕ → List ℕ
skip_alnum [] = []
skip_alnum (c ∷ cs) = elim (isalnum c) [ true ↦ skip_alnum cs | false ↦ c ∷ cs ]

-- What the loop of vsnprintf changes; `arg` counts the arguments taken.
pub record Format : Type 0 where
  pub spec : PrintfSpec
  pub fmt : List ℕ
  pub arg : ℕ
  pub out : Output

-- The arguments by their place, as 64-bit words, and the resources that %pR takes by their address.
module _ (args : ℕ → ℕ) (resource_at : ℕ → Resource) (end : ℕ) where
  -- The switch on the type behind format_decode.
  unfoldable pub format_round : Decoded → ℕ → Output → Format
  format_round d arg o =
      let spec = d.spec in
      let x = args arg in
      elim spec.type as (λ _. Format) [
        | type_none ↦ record { spec = spec; fmt = d.rest; arg = arg; out = put_all end d.text o }
        | type_width ↦ record {
          spec = record spec { field_width = x % 0x1_0000 };
          fmt = d.rest;
          arg = arg + 1;
          out = o;
        }
        | type_precision ↦ record {
          spec = record spec { precision = x % 0x1_0000 };
          fmt = d.rest;
          arg = arg + 1;
          out = o;
        }
        | type_char ↦ record {
          spec = spec;
          fmt = d.rest;
          arg = arg + 1;
          out = put_char end x spec o;
        }
        | type_str ↦ record {
          spec = spec;
          fmt = d.rest;
          arg = arg + 1;
          out = string end (from_pointer x) spec o;
        }
        | type_ptr ↦ record {
          spec = spec;
          fmt = skip_alnum d.rest;
          arg = arg + 1;
          out = pointer resource_at (head d.rest) (head (tail d.rest)) end x spec o;
        }
        | type_percent_char ↦ record { spec = spec; fmt = d.rest; arg = arg; out = put end 37 o }
        | type_invalid ↦ record { spec = spec; fmt = d.rest; arg = arg; out = put end 37 o }
        | _ ↦ record {
          spec = spec;
          fmt = d.rest;
          arg = arg + 1;
          out = number end (number_arg spec.type x) spec o;
        }
      ]

  -- `while (*fmt)`, with fuel for the rounds.
  unfoldable pub format_loop : ℕ → Format → Option Output
  format_loop zero f = none
  format_loop (suc k) f = elim f.fmt [
    | [] ↦ some f.out
    | c ∷ cs ↦ format_loop k (format_round (format_decode f.spec f.fmt) f.arg f.out)
  ]

abbrev pub start_spec : PrintfSpec
start_spec = record {
  type = type_none;
  flags = 0;
  base = 0;
  modifier = 0;
  field_width = 0;
  precision = 0;
}

abbrev int_max : ℕ
int_max = 0x7fff_ffff

-- `end` does not wrap around the end of the address space.
abbrev pub buffer_end : ℕ → ℕ → ℕ
buffer_end buf size =
    if ltb 0xffff_ffff_ffff_ffff (buf + size) then 0xffff_ffff_ffff_ffff else buf + size

-- The NUL: behind the text, or at the buffer's end.
unfoldable pub terminate : ℕ → ℕ → Output → Memory
terminate buf end o =
    if end == buf
    then o.mem
    else if ltb o.at end
    then write o.mem o.at 0
    else write o.mem (end - 1) 0

-- The result is an int, as its 32-bit pattern. A round reads a byte of the format or follows one that took an argument, so twice the format's
-- length is enough fuel.
unfoldable pub vsnprintf : (ℕ → ℕ) → (ℕ → Resource) → ℕ → ℕ → List ℕ → Memory → Option (ℕ × Memory)
vsnprintf args resource_at buf size fmt m =
    if ltb int_max size
    then some (0, m)
    else (let end = buffer_end buf size in
        let start : Format = record {
          spec = start_spec;
          fmt = fmt;
          arg = 0;
          out = record { at = buf; mem = m };
        } in
        elim (format_loop args resource_at end (2 * length fmt + 1) start) [
          | none ↦ none
          | some o ↦ some ((o.at - buf) % 0x1_0000_0000, terminate buf end o)
        ])

unfoldable pub vscnprintf : (ℕ → ℕ) → (ℕ → Resource) → ℕ → ℕ → List ℕ → Memory → Option (ℕ × Memory)
vscnprintf args resource_at buf size fmt m = elim (vsnprintf args resource_at buf size fmt m) [
  | none ↦ none
  | some (i, m') ↦ some ((if ltb i size then i else if size == 0 then 0 else size - 1), m')
]

-- snprintf, scnprintf and sprintf only make the va_list that these take.
unfoldable pub vsprintf : (ℕ → ℕ) → (ℕ → Resource) → ℕ → List ℕ → Memory → Option (ℕ × Memory)
vsprintf args resource_at buf fmt m = vsnprintf args resource_at buf int_max fmt m
