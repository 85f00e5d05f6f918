-- ===== src/Printf/Decode.antt =====
-- lib/vsprintf.c: format_decode.
use Prim.Native.Nat.{bit_or}
use sandix.Common.{
  ℕ, ◌+◌, ◌-◌, ◌*◌, ◌%◌, Bool, true, false, ◌&&◌, ◌||◌, List, [], ◌∷◌, ◌==◌, if◌then◌else◌,
}
use sandix.Strings.Ctype.{isdigit}
use sandix.Printf.{
  FormatType, type_none, type_width, type_precision, type_char, type_str, type_ptr,
  type_percent_char, type_invalid, type_long_long, type_ulong, type_long, type_ubyte, type_byte,
  type_ushort, type_short, type_uint, type_int, type_size_t, type_ptrdiff, PrintfSpec, sign, left,
  plus, space, zeropad, small, special, has, is_negative, minus,
}
use sandix.Printf.Text.{no_value}

-- A format is the bytes in front of its NUL: *fmt, and fmt + 1.
abbrev pub head : List ℕ → ℕ
head [] = 0
head (c ∷ cs) = c

abbrev pub tail : List ℕ → List ℕ
tail [] = []
tail (c ∷ cs) = cs

-- The number so far, and where its digits end. It is cut to a signed short by the caller.
unfoldable pub skip_atoi : ℕ → List ℕ → ℕ × List ℕ
skip_atoi i [] = (i, [])
skip_atoi i (c ∷ cs) = elim (isdigit c) [
  | true ↦ skip_atoi (i * 10 + (c - 48)) cs
  | false ↦ (i, c ∷ cs)
]

-- What a call reads: the text that it passes over, and the format behind.
pub record Decoded : Type 0 where
  pub spec : PrintfSpec
  pub text : List ℕ
  pub rest : List ℕ

abbrev pub decoded : PrintfSpec → FormatType → List ℕ → Decoded
decoded spec type rest = record { spec = record spec { type = type }; text = []; rest = rest }

-- _tolower(c)
abbrev pub lower : ℕ → ℕ
lower c = bit_or c 0x20

abbrev is_signed : PrintfSpec → Bool
is_signed spec = has spec.flags sign

-- The final type, by the modifier.
unfoldable pub number_type : PrintfSpec → FormatType
number_type spec =
    let signed = is_signed spec in
    let c = spec.modifier in
    if c == 76
    then type_long_long
    else if c == 108
    then (if signed then type_long else type_ulong)
    else if lower c == 122
    then type_size_t
    else if c == 116
    then type_ptrdiff
    else if c == 72
    then (if signed then type_byte else type_ubyte)
    else if c == 104
    then (if signed then type_short else type_ushort)
    else if signed
    then type_int
    else type_uint

-- A conversion to a number, with the flag that it sets and its base.
abbrev pub to_number : PrintfSpec → ℕ → ℕ → List ℕ → Decoded
to_number spec flag base rest =
    let spec' : PrintfSpec = record spec { flags = bit_or spec.flags flag; base = base } in
    decoded spec' (number_type spec') rest

-- The conversion specifier, with base 10 as the default.
unfoldable pub decode_conversion : PrintfSpec → List ℕ → Decoded
decode_conversion spec fmt =
    let spec' : PrintfSpec = record spec { base = 10 } in
    let c = head fmt in
    if c == 99
    then decoded spec' type_char (tail fmt)
    else if c == 115
    then decoded spec' type_str (tail fmt)
    else if c == 112
    then decoded spec' type_ptr (tail fmt)
    else if c == 37
    then decoded spec' type_percent_char (tail fmt)
    else if c == 100 || c == 105
    then to_number spec' sign 10 (tail fmt)
    else if c == 117
    then to_number spec' 0 10 (tail fmt)
    else if c == 120
    then to_number spec' small 16 (tail fmt)
    else if c == 88
    then to_number spec' 0 16 (tail fmt)
    else if c == 111
    then to_number spec' 0 8 (tail fmt)
    else decoded spec' type_invalid fmt

-- The label `modifier`; 255 is -1 as an unsigned char.
unfoldable pub decode_modifier : PrintfSpec → List ℕ → Decoded
decode_modifier spec fmt =
    let c = head fmt in
    if c == 104 || lower c == 108 || lower c == 122 || c == 116
    then (let next = tail fmt in
        if head next == c && c == 108
        then decode_conversion (record spec { modifier = 76 }) (tail next)
        else if head next == c && c == 104
        then decode_conversion (record spec { modifier = 72 }) (tail next)
        else decode_conversion (record spec { modifier = c }) next)
    else decode_conversion (record spec { modifier = 255 }) fmt

abbrev not_negative : ℕ → ℕ
not_negative x = if is_negative x then 0 else x

-- The label `precision`.
unfoldable pub decode_precision : PrintfSpec → List ℕ → Decoded
decode_precision spec fmt =
    if head fmt == 46
    then (let next = tail fmt in
        if isdigit (head next)
        then (let (i, rest) = skip_atoi 0 next in
            decode_modifier (record spec { precision = not_negative (i % 0x1_0000) }) rest)
        else if head next == 42
        then decoded (record spec { precision = no_value }) type_precision (tail next)
        else decode_modifier (record spec { precision = no_value }) next)
    else decode_modifier (record spec { precision = no_value }) fmt

unfoldable pub decode_width : PrintfSpec → List ℕ → Decoded
decode_width spec fmt =
    if isdigit (head fmt)
    then (let (i, rest) = skip_atoi 0 fmt in
        decode_precision (record spec { field_width = i % 0x1_0000 }) rest)
    else if head fmt == 42
    then decoded (record spec { field_width = no_value }) type_width (tail fmt)
    else decode_precision (record spec { field_width = no_value }) fmt

-- The flag that a character sets, or 0.
unfoldable pub flag_of : ℕ → ℕ
flag_of c =
    if c == 45
    then left
    else if c == 43
    then plus
    else if c == 32
    then space
    else if c == 35
    then special
    else if c == 48
    then zeropad
    else 0

unfoldable pub decode_flags : PrintfSpec → List ℕ → Decoded
decode_flags spec [] = decode_width spec []
decode_flags spec (c ∷ cs) = elim (flag_of c == 0) [
  | true ↦ decode_width spec (c ∷ cs)
  | false ↦ decode_flags (record spec { flags = bit_or spec.flags (flag_of c) }) cs
]

-- The text up to the next `%`, and the rest.
unfoldable pub split_text : List ℕ → List ℕ × List ℕ
split_text [] = ([], [])
split_text (c ∷ cs) =
    let (text, rest) = split_text cs in if c == 37 then ([], c ∷ cs) else (c ∷ text, rest)

unfoldable pub decode_start : PrintfSpec → List ℕ → Decoded
decode_start spec [] = record { spec = record spec { type = type_none }; text = []; rest = [] }
decode_start spec (c ∷ cs) =
    if c == 37
    then decode_flags (record spec { type = type_none; flags = 0 }) cs
    else (let (text, rest) = split_text (c ∷ cs) in
        record { spec = record spec { type = type_none }; text = text; rest = rest })

unfoldable pub format_decode : PrintfSpec → List ℕ → Decoded
format_decode spec fmt = elim spec.type [
  | type_width ↦
      let spec' : PrintfSpec =
        if is_negative spec.field_width
        then record spec { field_width = minus 0 spec.field_width; flags = bit_or spec.flags left }
        else spec in
      decode_precision (record spec' { type = type_none }) fmt
  | type_precision ↦
      decode_modifier (record spec { type = type_none; precision = not_negative spec.precision })
        fmt
  | _ ↦ decode_start spec fmt
]
