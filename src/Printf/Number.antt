-- ===== src/Printf/Number.antt =====
-- lib/vsprintf.c: number.
use Prim.Native.Nat.{bit_and, bit_or}
use sandix.Common.{
  ℕ, zero, suc, ◌+◌, ◌-◌, ◌/◌, ◌%◌, ◌^◌, Bool, not, ◌&&◌, ◌||◌, List, [], ◌∷◌, length, ltb, leb,
  ◌==◌, if◌then◌else◌,
}
use sandix.Printf.{
  PrintfSpec, sign, left, plus, space, zeropad, small, special, has, is_negative, minus, Output,
  put, pad, rounds, behind,
}
use sandix.Printf.Digits.{put_dec}

-- hex_asc_upper[x]
unfoldable pub hex_asc_upper : ℕ → ℕ
hex_asc_upper x = if ltb x 10 then 48 + x else 55 + x

-- The loop for octal and hex digits; 22 rounds are enough for 64 bits.
unfoldable pub bit_digits : ℕ → ℕ → ℕ → ℕ → ℕ → List ℕ
bit_digits zero mask shift locase num = []
bit_digits (suc k) mask shift locase num =
    let rest = bit_digits k mask shift locase (num / 2 ^ shift) in
    bit_or (hex_asc_upper (bit_and (num % 256) mask)) locase
    ∷ (if num / 2 ^ shift == 0 then [] else rest)

-- tmp, least digit first.
unfoldable pub digits : ℕ → ℕ → ℕ → List ℕ
digits base locase num =
    if ltb num base
    then bit_or (hex_asc_upper num) locase ∷ []
    else if base == 10
    then put_dec num
    else bit_digits 22 (base - 1) (if base == 16 then 4 else 3) locase num

-- The sign, 0 for none, and the number without it.
unfoldable pub sign_of : ℕ → ℕ → ℕ × ℕ
sign_of flags num =
    if has flags sign
    then (if leb 0x8000_0000_0000_0000 num
        then (45, 0x1_0000_0000_0000_0000 - num)
        else if has flags plus
        then (43, num)
        else if has flags space
        then (32, num)
        else (0, num))
    else (0, num)

-- `while (--i >= 0)`, with tmp[0] .. tmp[i - 1] as a list.
unfoldable pub put_reversed : ℕ → List ℕ → Output → Output
put_reversed end [] o = o
put_reversed end (c ∷ cs) o = put end c (put_reversed end cs o)

-- `while (i <= --precision)`
abbrev pub more_zeros : ℕ → ℕ → ℕ
more_zeros i precision = if is_negative precision then 0 else precision - i

-- What number prints around its digits.
pub record Layout : Type 0 where
  pub flags : ℕ
  pub base : ℕ
  pub sign_char : ℕ
  pub need_pfx : Bool
  pub is_zero : Bool
  pub digits : List ℕ
  pub width : ℕ
  pub precision : ℕ

-- The first half of number: the flags and the fields as they are before anything is printed.
unfoldable pub layout : ℕ → PrintfSpec → Layout
layout num spec =
    let flags =
      if has spec.flags left then spec.flags - bit_and spec.flags zeropad else spec.flags in
    let (sign_char, num) = sign_of flags num in
    let is_zero = num == 0 in
    let need_pfx = has flags special && not (spec.base == 10) in
    let digits = digits spec.base (bit_and spec.flags small) num in
    let signed = if sign_char == 0 then spec.field_width else minus spec.field_width 1 in
    let prefixed =
      if need_pfx
      then (if spec.base == 16 then minus signed 2 else if is_zero then signed else minus signed 1)
      else signed in
    let precision =
      if is_negative spec.precision || ltb spec.precision (length digits)
      then length digits
      else spec.precision in
    record {
      flags = flags;
      base = spec.base;
      sign_char = sign_char;
      need_pfx = need_pfx;
      is_zero = is_zero;
      digits = digits;
      width = minus prefixed precision;
      precision = precision;
    }

-- The sign and the prefix.
unfoldable pub put_prefix : ℕ → Layout → Output → Output
put_prefix end l o =
    let signed = if l.sign_char == 0 then o else put end l.sign_char o in
    if l.need_pfx
    then (let zeroed = if l.base == 16 || not l.is_zero then put end 48 signed else signed in
        if l.base == 16 then put end (bit_or 88 (bit_and l.flags small)) zeroed else zeroed)
    else signed

unfoldable pub number : ℕ → ℕ → PrintfSpec → Output → Output
number end num spec o =
    let l = layout num spec in
    let leading = bit_and l.flags (zeropad + left) == 0 in
    let o1 = if leading then pad end 32 (rounds l.width) o else o in
    let w1 = if leading then behind l.width else l.width in
    let o2 = put_prefix end l o1 in
    let filling = not (has l.flags left) in
    let o3 = if filling then pad end (32 + bit_and l.flags zeropad) (rounds w1) o2 else o2 in
    let w2 = if filling then behind w1 else w1 in
    let o4 = pad end 48 (more_zeros (length l.digits) l.precision) o3 in
    pad end 32 (rounds w2) (put_reversed end l.digits o4)
