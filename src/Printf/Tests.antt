-- ===== src/Printf/Tests.antt =====
-- lib/vsprintf.c: runs, and the theorems at concrete calls.
use sandix.Common.{
  ℕ, zero, suc, ◌≡◌, ◌≢◌, refl, true, get_elem?, Option, none, some, List, [], ◌∷◌, ◌+◌, ◌-◌, ◌<◌,
  ◌≤◌, ◌⊎◌, arith, ltb, if◌then◌else◌,
}
use sandix.Strings.Mem.{Memory}
use sandix.Resource.{Resource}
use sandix.Word.{add64, sub64}
use sandix.Strings.Ctype.{ctype, isdigit, isalnum}
use sandix.Strings.Str.{strnlen, strnlen_end}
use sandix.Printf.{pad, put, put_all}
use sandix.Printf.Digits.{
  decpair, div100, div10000, div100_small, drop_zeros, last_pair, part0, part1, part2, part3,
  put_dec, put_dec_full4, put_dec_helper4, put_dec_trunc8, put_low,
}
use sandix.Printf.Number.{
  bit_digits, digits, hex_asc_upper, layout, number, put_prefix, put_reversed, sign_of,
}
use sandix.Printf.Text.{
  string, copy_source, source_length, pointer, resource_string, resource_text, kind, put_range,
  put_flags, push, bytes_of,
}
use sandix.Printf.Decode.{
  format_decode, decode_start, decode_flags, flag_of, decode_width, decode_precision, skip_atoi,
  decode_modifier, decode_conversion, number_type, split_text,
}
use sandix.Printf.Digits.Value.{Denotes}
use sandix.Printf.Digits.Leading.{leads, put_dec-IsDecimal}
use sandix.Printf.Format.Literal.{vsnprintf-Literal}
use sandix.Printf.Format.Result.{Printed, vscnprintf_fits}
use sandix.Printf.Format.{
  vscnprintf, vsnprintf, format_loop, format_round, number_arg, terminate, skip_alnum,
}

abbrev at_index : List ℕ → ℕ → ℕ
at_index [] i = 0
at_index (x ∷ xs) zero = x
at_index (x ∷ xs) (suc i) = at_index xs i

-- 170 everywhere but for the text "ab" at 0x2000.
abbrev blank : Memory
blank p = if ltb p 0x2000 then 170 else if ltb p 0x2002 then p - 0x2000 + 97 else 0

abbrev ports_at : ℕ → Resource
ports_at p = record { start = 0x60; end = 0x6f; flags = 0x100; parent = 0; sibling = 0; child = 0 }

abbrev bytes : ℕ → ℕ → Memory → List ℕ
bytes p zero m = []
bytes p (suc n) m = m p ∷ bytes (p + 1) n m

abbrev printed : Option (ℕ × Memory) → ℕ → Option (ℕ × List ℕ)
printed none n = none
printed (some (ret, m)) n = some (ret, bytes 0x1000 n m)

-- "%3d|%-3x|%s" with -5, 0xbe and "ab": " -5|be |ab".
print_runs :
    printed
      (vsnprintf
        (at_index (0xffff_ffff_ffff_fffb ∷ 0xbe ∷ 0x2000 ∷ []))
        ports_at
        0x1000
        32
        (37 ∷ 51 ∷ 100 ∷ 124 ∷ 37 ∷ 45 ∷ 51 ∷ 120 ∷ 124 ∷ 37 ∷ 115 ∷ [])
        blank)
      11
    ≡ some (10, 32 ∷ 45 ∷ 53 ∷ 124 ∷ 98 ∷ 101 ∷ 32 ∷ 124 ∷ 97 ∷ 98 ∷ 0 ∷ [])
unfolding decpair div100 div10000 div100_small drop_zeros last_pair part0 part1 part2 part3 put_dec
    put_dec_full4 put_dec_helper4 put_dec_trunc8 put_low bit_digits digits hex_asc_upper layout
    number put_prefix put_reversed sign_of string copy_source source_length pointer resource_string
    resource_text kind put_range put_flags push bytes_of format_decode decode_start decode_flags
    flag_of decode_width decode_precision skip_atoi decode_modifier decode_conversion number_type
    split_text vsnprintf format_loop format_round number_arg terminate skip_alnum pad put put_all
    strnlen strnlen_end add64 sub64 ctype isdigit isalnum
print_runs = refl

-- "%pR" in a buffer of eight bytes: "[io  0x0060-0x006f]", cut.
resource_runs :
    printed (vsnprintf (at_index (5 ∷ [])) ports_at 0x1000 8 (37 ∷ 112 ∷ 82 ∷ []) blank) 9
    ≡ some (19, 91 ∷ 105 ∷ 111 ∷ 32 ∷ 32 ∷ 48 ∷ 120 ∷ 0 ∷ 170 ∷ [])
unfolding decpair div100 div10000 div100_small drop_zeros last_pair part0 part1 part2 part3 put_dec
    put_dec_full4 put_dec_helper4 put_dec_trunc8 put_low bit_digits digits hex_asc_upper layout
    number put_prefix put_reversed sign_of string copy_source source_length pointer resource_string
    resource_text kind put_range put_flags push bytes_of format_decode decode_start decode_flags
    flag_of decode_width decode_precision skip_atoi decode_modifier decode_conversion number_type
    split_text vsnprintf format_loop format_round number_arg terminate skip_alnum pad put put_all
    strnlen strnlen_end add64 sub64 ctype isdigit isalnum
resource_runs = refl

vscnprintf_fits_example :
    (n : ℕ) × (m' : Memory) × (k : ℕ) × (vscnprintf
        (at_index (5 ∷ []))
        ports_at
        0x1000
        8
        (37 ∷ 112 ∷ 82 ∷ [])
        blank
      ≡ some (n, m'))
    × ((q : ℕ) → ((0x1000 ≤ q) × (q < 0x1000 + 8)) ⊎ (m' q ≡ blank q))
    × (n ≤ k)
    × (k < 8)
    × (m' (0x1000 + k) ≡ 0)
vscnprintf_fits_example =
    vscnprintf_fits (at_index (5 ∷ [])) ports_at 0x1000 8 (37 ∷ 112 ∷ 82 ∷ []) blank (omega arith)
      (omega arith) (omega arith)

abbrev large : ℕ
large = 0x1234_5678_9abc_def0

put_dec-IsDecimal_example :
    Denotes large (put_dec large)
    × (((large ≡ 0) × (put_dec large ≡ 48 ∷ [])) ⊎ (leads (put_dec large) ≡ true))
put_dec-IsDecimal_example = put_dec-IsDecimal large (omega arith)

abbrev conversion : List ℕ
conversion = 37 ∷ 112 ∷ 82 ∷ []

-- "hi%pR" in 8 bytes.
vsnprintf-Literal_example :
    (count ret : ℕ) × (m' : Memory) × Printed 0x1000 8 blank count ret m'
    × (vsnprintf (at_index (5 ∷ [])) ports_at 0x1000 8 (104 ∷ 105 ∷ 37 ∷ 112 ∷ 82 ∷ []) blank
        ≡ some (ret, m'))
    × (2 ≤ count)
    × ((conversion ≢ []) ⊎ (count ≡ 2))
    × ((i : ℕ) → (2 ≤ i) ⊎ (8 ≤ i + 1) ⊎ (get_elem? (104 ∷ 105 ∷ []) i ≡ some (m' (0x1000 + i))))
vsnprintf-Literal_example =
    vsnprintf-Literal (at_index (5 ∷ [])) ports_at 0x1000 8 (104 ∷ 105 ∷ []) conversion blank
      (omega arith, (omega arith, tt)) refl (omega arith) (omega arith)
