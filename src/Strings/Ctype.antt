-- ===== src/Strings/Ctype.antt =====
-- lib/ctype.c and include/sandix/ctype.h: the classes of the characters.
use Prim.Native.Nat.{bit_and}
use sandix.Common.{ℕ, ◌+◌, ◌%◌, Bool, not, if◌then◌else◌, ltb, ◌==◌}

abbrev upper : ℕ
upper = 0x01

abbrev lower : ℕ
lower = 0x02

abbrev digit : ℕ
digit = 0x04

abbrev cntrl : ℕ
cntrl = 0x08

abbrev punct : ℕ
punct = 0x10

abbrev space : ℕ
space = 0x20

abbrev hex_digit : ℕ
hex_digit = 0x40

abbrev hard_space : ℕ
hard_space = 0x80

-- The table, by its runs of equal entries.
unfoldable pub ctype : ℕ → ℕ
ctype c =
    if ltb c 9
    then cntrl
    else if ltb c 14
    then cntrl + space
    else if ltb c 32
    then cntrl
    else if ltb c 33
    then space + hard_space
    else if ltb c 48
    then punct
    else if ltb c 58
    then digit
    else if ltb c 65
    then punct
    else if ltb c 71
    then upper + hex_digit
    else if ltb c 91
    then upper
    else if ltb c 97
    then punct
    else if ltb c 103
    then lower + hex_digit
    else if ltb c 123
    then lower
    else if ltb c 127
    then punct
    else if ltb c 128
    then cntrl
    else if ltb c 160
    then 0
    else if ltb c 161
    then space + hard_space
    else if ltb c 192
    then punct
    else if ltb c 215
    then upper
    else if ltb c 216
    then punct
    else if ltb c 223
    then upper
    else if ltb c 247
    then lower
    else if ltb c 248
    then punct
    else lower

-- __ismask(c) & mask, with the cast to unsigned char.
abbrev has_class : ℕ → ℕ → Bool
has_class mask c = not (bit_and (ctype (c % 256)) mask == 0)

unfoldable pub isspace : ℕ → Bool
isspace c = has_class space c

unfoldable pub isupper : ℕ → Bool
isupper c = has_class upper c

-- c - ('A' - 'a') as an unsigned char
unfoldable pub tolower : ℕ → ℕ
tolower c = if isupper c then (c + 32) % 256 else c

unfoldable pub isdigit : ℕ → Bool
isdigit c = has_class digit c

unfoldable pub isalnum : ℕ → Bool
isalnum c = has_class (upper + lower + digit) c

unfoldable pub iscntrl : ℕ → Bool
iscntrl c = has_class cntrl c

unfoldable pub islower : ℕ → Bool
islower c = has_class lower c

-- c - ('a' - 'A') as an unsigned char
unfoldable pub toupper : ℕ → ℕ
toupper c = if islower c then (c + 224) % 256 else c
