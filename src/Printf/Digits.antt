-- ===== src/Printf/Digits.antt =====
-- lib/vsprintf.c: put_dec and its helpers. The characters come least digit first.
pub mod Value
pub mod Leading
use sandix.Common.{
  ℕ, ◌+◌, ◌-◌, ◌*◌, ◌/◌, ◌%◌, Bool, true, false, List, [], ◌∷◌, ◌++◌, ltb, ◌==◌, if◌then◌else◌,
}

abbrev u32 : ℕ
u32 = 0x1_0000_0000

-- decpair[x], as its two bytes in memory.
unfoldable pub decpair : ℕ → List ℕ
decpair x = (48 + x % 10) ∷ (48 + x / 10) ∷ []

-- The labels out_r and out_q: two bytes are written, and the second counts if it is not a zero.
unfoldable pub last_pair : ℕ → List ℕ
last_pair r = if ltb r 10 then (48 + r) ∷ [] else decpair r

-- r / 100 by a multiplication.
unfoldable pub div100 : ℕ → ℕ
div100 r = r * 0x28f5c29 / u32

unfoldable pub div100_small : ℕ → ℕ
div100_small r = r * 0x147b % u32 / 0x8_0000

unfoldable pub put_dec_trunc8 : ℕ → List ℕ
put_dec_trunc8 r =
    if ltb r 100
    then last_pair r
    else (let q = div100 r in
        decpair (r - 100 * q)
        ++ (if ltb q 100
            then last_pair q
            else (let r' = div100 q in
                decpair (q - 100 * r')
                ++ (if ltb r' 100
                    then last_pair r'
                    else (let q' = div100_small r' in decpair (r' - 100 * q') ++ last_pair q')))))

unfoldable pub put_dec_full4 : ℕ → List ℕ
put_dec_full4 r = let q = div100_small r in decpair (r - 100 * q) ++ decpair q

-- The quotient that put_dec_helper4 returns; it prints the rest.
unfoldable pub div10000 : ℕ → ℕ
div10000 x = x * 0x346dc5d7 / 0x800_0000_0000

unfoldable pub put_dec_helper4 : ℕ → List ℕ
put_dec_helper4 x = put_dec_full4 (x - div10000 x * 10000)

-- `while (buf[-1] == '0') --buf;`
unfoldable pub drop_zeros : List ℕ → List ℕ
drop_zeros [] = []
drop_zeros (c ∷ cs) =
    let rest = drop_zeros cs in
    elim rest [ [] ↦ if c == 48 then [] else c ∷ [] | d ∷ ds ↦ c ∷ d ∷ ds ]

-- The four values of q, in unsigned int.
unfoldable pub part0 : ℕ → ℕ
part0 n =
    (656 * (n / 0x1_0000_0000_0000)
      + 7296 * (n / u32 % 0x1_0000)
      + 5536 * (n / 0x1_0000 % 0x1_0000)
      + n % 0x1_0000)
    % u32

unfoldable pub part1 : ℕ → ℕ
part1 n =
    (div10000 (part0 n)
      + 7671 * (n / 0x1_0000_0000_0000)
      + 9496 * (n / u32 % 0x1_0000)
      + 6 * (n / 0x1_0000 % 0x1_0000))
    % u32

unfoldable pub part2 : ℕ → ℕ
part2 n = (div10000 (part1 n) + 4749 * (n / 0x1_0000_0000_0000) + 42 * (n / u32 % 0x1_0000)) % u32

unfoldable pub part3 : ℕ → ℕ
part3 n = (div10000 (part2 n) + 281 * (n / 0x1_0000_0000_0000)) % u32

-- The twelve low digits, and what follows them.
unfoldable pub put_low : ℕ → List ℕ → List ℕ
put_low n rest =
    put_dec_helper4 (part0 n) ++ (put_dec_helper4 (part1 n) ++ (put_dec_helper4 (part2 n) ++ rest))

unfoldable pub put_dec : ℕ → List ℕ
put_dec n =
    if ltb n 1_0000_0000
    then put_dec_trunc8 n
    else if part3 n == 0
    then drop_zeros (put_low n [])
    else put_low n (put_dec_trunc8 (part3 n))
