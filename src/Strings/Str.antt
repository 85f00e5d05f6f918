-- ===== src/Strings/Str.antt =====
-- lib/string.c: the functions on strings that a NUL ends, and those with a limit.
pub mod Length
pub mod Compare
pub mod Bounded
pub mod Search
use sandix.Common.{
  ℕ, zero, suc, ◌+◌, ◌-◌, ◌%◌, Bool, true, false, not, ◌&&◌, ◌||◌, Option, none, some, ltb, leb,
  ◌==◌, if◌then◌else◌,
}
use sandix.Strings.Ctype.{isspace, tolower}
use sandix.Strings.Mem.{Memory, write, null, int_sub, memcpy, memcmp}

infixl 5 ◌>>=◌
abbrev pub ◌>>=◌ : {A B : Type 0} → Option A → (A → Option B) → Option B
none >>= f = none
some x >>= f = f x

-- A loop that only a NUL ends has fuel for its rounds, and none is the result without enough of it.
unfoldable pub skip_spaces : ℕ → Memory → ℕ → Option ℕ
skip_spaces zero m str = none
skip_spaces (suc k) m str = elim (isspace (m str)) [
  | true ↦ skip_spaces k m (str + 1)
  | false ↦ some str
]

-- `while (*sc) sc++`
unfoldable pub find_nul : ℕ → Memory → ℕ → Option ℕ
find_nul zero m sc = none
find_nul (suc k) m sc = elim (m sc == 0) [ true ↦ some sc | false ↦ find_nul k m (sc + 1) ]

unfoldable pub strlen : ℕ → Memory → ℕ → Option ℕ
strlen k m s = do sc ← find_nul k m s; some (sc - s)

unfoldable pub strnlen_end : Memory → ℕ → ℕ → ℕ
strnlen_end m sc zero = sc
strnlen_end m sc (suc count) = elim (m sc == 0) [ true ↦ sc | false ↦ strnlen_end m (sc + 1) count ]

unfoldable pub strnlen : Memory → ℕ → ℕ → ℕ
strnlen m s count = strnlen_end m s count - s

-- The loop of strim, with end + 1 - s as its count; the result is end + 1.
unfoldable pub trimmed_end : Memory → ℕ → ℕ → ℕ
trimmed_end m s zero = s
trimmed_end m s (suc n) = elim (isspace (m (s + n))) [
  | true ↦ trimmed_end m s n
  | false ↦ s + suc n
]

unfoldable pub strim : ℕ → Memory → ℕ → Option (ℕ × Memory)
strim k m s = do
  size ← strlen k m s
  if size == 0
      then some (s, m)
      else (do let m' = write m (trimmed_end m s size) 0; str ← skip_spaces k m' s; some (str, m'))

-- The loop of strcpy, strcat: the memory behind it.
unfoldable pub strcpy : ℕ → Memory → ℕ → ℕ → Option Memory
strcpy zero m dest src = none
strcpy (suc k) m dest src =
    let m' = write m dest (m src) in
    elim (m src == 0) [ true ↦ some m' | false ↦ strcpy k m' (dest + 1) (src + 1) ]

unfoldable pub strncpy : Memory → ℕ → ℕ → ℕ → Memory
strncpy m tmp src zero = m
strncpy m tmp src (suc count) =
    let m' = write m tmp (m src) in
    strncpy m' (tmp + 1) (if m' tmp == 0 then src else src + 1) count

-- The return value and the memory.
unfoldable pub strlcpy : ℕ → Memory → ℕ → ℕ → ℕ → Option (ℕ × Memory)
strlcpy k m dest src size = do
  ret ← strlen k m src
  if size == 0 then some (ret, m) else (do
    let len = if leb size ret then size - 1 else ret
    some (ret, write (memcpy m dest src len) (dest + len) 0))

unfoldable pub strcat : ℕ → Memory → ℕ → ℕ → Option Memory
strcat k m dest src = do dest ← find_nul k m dest; strcpy k m dest src

-- The second loop of strncat, with `count` at least one more.
unfoldable pub strncat_copy : Memory → ℕ → ℕ → ℕ → Memory
strncat_copy m dest src zero =
    let m' = write m dest (m src) in if m src == 0 then m' else write m' (dest + 1) 0
strncat_copy m dest src (suc count) =
    let m' = write m dest (m src) in
    elim (m src == 0) [ true ↦ m' | false ↦ strncat_copy m' (dest + 1) (src + 1) count ]

unfoldable pub strncat : ℕ → Memory → ℕ → ℕ → ℕ → Option Memory
strncat k m dest src zero = some m
strncat k m dest src (suc count) = do dest ← find_nul k m dest; some (strncat_copy m dest src count)

-- -1 as an int
abbrev pub minus_one : ℕ
minus_one = 0xffff_ffff

unfoldable pub strcmp : ℕ → Memory → ℕ → ℕ → Option ℕ
strcmp zero m cs ct = none
strcmp (suc k) m cs ct = elim (m cs == m ct) [
  | false ↦ some (if ltb (m cs) (m ct) then minus_one else 1)
  | true ↦ elim (m cs == 0) [ true ↦ some 0 | false ↦ strcmp k m (cs + 1) (ct + 1) ]
]

unfoldable pub strncmp : Memory → ℕ → ℕ → ℕ → ℕ
strncmp m cs ct zero = 0
strncmp m cs ct (suc count) = elim (m cs == m ct) [
  | false ↦ if ltb (m cs) (m ct) then minus_one else 1
  | true ↦ elim (m cs == 0) [ true ↦ 0 | false ↦ strncmp m (cs + 1) (ct + 1) count ]
]

unfoldable pub strcasecmp : ℕ → Memory → ℕ → ℕ → Option ℕ
strcasecmp zero m s1 s2 = none
strcasecmp (suc k) m s1 s2 =
    let c1 = tolower (m s1) in
    let c2 = tolower (m s2) in
    elim (c1 == c2 && not (c1 == 0)) [
      | true ↦ strcasecmp k m (s1 + 1) (s2 + 1)
      | false ↦ some (int_sub c1 c2)
    ]

-- What a round of strncasecmp ends in: c1 and c2, and whether it breaks.
abbrev pub folded : ℕ → ℕ → Bool × ℕ × ℕ
folded c1 c2 =
    if c1 == 0 || c2 == 0
    then (true, c1, c2)
    else if c1 == c2
    then (false, c1, c2)
    else (not (tolower c1 == tolower c2), tolower c1, tolower c2)

-- The loop, with `len` one more.
unfoldable pub strncasecmp_loop : Memory → ℕ → ℕ → ℕ → ℕ
strncasecmp_loop m s1 s2 zero = let (stop, c1, c2) = folded (m s1) (m s2) in int_sub c1 c2
strncasecmp_loop m s1 s2 (suc len) =
    let (stop, c1, c2) = folded (m s1) (m s2) in
    elim stop [ true ↦ int_sub c1 c2 | false ↦ strncasecmp_loop m (s1 + 1) (s2 + 1) len ]

unfoldable pub strncasecmp : Memory → ℕ → ℕ → ℕ → ℕ
strncasecmp m s1 s2 zero = 0
strncasecmp m s1 s2 (suc len) = strncasecmp_loop m s1 s2 len

unfoldable pub strchr : ℕ → Memory → ℕ → ℕ → Option ℕ
strchr zero m s c = none
strchr (suc k) m s c = elim (m s == c % 256) [
  | true ↦ some s
  | false ↦ elim (m s == 0) [ true ↦ some null | false ↦ strchr k m (s + 1) c ]
]

-- The loop of strrchr; the fourth argument is `last`.
unfoldable pub strrchr_loop : ℕ → Memory → ℕ → ℕ → ℕ → Option ℕ
strrchr_loop zero m s c last = none
strrchr_loop (suc k) m s c last =
    let last' = if m s == c % 256 then s else last in
    elim (m s == 0) [ true ↦ some last' | false ↦ strrchr_loop k m (s + 1) c last' ]

unfoldable pub strrchr : ℕ → Memory → ℕ → ℕ → Option ℕ
strrchr k m s c = strrchr_loop k m s c null

unfoldable pub strnchr : Memory → ℕ → ℕ → ℕ → ℕ
strnchr m s zero c = null
strnchr m s (suc count) c = elim (m s == 0) [
  | true ↦ null
  | false ↦ elim (m s == c % 256) [ true ↦ s | false ↦ strnchr m (s + 1) count c ]
]

-- The loop of strstr and strnstr, with `l2` not 0 and `n` rounds in which `len >= l2` holds.
unfoldable pub find_string : Memory → ℕ → ℕ → ℕ → ℕ → ℕ
find_string m s1 s2 l2 zero = null
find_string m s1 s2 l2 (suc n) = elim (memcmp m s1 s2 l2 == 0) [
  | true ↦ s1
  | false ↦ find_string m (s1 + 1) s2 l2 n
]

unfoldable pub strstr : ℕ → Memory → ℕ → ℕ → Option ℕ
strstr k m s1 s2 = do
  l2 ← strlen k m s2
  if l2 == 0 then some s1 else (do l1 ← strlen k m s1; some (find_string m s1 s2 l2 (l1 + 1 - l2)))

unfoldable pub strnstr : ℕ → Memory → ℕ → ℕ → ℕ → Option ℕ
strnstr k m s1 s2 len = do
  l2 ← strlen k m s2
  some (if l2 == 0 then s1 else find_string m s1 s2 l2 (len + 1 - l2))
