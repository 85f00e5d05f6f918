-- ===== src/Strings/Tests.antt =====
-- lib/string.c: runs, and the theorems at concrete strings.
use native.Mathlib.Decide.{dec_lt}
use sandix.Common.{
  Option, Bool, true, not, ◌&&◌, ◌≢◌, ap, ◌∙◌, ◌==◌, ℕ, zero, suc, ◌+◌, ◌-◌, ◌<◌, ◌≡◌, refl, inl,
  inr, some, none, if◌then◌else◌, ltb, arith, List, [], ◌∷◌,
}
use sandix.Strings.Ctype.{ctype, isupper, tolower, isspace}
use sandix.Strings.Mem.{Memory, memcpy, memmove, copy_down, memcmp}
use sandix.Strings.Mem.Copy.{Copied, memmove-Copied}
use sandix.Strings.Mem.Scan.{IsBytes}
use sandix.Strings.Str.{
  minus_one, find_nul, find_string, strrchr_loop, strncasecmp_loop, trimmed_end, strlen, strcmp,
  strlcpy, strncpy, strstr, strncasecmp, strrchr, strim, skip_spaces,
}
use sandix.Strings.Str.Length.{IsString}
use sandix.Strings.Str.Compare.{Compared, strcmp-Compared}
use sandix.Strings.Str.Bounded.{Truncated, Padded, strlcpy-Truncated, strncpy-Padded}
use sandix.Strings.Str.Search.{Found, strstr-Found}

-- The byte `i` of a list, and NULs behind it.
abbrev byte_of : List ℕ → ℕ → ℕ
byte_of [] i = 0
byte_of (x ∷ xs) zero = x
byte_of (x ∷ xs) (suc i) = byte_of xs i

-- "abcab" at 0, " aB" at 8, and "cab" at 16.
abbrev bytes : Memory
bytes p =
    if ltb p 8
    then byte_of (97 ∷ 98 ∷ 99 ∷ 97 ∷ 98 ∷ []) p
    else if ltb p 16
    then byte_of (32 ∷ 97 ∷ 66 ∷ []) (p - 8)
    else byte_of (99 ∷ 97 ∷ 98 ∷ []) (p - 16)

-- The `n` bytes from `p` on.
abbrev read : Memory → ℕ → ℕ → List ℕ
read m p zero = []
read m p (suc n) = m p ∷ read m (p + 1) n

strlen_runs : strlen 6 bytes 0 ≡ some 5
unfolding strlen find_nul
strlen_runs = refl

memmove_runs : read (memmove bytes 1 0 5) 0 7 ≡ 97 ∷ 97 ∷ 98 ∷ 99 ∷ 97 ∷ 98 ∷ 0 ∷ []
unfolding memmove memcpy copy_down
memmove_runs = refl

strcmp_runs : strcmp 9 bytes 0 16 ≡ some minus_one
unfolding strcmp
strcmp_runs = refl

strstr_runs : strstr 9 bytes 0 16 ≡ some 2
unfolding strstr strlen find_nul find_string memcmp
strstr_runs = refl

strrchr_runs : strrchr 9 bytes 0 97 ≡ some 3
unfolding strrchr strrchr_loop
strrchr_runs = refl

strncasecmp_runs : strncasecmp bytes 9 0 2 ≡ 0
unfolding strncasecmp strncasecmp_loop tolower isupper ctype
strncasecmp_runs = refl

abbrev strim_start : Option (ℕ × Memory) → Option ℕ
strim_start none = none
strim_start (some (p, m)) = some p

strim_runs : strim_start (strim 9 bytes 8) ≡ some 9
unfolding strim strlen find_nul trimmed_end skip_spaces isspace ctype
strim_runs = refl

-- A string by evaluation.
no_nul : Memory → ℕ → ℕ → Bool
no_nul m s zero = true
no_nul m s (suc n) = no_nul m s n && not (m (s + n) == 0)

no_nul-inner : (m : Memory) (s n : ℕ) → no_nul m s n ≡ true → (i : ℕ) → i < n → m (s + i) ≢ 0
unfolding no_nul
no_nul-inner m s zero h i b = absurd (omega arith)
no_nul-inner m s (suc n) h i b = elim (dec_lt i n) [
  | yes k ↦ no_nul-inner m s n (ground arith) i k
  | no k ↦ λ z. let e : m (s + n) ≡ 0 = ap m (omega arith) ∙ z in absurd (ground arith)
]

IsString-at : (m : Memory) (s n : ℕ) → no_nul m s n ≡ true → m (s + n) ≡ 0 → IsString m s n
IsString-at m s n h e = record { inner = no_nul-inner m s n h; ended = e }

abcab-IsString : IsString bytes 0 5
unfolding no_nul
abcab-IsString = IsString-at bytes 0 5 refl refl

cab-IsString : IsString bytes 16 3
unfolding no_nul
cab-IsString = IsString-at bytes 16 3 refl refl

abbrev AreBytes : List ℕ → Type 0
AreBytes [] = Unit {0}
AreBytes (x ∷ xs) = (x < 256) × AreBytes xs

byte_of-lt : (xs : List ℕ) (i : ℕ) → AreBytes xs → byte_of xs i < 256
byte_of-lt [] i h = omega arith
byte_of-lt (x ∷ xs) zero h = h.0
byte_of-lt (x ∷ xs) (suc i) h = byte_of-lt xs i h.1

bytes-IsBytes : IsBytes bytes
bytes-IsBytes p = ground (
  arith,
  byte_of-lt (97 ∷ 98 ∷ 99 ∷ 97 ∷ 98 ∷ []) p
      (omega arith, (omega arith, (omega arith, (omega arith, (omega arith, tt))))),
  byte_of-lt (32 ∷ 97 ∷ 66 ∷ []) (p - 8) (omega arith, (omega arith, (omega arith, tt))),
  byte_of-lt (99 ∷ 97 ∷ 98 ∷ []) (p - 16) (omega arith, (omega arith, (omega arith, tt))),
)

memmove-Copied_example : Copied bytes 1 0 5 (memmove bytes 1 0 5)
memmove-Copied_example = memmove-Copied bytes 1 0 5

strlcpy-Truncated_example :
    (m' : Memory) × (strlcpy 9 bytes 16 0 4 ≡ some (5, m')) × Truncated bytes 16 0 5 4 m'
strlcpy-Truncated_example =
    strlcpy-Truncated 9 bytes 16 0 4 5 abcab-IsString (omega arith) (omega arith)
      (inl (omega arith))

strncpy-Padded_example : Padded bytes 0 16 3 5 (strncpy bytes 0 16 5)
strncpy-Padded_example = strncpy-Padded bytes 0 16 5 3 cab-IsString (inr (omega arith))

strcmp-Compared_example : (c : ℕ) × (strcmp 9 bytes 0 16 ≡ some c) × Compared bytes 0 16 c
strcmp-Compared_example = strcmp-Compared 9 bytes 0 16 5 abcab-IsString (omega arith)

strstr-Found_example : (p : ℕ) × (strstr 9 bytes 0 16 ≡ some p) × Found bytes 0 16 3 3 p
strstr-Found_example =
    strstr-Found 9 bytes 0 16 5 3 bytes-IsBytes abcab-IsString cab-IsString (omega arith)
      (omega arith)
