-- ===== src/Strings/Str/Search.antt =====
-- lib/string.c: what strstr and strnstr find.
use sandix.Common.{
  ℕ, zero, suc, ◌+◌, ◌-◌, ◌<◌, ◌≡◌, refl, subst, some, ◌==◌, false, arith, Bool-cases, inl, inr,
}
use sandix.Strings.Mem.{Memory, memcmp, null}
use sandix.Strings.Mem.Scan.{SameBytes, IsBytes, memcmp-SameBytes}
use sandix.Strings.Str.{find_string, strstr}
use sandix.Strings.Str.Length.{IsString, strlen-IsString}

-- What a search over `n` places comes to: the first of them at which the `l` bytes at s2 stand, or
-- NULL if they stand at none.
pub data Found (m : Memory) (s1 s2 l n : ℕ) : ℕ → Type 0 where
  first :
      (i p : ℕ)
      → p ≡ s1 + i
      → i < n
      → SameBytes m p s2 l
      → ((j : ℕ) → j < i → ¬ (SameBytes m (s1 + j) s2 l))
      → Found m s1 s2 l n p
  missing : ((j : ℕ) → j < n → ¬ (SameBytes m (s1 + j) s2 l)) → Found m s1 s2 l n null

avoid_next :
    (m : Memory) (s1 s2 l k : ℕ)
    → ¬ (SameBytes m s1 s2 l)
    → ((j : ℕ) → j < k → ¬ (SameBytes m (s1 + 1 + j) s2 l))
    → (j : ℕ) → j < suc k
    → ¬ (SameBytes m (s1 + j) s2 l)
avoid_next m s1 s2 l k absent h zero b same =
    absent (subst (λ p. SameBytes m p s2 l) (omega arith) same)
avoid_next m s1 s2 l k absent h (suc j) b same =
    h j (omega arith) (subst (λ p. SameBytes m p s2 l) (omega arith) same)

Found-next :
    (m : Memory) (s1 s2 l n : ℕ) {p : ℕ}
    → ¬ (SameBytes m s1 s2 l)
    → Found m (s1 + 1) s2 l n p
    → Found m s1 s2 l (suc n) p
Found-next m s1 s2 l n absent (first i p e b same before) =
    first (suc i) p (omega arith) (omega arith) same (avoid_next m s1 s2 l i absent before)
Found-next m s1 s2 l n absent (missing before) = missing (avoid_next m s1 s2 l n absent before)

find_string-Found :
    (m : Memory) (s1 s2 l n : ℕ) → IsBytes m → Found m s1 s2 l n (find_string m s1 s2 l n)
unfolding find_string
find_string-Found m s1 s2 l zero h = missing (λ j b. absurd (omega arith))
find_string-Found m s1 s2 l (suc n) h = elim (Bool-cases (memcmp m s1 s2 l == 0)) [
  | inl eq ↦
      let same = (memcmp-SameBytes m s1 s2 l h).0 (ground arith) in
      rw (find_string, eq)
        (first 0 s1 (omega arith) (omega arith) same (λ j b. absurd (omega arith)))
  | inr ne ↦
      let absent : ¬ (SameBytes m s1 s2 l) =
        λ s. absurd (ground (arith, (memcmp-SameBytes m s1 s2 l h).1 s)) in
      rw (find_string, ne) (Found-next m s1 s2 l n absent (find_string-Found m (s1 + 1) s2 l n h))
]

suc_not_nul : (l : ℕ) → (suc l == 0) ≡ false
suc_not_nul l = ground arith

-- strstr on two strings ends, with as much fuel as either has bytes with its NUL. It returns the
-- first place in the string at s1 at which the bytes of the string at s2 stand before the NUL, or
-- NULL if there is none; the empty string stands at the start.
pub strstr-Found :
    (k : ℕ) (m : Memory) (s1 s2 n l : ℕ)
    → IsBytes m
    → IsString m s1 n
    → IsString m s2 l
    → n < k
    → l < k
    → (p : ℕ) × (strstr k m s1 s2 ≡ some p) × Found m s1 s2 l (n + 1 - l) p
unfolding strstr
strstr-Found k m s1 s2 n zero h a b f g = (
  s1,
  rw (strlen-IsString k m s2 0 b g) refl,
  first 0 s1 (omega arith) (omega arith) (λ i c. absurd (omega arith))
      (λ j c. absurd (omega arith)),
)
strstr-Found k m s1 s2 n (suc l) h a b f g = (
  find_string m s1 s2 (suc l) (n + 1 - suc l),
  rw (strlen-IsString k m s2 (suc l) b g, suc_not_nul l, strlen-IsString k m s1 n a f) refl,
  find_string-Found m s1 s2 (suc l) (n + 1 - suc l) h,
)
