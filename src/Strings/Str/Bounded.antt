-- ===== src/Strings/Str/Bounded.antt =====
-- lib/string.c: strlcpy and strncpy, whose destination is a buffer with a size.
use sandix.Common.{
  ℕ, zero, suc, ◌+◌, ◌-◌, ◌≤◌, ◌<◌, ◌≡◌, ◌≢◌, refl, sym, ◌∙◌, ◌⊎◌, inl, some, min, if◌then◌else◌,
  leb, arith,
}
use sandix.Strings.Mem.{Memory, write, memcpy}
use sandix.Strings.Mem.Copy.{Outside, Copied, memcpy-Copied, write-hit, write-miss}
use sandix.Strings.Str.{strlcpy, strncpy}
use sandix.Strings.Str.Length.{
  IsString, IsString-head, IsString-tail, strlen-IsString, is_nul, not_nul, at_start, at_next,
}

-- The buffer and the string with its NUL do not overlap.
abbrev pub Apart : ℕ → ℕ → ℕ → ℕ → Type 0
Apart dest size src n = (src + n < dest) ⊎ (dest + size ≤ src)

-- `after` has at dest the first bytes of the string at src, as many as fit with a NUL, and is
-- `before` outside the buffer.
pub record Truncated (before : Memory) (dest src n size : ℕ) (after : Memory) : Type 0 where
  pub copied : (i : ℕ) → i < min n (size - 1) → after (dest + i) ≡ before (src + i)
  pub string : IsString after dest (min n (size - 1))
  pub kept : (q : ℕ) → Outside dest size q → after q ≡ before q

terminated :
    (m m' : Memory) (dest src n size len : ℕ)
    → 0 < size
    → IsString m src n
    → len ≡ min n (size - 1)
    → Copied m dest src len m'
    → Truncated m dest src n size (write m' (dest + len) 0)
terminated m m' dest src n size len pos h e c =
    let at : (i : ℕ) → i < len → write m' (dest + len) 0 (dest + i) ≡ m (src + i) =
      λ i b. write-miss m' (dest + len) 0 (dest + i) (ground arith) ∙ c.moved i b in
    record {
      copied = λ i b. at i (omega (arith, e));
      string = record {
        inner = λ i b z. h.inner i (omega arith) (sym (at i (omega (arith, e))) ∙ z);
        ended = write-hit m' (dest + len) 0 (dest + min n (size - 1)) (omega (arith, e));
      };
      kept =
          λ q o. write-miss m' (dest + len) 0 q (ground (arith, e)) ∙ c.kept q (ground (arith, e));
    }

-- strlcpy into a buffer that is not empty and does not overlap the source ends, with as much fuel
-- as the source string has bytes with its NUL. It returns the source's length; the buffer holds the
-- source, or as much of it as fits, with a NUL behind, and no byte outside the buffer changes.
pub strlcpy-Truncated :
    (k : ℕ) (m : Memory) (dest src size n : ℕ)
    → IsString m src n
    → n < k
    → 0 < size
    → Apart dest size src n
    → (m' : Memory) × (strlcpy k m dest src size ≡ some (n, m')) × Truncated m dest src n size m'
unfolding strlcpy
strlcpy-Truncated k m dest src size n h f pos apart =
    let len = if leb size n then size - 1 else n in
    let fits : len ≡ min n (size - 1) = ground arith in
    let copy : Copied m dest src len (memcpy m dest src len) =
      memcpy-Copied m dest src len (ground arith) in
    (
      write (memcpy m dest src len) (dest + len) 0,
      rw (strlen-IsString k m src n h f, not_nul {x = size} (λ z. absurd (omega (arith, z)))) refl,
      terminated m (memcpy m dest src len) dest src n size len pos h fits copy,
    )

-- `after` has at dest the string's bytes and then NULs, `count` bytes in all.
pub record Padded (before : Memory) (dest src n count : ℕ) (after : Memory) : Type 0 where
  pub copied : (i : ℕ) → i < count → i < n → after (dest + i) ≡ before (src + i)
  pub padded : (i : ℕ) → i < count → n ≤ i → after (dest + i) ≡ 0
  pub kept : (q : ℕ) → Outside dest count q → after q ≡ before q

-- A write in front of the string, or behind its NUL, leaves it a string.
IsString-write :
    (m : Memory) (p v s n : ℕ) → (s + n < p) ⊎ (p < s) → IsString m s n → IsString (write m p v) s n
IsString-write m p v s n apart h = record {
  inner = λ i b z. h.inner i b (sym (write-miss m p v (s + i) (ground arith)) ∙ z);
  ended = write-miss m p v (s + n) (ground arith) ∙ h.ended;
}

Padded-zero :
    (m after : Memory) (d s count : ℕ)
    → m s ≡ 0
    → Padded (write m d (m s)) (d + 1) s 0 count after
    → Padded m d s 0 (suc count) after
Padded-zero m after d s count z p = record {
  copied = λ i b c. absurd (omega arith);
  padded = λ i b c.
      elim i as (λ i. i < suc count → after (d + i) ≡ 0) [
        | zero ↦ λ b.
            sym (at_start after d) ∙ p.kept d (inl (omega arith)) ∙ write-hit m d (m s) d refl ∙ z
        | suc j ↦ λ b. at_next after d j ∙ p.padded j (omega arith) (omega arith)
      ]
        b;
  kept = λ q o. p.kept q (ground arith) ∙ write-miss m d (m s) q (ground arith);
}

Padded-suc :
    (m after : Memory) (d s n count : ℕ)
    → Apart d (suc count) s (suc n)
    → Padded (write m d (m s)) (d + 1) (s + 1) n count after
    → Padded m d s (suc n) (suc count) after
Padded-suc m after d s n count apart p = record {
  copied = λ i b c.
      elim i as (λ i. i < suc count → i < suc n → after (d + i) ≡ m (s + i)) [
        | zero ↦ λ b c.
            sym (at_start after d)
            ∙ p.kept d (inl (omega arith))
            ∙ write-hit m d (m s) d refl
            ∙ at_start m s
        | suc j ↦ λ b c.
            at_next after d j
            ∙ p.copied j (omega arith) (omega arith)
            ∙ write-miss m d (m s) (s + 1 + j) (ground arith)
            ∙ sym (at_next m s j)
      ]
        b c;
  padded = λ i b c.
      elim i as (λ i. i < suc count → suc n ≤ i → after (d + i) ≡ 0) [
        | zero ↦ λ b c. absurd (omega arith)
        | suc j ↦ λ b c. at_next after d j ∙ p.padded j (omega arith) (omega arith)
      ]
        b c;
  kept = λ q o. p.kept q (ground arith) ∙ write-miss m d (m s) q (ground arith);
}

-- strncpy into a buffer that does not overlap the source string writes `count` bytes: those of the
-- string, with no NUL if the string is as long as the buffer or longer, and NULs behind it.
pub strncpy-Padded :
    (m : Memory) (dest src count n : ℕ)
    → IsString m src n
    → Apart dest count src n
    → Padded m dest src n count (strncpy m dest src count)
unfolding strncpy
strncpy-Padded m d s zero n h apart = record {
  copied = λ i b c. absurd (omega arith);
  padded = λ i b c. absurd (omega arith);
  kept = λ q o. refl;
}
strncpy-Padded m d s (suc count) zero h apart =
    let z : m s ≡ 0 = at_start m s ∙ h.ended in
    let stays : IsString (write m d (m s)) s 0 = IsString-write m d (m s) s 0 (ground arith) h in
    rw (strncpy, is_nul (write-hit m d (m s) d refl ∙ z))
      (Padded-zero m (strncpy (write m d (m s)) (d + 1) s count) d s count z
        (strncpy-Padded (write m d (m s)) (d + 1) s count 0 stays (ground arith)))
strncpy-Padded m d s (suc count) (suc n) h apart =
    let ne : write m d (m s) d ≢ 0 = λ z. IsString-head h (sym (write-hit m d (m s) d refl) ∙ z) in
    let stays : IsString (write m d (m s)) (s + 1) n =
      IsString-write m d (m s) (s + 1) n (ground arith) (IsString-tail h) in
    rw (strncpy, not_nul ne)
      (Padded-suc m (strncpy (write m d (m s)) (d + 1) (s + 1) count) d s n count apart
        (strncpy-Padded (write m d (m s)) (d + 1) (s + 1) count n stays (ground arith)))
