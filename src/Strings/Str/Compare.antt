-- ===== src/Strings/Str/Compare.antt =====
-- lib/string.c: what strcmp says about two strings.
use native.Mathlib.Decide.{dec_lt}
use sandix.Common.{
  ℕ, zero, suc, ◌+◌, ◌<◌, ◌≡◌, ◌≢◌, refl, sym, ap, subst, ◌∙◌, some, ◌==◌, false, ltb,
  if◌then◌else◌, arith, Bool-cases, inl, inr,
}
use sandix.Strings.Mem.{Memory}
use sandix.Strings.Str.{strcmp, minus_one}
use sandix.Strings.Str.Length.{
  IsString, IsString-head, IsString-tail, is_nul, not_nul, at_start, at_next,
}

-- The strings at `a` and `b` go on for `n` bytes, and these are the same.
abbrev pub Agree : Memory → ℕ → ℕ → ℕ → Type 0
Agree m a b n = (i : ℕ) → i < n → (m (a + i) ≢ 0) × (m (a + i) ≡ m (b + i))

-- The results by the order of the strings: 0 for the same strings, else the order of the first two
-- bytes that differ.
pub data Compared (m : Memory) (a b : ℕ) : ℕ → Type 0 where
  same : (n : ℕ) → Agree m a b n → m (a + n) ≡ 0 → m (b + n) ≡ 0 → Compared m a b 0
  less : (n : ℕ) → Agree m a b n → m (a + n) < m (b + n) → Compared m a b minus_one
  more : (n : ℕ) → Agree m a b n → m (b + n) < m (a + n) → Compared m a b 1

Agree-next :
    (m : Memory) (a b n : ℕ) → m a ≢ 0 → m a ≡ m b → Agree m (a + 1) (b + 1) n → Agree m a b (suc n)
Agree-next m a b n ne e h zero k =
    ((λ z. ne (ap m (omega arith) ∙ z)), ap m (omega arith) ∙ e ∙ ap m (omega arith))
Agree-next m a b n ne e h (suc i) k =
    let (nz, eq) = h i (omega arith) in
    ((λ z. nz (ap m (omega arith) ∙ z)), ap m (omega arith) ∙ eq ∙ ap m (omega arith))

Compared-next :
    (m : Memory) (a b : ℕ) {c : ℕ}
    → m a ≢ 0
    → m a ≡ m b
    → Compared m (a + 1) (b + 1) c
    → Compared m a b c
Compared-next m a b ne e (same n h x y) =
    same (suc n) (Agree-next m a b n ne e h) (at_next m a n ∙ x) (at_next m b n ∙ y)
Compared-next m a b ne e (less n h x) =
    less (suc n) (Agree-next m a b n ne e h) (omega (arith, x, at_next m a n, at_next m b n))
Compared-next m a b ne e (more n h x) =
    more (suc n) (Agree-next m a b n ne e h) (omega (arith, x, at_next m a n, at_next m b n))

differ :
    (m : Memory) (a b : ℕ)
    → (m a == m b) ≡ false
    → Compared m a b (if ltb (m a) (m b) then minus_one else 1)
differ m a b ne = elim (dec_lt (m a) (m b)) [
  | yes h ↦
      subst (Compared m a b) (ground arith)
        (less 0 (λ i b. absurd (omega arith)) (omega (arith, h, at_start m a, at_start m b)))
  | no h ↦
      let above : m b < m a = ground arith in
      subst (Compared m a b) (ground arith)
        (more 0 (λ i b. absurd (omega arith)) (omega (arith, above, at_start m a, at_start m b)))
]

-- If a string stands at `a`, strcmp ends, with as much fuel as that string has bytes with its NUL:
-- it returns 0 for the same string at `b`, and otherwise -1 or 1, as the first byte that differs is
-- less or more than that of `b`.
pub strcmp-Compared :
    (k : ℕ) (m : Memory) (a b n : ℕ)
    → IsString m a n
    → n < k
    → (c : ℕ) × (strcmp k m a b ≡ some c) × Compared m a b c
unfolding strcmp
strcmp-Compared zero m a b n h f = absurd (omega arith)
strcmp-Compared (suc k) m a b zero h f = elim (Bool-cases (m a == m b)) [
  | inr ne ↦ (_, rw (strcmp, ne) refl, differ m a b ne)
  | inl eq ↦
      let nul : m a ≡ 0 = at_start m a ∙ h.ended in
      let nul' : m b ≡ 0 = ground arith in
      (
        0,
        rw (strcmp, eq, is_nul nul) refl,
        same 0 (λ i b. absurd (omega arith)) h.ended (sym (at_start m b) ∙ nul'),
      )
]
strcmp-Compared (suc k) m a b (suc n) h f = elim (Bool-cases (m a == m b)) [
  | inr ne ↦ (_, rw (strcmp, ne) refl, differ m a b ne)
  | inl eq ↦
      let e : m a ≡ m b = ground arith in
      let (c, runs, cmp) = strcmp-Compared k m (a + 1) (b + 1) n (IsString-tail h) (omega arith) in
      (
        c,
        rw (strcmp, eq, not_nul (IsString-head h)) runs,
        Compared-next m a b (IsString-head h) e cmp,
      )
]
