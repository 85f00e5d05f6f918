-- ===== src/Strings/Mem/Scan.antt =====
-- lib/string.c: what memcmp, memchr and the search for a string find.
use sandix.Common.{
  ℕ, zero, suc, ◌+◌, ◌<◌, ◌≡◌, ◌≢◌, ◌↔◌, refl, ap, ◌∙◌, ◌==◌, arith, Bool-cases, inl, inr,
}
use sandix.Strings.Mem.{Memory, memcmp, int_sub}

-- The `n` bytes at `a` and at `b` are the same.
abbrev pub SameBytes : Memory → ℕ → ℕ → ℕ → Type 0
SameBytes m a b n = (i : ℕ) → i < n → m (a + i) ≡ m (b + i)

-- Memory cells are bytes.
abbrev pub IsBytes : Memory → Type 0
IsBytes m = (p : ℕ) → m p < 256

int_sub-ne : (x y : ℕ) → x < 256 → y < 256 → x ≢ y → int_sub x y ≢ 0
int_sub-ne x y h k ne e = ne (omega (arith, e))

SameBytes-next :
    (m : Memory) (a b n : ℕ) → m a ≡ m b → SameBytes m (a + 1) (b + 1) n → SameBytes m a b (suc n)
SameBytes-next m a b n e h zero k = ap m (omega arith) ∙ e ∙ ap m (omega arith)
SameBytes-next m a b n e h (suc i) k = ap m (omega arith) ∙ h i (omega arith) ∙ ap m (omega arith)

SameBytes-tail : (m : Memory) (a b n : ℕ) → SameBytes m a b (suc n) → SameBytes m (a + 1) (b + 1) n
SameBytes-tail m a b n h i k = ap m (omega arith) ∙ h (suc i) (omega arith) ∙ ap m (omega arith)

-- On bytes memcmp returns 0 just for two areas with the same bytes.
pub memcmp-SameBytes :
    (m : Memory) (a b n : ℕ) → IsBytes m → (memcmp m a b n ≡ 0) ↔ SameBytes m a b n
unfolding memcmp
memcmp-SameBytes m a b zero h = ((λ e i k. absurd (omega arith)), λ s. refl)
memcmp-SameBytes m a b (suc n) h = elim (Bool-cases (m a == m b)) [
  | inl eq ↦
      let rest = memcmp-SameBytes m (a + 1) (b + 1) n h in
      let e : m a ≡ m b = ground arith in
      rw (memcmp, eq)
        ((λ z. SameBytes-next m a b n e (rest.0 z)), λ s. rest.1 (SameBytes-tail m a b n s))
  | inr ne ↦
      let apart : m a ≢ m b = ground arith in
      rw (memcmp, ne)
        (
          (λ z. absurd (int_sub-ne (m a) (m b) (h a) (h b) apart z)),
          λ s. absurd (apart (ap m (omega arith) ∙ s 0 (omega arith) ∙ ap m (omega arith))),
        )
]
