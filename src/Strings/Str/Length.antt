-- ===== src/Strings/Str/Length.antt =====
-- lib/string.c: the strings that a NUL ends, and strlen.
use sandix.Common.{ℕ, zero, suc, ◌+◌, ◌<◌, ◌≡◌, ◌≢◌, ap, ◌∙◌, some, ◌==◌, true, false, arith}
use sandix.Strings.Mem.{Memory}
use sandix.Strings.Str.{find_nul, strlen}

-- The first NUL from `s` on is `n` bytes further.
pub record IsString (m : Memory) (s n : ℕ) : Type 0 where
  pub inner : (i : ℕ) → i < n → m (s + i) ≢ 0
  pub ended : m (s + n) ≡ 0

-- The same byte under two addresses.
pub at_start : (m : Memory) (a : ℕ) → m a ≡ m (a + 0)
at_start m a = ap m (omega arith)

pub at_next : (m : Memory) (a n : ℕ) → m (a + suc n) ≡ m (a + 1 + n)
at_next m a n = ap m (omega arith)

pub is_nul : {x : ℕ} → x ≡ 0 → (x == 0) ≡ true
is_nul e = ground arith

pub not_nul : {x : ℕ} → x ≢ 0 → (x == 0) ≡ false
not_nul e = ground arith

pub IsString-head : {m : Memory} {s n : ℕ} → IsString m s (suc n) → m s ≢ 0
IsString-head {m = m} {s = s} h e = h.inner 0 (omega arith) (ap m (omega arith) ∙ e)

pub IsString-tail : {m : Memory} {s n : ℕ} → IsString m s (suc n) → IsString m (s + 1) n
IsString-tail {m = m} {s = s} {n = n} h = record {
  inner = λ i b e. h.inner (suc i) (omega arith) (ap m (omega arith) ∙ e);
  ended = ap m (omega arith) ∙ h.ended;
}

find_nul-IsString :
    (k : ℕ) (m : Memory) (s n : ℕ) → IsString m s n → n < k → find_nul k m s ≡ some (s + n)
unfolding find_nul
find_nul-IsString zero m s n h b = ground arith
find_nul-IsString (suc k) m s zero h b =
    rw (find_nul, is_nul (at_start m s ∙ h.ended)) (ap some (omega arith))
find_nul-IsString (suc k) m s (suc n) h b =
    rw (find_nul, not_nul (IsString-head h))
      (find_nul-IsString k m (s + 1) n (IsString-tail h) (omega arith) ∙ ap some (omega arith))

-- strlen ends on a string, with as much fuel as it has bytes with its NUL, and counts the bytes
-- before the NUL.
pub strlen-IsString :
    (k : ℕ) (m : Memory) (s n : ℕ) → IsString m s n → n < k → strlen k m s ≡ some n
unfolding strlen
strlen-IsString k m s n h b = rw (find_nul-IsString k m s n h b) (ap some (omega arith))
