-- ===== src/Word.antt =====
-- 64-bit words: phys_addr_t of include/sandix/types.h (CONFIG_PHYS_ADDR_T_64BIT) and u64.
use Prim.Native.Nat.{bit_and, digits, bit_and-bitwise, min}
use sandix.Common.{ℕ, zero, suc, ◌/◌, ◌+◌, ◌-◌, ◌%◌, ◌≤◌, ◌≡◌, arith}

abbrev pub word : ℕ
word = 0x1_0000_0000_0000_0000

-- ULLONG_MAX
abbrev pub ullong_max : ℕ
ullong_max = 0xffff_ffff_ffff_ffff

unfoldable pub add64 : ℕ → ℕ → ℕ
add64 a b = (a + b) % word

unfoldable pub sub64 : ℕ → ℕ → ℕ
sub64 a b = (a + word - b) % word

pub add64-eq : (a b : ℕ) → a + b ≤ ullong_max → add64 a b ≡ a + b
unfolding add64
add64-eq a b h = omega arith

pub sub64-eq : (a b : ℕ) → b ≤ a → a ≤ ullong_max → sub64 a b ≡ a - b
unfolding sub64
sub64-eq a b h k = omega arith

-- A mask takes digits away.
and_digits-le : (n a b : ℕ) → digits (λ b. zero) min n a b ≤ a
and_digits-le zero a b = omega arith
and_digits-le (suc n) zero b = omega arith
and_digits-le (suc n) (suc a) b = omega (arith, and_digits-le n (suc a / 2) (b / 2))

pub bit_and-le : (a b : ℕ) → bit_and a b ≤ a
bit_and-le a b = omega (arith, bit_and-bitwise a b, and_digits-le a a b)
