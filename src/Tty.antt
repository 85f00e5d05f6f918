-- ===== src/Tty.antt =====
-- drivers/tty/tty_io.c and drivers/tty/n_tty.c: the terminals. This file has the driver below and the
-- calls of its operations that may be missing.
pub mod Ntty
pub mod Cook
pub mod Handed
pub mod Sends
pub mod Loop
pub mod Stopped
pub mod Console
mod Tests
use sandix.Common.{ℕ, Option, none, some, List, [], ◌∷◌}

-- The operations of struct tty_operations that write, on a device with state `D`. An int is its
-- 32-bit pattern, and an operation that is NULL is none.
pub record TtyOps (D : Type 0) : Type 0 where
  pub write : List ℕ → D → ℕ × D
  pub put_char : Option (ℕ → D → ℕ × D)
  pub write_room : Option (D → ℕ)
  pub flush_chars : Option (D → D)

module _ {D : Type 0} (ops : TtyOps D) where
  unfoldable pub tty_write_room : D → ℕ
  tty_write_room d = elim ops.write_room [ none ↦ 2048 | some room ↦ room d ]

  unfoldable pub tty_put_char : ℕ → D → ℕ × D
  tty_put_char ch d = elim ops.put_char [ none ↦ ops.write (ch ∷ []) d | some put ↦ put ch d ]

  -- The call of flush_chars where there is one.
  unfoldable pub flush_chars : D → D
  flush_chars d = elim ops.flush_chars [ none ↦ d | some flush ↦ flush d ]
