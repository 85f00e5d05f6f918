-- ===== src/Tty/Console.antt =====
-- drivers/tty/tty_io.c and drivers/tty/vt/vt.c: a write to the terminal of the console, from user memory
-- through the line discipline to con_write.
use sandix.Common.{
  ℕ, ◌<◌, ◌≡◌, refl, Bool, false, Option, none, some, List, [], ◌∷◌, arith, length, take, ltb, ◌==◌,
  if◌then◌else◌, min, length-take-min, take_all, Bool-cases, inl, inr, sym, ◌∙◌,
}
use sandix.Vt.{ConDriver, Vc}
use sandix.Vt.Write.{con_write, con_put_char, con_write_room}
use sandix.Vt.Window.{IsOnScreen}
use sandix.Vt.Stays.{con_write-IsOnScreen}
use sandix.Tty.{TtyOps, tty_write_room, tty_put_char, flush_chars}
use sandix.Tty.Ntty.{Tty, n_tty_write}
use sandix.Tty.Handed.{Handed, Accepts, Handed-keeps}
use sandix.Tty.Loop.{sent_text, n_tty_write-sends}

-- `stopped` is the field of struct tty_struct.
unfoldable pub console_ops : Bool → TtyOps Vc
console_ops stopped = record {
  write = con_write;
  put_char = some con_put_char;
  write_room = some (λ v. con_write_room stopped);
  flush_chars = none;
}

-- TTY_WRITE_BUF_SIZE, which write_cnt is set to.
abbrev pub write_cnt : ℕ
write_cnt = 2048

-- The number of bytes that are not copied, and the buffer (include/asm-generic/uaccess.h).
unfoldable pub copy_from_user : ℕ → List ℕ → ℕ × List ℕ
copy_from_user n from = (0, take n from)

-- -EFAULT as a ssize_t
abbrev pub ssize_efault : ℕ
ssize_efault = 0xffff_ffff_ffff_fff2

module _ {D : Type 0} (ops : TtyOps D) (oflag fuel : ℕ) where
  -- With the write operation of N_TTY.
  unfoldable pub do_tty_write : List ℕ → Tty D → Option (ℕ × Tty D)
  do_tty_write buf t =
      let count = if ltb write_cnt (length buf) then write_cnt else length buf in
      let (left, write_buf) = copy_from_user count buf in
      if left == 0 then n_tty_write ops oflag fuel write_buf t else some (ssize_efault, t)

con_write-length :
    (con : ConDriver) (cs : List ℕ) (v : Vc) → v.driver ≡ some con → (con_write cs v).0 ≡ length cs
unfolding con_write
con_write-length con cs v e = rw (con_write, e) refl

-- A console that is on the screen and not stopped keeps what a driver promises.
pub console-Accepts : (con : ConDriver) → Accepts (console_ops false) (IsOnScreen (some con))
unfolding console_ops tty_write_room tty_put_char flush_chars con_write_room con_put_char
console-Accepts con = record {
  taken = λ cs v h short. con_write-length con cs v h.bound;
  room = λ v h. omega arith;
  write_keeps = λ cs v h. con_write-IsOnScreen cs v h;
  put_keeps = λ c v h. con_write-IsOnScreen (c ∷ []) v h;
  flush_keeps = λ v h. h;
}

-- The bytes that are copied.
pruned :
    (buf : List ℕ)
    → take (if ltb write_cnt (length buf) then write_cnt else length buf) buf ≡ take write_cnt buf
pruned buf = elim (Bool-cases (ltb write_cnt (length buf))) [
  | inl long ↦ rw long refl
  | inr short ↦ rw short (
      take_all (length buf) buf (omega arith)
      ∙ sym (take_all write_cnt buf (ground (arith, short))))
]

-- Whatever is written to the terminal of a console that is not stopped, whose cursor and window are
-- where they belong and that has a driver, 2049 rounds are enough. At most 2048 bytes are written
-- and their number is returned, con_write gets the text that they stand for in pieces, and the cursor
-- and the window are where they belong afterwards.
pub do_tty_write-console :
    (con : ConDriver) (oflag fuel : ℕ) (buf : List ℕ) (t : Tty Vc)
    → IsOnScreen (some con) t.dev
    → write_cnt < fuel
    → (end : Tty Vc) × (do_tty_write (console_ops false) oflag fuel buf t
        ≡ some (min write_cnt (length buf), end))
      × Handed (console_ops false) t.dev (sent_text oflag (take write_cnt buf) t.ldata).0 end.dev
      × IsOnScreen (some con) end.dev
unfolding do_tty_write copy_from_user
do_tty_write-console con oflag fuel buf t on enough =
    let size = length-take-min write_cnt buf in
    let (end, ends, handed, columns) =
      n_tty_write-sends (console_ops false) oflag (IsOnScreen (some con)) (console-Accepts con) fuel
        (take write_cnt buf) t on (omega (arith, size, enough)) (omega (arith, size)) in
    rw (do_tty_write, pruned buf, ends, size)
      (end, refl, handed, Handed-keeps (console-Accepts con) on handed)
