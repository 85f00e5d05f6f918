-- ===== src/Tty/Tests.antt =====
-- drivers/tty/n_tty.c and drivers/tty/tty_io.c: runs, and the theorems at concrete terminals.
use sandix.Common.{
  ℕ, ◌≤◌, ◌≡◌, refl, true, false, none, some, List, [], ◌∷◌, length, take, drop, arith, min,
}
use sandix.Vt.{vga_con, Vc}
use sandix.Vt.Window.{IsOnScreen}
use sandix.Vt.Tests.{screen, screen-IsOnScreen}
use sandix.Vt.Write.{con_write_room}
use sandix.Strings.Ctype.{ctype, iscntrl}
use sandix.Tty.{tty_write_room}
use sandix.Tty.Ntty.{NttyData, Tty, o_flag, block_chars, n_tty_write}
use sandix.Tty.Cook.{cooked, cook, prepend, block_chars-cook}
use sandix.Tty.Handed.{Handed}
use sandix.Tty.Loop.{sent_text, n_tty_write-sends}
use sandix.Tty.Stopped.{n_tty_write-stuck}
use sandix.Tty.Console.{console_ops, write_cnt, do_tty_write, console-Accepts, do_tty_write-console}

-- "hi" and a new line
abbrev hi : List ℕ
hi = 104 ∷ 105 ∷ 10 ∷ []

-- OPOST and ONLCR
abbrev flags : ℕ
flags = 5

abbrev start : NttyData
start = record { column = 0; canon_column = 0 }

abbrev terminal : Tty Vc
terminal = record { ldata = start; dev = screen }

-- The new line becomes a return and a new line.
sent_text_runs : sent_text flags hi start ≡ (104 ∷ 105 ∷ 13 ∷ 10 ∷ [], start)
unfolding sent_text cook cooked o_flag iscntrl ctype
sent_text_runs = refl

block_chars-cook_example :
    let (i, l1) = block_chars flags (take 3 hi) start in
    (i ≤ length hi) × (cook flags hi start ≡ prepend (take i hi) (cook flags (drop i hi) l1))
block_chars-cook_example = block_chars-cook flags 3 hi start

n_tty_write-sends_example :
    (end : Tty Vc) × (n_tty_write (console_ops false) flags 4 hi terminal ≡ some (3, end))
    × Handed (console_ops false) screen (sent_text flags hi start).0 end.dev
    × (end.ldata ≡ (sent_text flags hi start).1)
n_tty_write-sends_example =
    n_tty_write-sends (console_ops false) flags (IsOnScreen (some vga_con))
      (console-Accepts vga_con) 4 hi terminal screen-IsOnScreen (omega arith) (omega arith)

n_tty_write-stuck_example : n_tty_write (console_ops true) flags 1000 hi terminal ≡ none
unfolding console_ops tty_write_room con_write_room o_flag
n_tty_write-stuck_example =
    n_tty_write-stuck (console_ops true) flags terminal refl refl 1000 104 (105 ∷ 10 ∷ [])

do_tty_write-console_example :
    (end : Tty Vc) × (do_tty_write (console_ops false) flags 2049 hi terminal
      ≡ some (min write_cnt 3, end))
    × Handed (console_ops false) screen (sent_text flags (take write_cnt hi) start).0 end.dev
    × IsOnScreen (some vga_con) end.dev
do_tty_write-console_example =
    do_tty_write-console vga_con flags 2049 hi terminal screen-IsOnScreen (omega arith)
