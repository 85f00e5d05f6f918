-- ===== src/Vt/Tests.antt =====
-- drivers/tty/vt/vt.c: runs, and the theorems at concrete consoles.
use sandix.Common.{ℕ, zero, suc, false, ◌+◌, ◌*◌, ◌≡◌, refl, some, List, [], ◌∷◌, arith}
use sandix.Word.{add64}
use sandix.Vt.{add32, vga_con, Vc, vga_addr, con_putc, line_feed, gotoxy}
use sandix.Vt.Window.{IsOnScreen}
use sandix.Vt.Stays.{con_write-IsOnScreen}
use sandix.Vt.Init.{ScreenInfo, Vga, vram_start, vram_size, vgacon_startup, vgacon_init}
use sandix.Vt.Start.{IsTextMode, vgacon_init-IsOnScreen}
use sandix.Vt.Line.{IsPrinted, IsPrintable, con_write-IsPrinted}
use sandix.Vt.Position.{IsDecimal, decimal, position, PlacedAt, con_write-position}
use sandix.Vt.Delete.{IsDeleted, csi_P-IsDeleted}
use sandix.Vt.Registry.{
  einval, ebusy, empty_table, find_slot, bind_con_driver, register_con_driver,
  unregister_con_driver,
}
use sandix.Vt.Drivers.{IsTable, start, registered, Reach-IsTable, unregister-register}
use sandix.Vt.Csi.{handle_csi, clipped, csi_P}
use sandix.Vt.Write.{
  wrap_line, print_char, normal_char, parameter_char, write_char, write_chars, con_write,
}

-- 80 columns and 25 rows at 0xb8000, with the letter `a` everywhere.
abbrev pub screen : Vc
screen = record {
  driver = some vga_con;
  geo = record {
    cols = 80;
    rows = 25;
    row_size = 160;
    scr_size = 4000;
    origin = 0xb_8000;
    vram_base = 0xb_8000;
    vram_end = 0xc_0000;
  };
  attributes = record { attr = 7; blink = 0; f_color = 7; b_color = 0; bold = 0; underline = 0 };
  erased_char = 0x720;
  visible_origin = 0xb_8000;
  scr_end = 0xb_8fa0;
  top = 0;
  bottom = 25;
  x = 0;
  y = 0;
  saved_x = 0;
  saved_y = 0;
  pos = 0xb_8000;
  npar = 0;
  par = λ i. 0;
  mem = λ p. 0x761;
}

pub screen-IsOnScreen : IsOnScreen (some vga_con) screen
screen-IsOnScreen = record {
  screen = record {
    wide = omega arith;
    high = omega arith;
    row = refl;
    size = refl;
    fits = omega arith;
    short = omega arith;
    below = omega arith;
  };
  bound = refl;
  col = omega arith;
  line = omega arith;
  saved_col = omega arith;
  saved_line = omega arith;
  start = omega arith;
  stop = refl;
  inside = omega arith;
}

abbrev after : List ℕ → Vc
after cs = (con_write cs screen).1

-- ESC [ 3 ; 7 H
go_runs :
    let v : Vc = after (27 ∷ 91 ∷ 51 ∷ 59 ∷ 55 ∷ 72 ∷ []) in
    (v.x ≡ 6) × (v.y ≡ 2) × (v.pos ≡ 0xb_8000 + 2 * (80 * 2 + 6))
unfolding con_write write_chars write_char parameter_char handle_csi gotoxy add64
go_runs = (refl, refl, refl)

-- "hi" and a new line
print_runs :
    let v : Vc = after (104 ∷ 105 ∷ 10 ∷ []) in
    (v.mem 0xb_8000 ≡ 0x768) × (v.mem 0xb_8002 ≡ 0x769) × (v.x ≡ 2) × (v.y ≡ 1)
unfolding con_write write_chars write_char normal_char print_char wrap_line con_putc vga_addr
    line_feed add64 add32
print_runs = (refl, refl, refl, refl)

-- Two lines, a tab, a column behind the end and a line that is not there: ESC [ 99 ; 200 H
con_write-IsOnScreen_example :
    IsOnScreen
      (some vga_con)
      (con_write (104 ∷ 10 ∷ 9 ∷ 27 ∷ 91 ∷ 57 ∷ 57 ∷ 59 ∷ 50 ∷ 48 ∷ 48 ∷ 72 ∷ []) screen).1
con_write-IsOnScreen_example =
    con_write-IsOnScreen (104 ∷ 10 ∷ 9 ∷ 27 ∷ 91 ∷ 57 ∷ 57 ∷ 59 ∷ 50 ∷ 48 ∷ 48 ∷ 72 ∷ []) screen
      screen-IsOnScreen

-- The mode of a PC that boots in text mode, at physical addresses.
abbrev text_mode : ScreenInfo
text_mode = record {
  video_mode = 3;
  video_lines = 25;
  video_cols = 80;
  ega_bx = 3;
  orig_x = 0;
  orig_y = 7;
}

abbrev before_startup : Vga
before_startup = record {
  has_called_startup = false;
  vram_base = 0;
  vram_end = 0;
  vram_attr = 0;
  erased_char = 0;
  visible_origin = 0;
  num_cols = 0;
  num_rows = 0;
  x = 0;
  y = 0;
  pos = 0;
}

text_mode-IsTextMode : IsTextMode text_mode
unfolding vram_size
text_mode-IsTextMode = record {
  wide = omega arith;
  high = omega arith;
  fits = omega arith;
  col = omega arith;
  line = omega arith;
}

vgacon_init-IsOnScreen_example :
    let (err, w) = vgacon_init (vgacon_startup 0 text_mode before_startup) screen in
    (err ≡ 0)
    × IsOnScreen (some vga_con) w
    × (w.geo.vram_base ≡ vram_start text_mode + 0)
    × (w.visible_origin ≡ w.geo.vram_base)
    × (w.x ≡ text_mode.orig_x)
    × (w.y ≡ text_mode.orig_y)
vgacon_init-IsOnScreen_example =
    vgacon_init-IsOnScreen 0 text_mode before_startup screen refl text_mode-IsTextMode (omega arith)
      refl refl

abbrev hello : List ℕ
hello = 104 ∷ 105 ∷ []

hello-IsPrintable : IsPrintable hello
unfolding IsPrintable
hello-IsPrintable zero c e = let same : 104 ≡ c = cc in (omega (arith, same), omega (arith, same))
hello-IsPrintable (suc zero) c e =
    let same : 105 ≡ c = cc in (omega (arith, same), omega (arith, same))
hello-IsPrintable (suc (suc i)) c e = absurd cc

con_write-IsPrinted_example : IsPrinted hello screen (con_write hello screen).1
con_write-IsPrinted_example =
    con_write-IsPrinted hello screen screen-IsOnScreen hello-IsPrintable (omega arith)

-- ESC [ 12 ; H
twelve-IsDecimal : IsDecimal (49 ∷ 50 ∷ [])
unfolding IsDecimal
twelve-IsDecimal zero c e = let same : 49 ≡ c = cc in (omega (arith, same), omega (arith, same))
twelve-IsDecimal (suc zero) c e =
    let same : 50 ≡ c = cc in (omega (arith, same), omega (arith, same))
twelve-IsDecimal (suc (suc i)) c e = absurd cc

empty-IsDecimal : IsDecimal []
unfolding IsDecimal
empty-IsDecimal i c e = absurd cc

con_write-position_example : PlacedAt 0 11 screen (con_write (position (49 ∷ 50 ∷ []) []) screen).1
unfolding decimal
con_write-position_example =
    con_write-position (49 ∷ 50 ∷ []) [] screen screen-IsOnScreen twelve-IsDecimal empty-IsDecimal
      (omega arith) (omega arith)

csi_P-IsDeleted_example : IsDeleted (clipped screen) screen (csi_P screen)
csi_P-IsDeleted_example = csi_P-IsDeleted screen screen-IsOnScreen (omega arith) refl

Reach-IsTable_example :
    IsTable (register_con_driver 0x2000 (register_con_driver 0x1000 empty_table).1).1
Reach-IsTable_example =
    Reach-IsTable (register_con_driver 0x2000 (register_con_driver 0x1000 empty_table).1).1
      (registered 0x2000 (registered 0x1000 start))

unregister-register_example :
    unregister_con_driver 0x2000 (register_con_driver 0x2000 (0x1000 ∷ 0 ∷ 0 ∷ 0 ∷ [])).1
    ≡ (0, 0x1000 ∷ 0 ∷ 0 ∷ 0 ∷ [])
unfolding register_con_driver find_slot
unregister-register_example = unregister-register 0x2000 (0x1000 ∷ 0 ∷ 0 ∷ 0 ∷ []) refl

-- A full table, a driver that is there, and NULL, which is bound while a slot is empty.
register_runs :
    (register_con_driver 5 (1 ∷ 2 ∷ 3 ∷ 4 ∷ []) ≡ (einval, 1 ∷ 2 ∷ 3 ∷ 4 ∷ []))
    × (register_con_driver 2 (1 ∷ 2 ∷ 0 ∷ 0 ∷ []) ≡ (ebusy, 1 ∷ 2 ∷ 0 ∷ 0 ∷ []))
    × (bind_con_driver 1 0 (1 ∷ 0 ∷ 0 ∷ 0 ∷ []) ≡ (0, 0))
unfolding register_con_driver bind_con_driver find_slot
register_runs = (refl, refl, refl)
