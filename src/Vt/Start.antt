-- ===== src/Vt/Start.antt =====
-- drivers/console/vgacon.c: vgacon_startup and vgacon_init put the cursor on the screen and the window at
-- the start of the video memory.
use native.Mathlib.Nat.{mul-le-mul_left, mul_assoc}
use sandix.Common.{ℕ, ◌+◌, ◌*◌, ◌%◌, ◌≤◌, ◌<◌, ◌≡◌, refl, ap, ◌∙◌, true, false, ◌&&◌, arith, ◌==◌}
use sandix.Word.{ullong_max, add64, add64-eq}
use sandix.Vt.{u32, Vc}
use sandix.Vt.Window.{IsOnScreen}
use sandix.Vt.Init.{ScreenInfo, Vga, vram_start, vram_size, vgacon_startup, vgacon_init}

-- The boot code left the screen in a text mode that fits the video memory, with the cursor on it.
pub record IsTextMode (s : ScreenInfo) : Type 0 where
  pub wide : 8 ≤ s.video_cols
  pub high : 1 ≤ s.video_lines
  pub fits : 2 * (s.video_cols * s.video_lines) ≤ vram_size s
  pub col : s.orig_x ≤ s.video_cols
  pub line : s.orig_y < s.video_lines

vram_start-le : (s : ScreenInfo) → vram_start s ≤ 0xb_8000
unfolding vram_start
vram_start-le s = ground arith

vram_size-le : (s : ScreenInfo) → vram_size s ≤ 0x8000
unfolding vram_size
vram_size-le s = ground arith

started :
    (page_offset : ℕ) (s : ScreenInfo) (m : Vga)
    → m.has_called_startup ≡ false
    → IsTextMode s
    → let base = add64 (vram_start s) page_offset in
      vgacon_startup page_offset s m ≡ record {
        has_called_startup = true;
        vram_base = base;
        vram_end = add64 base (vram_size s);
        vram_attr = 7;
        erased_char = 0x720;
        visible_origin = base;
        num_cols = s.video_cols;
        num_rows = s.video_lines;
        x = s.orig_x;
        y = s.orig_y;
        pos = add64 (2 * (s.video_cols * s.orig_y + s.orig_x) % u32) base;
      }
unfolding vgacon_startup
started page_offset s m first text =
    let set : (s.video_mode == 0 && s.video_lines == 0 && s.video_cols == 0) ≡ false =
      ground (arith, text.wide) in
    rw (vgacon_startup, first, set) refl

-- The numbers of a screen that fits.
row_size-eq : (s : ScreenInfo) → IsTextMode s → 2 * s.video_cols % u32 ≡ 2 * s.video_cols
row_size-eq s text =
    omega (arith, text.fits, vram_size-le s, mul-le-mul_left s.video_cols text.high)

scr_size-eq :
    (s : ScreenInfo)
    → IsTextMode s
    → 2 * s.video_cols % u32 * s.video_lines % u32 ≡ 2 * (s.video_cols * s.video_lines)
scr_size-eq s text =
    ap (λ n. n * s.video_lines % u32) (row_size-eq s text)
    ∙ omega (arith, text.fits, vram_size-le s, mul_assoc 2 s.video_cols s.video_lines)

-- The first start of the VGA console in a text mode succeeds. The console that it sets up has the
-- cursor where the boot code left it, on the screen, and the window, which fits the video memory,
-- at the start of it: at the kernel's address of the card's memory. The saved cursor is the zero
-- that the console's memory starts with, and the kernel's addresses of the video memory do not wrap
-- around.
pub vgacon_init-IsOnScreen :
    (page_offset : ℕ) (s : ScreenInfo) (m : Vga) (v : Vc)
    → m.has_called_startup ≡ false
    → IsTextMode s
    → page_offset + 0x10_0000 ≤ ullong_max
    → v.saved_x ≡ 0
    → v.saved_y ≡ 0
    → let (err, w) = vgacon_init (vgacon_startup page_offset s m) v in
      (err ≡ 0)
      × IsOnScreen v.driver w
      × (w.geo.vram_base ≡ vram_start s + page_offset)
      × (w.visible_origin ≡ w.geo.vram_base)
      × (w.x ≡ s.orig_x)
      × (w.y ≡ s.orig_y)
unfolding vgacon_init
vgacon_init-IsOnScreen page_offset s m v first text room col line =
    let base = add64 (vram_start s) page_offset in
    let row = row_size-eq s text in
    let size = scr_size-eq s text in
    let low = vram_start-le s in
    let small = vram_size-le s in
    let base_eq = add64-eq (vram_start s) page_offset (omega (arith, low, room)) in
    let end_eq = add64-eq base (vram_size s) (omega (arith, base_eq, low, small, room)) in
    let stop_eq =
      add64-eq base (2 * s.video_cols % u32 * s.video_lines % u32)
        (omega (arith, base_eq, low, small, room, size, text.fits)) in
    rw (vgacon_init, started page_offset s m first text)
      (
        refl,
        record {
          screen = record {
            wide = text.wide;
            high = text.high;
            row = row;
            size = size;
            fits = omega (arith, end_eq, size, text.fits);
            short = omega (arith, size, text.fits, small);
            below = omega (arith, end_eq, base_eq, low, small, room, size, text.fits);
          };
          bound = refl;
          col = text.col;
          line = text.line;
          saved_col = omega (arith, col);
          saved_line = omega (arith, line, text.high);
          start = omega arith;
          stop = stop_eq;
          inside = omega (arith, stop_eq, end_eq, size, text.fits);
        },
        base_eq,
        refl,
        refl,
        refl,
      )
