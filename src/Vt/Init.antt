-- ===== src/Vt/Init.antt =====
-- drivers/console/vgacon.c: the start of the VGA console and of a virtual console on it, and the driver's
-- other operations.
use sandix.Common.{
  ℕ, zero, suc, ◌+◌, ◌*◌, ◌%◌, Bool, true, false, ◌&&◌, ◌||◌, List, [], ◌∷◌, ltb, ◌==◌,
  if◌then◌else◌,
}
use sandix.Word.{add64}
use sandix.Strings.Mem.{write}
use sandix.Vt.{u32, Vc, vga_addr, scr_memsetw}

-- What struct screen_info has of the screen.
pub record ScreenInfo : Type 0 where
  pub video_mode : ℕ
  pub video_lines : ℕ
  pub video_cols : ℕ
  pub ega_bx : ℕ
  pub orig_x : ℕ
  pub orig_y : ℕ

-- The module's variables that vgacon_init reads.
pub record Vga : Type 0 where
  pub has_called_startup : Bool
  pub vram_base : ℕ
  pub vram_end : ℕ
  pub vram_attr : ℕ
  pub erased_char : ℕ
  pub visible_origin : ℕ
  pub num_cols : ℕ
  pub num_rows : ℕ
  pub x : ℕ
  pub y : ℕ
  pub pos : ℕ

abbrev pub is_ega : ScreenInfo → Bool
is_ega s = if s.ega_bx % 0x100 == 0x10 then false else true

-- The physical address of the video memory, and its size: a colour EGA or VGA card and a monochrome
-- EGA card have 32 KB, the others 8.
unfoldable pub vram_start : ScreenInfo → ℕ
vram_start s = if s.video_mode == 7 then 0xb_0000 else 0xb_8000

unfoldable pub vram_size : ScreenInfo → ℕ
vram_size s = if is_ega s then 0x8000 else 0x2000

-- phys_to_virt adds `page_offset`.
unfoldable pub vgacon_startup : ℕ → ScreenInfo → Vga → Vga
vgacon_startup page_offset s m =
    if m.has_called_startup
    then m
    else if s.video_mode == 0 && s.video_lines == 0 && s.video_cols == 0
    then record m { has_called_startup = true }
    else (let base = add64 (vram_start s) page_offset in
        record {
          has_called_startup = true;
          vram_base = base;
          vram_end = add64 base (vram_size s);
          vram_attr = 7;
          erased_char = 0x720;
          visible_origin = base;
          num_cols = s.video_cols;
          num_rows = s.video_lines;
          x = s.orig_x;
          y = s.orig_y;
          pos = add64 (2 * (s.video_cols * s.orig_y + s.orig_x) % u32) base;
        })

-- -EPERM as an int
abbrev pub eperm : ℕ
eperm = 0xffff_ffff

unfoldable pub vgacon_init : Vga → Vc → ℕ × Vc
vgacon_init m v =
    if m.has_called_startup
    then (let row_size = 2 * m.num_cols % u32 in
        let scr_size = row_size * m.num_rows % u32 in
        (
          0,
          record v {
            x = m.x;
            y = m.y;
            pos = m.pos;
            geo = record {
              cols = m.num_cols;
              rows = m.num_rows;
              row_size = row_size;
              scr_size = scr_size;
              origin = m.vram_base;
              vram_base = m.vram_base;
              vram_end = m.vram_end;
            };
            attributes = record v.attributes { attr = m.vram_attr };
            scr_end = add64 m.visible_origin scr_size;
            top = 0;
            bottom = m.num_rows;
            visible_origin = m.visible_origin;
            erased_char = m.erased_char;
          },
        ))
    else (eperm, v)

abbrev pub vga_attr : Vc → ℕ → ℕ
vga_attr v ch = (v.attributes.attr * 256 + ch % 256) % 0x1_0000

-- The loop of vgacon_putcs.
unfoldable pub put_words : ℕ → List ℕ → Vc → Vc
put_words addr [] v = v
put_words addr (c ∷ s) v =
    put_words (add64 addr 2) s (record v { mem = write v.mem addr (vga_attr v c) })

unfoldable pub vgacon_putcs : List ℕ → ℕ → ℕ → Vc → Vc
vgacon_putcs s y x v = put_words (vga_addr v y x) s v

-- The loop of vgacon_clear.
unfoldable pub clear_rows : ℕ → ℕ → ℕ → ℕ → Vc → Vc
clear_rows dest ech width zero v = v
clear_rows dest ech width (suc height) v =
    clear_rows (add64 dest v.geo.row_size) ech width height
      (record v { mem = scr_memsetw v.mem dest ech width })

-- `height` and `width` are ints that are not below zero.
unfoldable pub vgacon_clear : ℕ → ℕ → ℕ → ℕ → Vc → Vc
vgacon_clear y x height width v =
    if height == 0 || width == 0
    then v
    else clear_rows (vga_addr v y x) (vga_attr v v.erased_char) width height v

-- The colours are ints that are not below zero.
unfoldable pub vgacon_set_color : ℕ → ℕ → ℕ → Vc → Vc
vgacon_set_color blink bg fg v = if ltb 7 bg || ltb 7 fg then v else record v {
  attributes = record v.attributes { attr = bg * 16 + fg + (if blink == 0 then 0 else 128) };
}

unfoldable pub vgacon_set_origin : Vc → Vc
vgacon_set_origin v = record v {
  geo = record v.geo { origin = v.geo.vram_base };
  visible_origin = v.geo.vram_base;
}
