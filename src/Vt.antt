-- ===== src/Vt.antt =====
-- drivers/tty/vt/vt.c and drivers/console/vgacon.c: the virtual console on the VGA text screen. This
-- file has the state, the video memory and the moves of the cursor.
pub mod Csi
pub mod Init
pub mod Write
pub mod Words
pub mod Window
pub mod Place
pub mod Start
pub mod Stays
pub mod Line
pub mod Position
pub mod Delete
pub mod Registry
pub mod Slots
pub mod Drivers
pub mod Tests
use sandix.Common.{
  ℕ, zero, suc, ◌+◌, ◌-◌, ◌*◌, ◌/◌, ◌%◌, Bool, true, false, ◌&&◌, ◌||◌, Option, none, some, ltb,
  leb, ◌==◌, if◌then◌else◌,
}
use sandix.Word.{add64, sub64}
use sandix.Strings.Mem.{write}

abbrev pub u32 : ℕ
u32 = 0x1_0000_0000

unfoldable pub add32 : ℕ → ℕ → ℕ
add32 a b = (a + b) % u32

unfoldable pub sub32 : ℕ → ℕ → ℕ
sub32 a b = (a + u32 - b) % u32

-- The two drivers that there are.
pub data ConDriver : Type 0 where
  vga_con dummy_con : ConDriver

-- The fields of struct vc_struct that only vgacon_init and vgacon_set_origin set, with vga_vram_base and vga_vram_end.
pub record Geometry : Type 0 where
  pub cols : ℕ
  pub rows : ℕ
  pub row_size : ℕ
  pub scr_size : ℕ
  pub origin : ℕ
  pub vram_base : ℕ
  pub vram_end : ℕ

-- The attributes for characters.
pub record Attributes : Type 0 where
  pub attr : ℕ
  pub blink : ℕ
  pub f_color : ℕ
  pub b_color : ℕ
  pub bold : ℕ
  pub underline : ℕ

-- struct vc_struct, with the video memory: the 16-bit words by their addresses.
pub record Vc : Type 0 where
  pub driver : Option ConDriver
  pub geo : Geometry
  pub attributes : Attributes
  pub erased_char : ℕ
  pub visible_origin : ℕ
  pub scr_end : ℕ
  pub top : ℕ
  pub bottom : ℕ
  pub x : ℕ
  pub y : ℕ
  pub saved_x : ℕ
  pub saved_y : ℕ
  pub pos : ℕ
  pub npar : ℕ
  pub par : ℕ → ℕ
  pub mem : ℕ → ℕ

unfoldable pub scr_memsetw : (ℕ → ℕ) → ℕ → ℕ → ℕ → ℕ → ℕ
scr_memsetw m d v zero = m
scr_memsetw m d v (suc count) = scr_memsetw (write m d v) (d + 2) v count

unfoldable pub scr_memcpyw : (ℕ → ℕ) → ℕ → ℕ → ℕ → ℕ → ℕ
scr_memcpyw m d s zero = m
scr_memcpyw m d s (suc count) = scr_memcpyw (write m d (m s)) (d + 2) (s + 2) count

-- The second loop of scr_memmovew, with the pointers behind what it copies.
unfoldable pub copy_back : (ℕ → ℕ) → ℕ → ℕ → ℕ → ℕ → ℕ
copy_back m d s zero = m
copy_back m d s (suc count) = copy_back (write m (d - 2) (m (s - 2))) (d - 2) (s - 2) count

-- `count*2` is an unsigned int and counts words, so the pointers go up by four bytes for each.
unfoldable pub scr_memmovew : (ℕ → ℕ) → ℕ → ℕ → ℕ → ℕ → ℕ
scr_memmovew m d s count =
    if ltb d s
    then scr_memcpyw m d s count
    else (let skip = 2 * (2 * count % u32) in copy_back m (d + skip) (s + skip) count)

-- VGA_ADDR
unfoldable pub vga_addr : Vc → ℕ → ℕ → ℕ
vga_addr v row col = add64 v.visible_origin (2 * (v.geo.cols * row + col) % u32)

unfoldable pub con_putc : ℕ → ℕ → ℕ → Vc → Vc
con_putc c row col v = elim v.driver [
  | some vga_con ↦ record v {
    mem = write v.mem (vga_addr v row col) ((v.attributes.attr * 256 + c % 256) % 0x1_0000);
  }
  | _ ↦ v
]

-- VWIN_UP and VWIN_DOWN
pub data Direction : Type 0 where
  win_up win_down : Direction

-- The window is moved back to the start of the video memory.
unfoldable pub rewind : ℕ → Vc → Vc
rewind delta v = record v {
  mem = scr_memcpyw v.mem v.geo.vram_base v.visible_origin (delta / 2);
  pos = add64 v.geo.vram_base (sub64 v.pos v.visible_origin);
  visible_origin = v.geo.vram_base;
  scr_end = add64 v.geo.vram_base v.geo.scr_size;
}

-- The registers of the card are left out. `lines` is an int.
unfoldable pub vgacon_scroll : Direction → ℕ → Vc → Vc
vgacon_scroll dir lines v =
    if lines == 0 || leb 0x8000_0000 lines || leb (v.geo.rows / 2) lines
    then v
    else (let delta = lines * v.geo.row_size % u32 in
        elim dir [
          | win_up ↦
              if leb (sub64 v.visible_origin delta) v.geo.vram_base
              then record v {
                visible_origin = v.geo.vram_base;
                scr_end = add64 v.geo.vram_base v.geo.scr_size;
              }
              else record v {
                visible_origin = sub64 v.visible_origin delta;
                scr_end = sub64 v.scr_end delta;
              }
          | win_down ↦
              if leb (add64 v.scr_end delta) v.geo.vram_end
              then record v {
                visible_origin = add64 v.visible_origin delta;
                scr_end = add64 v.scr_end delta;
              }
              else rewind delta v
        ])

unfoldable pub con_scroll : Direction → ℕ → Vc → Vc
con_scroll dir lines v = elim v.driver [ some vga_con ↦ vgacon_scroll dir lines v | _ ↦ v ]

unfoldable pub scrup : ℕ → Vc → Vc
scrup lines v = con_scroll win_up lines v

unfoldable pub scrdown : ℕ → Vc → Vc
scrdown lines v = con_scroll win_down lines v

unfoldable pub save_cursor : Vc → Vc
save_cursor v = record v { saved_x = v.x; saved_y = v.y }

unfoldable pub restore_cursor : Vc → Vc
restore_cursor v = record v { x = v.saved_x; y = v.saved_y }

unfoldable pub carriage_return : Vc → Vc
carriage_return v = record v { pos = sub64 v.pos (2 * v.x % u32); x = 0 }

unfoldable pub line_feed : Vc → Vc
line_feed v =
    let moved = if add32 v.y 1 == v.geo.rows then scrdown 1 v else record v { y = add32 v.y 1 } in
    record moved { pos = add64 moved.pos moved.geo.row_size }

-- The two ints are compared as unsigned.
unfoldable pub gotoxy : ℕ → ℕ → Vc → Vc
gotoxy new_x new_y v = if leb v.geo.cols new_x || leb v.geo.rows new_y then v else record v {
  x = new_x;
  y = new_y;
  pos = add64 v.visible_origin (2 * (v.geo.cols * new_y + new_x) % u32);
}
