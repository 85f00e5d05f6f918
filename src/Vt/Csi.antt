-- ===== src/Vt/Csi.antt =====
-- drivers/tty/vt/vt.c: the control sequences, and con_write with its parser.
use Prim.Native.Nat.{bit_or}
use sandix.Common.{ℕ, zero, suc, ◌+◌, ◌-◌, ◌*◌, ◌/◌, ◌%◌, ◌&&◌, ◌||◌, ltb, leb, ◌==◌, if◌then◌else◌}
use sandix.Word.{sub64}
use sandix.Strings.Mem.{write}
use sandix.Vt.{
  u32, add32, sub32, Attributes, Vc, scr_memsetw, scr_memcpyw, scr_memmovew, save_cursor,
  restore_cursor, gotoxy,
}

unfoldable pub delete_char : ℕ → Vc → Vc
delete_char nr v =
    let left = sub32 (sub32 v.geo.cols v.x) nr in
    let moved = scr_memcpyw v.mem v.pos (v.pos + 2 * nr) left in
    record v {
      mem = scr_memsetw moved (v.pos + 2 * v.geo.cols - 2 * v.x - 2 * nr) v.erased_char nr;
    }

unfoldable pub insert_char : ℕ → Vc → Vc
insert_char nr v =
    let left = sub32 (sub32 v.geo.cols v.x) nr in
    let moved = scr_memmovew v.mem (v.pos + 2 * nr) v.pos left in
    record v { mem = scr_memsetw moved v.pos v.erased_char nr }

-- Erase display.
unfoldable pub csi_J : Vc → Vc
csi_J v =
    let erase : ℕ → ℕ → Vc =
      λ start count. record v { mem = scr_memsetw v.mem start v.erased_char (count % u32) } in
    if v.par 0 == 0
    then erase v.pos (sub64 v.scr_end v.pos / 2)
    else if v.par 0 == 1
    then erase v.visible_origin (sub64 v.pos v.visible_origin / 2 + 1)
    else if v.par 0 == 2
    then erase v.visible_origin (v.geo.cols * v.geo.rows)
    else if v.par 0 == 3
    then erase v.geo.origin (sub64 v.pos v.geo.origin / 2 + 1)
    else v

-- Erase line: the cases 1 and 2 fall through to the default.
unfoldable pub csi_K : Vc → Vc
csi_K v =
    if v.par 0 == 0
    then record v { mem = scr_memsetw v.mem v.pos v.erased_char (sub32 v.geo.cols v.x) }
    else v

-- The number of characters to delete, erase or insert: at least one, and at most the rest of the line.
unfoldable pub clipped : Vc → ℕ
clipped v =
    let rest = sub32 v.geo.cols v.x in
    if ltb rest (v.par 0) then rest else if v.par 0 == 0 then 1 else v.par 0

unfoldable pub csi_P : Vc → Vc
csi_P v = delete_char (clipped v) v

unfoldable pub csi_X : Vc → Vc
csi_X v =
    let nr = if v.par 0 == 0 then 1 else v.par 0 in
    let rest = sub32 v.geo.cols v.x in
    record v { mem = scr_memsetw v.mem v.pos v.erased_char (if ltb rest nr then rest else nr) }

unfoldable pub csi_at : Vc → Vc
csi_at v = insert_char (clipped v) v

-- The three parts of the attribute byte have no bits in common.
unfoldable pub update_attribute : Vc → Vc
update_attribute v =
    let a = v.attributes in
    let attr = a.f_color % 8 + a.b_color % 8 * 16 + a.blink % 2 * 128 in
    record v {
      attributes = record a { attr = attr };
      erased_char = bit_or (v.erased_char % 0x100) attr;
    }

-- One parameter of csi_m.
unfoldable pub set_attribute : ℕ → Attributes → Attributes
set_attribute p a =
    if p == 0
    then record a { bold = 0; underline = 0; blink = 0; f_color = 7; b_color = 0 }
    else if p == 1
    then record a { bold = 1 }
    else if p == 4
    then record a { underline = 1 }
    else if p == 5
    then record a { blink = 1 }
    else if leb 30 p && leb p 37
    then record a { f_color = p - 30 }
    else if leb 40 p && leb p 47
    then record a { b_color = p - 40 }
    else if p == 38
    then record a { f_color = 7 }
    else if p == 48
    then record a { b_color = 0 }
    else a

-- The parameters from `i` on, with `n` to go.
unfoldable pub set_attributes : (ℕ → ℕ) → ℕ → ℕ → Attributes → Attributes
set_attributes par i zero a = a
set_attributes par i (suc n) a = set_attributes par (i + 1) n (set_attribute (par i) a)

unfoldable pub csi_m : Vc → Vc
csi_m v =
    update_attribute (record v { attributes = set_attributes v.par 0 (v.npar + 1) v.attributes })

-- `if (!vc->vc_par[i]) vc->vc_par[i]++;` and `if (vc->vc_par[i]) vc->vc_par[i]--;`
abbrev pub at_least_one : ℕ → Vc → Vc
at_least_one i v = record v { par = write v.par i (if v.par i == 0 then 1 else v.par i) }

abbrev pub from_zero : ℕ → Vc → Vc
from_zero i v = record v { par = write v.par i (v.par i - 1) }

-- The scrolling region.
unfoldable pub csi_r : Vc → Vc
csi_r v =
    let v1 = at_least_one 0 v in
    let v2 : Vc = record v1 {
      par = write v1.par 1 (if v1.par 1 == 0 then v1.geo.rows else v1.par 1);
    } in
    if ltb (v2.par 0) (v2.par 1) && leb (v2.par 1) v2.geo.rows
    then gotoxy 0 0 (record v2 { top = v2.par 0 - 1; bottom = v2.par 1 })
    else v2

-- The state VT_CSI_HANDLE. csi_L, csi_M and respond_ID change nothing.
unfoldable pub handle_csi : ℕ → Vc → Vc
handle_csi c v =
    if c == 71 || c == 96
    then (let w = from_zero 0 v in gotoxy (w.par 0) w.y w)
    else if c == 65
    then (let w = at_least_one 0 v in gotoxy w.x (sub32 w.y (w.par 0)) w)
    else if c == 66 || c == 101
    then (let w = at_least_one 0 v in gotoxy w.x (add32 w.y (w.par 0)) w)
    else if c == 67 || c == 97 || c == 68
    then (let w = at_least_one 0 v in gotoxy (add32 w.x (w.par 0)) w.y w)
    else if c == 69
    then (let w = at_least_one 0 v in gotoxy 0 (add32 w.y (w.par 0)) w)
    else if c == 70
    then (let w = at_least_one 0 v in gotoxy 0 (sub32 w.y (w.par 0)) w)
    else if c == 100
    then (let w = from_zero 0 v in gotoxy w.x (w.par 0) w)
    else if c == 72 || c == 102
    then (let w = from_zero 1 (from_zero 0 v) in gotoxy (w.par 1) (w.par 0) w)
    else if c == 74
    then csi_J v
    else if c == 75
    then csi_K v
    else if c == 80
    then csi_P v
    else if c == 88
    then csi_X v
    else if c == 109
    then csi_m v
    else if c == 114
    then csi_r v
    else if c == 115
    then save_cursor v
    else if c == 117
    then restore_cursor v
    else if c == 64
    then csi_at v
    else v
