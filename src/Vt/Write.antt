-- ===== src/Vt/Write.antt =====
-- drivers/tty/vt/vt.c: con_write with its parser, and the other operations of the console.
use sandix.Common.{
  ℕ, ◌+◌, ◌-◌, ◌*◌, ◌%◌, Bool, ◌&&◌, ◌||◌, none, some, List, [], ◌∷◌, length, ltb, leb, ◌==◌,
  if◌then◌else◌,
}
use sandix.Word.{add64, sub64}
use sandix.Strings.Mem.{write}
use sandix.Vt.{
  u32, add32, sub32, Vc, con_putc, save_cursor, restore_cursor, carriage_return, line_feed, gotoxy,
}
use sandix.Vt.Csi.{handle_csi}

-- The states between two bytes; VT_CSI_HANDLE is left with the byte that enters it.
pub data VtState : Type 0 where
  vt_normal vt_esc vt_csi_question vt_csi_parameter : VtState

-- Wrap around at the end of a line, and print.
unfoldable pub wrap_line : Vc → Vc
wrap_line v =
    if v.x == v.geo.cols
    then line_feed (record v { x = 0; pos = sub64 v.pos v.geo.row_size })
    else v

unfoldable pub print_char : ℕ → Vc → Vc
print_char c v =
    let w = wrap_line v in
    let p = con_putc c w.y w.x w in record p { x = add32 p.x 1; pos = add64 p.pos 2 }

unfoldable pub back_space : Vc → Vc
back_space v = if v.x == 0 then v else record v { x = v.x - 1; pos = sub64 v.pos 2 }

unfoldable pub tab : Vc → Vc
tab v =
    let c = 8 - v.x % 8 in
    let w : Vc = record v { x = add32 v.x c; pos = add64 v.pos (2 * c) } in
    if leb w.geo.cols w.x
    then line_feed (record w { x = sub32 w.x w.geo.cols; pos = sub64 w.pos w.geo.row_size })
    else w

-- The state VT_NORMAL, but for ESC.
unfoldable pub normal_char : ℕ → Vc → Vc
normal_char c v =
    if ltb 31 c && ltb c 127
    then print_char c v
    else if c == 8
    then back_space v
    else if c == 9
    then tab v
    else if c == 10 || c == 11 || c == 12
    then line_feed v
    else if c == 13
    then carriage_return v
    else v

-- The state VT_ESC, but for `[`. reverse_line_feed and respond_ID change nothing.
unfoldable pub esc_char : ℕ → Vc → Vc
esc_char c v =
    if c == 68
    then line_feed v
    else if c == 69
    then gotoxy 0 v.y (record v { y = add32 v.y 1 })
    else if c == 55
    then save_cursor v
    else if c == 56
    then restore_cursor v
    else v

-- What con_write changes: its local variables and the console.
pub record Parser : Type 0 where
  pub state : VtState
  pub npar : ℕ
  pub vc : Vc

-- The state VT_CSI_PARAMETER, and VT_CSI_HANDLE behind it.
unfoldable pub parameter_char : ℕ → ℕ → Vc → Parser
parameter_char c npar v =
    if c == 59 && ltb npar 15
    then record { state = vt_csi_parameter; npar = npar + 1; vc = v }
    else if leb 48 c && leb c 57
    then record {
      state = vt_csi_parameter;
      npar = npar;
      vc = record v { par = write v.par npar ((10 * v.par npar + (c - 48)) % u32) };
    }
    else record { state = vt_normal; npar = npar; vc = handle_csi c (record v { npar = npar }) }

-- One round of con_write.
unfoldable pub write_char : ℕ → Parser → Parser
write_char c p = elim p.state [
  | vt_normal ↦
      if c == 27 then record p { state = vt_esc } else record p { vc = normal_char c p.vc }
  | vt_esc ↦
      if c == 91
      then record p { state = vt_csi_question }
      else record p { state = vt_normal; vc = esc_char c p.vc }
  | vt_csi_question ↦
      let cleared : Vc = record p.vc { par = λ i. if ltb i 16 then 0 else p.vc.par i } in
      if c == 63
      then record { state = vt_csi_parameter; npar = 0; vc = cleared }
      else parameter_char c 0 cleared
  | vt_csi_parameter ↦ parameter_char c p.npar p.vc
]

unfoldable pub write_chars : List ℕ → Parser → Parser
write_chars [] p = p
write_chars (c ∷ cs) p = write_chars cs (write_char c p)

-- -EFAULT as an int
abbrev pub efault : ℕ
efault = 0xffff_fff2

-- hide_cursor and set_cursor only write registers.
unfoldable pub con_write : List ℕ → Vc → ℕ × Vc
con_write buf v = elim v.driver [
  | none ↦ (efault, v)
  | some con ↦ (length buf, (write_chars buf (record { state = vt_normal; npar = 0; vc = v })).vc)
]

unfoldable pub con_put_char : ℕ → Vc → ℕ × Vc
con_put_char ch v = con_write (ch ∷ []) v

-- `stopped` is the field of struct tty_struct.
unfoldable pub con_write_room : Bool → ℕ
con_write_room stopped = if stopped then 0 else 32768
