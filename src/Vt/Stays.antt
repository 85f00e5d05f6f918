-- ===== src/Vt/Stays.antt =====
-- drivers/tty/vt/vt.c: whatever is written, the cursor stays on the screen.
use sandix.Common.{
  ℕ, ◌+◌, ◌-◌, ◌*◌, ◌%◌, ◌≤◌, ◌<◌, ◌≡◌, refl, inl, inr, Bool, true, false, ◌&&◌, ◌||◌, Option, none,
  some, List, [], ◌∷◌, arith, ltb, leb, ◌==◌, if◌then◌else◌, Bool-cases,
}
use sandix.Strings.Mem.{write}
use sandix.Vt.{ConDriver, u32, add32, sub32, Vc, con_putc, gotoxy}
use sandix.Vt.Csi.{
  delete_char, insert_char, csi_J, csi_K, csi_P, csi_X, csi_at, update_attribute, csi_m, csi_r,
  at_least_one, handle_csi,
}
use sandix.Vt.Write.{
  Parser, vt_normal, vt_esc, vt_csi_question, vt_csi_parameter, wrap_line, print_char, back_space,
  tab, normal_char, esc_char, parameter_char, write_char, write_chars, con_write,
}
use sandix.Vt.Place.{next_col}
use sandix.Vt.Window.{
  IsOnScreen, IsOnScreen-if, row-le, place-IsOnScreen, draw-IsOnScreen, gotoxy-IsOnScreen,
  con_putc-IsOnScreen, save_cursor-IsOnScreen, restore_cursor-IsOnScreen,
  carriage_return-IsOnScreen, line_feed-IsOnScreen,
}

-- Memory, attributes and parameters do not matter.
drawn :
    {d : Option ConDriver} (v : Vc)
    → IsOnScreen d v
    → (mem : ℕ → ℕ) → IsOnScreen d (record v { mem = mem })
drawn v h mem = draw-IsOnScreen v h v.attributes v.erased_char v.npar v.par mem

with_par :
    {d : Option ConDriver} (v : Vc)
    → IsOnScreen d v
    → (par : ℕ → ℕ) → IsOnScreen d (record v { par = par })
with_par v h par = draw-IsOnScreen v h v.attributes v.erased_char v.npar par v.mem

-- In front of a printed character the cursor is left of the end of the line.
pub wrap_line-IsOnScreen :
    {d : Option ConDriver} (v : Vc) → IsOnScreen d v → IsOnScreen d (wrap_line v)
unfolding wrap_line
wrap_line-IsOnScreen v h =
    IsOnScreen-if (v.x == v.geo.cols)
      (line_feed-IsOnScreen _ (place-IsOnScreen v h 0 v.y _ (omega arith) h.line)) h

pub print_char-IsOnScreen :
    {d : Option ConDriver} (c : ℕ) (v : Vc) → IsOnScreen d v → IsOnScreen d (print_char c v)
unfolding print_char
print_char-IsOnScreen c v h =
    let w = wrap_line v in
    let k = con_putc-IsOnScreen w (wrap_line-IsOnScreen v h) c w.y w.x in
    place-IsOnScreen (con_putc c w.y w.x w) k _ _ _ (next_col c v h) k.line

back_space-IsOnScreen :
    {d : Option ConDriver} (v : Vc) → IsOnScreen d v → IsOnScreen d (back_space v)
unfolding back_space
back_space-IsOnScreen v h =
    IsOnScreen-if (v.x == 0) h (place-IsOnScreen v h (v.x - 1) v.y _ (omega (arith, h.col)) h.line)

tab_col : (x cols : ℕ) → x ≤ cols → 2 * cols < u32 → add32 x (8 - x % 8) ≡ x + (8 - x % 8)
unfolding add32
tab_col x cols h k = omega arith

wrapped : (x cols : ℕ) → cols ≤ x → x < u32 → sub32 x cols ≡ x - cols
unfolding sub32
wrapped x cols h k = omega arith

tab-IsOnScreen : {d : Option ConDriver} (v : Vc) → IsOnScreen d v → IsOnScreen d (tab v)
unfolding tab
tab-IsOnScreen v h =
    let c = 8 - v.x % 8 in
    let small = (row-le v.geo h.screen).0 in
    let moved : add32 v.x c ≡ v.x + c =
      tab_col v.x v.geo.cols h.col (omega (arith, small, h.screen.short)) in
    elim (Bool-cases (leb v.geo.cols (add32 v.x c))) [
      | inl over ↦
          rw (tab, over)
            (line_feed-IsOnScreen _ (
              place-IsOnScreen v h (sub32 (add32 v.x c) v.geo.cols) v.y _
                (ground (
                  arith,
                  moved,
                  over,
                  wrapped (add32 v.x c) v.geo.cols (ground (arith, over)),
                  h.col,
                  h.screen.wide,
                  small,
                  h.screen.short,
                ))
                h.line))
      | inr within ↦
          rw (tab, within) (place-IsOnScreen v h (add32 v.x c) v.y _ (ground arith) h.line)
    ]

csi_J-IsOnScreen : {d : Option ConDriver} (v : Vc) → IsOnScreen d v → IsOnScreen d (csi_J v)
unfolding csi_J
csi_J-IsOnScreen v h = IsOnScreen-if (v.par 0 == 0) (drawn v h _) (
    IsOnScreen-if (v.par 0 == 1) (drawn v h _)
      (IsOnScreen-if (v.par 0 == 2) (drawn v h _) (IsOnScreen-if (v.par 0 == 3) (drawn v h _) h)))

csi_r-IsOnScreen : {d : Option ConDriver} (v : Vc) → IsOnScreen d v → IsOnScreen d (csi_r v)
unfolding csi_r
csi_r-IsOnScreen v h =
    let v1 = at_least_one 0 v in
    let v2 : Vc = record v1 {
      par = write v1.par 1 (if v1.par 1 == 0 then v1.geo.rows else v1.par 1);
    } in
    let k = with_par v h v2.par in
    IsOnScreen-if (ltb (v2.par 0) (v2.par 1) && leb (v2.par 1) v2.geo.rows)
      (gotoxy-IsOnScreen (record v2 { top = v2.par 0 - 1; bottom = v2.par 1 })
        (record {
          screen = k.screen;
          bound = k.bound;
          col = k.col;
          line = k.line;
          saved_col = k.saved_col;
          saved_line = k.saved_line;
          start = k.start;
          stop = k.stop;
          inside = k.inside;
        })
        0 0)
      k

handle_csi-IsOnScreen :
    {d : Option ConDriver} (c : ℕ) (v : Vc) → IsOnScreen d v → IsOnScreen d (handle_csi c v)
unfolding handle_csi csi_K csi_P csi_X csi_at csi_m delete_char insert_char update_attribute
handle_csi-IsOnScreen {d = d} c v h =
    let go : (par : ℕ → ℕ) (a b : ℕ) → IsOnScreen d (gotoxy a b (record v { par = par })) =
      λ par a b. gotoxy-IsOnScreen (record v { par = par }) (with_par v h par) a b in
    IsOnScreen-if (c == 71 || c == 96) (go _ _ _) (
      IsOnScreen-if (c == 65) (go _ _ _) (
        IsOnScreen-if (c == 66 || c == 101) (go _ _ _) (
          IsOnScreen-if (c == 67 || c == 97 || c == 68) (go _ _ _) (
            IsOnScreen-if (c == 69) (go _ _ _) (
              IsOnScreen-if (c == 70) (go _ _ _) (
                IsOnScreen-if (c == 100) (go _ _ _) (
                  IsOnScreen-if (c == 72 || c == 102) (go _ _ _) (
                    IsOnScreen-if (c == 74) (csi_J-IsOnScreen v h) (
                      IsOnScreen-if (c == 75) (IsOnScreen-if (v.par 0 == 0) (drawn v h _) h) (
                        IsOnScreen-if (c == 80) (drawn v h _) (
                          IsOnScreen-if (c == 88) (drawn v h _) (
                            IsOnScreen-if (c == 109) (draw-IsOnScreen v h _ _ _ _ _) (
                              IsOnScreen-if (c == 114) (csi_r-IsOnScreen v h) (
                                IsOnScreen-if (c == 115) (save_cursor-IsOnScreen v h) (
                                  IsOnScreen-if (c == 117) (restore_cursor-IsOnScreen v h)
                                    (IsOnScreen-if (c == 64) (drawn v h _) h))))))))))))))))

normal_char-IsOnScreen :
    {d : Option ConDriver} (c : ℕ) (v : Vc) → IsOnScreen d v → IsOnScreen d (normal_char c v)
unfolding normal_char
normal_char-IsOnScreen c v h = IsOnScreen-if (ltb 31 c && ltb c 127) (print_char-IsOnScreen c v h) (
    IsOnScreen-if (c == 8) (back_space-IsOnScreen v h) (
      IsOnScreen-if (c == 9) (tab-IsOnScreen v h) (
        IsOnScreen-if (c == 10 || c == 11 || c == 12) (line_feed-IsOnScreen v h)
          (IsOnScreen-if (c == 13) (carriage_return-IsOnScreen v h) h))))

-- ESC E goes to the line that it was on.
same_line-IsOnScreen :
    {d : Option ConDriver} (v : Vc)
    → IsOnScreen d v
    → IsOnScreen d (gotoxy 0 v.y (record v { y = add32 v.y 1 }))
unfolding gotoxy
same_line-IsOnScreen v h =
    let on : leb v.geo.cols 0 || leb v.geo.rows v.y ≡ false =
      ground (arith, h.screen.wide, h.line) in
    rw (gotoxy, on) (place-IsOnScreen v h 0 v.y _ (omega arith) h.line)

esc_char-IsOnScreen :
    {d : Option ConDriver} (c : ℕ) (v : Vc) → IsOnScreen d v → IsOnScreen d (esc_char c v)
unfolding esc_char
esc_char-IsOnScreen c v h = IsOnScreen-if (c == 68) (line_feed-IsOnScreen v h) (
    IsOnScreen-if (c == 69) (same_line-IsOnScreen v h) (
      IsOnScreen-if (c == 55) (save_cursor-IsOnScreen v h)
        (IsOnScreen-if (c == 56) (restore_cursor-IsOnScreen v h) h)))

Parser-if :
    {d : Option ConDriver} (p q : Parser) (t : Bool)
    → IsOnScreen d p.vc
    → IsOnScreen d q.vc
    → IsOnScreen d (if t then p else q).vc
Parser-if p q true h k = h
Parser-if p q false h k = k

parameter_char-IsOnScreen :
    {d : Option ConDriver} (c npar : ℕ) (v : Vc)
    → IsOnScreen d v
    → IsOnScreen d (parameter_char c npar v).vc
unfolding parameter_char
parameter_char-IsOnScreen c npar v h = Parser-if _ _ (c == 59 && ltb npar 15) h (
    Parser-if _ _ (leb 48 c && leb c 57) (with_par v h _) (
      handle_csi-IsOnScreen c (record v { npar = npar })
        (draw-IsOnScreen v h v.attributes v.erased_char npar v.par v.mem)))

write_char-IsOnScreen :
    {d : Option ConDriver} (c : ℕ) (p : Parser)
    → IsOnScreen d p.vc
    → IsOnScreen d (write_char c p).vc
unfolding write_char
write_char-IsOnScreen {d = d} c p h =
    elim p.state as (λ t. p.state ≡ t → IsOnScreen d (write_char c p).vc) [
      | vt_normal ↦
          λ e. rw (write_char, e) (Parser-if _ _ (c == 27) h (normal_char-IsOnScreen c p.vc h))
      | vt_esc ↦ λ e. rw (write_char, e) (Parser-if _ _ (c == 91) h (esc_char-IsOnScreen c p.vc h))
      | vt_csi_question ↦ λ e.
          rw (write_char, e)
            (Parser-if _ _ (c == 63) (with_par p.vc h _)
              (parameter_char-IsOnScreen c 0 _ (with_par p.vc h _)))
      | vt_csi_parameter ↦ λ e. rw (write_char, e) (parameter_char-IsOnScreen c p.npar p.vc h)
    ]
      refl

write_chars-IsOnScreen :
    {d : Option ConDriver} (cs : List ℕ) (p : Parser)
    → IsOnScreen d p.vc
    → IsOnScreen d (write_chars cs p).vc
unfolding write_chars
write_chars-IsOnScreen [] p h = h
write_chars-IsOnScreen (c ∷ cs) p h =
    write_chars-IsOnScreen cs (write_char c p) (write_char-IsOnScreen c p h)

-- Whatever bytes are written to a console whose cursor and window are where they belong, they are
-- there afterwards: con_write leaves the cursor and the saved cursor on the screen, at most behind
-- the end of a line, and the window in the video memory, and the console keeps its driver.
pub con_write-IsOnScreen :
    {d : Option ConDriver} (buf : List ℕ) (v : Vc)
    → IsOnScreen d v
    → IsOnScreen d ((con_write buf v).1)
unfolding con_write
con_write-IsOnScreen {d = d} buf v h =
    elim v.driver as (λ b. v.driver ≡ b → IsOnScreen d ((con_write buf v).1)) [
      | none ↦ λ e. rw (con_write, e) h
      | some con ↦ λ e. rw (con_write, e) (write_chars-IsOnScreen buf _ h)
    ]
      refl
