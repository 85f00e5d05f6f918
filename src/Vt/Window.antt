-- ===== src/Vt/Window.antt =====
-- drivers/tty/vt/vt.c: the moves of the cursor and of the window keep both where they belong.
use sandix.Common.{
  ℕ, ◌+◌, ◌*◌, ◌/◌, ◌%◌, ◌≤◌, ◌<◌, ◌≡◌, refl, ap, ◌∙◌, inl, inr, Bool, true, false, ◌||◌, Option,
  none, some, arith, leb, ◌==◌, if◌then◌else◌, Bool-cases,
}
use native.Mathlib.Nat.{mul-le-mul_left, mul-le-mul_right}
use sandix.Word.{ullong_max, add64, add64-eq}
use sandix.Vt.{
  ConDriver, u32, add32, vga_con, dummy_con, Geometry, Attributes, Vc, con_putc, win_down, rewind,
  vgacon_scroll, con_scroll, scrdown, save_cursor, restore_cursor, carriage_return, line_feed,
  gotoxy,
}

-- A screen of text that fits the video memory.
pub record IsScreen (g : Geometry) : Type 0 where
  pub wide : 8 ≤ g.cols
  pub high : 1 ≤ g.rows
  pub row : g.row_size ≡ 2 * g.cols
  pub size : g.scr_size ≡ 2 * (g.cols * g.rows)
  pub fits : g.vram_base + g.scr_size ≤ g.vram_end
  pub short : g.scr_size < u32
  pub below : g.vram_end + g.scr_size ≤ ullong_max

-- The cursor and the saved cursor are on the screen, at most behind the end of a line, and the
-- window is in the video memory.
pub record IsOnScreen (d : Option ConDriver) (v : Vc) : Type 0 where
  pub screen : IsScreen v.geo
  pub bound : v.driver ≡ d
  pub col : v.x ≤ v.geo.cols
  pub line : v.y < v.geo.rows
  pub saved_col : v.saved_x ≤ v.geo.cols
  pub saved_line : v.saved_y < v.geo.rows
  pub start : v.geo.vram_base ≤ v.visible_origin
  pub stop : v.scr_end ≡ v.visible_origin + v.geo.scr_size
  pub inside : v.scr_end ≤ v.geo.vram_end

pub IsOnScreen-if :
    {d : Option ConDriver} {a b : Vc} (t : Bool)
    → IsOnScreen d a
    → IsOnScreen d b
    → IsOnScreen d (if t then a else b)
IsOnScreen-if true h k = h
IsOnScreen-if false h k = k

-- The rows are not longer than the screen.
pub row-le : (g : Geometry) → IsScreen g → (2 * g.cols ≤ g.scr_size) × (g.rows ≤ g.scr_size)
row-le g s = (
  omega (arith, s.size, mul-le-mul_left g.cols s.high),
  omega (arith, s.size, mul-le-mul_right g.rows s.wide),
)

-- A place on the screen.
pub cell-lt : (cols rows line col : ℕ) → line < rows → col < cols → cols * line + col < cols * rows
cell-lt cols rows line col h k = omega (arith, mul-le-mul_left cols h, k)

module _ {d : Option ConDriver} (v : Vc) (h : IsOnScreen d v) where
  pub place-IsOnScreen :
      (col line pos : ℕ)
      → col ≤ v.geo.cols
      → line < v.geo.rows
      → IsOnScreen d (record v { x = col; y = line; pos = pos })
  place-IsOnScreen col line pos b c = record {
    screen = h.screen;
    bound = h.bound;
    col = b;
    line = c;
    saved_col = h.saved_col;
    saved_line = h.saved_line;
    start = h.start;
    stop = h.stop;
    inside = h.inside;
  }

  pub draw-IsOnScreen :
      (attributes : Attributes) (erased_char npar : ℕ) (par mem : ℕ → ℕ)
      → IsOnScreen d (record v {
        attributes = attributes;
        erased_char = erased_char;
        npar = npar;
        par = par;
        mem = mem;
      })
  draw-IsOnScreen attributes erased_char npar par mem = record {
    screen = h.screen;
    bound = h.bound;
    col = h.col;
    line = h.line;
    saved_col = h.saved_col;
    saved_line = h.saved_line;
    start = h.start;
    stop = h.stop;
    inside = h.inside;
  }

  pub gotoxy-IsOnScreen : (new_x new_y : ℕ) → IsOnScreen d (gotoxy new_x new_y v)
  unfolding gotoxy
  gotoxy-IsOnScreen new_x new_y = elim (Bool-cases (leb v.geo.cols new_x || leb v.geo.rows new_y)) [
    | inl out ↦ rw (gotoxy, out) h
    | inr on ↦ rw (gotoxy, on) (place-IsOnScreen new_x new_y _ (ground arith) (ground arith))
  ]

  pub con_putc-IsOnScreen : (c row col : ℕ) → IsOnScreen d (con_putc c row col v)
  unfolding con_putc
  con_putc-IsOnScreen c row col =
      elim v.driver as (λ b. v.driver ≡ b → IsOnScreen d (con_putc c row col v)) [
        | none ↦ λ e. rw (con_putc, e) h
        | some vga_con ↦
            λ e. rw (con_putc, e) (draw-IsOnScreen v.attributes v.erased_char v.npar v.par _)
        | some dummy_con ↦ λ e. rw (con_putc, e) h
      ]
        refl

  rewind-IsOnScreen : (delta : ℕ) → IsOnScreen d (rewind delta v)
  unfolding rewind
  rewind-IsOnScreen delta = record {
    screen = h.screen;
    bound = h.bound;
    col = h.col;
    line = h.line;
    saved_col = h.saved_col;
    saved_line = h.saved_line;
    start = omega arith;
    stop = end-eq;
    inside = omega (arith, end-eq, h.screen.fits);
  }
    where
      end-eq : add64 v.geo.vram_base v.geo.scr_size ≡ v.geo.vram_base + v.geo.scr_size
      end-eq =
          add64-eq v.geo.vram_base v.geo.scr_size (omega (arith, h.screen.fits, h.screen.below))

  vgacon_scroll-IsOnScreen : IsOnScreen d (vgacon_scroll win_down 1 v)
  unfolding vgacon_scroll
  vgacon_scroll-IsOnScreen =
      let delta : ℕ = 1 * v.geo.row_size % u32 in
      let small : delta ≡ v.geo.row_size =
        omega (arith, (row-le v.geo h.screen).0, h.screen.row, h.screen.short) in
      let end-eq : add64 v.scr_end delta ≡ v.scr_end + v.geo.row_size =
        add64-eq v.scr_end delta
          (omega (arith, h.inside, h.screen.below, (row-le v.geo h.screen).0, h.screen.row, small))
        ∙ ap (λ d. v.scr_end + d) small in
      let start-eq : add64 v.visible_origin delta ≡ v.visible_origin + v.geo.row_size =
        add64-eq v.visible_origin delta (
          omega (
            arith,
            h.inside,
            h.stop,
            h.screen.below,
            (row-le v.geo h.screen).0,
            h.screen.row,
            small,
          ))
        ∙ ap (λ d. v.visible_origin + d) small in
      elim (Bool-cases (1 == 0 || leb 0x8000_0000 1 || leb (v.geo.rows / 2) 1)) [
        | inl still ↦ rw (vgacon_scroll, still) h
        | inr moves ↦ elim (Bool-cases (leb (add64 v.scr_end delta) v.geo.vram_end)) [
          | inl room ↦
              rw (vgacon_scroll, moves, room)
                (record {
                  screen = h.screen;
                  bound = h.bound;
                  col = h.col;
                  line = h.line;
                  saved_col = h.saved_col;
                  saved_line = h.saved_line;
                  start = omega (arith, start-eq, h.start);
                  stop = omega (arith, start-eq, end-eq, h.stop);
                  inside = ground (arith, room);
                })
          | inr full ↦ rw (vgacon_scroll, moves, full) (rewind-IsOnScreen delta)
        ]
      ]

  pub scrdown-IsOnScreen : IsOnScreen d (scrdown 1 v)
  unfolding scrdown con_scroll
  scrdown-IsOnScreen =
      elim v.driver as (λ b. v.driver ≡ b → IsOnScreen d (scrdown 1 v)) [
        | none ↦ λ e. rw (scrdown, con_scroll, e) h
        | some vga_con ↦ λ e. rw (scrdown, con_scroll, e) vgacon_scroll-IsOnScreen
        | some dummy_con ↦ λ e. rw (scrdown, con_scroll, e) h
      ]
        refl

  pub save_cursor-IsOnScreen : IsOnScreen d (save_cursor v)
  unfolding save_cursor
  save_cursor-IsOnScreen = record {
    screen = h.screen;
    bound = h.bound;
    col = h.col;
    line = h.line;
    saved_col = h.col;
    saved_line = h.line;
    start = h.start;
    stop = h.stop;
    inside = h.inside;
  }

  pub restore_cursor-IsOnScreen : IsOnScreen d (restore_cursor v)
  unfolding restore_cursor
  restore_cursor-IsOnScreen = place-IsOnScreen v.saved_x v.saved_y v.pos h.saved_col h.saved_line

  pub carriage_return-IsOnScreen : IsOnScreen d (carriage_return v)
  unfolding carriage_return
  carriage_return-IsOnScreen = place-IsOnScreen 0 v.y _ (omega arith) h.line

  next_line : add32 v.y 1 ≡ v.y + 1
  unfolding add32
  next_line = omega (arith, h.line, (row-le v.geo h.screen).1, h.screen.short)

pub line_feed-IsOnScreen :
    {d : Option ConDriver} (v : Vc) → IsOnScreen d v → IsOnScreen d (line_feed v)
unfolding line_feed
line_feed-IsOnScreen v h = elim (Bool-cases (add32 v.y 1 == v.geo.rows)) [
  | inl last ↦
      rw (line_feed, last)
        (let w = scrdown-IsOnScreen v h in
          place-IsOnScreen (scrdown 1 v) w (scrdown 1 v).x (scrdown 1 v).y _ w.col w.line)
  | inr more ↦
      rw (line_feed, more)
        (place-IsOnScreen v h v.x (add32 v.y 1) _ h.col
          (ground (arith, next_line v h, h.line, more)))
]
