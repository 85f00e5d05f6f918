-- ===== src/Vt/Place.antt =====
-- drivers/tty/vt/vt.c: what is printed and a new line leave the column alone, and a character is
-- printed left of the end of the line.
use sandix.Common.{
  ℕ, ◌*◌, ◌/◌, ◌%◌, ◌≤◌, ◌<◌, ◌≡◌, refl, ap, inl, inr, ◌||◌, Option, none, some, arith, leb, ◌==◌,
  Bool-cases,
}
use sandix.Word.{add64, sub64}
use sandix.Vt.{
  ConDriver, u32, add32, vga_con, dummy_con, Vc, con_putc, win_down, rewind, vgacon_scroll,
  con_scroll, scrdown, line_feed,
}
use sandix.Vt.Write.{wrap_line}
use sandix.Vt.Window.{IsOnScreen}

-- What is printed, and a new line, leave the column and the geometry alone.
pub con_putc-place :
    (c row col : ℕ) (v : Vc)
    → ((con_putc c row col v).x ≡ v.x) × ((con_putc c row col v).geo ≡ v.geo)
unfolding con_putc
con_putc-place c row col v =
    elim v.driver
        as (λ d.
          v.driver ≡ d → ((con_putc c row col v).x ≡ v.x) × ((con_putc c row col v).geo ≡ v.geo)) [
            | none ↦ λ e. rw (con_putc, e) (refl, refl)
            | some vga_con ↦ λ e. rw (con_putc, e) (refl, refl)
            | some dummy_con ↦ λ e. rw (con_putc, e) (refl, refl)
          ]
      refl

vgacon_scroll-place :
    (v : Vc) → ((vgacon_scroll win_down 1 v).x ≡ v.x) × ((vgacon_scroll win_down 1 v).geo ≡ v.geo)
unfolding vgacon_scroll rewind
vgacon_scroll-place v = elim (Bool-cases (1 == 0 || leb 0x8000_0000 1 || leb (v.geo.rows / 2) 1)) [
  | inl still ↦ rw (vgacon_scroll, still) (refl, refl)
  | inr moves ↦
      elim (Bool-cases (leb (add64 v.scr_end (1 * v.geo.row_size % u32)) v.geo.vram_end)) [
        | inl room ↦ rw (vgacon_scroll, moves, room) (refl, refl)
        | inr full ↦ rw (vgacon_scroll, moves, full) (refl, refl)
      ]
]

scrdown-place : (v : Vc) → ((scrdown 1 v).x ≡ v.x) × ((scrdown 1 v).geo ≡ v.geo)
unfolding scrdown con_scroll
scrdown-place v =
    elim v.driver as (λ d. v.driver ≡ d → ((scrdown 1 v).x ≡ v.x) × ((scrdown 1 v).geo ≡ v.geo)) [
      | none ↦ λ e. rw (scrdown, con_scroll, e) (refl, refl)
      | some vga_con ↦ λ e. rw (scrdown, con_scroll, e) (vgacon_scroll-place v)
      | some dummy_con ↦ λ e. rw (scrdown, con_scroll, e) (refl, refl)
    ]
      refl

pub line_feed-place : (v : Vc) → ((line_feed v).x ≡ v.x) × ((line_feed v).geo ≡ v.geo)
unfolding line_feed
line_feed-place v = elim (Bool-cases (add32 v.y 1 == v.geo.rows)) [
  | inl last ↦ rw (line_feed, last) (scrdown-place v)
  | inr more ↦ rw (line_feed, more) (refl, refl)
]

pub wrap_line-col :
    {d : Option ConDriver} (v : Vc)
    → IsOnScreen d v
    → ((wrap_line v).x < (wrap_line v).geo.cols) × ((wrap_line v).geo ≡ v.geo)
unfolding wrap_line
wrap_line-col v h = elim (Bool-cases (v.x == v.geo.cols)) [
  | inl end ↦
      rw (wrap_line, end)
        (let (col, geo) = line_feed-place (record v { x = 0; pos = sub64 v.pos v.geo.row_size }) in
          (omega (arith, col, ap (λ g. g.cols) geo, h.screen.wide), geo))
  | inr more ↦ rw (wrap_line, more) (ground (arith, more, h.col), refl)
]

-- The column behind a printed character.
pub next_col :
    {d : Option ConDriver} (c : ℕ) (v : Vc)
    → IsOnScreen d v
    → add32 (con_putc c (wrap_line v).y (wrap_line v).x (wrap_line v)).x 1
      ≤ (con_putc c (wrap_line v).y (wrap_line v).x (wrap_line v)).geo.cols
unfolding add32
next_col c v h =
    let w = wrap_line v in
    let (col, geo) = con_putc-place c w.y w.x w in
    let (inside, same) = wrap_line-col v h in omega (arith, col, ap (λ g. g.cols) geo, inside)
