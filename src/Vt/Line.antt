-- ===== src/Vt/Line.antt =====
-- drivers/tty/vt/vt.c: what printing text on one line shows.
use sandix.Common.{
  ℕ, zero, suc, ◌+◌, ◌*◌, ◌%◌, ◌≤◌, ◌<◌, ◌≡◌, ◌⊎◌, refl, ap, ◌∙◌, sym, subst, inl, inr, true, false,
  ◌&&◌, none, some, List, [], ◌∷◌, length, get_elem?, arith, ltb, ◌==◌,
}
use sandix.Word.{add64, add64-eq}
use sandix.Strings.Mem.{write}
use sandix.Vt.{u32, add32, ConDriver, vga_con, Vc, vga_addr, con_putc}
use sandix.Vt.Init.{vga_attr}
use sandix.Vt.Write.{
  vt_normal, wrap_line, print_char, normal_char, write_char, write_chars, efault, con_write,
}
use sandix.Vt.Words.{write-here, write-there}
use sandix.Vt.Window.{IsOnScreen, row-le, cell-lt}
use sandix.Vt.Stays.{print_char-IsOnScreen}

-- The address of a column of the cursor's line.
abbrev pub cell : Vc → ℕ → ℕ
cell v col = v.visible_origin + 2 * (v.geo.cols * v.y + col)

-- Text that was printed from the cursor on.
pub record IsPrinted (cs : List ℕ) (v w : Vc) : Type 0 where
  pub col : w.x ≡ v.x + length cs
  pub line : w.y ≡ v.y
  pub shown : (i c : ℕ) → get_elem? cs i ≡ some c → w.mem (cell v (v.x + i)) ≡ vga_attr v c
  pub kept : (p : ℕ) → (p < cell v v.x) ⊎ (cell v (v.x + length cs) ≤ p) → w.mem p ≡ v.mem p

-- Bytes from the blank to the tilde.
unfoldable pub IsPrintable : List ℕ → Type 0
IsPrintable cs = (i c : ℕ) → get_elem? cs i ≡ some c → (31 < c) × (c < 127)

vga_addr-cell :
    (v : Vc) → IsOnScreen (some vga_con) v → v.x < v.geo.cols → vga_addr v v.y v.x ≡ cell v v.x
unfolding vga_addr
vga_addr-cell v h k =
    let inside = cell-lt v.geo.cols v.geo.rows v.y v.x h.line k in
    let small : 2 * (v.geo.cols * v.y + v.x) % u32 ≡ 2 * (v.geo.cols * v.y + v.x) =
      omega (arith, inside, h.screen.size, h.screen.short) in
    ap (add64 v.visible_origin) small
    ∙ add64-eq v.visible_origin (2 * (v.geo.cols * v.y + v.x))
        (omega (arith, inside, h.screen.size, h.stop, h.inside, h.screen.below))

wrap_line-inside : (v : Vc) → v.x < v.geo.cols → wrap_line v ≡ v
unfolding wrap_line
wrap_line-inside v k =
    let on : (v.x == v.geo.cols) ≡ false = ground (arith, k) in rw (wrap_line, on) refl

-- The console behind a character in front of the end of the line.
abbrev shows : ℕ → Vc → Vc
shows c v = record v {
  mem = write v.mem (cell v v.x) (vga_attr v c);
  x = v.x + 1;
  pos = add64 v.pos 2;
}

con_putc-cell :
    (c : ℕ) (v : Vc)
    → IsOnScreen (some vga_con) v
    → v.x < v.geo.cols
    → con_putc c v.y v.x v ≡ record v { mem = write v.mem (cell v v.x) (vga_attr v c) }
unfolding con_putc
con_putc-cell c v h k =
    rw (con_putc, h.bound, vga_addr-cell v h k)
      (ap (λ d. record v { driver = d; mem = write v.mem (cell v v.x) (vga_attr v c) }) h.bound)

print_char-shows :
    (c : ℕ) (v : Vc) → IsOnScreen (some vga_con) v → v.x < v.geo.cols → print_char c v ≡ shows c v
unfolding print_char add32
print_char-shows c v h k =
    let behind : Vc → Vc = λ p. record p { x = add32 p.x 1; pos = add64 p.pos 2 } in
    let next : (v.x + 1) % u32 ≡ v.x + 1 =
      omega (arith, k, (row-le v.geo h.screen).0, h.screen.short) in
    ap (λ w. behind (con_putc c w.y w.x w)) (wrap_line-inside v k)
    ∙ ap behind (con_putc-cell c v h k)
    ∙ ap (λ x. record (shows c v) { x = x }) next

printable_step :
    (c npar : ℕ) (v : Vc)
    → 31 < c
    → c < 127
    → write_char c (record { state = vt_normal; npar = npar; vc = v })
      ≡ record { state = vt_normal; npar = npar; vc = print_char c v }
unfolding write_char normal_char
printable_step c npar v low high =
    let text : (c == 27) ≡ false = ground (arith, low) in
    let print : ltb 31 c && ltb c 127 ≡ true = ground (arith, low, high) in
    rw (write_char, text, normal_char, print) refl

-- A character more in front of the text.
module _ (c : ℕ) (cs : List ℕ) (v w : Vc) (p : IsPrinted cs (shows c v) w) where
  shown_cons : (i d : ℕ) → get_elem? (c ∷ cs) i ≡ some d → w.mem (cell v (v.x + i)) ≡ vga_attr v d
  shown_cons zero d e =
      let first : cell v (v.x + 0) ≡ cell v v.x = omega arith in
      let same : c ≡ d = cc in
      ap w.mem first
      ∙ p.kept (cell v v.x) (inl (omega arith))
      ∙ write-here v.mem (cell v v.x) (vga_attr v c)
      ∙ ap (vga_attr v) same
  shown_cons (suc i) d e =
      let next : cell v (v.x + suc i) ≡ cell v (v.x + 1 + i) = omega arith in
      ap w.mem next ∙ p.shown i d e

  kept_cons : (q : ℕ) → (q < cell v v.x) ⊎ (cell v (v.x + length (c ∷ cs)) ≤ q) → w.mem q ≡ v.mem q
  kept_cons q (inl low) =
      p.kept q (inl (omega (arith, low)))
      ∙ write-there v.mem (cell v v.x) (vga_attr v c) q (inl low)
  kept_cons q (inr high) =
      p.kept q (inr (omega (arith, high)))
      ∙ write-there v.mem (cell v v.x) (vga_attr v c) q (inr (omega (arith, high)))

  IsPrinted-cons : IsPrinted (c ∷ cs) v w
  IsPrinted-cons = record {
    col = omega (arith, p.col);
    line = p.line;
    shown = shown_cons;
    kept = kept_cons;
  }

printed :
    (cs : List ℕ) (npar : ℕ) (v : Vc)
    → IsOnScreen (some vga_con) v
    → IsPrintable cs
    → v.x + length cs ≤ v.geo.cols
    → IsPrinted cs v (write_chars cs (record { state = vt_normal; npar = npar; vc = v })).vc
unfolding write_chars IsPrintable
printed [] npar v h text fits = record {
  col = omega arith;
  line = refl;
  shown = λ i c e. absurd cc;
  kept = λ p out. refl;
}
printed (c ∷ cs) npar v h text fits =
    let (low, high) = text 0 c refl in
    let e = print_char-shows c v h (omega (arith, fits)) in
    let step =
      printable_step c npar v low high
      ∙ ap (λ w. record { state = vt_normal; npar = npar; vc = w }) e in
    subst (λ q. IsPrinted (c ∷ cs) v (write_chars cs q).vc) (sym step)
      (IsPrinted-cons c cs v _ (
        printed cs npar (shows c v)
          (subst (IsOnScreen (some vga_con)) e (print_char-IsOnScreen c v h))
          (λ i d. text (suc i) d) (omega (arith, fits))))

-- With a driver con_write runs its parser from the start.
pub con_write-chars :
    {con : ConDriver} (cs : List ℕ) (v : Vc)
    → v.driver ≡ some con
    → (con_write cs v).1 ≡ (write_chars cs (record { state = vt_normal; npar = 0; vc = v })).vc
unfolding con_write
con_write-chars cs v bound =
    ap
      (λ d.
        (elim d as (λ x. ℕ × Vc) [
          | none ↦ (efault, v)
          | some con ↦
              (length cs, (write_chars cs (record { state = vt_normal; npar = 0; vc = v })).vc)
        ]).1)
      bound

-- Printable text that fits behind the cursor on its line is shown there: each character stands in its
-- column with the console's attribute, every other word of the video memory is as it was, and the
-- cursor is behind the text.
pub con_write-IsPrinted :
    (cs : List ℕ) (v : Vc)
    → IsOnScreen (some vga_con) v
    → IsPrintable cs
    → v.x + length cs ≤ v.geo.cols
    → IsPrinted cs v (con_write cs v).1
con_write-IsPrinted cs v h text fits =
    subst (IsPrinted cs v) (sym (con_write-chars cs v h.bound)) (printed cs 0 v h text fits)
