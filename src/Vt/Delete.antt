-- ===== src/Vt/Delete.antt =====
-- drivers/tty/vt/vt.c: deleting characters from the cursor's line.
use sandix.Common.{ℕ, ◌+◌, ◌-◌, ◌*◌, ◌≤◌, ◌<◌, ◌≡◌, ◌⊎◌, ap, ◌∙◌, inl, inr, Option, arith}
use sandix.Vt.{u32, sub32, ConDriver, Vc, scr_memsetw, scr_memcpyw}
use sandix.Vt.Csi.{delete_char, clipped, csi_P}
use sandix.Vt.Window.{IsOnScreen, row-le}
use sandix.Vt.Words.{
  scr_memsetw-outside, scr_memsetw-inside, scr_memcpyw-outside, scr_memcpyw-inside,
}
use sandix.Vt.Line.{cell}

-- `n` characters were deleted at the cursor.
pub record IsDeleted (n : ℕ) (v w : Vc) : Type 0 where
  pub some_chars : 1 ≤ n
  pub in_line : v.x + n ≤ v.geo.cols
  pub moved :
      (i : ℕ) → v.x + i + n < v.geo.cols → w.mem (cell v (v.x + i)) ≡ v.mem (cell v (v.x + i + n))
  pub blank :
      (i : ℕ)
      → v.x + i < v.geo.cols
      → v.geo.cols ≤ v.x + i + n
      → w.mem (cell v (v.x + i)) ≡ v.erased_char
  pub kept : (p : ℕ) → (p < cell v v.x) ⊎ (cell v v.geo.cols ≤ p) → w.mem p ≡ v.mem p

sub32-eq : (a b : ℕ) → b ≤ a → a < u32 → sub32 a b ≡ a - b
unfolding sub32
sub32-eq a b h k = omega (arith, h, k)

cols-lt : {d : Option ConDriver} (v : Vc) → IsOnScreen d v → v.geo.cols < u32
cols-lt v h = omega (arith, (row-le v.geo h.screen).0, h.screen.short)

rest-eq : {d : Option ConDriver} (v : Vc) → IsOnScreen d v → sub32 v.geo.cols v.x ≡ v.geo.cols - v.x
rest-eq v h = sub32-eq v.geo.cols v.x h.col (cols-lt v h)

clipped-le :
    {d : Option ConDriver} (v : Vc)
    → IsOnScreen d v
    → v.x < v.geo.cols
    → (1 ≤ clipped v) × (v.x + clipped v ≤ v.geo.cols)
unfolding clipped
clipped-le v h k = ground (arith, rest-eq v h, k)

module _ {d : Option ConDriver} (v : Vc) (h : IsOnScreen d v) (k : v.x < v.geo.cols)
    (at : v.pos ≡ cell v v.x) where
  -- The characters behind the deleted ones, and the line with them moved.
  abbrev left : ℕ
  left = v.geo.cols - v.x - clipped v

  abbrev shifted : ℕ → ℕ
  shifted = scr_memcpyw v.mem v.pos (v.pos + 2 * clipped v) left

  csi_P-mem : (csi_P v).mem ≡ scr_memsetw shifted (v.pos + 2 * left) v.erased_char (clipped v)
  unfolding csi_P delete_char
  csi_P-mem =
      let n = clipped v in
      let (some_chars, in_line) = clipped-le v h k in
      let count : sub32 (sub32 v.geo.cols v.x) n ≡ left =
        ap (λ r. sub32 r n) (rest-eq v h)
        ∙ sub32-eq (v.geo.cols - v.x) n (omega (arith, in_line)) (omega (arith, cols-lt v h)) in
      let start : v.pos + 2 * v.geo.cols - 2 * v.x - 2 * n ≡ v.pos + 2 * left =
        omega (arith, at, in_line) in
      ap
        (λ l.
          scr_memsetw (scr_memcpyw v.mem v.pos (v.pos + 2 * n) l)
            (v.pos + 2 * v.geo.cols - 2 * v.x - 2 * n) v.erased_char n)
        count
      ∙ ap (λ s. scr_memsetw shifted s v.erased_char n) start

  csi_P-moved :
      (i : ℕ)
      → v.x + i + clipped v < v.geo.cols
      → (csi_P v).mem (cell v (v.x + i)) ≡ v.mem (cell v (v.x + i + clipped v))
  csi_P-moved i b =
      let n = clipped v in
      let here : cell v (v.x + i) ≡ v.pos + 2 * i = omega (arith, at) in
      let there : v.pos + 2 * n + 2 * i ≡ cell v (v.x + i + n) = omega (arith, at) in
      ap (λ m. m (cell v (v.x + i))) csi_P-mem
      ∙ ap (scr_memsetw shifted (v.pos + 2 * left) v.erased_char n) here
      ∙ scr_memsetw-outside shifted (v.pos + 2 * left) v.erased_char n (v.pos + 2 * i)
          (inl (omega (arith, b)))
      ∙ scr_memcpyw-inside v.mem v.pos (v.pos + 2 * n) left i (omega (arith, clipped-le v h k))
          (omega (arith, b))
      ∙ ap v.mem there

  csi_P-blank :
      (i : ℕ)
      → v.x + i < v.geo.cols
      → v.geo.cols ≤ v.x + i + clipped v
      → (csi_P v).mem (cell v (v.x + i)) ≡ v.erased_char
  csi_P-blank i b c =
      let n = clipped v in
      let (some_chars, in_line) = clipped-le v h k in
      let here : cell v (v.x + i) ≡ v.pos + 2 * left + 2 * (i - left) =
        omega (arith, at, c, in_line) in
      ap (λ m. m (cell v (v.x + i))) csi_P-mem
      ∙ ap (scr_memsetw shifted (v.pos + 2 * left) v.erased_char n) here
      ∙ scr_memsetw-inside shifted (v.pos + 2 * left) v.erased_char n (i - left)
          (omega (arith, b, in_line, some_chars))

  csi_P-kept : (p : ℕ) → (p < cell v v.x) ⊎ (cell v v.geo.cols ≤ p) → (csi_P v).mem p ≡ v.mem p
  csi_P-kept p out =
      let n = clipped v in
      let (some_chars, in_line) = clipped-le v h k in
      let apart : (p < v.pos) ⊎ (v.pos + 2 * left + 2 * n ≤ p) = elim out [
        | inl low ↦ inl (omega (arith, at, low))
        | inr high ↦ inr (omega (arith, at, high, in_line))
      ] in
      ap (λ m. m p) csi_P-mem
      ∙ scr_memsetw-outside shifted (v.pos + 2 * left) v.erased_char n p
          (elim apart [ inl low ↦ inl (omega (arith, low)) | inr high ↦ inr high ])
      ∙ scr_memcpyw-outside v.mem v.pos (v.pos + 2 * n) left p
          (elim apart [ inl low ↦ inl low | inr high ↦ inr (omega (arith, high)) ])

-- With the cursor on a line, vc_pos at its place, ESC [ n P deletes at least one character and at most
-- the rest of the line: what is behind them moves up to the cursor, as many erased characters follow
-- at the end of the line, and every word of the video memory outside the rest of the line is as it
-- was.
pub csi_P-IsDeleted :
    {d : Option ConDriver} (v : Vc)
    → IsOnScreen d v
    → v.x < v.geo.cols
    → v.pos ≡ cell v v.x
    → IsDeleted (clipped v) v (csi_P v)
csi_P-IsDeleted v h k at = record {
  some_chars = (clipped-le v h k).0;
  in_line = (clipped-le v h k).1;
  moved = csi_P-moved v h k at;
  blank = csi_P-blank v h k at;
  kept = csi_P-kept v h k at;
}
