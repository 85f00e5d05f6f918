-- ===== src/Vt/Position.antt =====
-- drivers/tty/vt/vt.c: the control sequence that places the cursor, byte by byte.
use sandix.Common.{
  ℕ, suc, ◌+◌, ◌-◌, ◌*◌, ◌%◌, ◌≤◌, ◌<◌, ◌≡◌, refl, ap, ◌∙◌, sym, subst, true, false, ◌&&◌, ◌||◌,
  Option, some, List, [], ◌∷◌, ◌++◌, get_elem?, arith, ltb, leb, ◌==◌, if◌then◌else◌,
}
use sandix.Word.{add64, add64-eq}
use sandix.Strings.Mem.{write}
use sandix.Vt.{u32, ConDriver, Vc, gotoxy}
use sandix.Vt.Csi.{handle_csi}
use sandix.Vt.Write.{
  vt_normal, vt_csi_question, vt_csi_parameter, Parser, parameter_char, write_char, write_chars,
  con_write,
}
use sandix.Vt.Window.{IsOnScreen, row-le, cell-lt}
use sandix.Vt.Line.{con_write-chars}

-- The digits of a number, and the number behind `n`.
unfoldable pub IsDecimal : List ℕ → Type 0
IsDecimal ds = (i d : ℕ) → get_elem? ds i ≡ some d → (48 ≤ d) × (d ≤ 57)

unfoldable pub decimal : ℕ → List ℕ → ℕ
decimal n [] = n
decimal n (d ∷ ds) = decimal (10 * n + (d - 48)) ds

-- The parameters behind the digits.
abbrev digits_par : ℕ → List ℕ → (ℕ → ℕ) → ℕ → ℕ
digits_par n [] par = par
digits_par n (d ∷ ds) par = digits_par n ds (write par n ((10 * par n + (d - 48)) % u32))

abbrev parameters : ℕ → (ℕ → ℕ) → Vc → Parser
parameters n par v = record { state = vt_csi_parameter; npar = n; vc = record v { par = par } }

digit-parameters :
    (d n : ℕ) (par : ℕ → ℕ) (v : Vc)
    → 48 ≤ d
    → d ≤ 57
    → write_char d (parameters n par v)
      ≡ parameters n (write par n ((10 * par n + (d - 48)) % u32)) v
unfolding write_char parameter_char
digit-parameters d n par v low high =
    let next : (d == 59) && ltb n 15 ≡ false = ground (arith, high) in
    let digit : leb 48 d && leb d 57 ≡ true = ground (arith, low, high) in
    rw (parameter_char, next, digit) refl

digits-parameters :
    (ds rest : List ℕ) (n : ℕ) (par : ℕ → ℕ) (v : Vc)
    → IsDecimal ds
    → write_chars (ds ++ rest) (parameters n par v)
      ≡ write_chars rest (parameters n (digits_par n ds par) v)
unfolding write_chars IsDecimal
digits-parameters [] rest n par v h = refl
digits-parameters (d ∷ ds) rest n par v h =
    let (low, high) = h 0 d refl in
    ap (write_chars (ds ++ rest)) (digit-parameters d n par v low high)
    ∙ digits-parameters ds rest n _ v (λ i e. h (suc i) e)

-- The parameter that the digits are for, and the others.
digits_par-same :
    (ds : List ℕ) (n k : ℕ) (par : ℕ → ℕ)
    → par n ≡ k % u32
    → digits_par n ds par n ≡ decimal k ds % u32
unfolding decimal
digits_par-same [] n k par h = h
digits_par-same (d ∷ ds) n k par h =
    let same : (n == n) ≡ true = ground arith in
    let next : (10 * par n + (d - 48)) % u32 ≡ (10 * k + (d - 48)) % u32 = omega (arith, h) in
    digits_par-same ds n (10 * k + (d - 48)) _ (rw same next)

digits_par-other :
    (ds : List ℕ) (n m : ℕ) (par : ℕ → ℕ) → (m == n) ≡ false → digits_par n ds par m ≡ par m
digits_par-other [] n m par h = refl
digits_par-other (d ∷ ds) n m par h = digits_par-other ds n m _ h ∙ rw h refl

separator-parameters :
    (par : ℕ → ℕ) (v : Vc) → write_char 59 (parameters 0 par v) ≡ parameters 1 par v
unfolding write_char parameter_char
separator-parameters par v = refl

-- The first byte behind ESC [ clears the parameters.
abbrev cleared : Vc → ℕ → ℕ
cleared v i = if ltb i 16 then 0 else v.par i

first-parameters :
    (c npar : ℕ) (v : Vc)
    → (c == 63) ≡ false
    → write_char c (record { state = vt_csi_question; npar = npar; vc = v })
      ≡ write_char c (parameters 0 (cleared v) v)
unfolding write_char
first-parameters c npar v h = rw (write_char, h) refl

start-parameters :
    (ds rest : List ℕ) (npar : ℕ) (v : Vc)
    → IsDecimal ds
    → write_chars (ds ++ 59 ∷ rest) (record { state = vt_csi_question; npar = npar; vc = v })
      ≡ write_chars (ds ++ 59 ∷ rest) (parameters 0 (cleared v) v)
unfolding write_chars IsDecimal
start-parameters [] rest npar v h = ap (write_chars rest) (first-parameters 59 npar v refl)
start-parameters (d ∷ ds) rest npar v h =
    let (low, high) = h 0 d refl in
    ap (write_chars (ds ++ 59 ∷ rest)) (first-parameters d npar v (ground (arith, high)))

-- ESC [ row ; column H in con_write, up to its last byte.
abbrev pub position : List ℕ → List ℕ → List ℕ
position row col = 27 ∷ 91 ∷ (row ++ 59 ∷ (col ++ 72 ∷ []))

abbrev position_par : List ℕ → List ℕ → Vc → ℕ → ℕ
position_par row col v = digits_par 1 col (digits_par 0 row (cleared v))

position-parameters :
    (row col : List ℕ) (npar : ℕ) (v : Vc)
    → IsDecimal row
    → IsDecimal col
    → write_chars (position row col) (record { state = vt_normal; npar = npar; vc = v })
      ≡ write_char 72 (parameters 1 (position_par row col v) v)
unfolding write_chars write_char
position-parameters row col npar v h k =
    start-parameters row (col ++ 72 ∷ []) npar v h
    ∙ digits-parameters row (59 ∷ (col ++ 72 ∷ [])) 0 (cleared v) v h
    ∙ ap (write_chars (col ++ 72 ∷ [])) (separator-parameters _ v)
    ∙ digits-parameters col (72 ∷ []) 1 _ v k

-- A cursor at a place, with nothing drawn.
abbrev pub PlacedAt : ℕ → ℕ → Vc → Vc → Type 0
PlacedAt col row v w =
    (w.x ≡ col)
    × (w.y ≡ row)
    × (w.pos ≡ v.visible_origin + 2 * (v.geo.cols * row + col))
    × (w.mem ≡ v.mem)

gotoxy-PlacedAt :
    {d : Option ConDriver} (col row : ℕ) (par : ℕ → ℕ) (npar : ℕ) (v : Vc)
    → IsOnScreen d v
    → col < v.geo.cols
    → row < v.geo.rows
    → PlacedAt col row v (gotoxy col row (record v { par = par; npar = npar }))
unfolding gotoxy
gotoxy-PlacedAt col row par npar v h k l =
    let on : leb v.geo.cols col || leb v.geo.rows row ≡ false = ground (arith, k, l) in
    let inside = cell-lt v.geo.cols v.geo.rows row col l k in
    let small : 2 * (v.geo.cols * row + col) % u32 ≡ 2 * (v.geo.cols * row + col) =
      omega (arith, inside, h.screen.size, h.screen.short) in
    let place =
      ap (add64 v.visible_origin) small
      ∙ add64-eq v.visible_origin (2 * (v.geo.cols * row + col))
          (omega (arith, inside, h.screen.size, h.stop, h.inside, h.screen.below)) in
    rw (gotoxy, on) (refl, refl, place, refl)

-- ESC [ row ; column H with decimal numbers, counted from one, that are on the screen places the
-- cursor there, with the address of its cell, and draws nothing. A number that is left out or zero
-- counts as one.
pub con_write-position :
    {con : ConDriver} (row col : List ℕ) (v : Vc)
    → IsOnScreen (some con) v
    → IsDecimal row
    → IsDecimal col
    → decimal 0 row - 1 < v.geo.rows
    → decimal 0 col - 1 < v.geo.cols
    → PlacedAt (decimal 0 col - 1) (decimal 0 row - 1) v (con_write (position row col) v).1
unfolding write_char parameter_char handle_csi
con_write-position row col v h k l low left =
    let par = position_par row col v in
    let (cols, rows) = row-le v.geo h.screen in
    let first : par 0 - 1 ≡ decimal 0 row - 1 = omega (
      arith,
      digits_par-other col 1 0 (digits_par 0 row (cleared v)) refl,
      digits_par-same row 0 0 (cleared v) refl,
      low,
      rows,
      h.screen.short,
    ) in
    let second : par 1 - 1 ≡ decimal 0 col - 1 = omega (
      arith,
      digits_par-same col 1 0 (digits_par 0 row (cleared v))
          (digits_par-other row 0 1 (cleared v) refl),
      left,
      cols,
      h.screen.short,
    ) in
    let run =
      con_write-chars (position row col) v h.bound
      ∙ ap (λ p. p.vc) (position-parameters row col 0 v k l) in
    let placed =
      gotoxy-PlacedAt (par 1 - 1) (par 0 - 1) (write (write par 0 (par 0 - 1)) 1 (par 1 - 1)) 1 v h
        (omega (arith, second, left)) (omega (arith, first, low)) in
    let w = (con_write (position row col) v).1 in
    subst (λ c. PlacedAt c (decimal 0 row - 1) v w) second
      (subst (λ r. PlacedAt (par 1 - 1) r v w) first
        (subst (PlacedAt (par 1 - 1) (par 0 - 1) v) (sym run) placed))
