-- ===== src/Tty/Ntty.antt =====
-- drivers/tty/n_tty.c: the line discipline N_TTY, which writes text to a terminal's driver.
use Prim.Native.Nat.{bit_and}
use sandix.Common.{
  ℕ, zero, suc, ◌+◌, ◌-◌, ◌%◌, Bool, true, false, not, ◌&&◌, ◌||◌, Option, none, some, List, [],
  ◌∷◌, length, leb, ltb, ◌==◌, if◌then◌else◌, take, drop,
}
use sandix.Strings.Ctype.{iscntrl, toupper}
use sandix.Tty.{TtyOps, tty_write_room, tty_put_char, flush_chars}

-- The flags of c_oflag (include/sandix/termios.h).
abbrev pub opost : ℕ
opost = 1

abbrev pub olcuc : ℕ
olcuc = 2

abbrev pub onlcr : ℕ
onlcr = 4

abbrev pub ocrnl : ℕ
ocrnl = 8

abbrev pub onocr : ℕ
onocr = 16

abbrev pub onlret : ℕ
onlret = 32

-- XTABS is all bits of TABDLY.
abbrev pub tabdly : ℕ
tabdly = 0x1800

-- -EAGAIN as a ssize_t
abbrev pub eagain : ℕ
eagain = 0xffff_ffff_ffff_fff5

-- An int as a ssize_t or a size_t, by its pattern.
unfoldable pub int_to_ssize : ℕ → ℕ
int_to_ssize i = if leb 0x8000_0000 i then i + 0xffff_ffff_0000_0000 else i

-- What is below zero as a ssize_t.
unfoldable pub is_error : ℕ → Bool
is_error n = leb 0x8000_0000_0000_0000 n

-- struct n_tty_data, without its lock.
pub record NttyData : Type 0 where
  pub column : ℕ
  pub canon_column : ℕ

-- O_ONLCR and the other macros of include/sandix/tty.h.
unfoldable pub o_flag : ℕ → ℕ → Bool
o_flag oflag flag = not (bit_and oflag flag == 0)

unfoldable pub expands_tabs : ℕ → Bool
expands_tabs oflag = bit_and oflag tabdly == tabdly

-- A character of process_output_block: whether the loop goes on, and the columns.
unfoldable pub block_char : ℕ → ℕ → NttyData → Bool × NttyData
block_char oflag ch l =
    if ch == 10
    then (let r : NttyData = if o_flag oflag onlret then record l { column = 0 } else l in
        if o_flag oflag onlcr then (false, r) else (true, record r { canon_column = r.column }))
    else if ch == 13
    then (if (o_flag oflag onocr && l.column == 0) || o_flag oflag ocrnl
        then (false, l)
        else (true, record { column = 0; canon_column = 0 }))
    else if ch == 9
    then (false, l)
    else if ch == 8
    then (true, record l { column = l.column - 1 })
    else (not (not (iscntrl ch) && o_flag oflag olcuc), l)

-- The loop of process_output_block: how many characters it passes.
unfoldable pub block_chars : ℕ → List ℕ → NttyData → ℕ × NttyData
block_chars oflag [] l = (0, l)
block_chars oflag (ch ∷ cs) l =
    let (more, l1) = block_char oflag ch l in
    elim more [ false ↦ (0, l1) | true ↦ (let (i, l2) = block_chars oflag cs l1 in (suc i, l2)) ]

-- The line discipline's data and the driver's.
pub record Tty (D : Type 0) : Type 0 where
  pub ldata : NttyData
  pub dev : D

abbrev pub blanks : ℕ → List ℕ
blanks zero = []
blanks (suc n) = 32 ∷ blanks n

-- What is printed of a character, but for those that move the cursor.
abbrev pub upcase : ℕ → ℕ → ℕ
upcase oflag c = if not (iscntrl c) && o_flag oflag olcuc then toupper c else c

-- What a loop of n_tty_write ends with: b - buf, retval and the terminal.
pub record Written (D : Type 0) : Type 0 where
  pub written : ℕ
  pub retval : ℕ
  pub tty : Tty D

module _ {D : Type 0} (ops : TtyOps D) (oflag : ℕ) where
  -- tty->ops->write
  abbrev pub write_out : List ℕ → Tty D → ℕ × Tty D
  write_out cs t = let (n, d) = ops.write cs t.dev in (n, record t { dev = d })

  -- The end of do_output_char.
  unfoldable pub put_out : ℕ → NttyData → Tty D → Option ℕ × Tty D
  put_out c l t = (some 1, record { ldata = l; dev = (tty_put_char ops c t.dev).1 })

  unfoldable pub output_newline : ℕ → Tty D → Option ℕ × Tty D
  output_newline space t =
      let l : NttyData = if o_flag oflag onlret then record t.ldata { column = 0 } else t.ldata in
      if o_flag oflag onlcr
      then (if ltb space 2 then (none, record t { ldata = l }) else (
        some 2,
        (write_out (13 ∷ 10 ∷ []) (record t { ldata = record { column = 0; canon_column = 0 } })).1,
      ))
      else put_out 10 (record l { canon_column = l.column }) t

  unfoldable pub output_return : Tty D → Option ℕ × Tty D
  output_return t =
      if o_flag oflag onocr && t.ldata.column == 0
      then (some 0, t)
      else if o_flag oflag ocrnl
      then put_out 10
          (if o_flag oflag onlret then record { column = 0; canon_column = 0 } else t.ldata) t
      else put_out 13 (record { column = 0; canon_column = 0 }) t

  unfoldable pub output_tab : ℕ → Tty D → Option ℕ × Tty D
  output_tab space t =
      let spaces = 8 - t.ldata.column % 8 in
      let l : NttyData = record t.ldata { column = (t.ldata.column + spaces) % 0x1_0000_0000 } in
      if expands_tabs oflag
      then (if ltb space spaces
          then (none, t)
          else (some spaces, (write_out (blanks spaces) (record t { ldata = l })).1))
      else put_out 9 l t

  -- `space` is not below zero, and -1 is none.
  unfoldable pub do_output_char : ℕ → ℕ → Tty D → Option ℕ × Tty D
  do_output_char c space t =
      if space == 0
      then (none, t)
      else if c == 10
      then output_newline space t
      else if c == 13
      then output_return t
      else if c == 9
      then output_tab space t
      else if c == 8
      then put_out 8 (record t.ldata { column = t.ldata.column - 1 }) t
      else put_out (upcase oflag c) t.ldata t

  -- 0, or -1 as none.
  unfoldable pub process_output : ℕ → Tty D → Option ℕ × Tty D
  process_output ch t =
      let (ret, t1) = do_output_char ch (tty_write_room ops t.dev) t in
      elim ret [ none ↦ (none, t1) | some n ↦ (some 0, t1) ]

  unfoldable pub process_output_block : List ℕ → Tty D → ℕ × Tty D
  process_output_block buf t =
      let space = tty_write_room ops t.dev in
      if space == 0
      then (0, t)
      else (let count = if ltb space (length buf) then space else length buf in
          let (i, l) = block_chars oflag (take count buf) t.ldata in
          let (n, t1) = write_out (take i buf) (record t { ldata = l }) in (int_to_ssize n, t1))

  abbrev pub end_loop : Tty D → Tty D
  end_loop t = record t { dev = flush_chars ops t.dev }

  -- The loop with OPOST: `buf` is what is left, `done` is b - buf.
  unfoldable pub cooked_loop : ℕ → List ℕ → ℕ → Tty D → Option (Written D)
  cooked_loop zero buf done t = none
  cooked_loop (suc fuel) [] done t = some (record { written = done; retval = 0; tty = end_loop t })
  cooked_loop (suc fuel) (b ∷ bs) done t =
      let (num, t1) = process_output_block (b ∷ bs) t in
      elim (is_error num) [
        | true ↦ elim (num == eagain) [
          | true ↦ cooked_loop fuel (b ∷ bs) done t1
          | false ↦ some (record { written = done; retval = num; tty = t1 })
        ]
        | false ↦ elim (drop num (b ∷ bs)) [
          | [] ↦ some (record { written = done + num; retval = 0; tty = end_loop t1 })
          | ch ∷ rest ↦
              (let (ret, t2) = process_output ch t1 in
                elim ret [
                  | none ↦ cooked_loop fuel (ch ∷ rest) (done + num) t2
                  | some r ↦ cooked_loop fuel rest (done + num + 1) t2
                ])
        ]
      ]

  -- The loop without OPOST.
  unfoldable pub raw_loop : ℕ → List ℕ → ℕ → Tty D → Option (Written D)
  raw_loop zero buf done t = none
  raw_loop (suc fuel) [] done t = some (record { written = done; retval = 0; tty = t })
  raw_loop (suc fuel) (b ∷ bs) done t =
      let (c, t1) = write_out (b ∷ bs) t in
      elim (leb 0x8000_0000 c || c == 0) [
        | true ↦ some (record { written = done; retval = int_to_ssize c; tty = t1 })
        | false ↦ raw_loop fuel (drop c (b ∷ bs)) (done + c) t1
      ]

  -- none is a loop that has not ended.
  unfoldable pub n_tty_write : ℕ → List ℕ → Tty D → Option (ℕ × Tty D)
  n_tty_write fuel buf t =
      let end = if o_flag oflag opost then cooked_loop fuel buf 0 t else raw_loop fuel buf 0 t in
      elim end [
        | none ↦ none
        | some w ↦ some (if w.written == 0 then w.retval else w.written, w.tty)
      ]
