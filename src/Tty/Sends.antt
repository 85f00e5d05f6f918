-- ===== src/Tty/Sends.antt =====
-- drivers/tty/n_tty.c on a driver that takes all that is written: a character and a block are sent as what
-- their characters stand for.
use sandix.Common.{
  ℕ, ◌-◌, ◌%◌, ◌≤◌, ◌<◌, ◌≡◌, refl, ap, ◌∙◌, inl, inr, Bool, true, false, ◌&&◌, Option, some, List,
  [], ◌∷◌, length, ltb, ◌==◌, if◌then◌else◌, take, drop, arith, Bool-cases, length-take,
}
use sandix.Tty.{TtyOps, tty_write_room}
use sandix.Tty.Ntty.{
  onlcr, ocrnl, onocr, onlret, NttyData, Tty, o_flag, expands_tabs, block_chars, blanks,
  int_to_ssize, is_error, put_out, output_newline, output_return, output_tab, do_output_char,
  process_output, process_output_block,
}
use sandix.Tty.Handed.{Handed, idle, written, put, Accepts, Handed-trans}
use sandix.Tty.Cook.{cooked, cook, prepend, block_chars-cook}

int_to_ssize-small : (n : ℕ) → n < 0x8000_0000 → int_to_ssize n ≡ n
unfolding int_to_ssize
int_to_ssize-small n h = ground arith

pub is_error-small : (n : ℕ) → n < 0x8000_0000 → is_error n ≡ false
unfolding is_error
is_error-small n h = ground arith

module _ {D : Type 0} (ops : TtyOps D) (oflag : ℕ) (Ready : D → Type 0)
    (accepts : Accepts ops Ready) where
  -- A terminal that was sent a text and has its columns.
  abbrev pub Sent : Tty D → Tty D → List ℕ × NttyData → Type 0
  Sent t t1 r = (Handed ops t.dev r.0 t1.dev) × (t1.ldata ≡ r.1)

  -- A character that was sent, with a result that is not -1.
  abbrev pub Put : Tty D → Option ℕ × Tty D → List ℕ × NttyData → Type 0
  Put t r text = ((n : ℕ) × (r.0 ≡ some n)) × Sent t r.1 text

  Put-if :
      (t : Tty D) (b : Bool) (p q : Option ℕ × Tty D) (x y : List ℕ × NttyData)
      → Put t p x
      → Put t q y
      → Put t (if b then p else q) (if b then x else y)
  Put-if t true p q x y h k = h
  Put-if t false p q x y h k = k

  put_out-Put : (c : ℕ) (l : NttyData) (t : Tty D) → Put t (put_out ops oflag c l t) (c ∷ [], l)
  unfolding put_out
  put_out-Put c l t = ((1, refl), (put c idle, refl))

  output_newline-Put :
      (space : ℕ) (t : Tty D)
      → 8 ≤ space
      → Put t (output_newline ops oflag space t) (cooked oflag 10 t.ldata)
  unfolding output_newline cooked
  output_newline-Put space t h =
      let room : ltb space 2 ≡ false = ground arith in
      elim (Bool-cases (o_flag oflag onlcr)) [
        | inl both ↦
            rw (output_newline, both, room) ((2, refl), (written (13 ∷ 10 ∷ []) idle, refl))
        | inr one ↦ elim (Bool-cases (o_flag oflag onlret)) [
          | inl start ↦ rw (output_newline, one, start) (put_out-Put 10 _ t)
          | inr same ↦ rw (output_newline, one, same) (put_out-Put 10 _ t)
        ]
      ]

  output_return-Put : (t : Tty D) → Put t (output_return ops oflag t) (cooked oflag 13 t.ldata)
  unfolding output_return cooked
  output_return-Put t =
      Put-if t (o_flag oflag onocr && t.ldata.column == 0) _ _ _ _ ((0, refl), (idle, refl))
        (Put-if t (o_flag oflag ocrnl) _ _ _ _ (put_out-Put 10 _ t) (put_out-Put 13 _ t))

  output_tab-Put :
      (space : ℕ) (t : Tty D)
      → 8 ≤ space
      → Put t (output_tab ops oflag space t) (cooked oflag 9 t.ldata)
  unfolding output_tab cooked
  output_tab-Put space t h =
      let spaces = 8 - t.ldata.column % 8 in
      let room : ltb space spaces ≡ false = ground arith in
      elim (Bool-cases (expands_tabs oflag)) [
        | inl wide ↦
            rw (output_tab, wide, room) ((spaces, refl), (written (blanks spaces) idle, refl))
        | inr one ↦ rw (output_tab, one) (put_out-Put 9 _ t)
      ]

  do_output_char-Put :
      (c space : ℕ) (t : Tty D)
      → 8 ≤ space
      → Put t (do_output_char ops oflag c space t) (cooked oflag c t.ldata)
  unfolding do_output_char cooked
  do_output_char-Put c space t h =
      let some_room : (space == 0) ≡ false = ground arith in
      rw (do_output_char, some_room)
        (Put-if t (c == 10) _ _ _ _ (output_newline-Put space t h) (
          Put-if t (c == 13) _ _ _ _ (output_return-Put t) (
            Put-if t (c == 9) _ _ _ _ (output_tab-Put space t h)
              (Put-if t (c == 8) _ _ _ _ (put_out-Put 8 _ t) (put_out-Put _ _ t)))))

  pub process_output-Put :
      (c : ℕ) (t : Tty D)
      → Ready t.dev
      → Put t (process_output ops oflag c t) (cooked oflag c t.ldata)
  unfolding process_output
  process_output-Put c t ready =
      let ((n, some_n), sent) =
        do_output_char-Put c (tty_write_room ops t.dev) t (accepts.room t.dev ready) in
      rw (process_output, some_n) ((0, refl), sent)

  -- What a block has done: it has sent the text in front of what is left.
  abbrev pub Passed : List ℕ → Tty D → ℕ × Tty D → Type 0
  Passed buf t (n, t1) =
      (n ≤ length buf)
      × (Handed ops t.dev (take n buf) t1.dev)
      × (cook oflag buf t.ldata ≡ prepend (take n buf) (cook oflag (drop n buf) t1.ldata))

  pub process_output_block-Passed :
      (buf : List ℕ) (t : Tty D)
      → Ready t.dev
      → length buf < 0x8000_0000
      → Passed buf t (process_output_block ops oflag buf t)
  unfolding process_output_block
  process_output_block-Passed buf t ready short =
      let space = tty_write_room ops t.dev in
      let count = if ltb space (length buf) then space else length buf in
      let i = (block_chars oflag (take count buf) t.ldata).0 in
      let (fits, rest) = block_chars-cook oflag count buf t.ldata in
      let size = length-take i buf fits in
      let some_room : (space == 0) ≡ false = ground (arith, accepts.room t.dev ready) in
      let all : int_to_ssize (ops.write (take i buf) t.dev).0 ≡ i =
        ap int_to_ssize
          (accepts.taken (take i buf) t.dev ready (omega (arith, size, fits, short)) ∙ size)
        ∙ int_to_ssize-small i (omega (arith, fits, short)) in
      rw (process_output_block, some_room, all) (fits, written (take i buf) idle, rest)

  pub Sent-trans :
      (t t1 t2 : Tty D) (cs : List ℕ) (r : List ℕ × NttyData)
      → Handed ops t.dev cs t1.dev
      → Sent t1 t2 r
      → Sent t t2 (prepend cs r)
  Sent-trans t t1 t2 cs r first (second, ends) = (Handed-trans first second, ends)
