-- ===== src/Tty/Loop.antt =====
-- drivers/tty/n_tty.c: the loops of n_tty_write end, with all of the text sent.
use sandix.Common.{
  ℕ, zero, suc, ◌+◌, ◌<◌, ◌≡◌, refl, ap, ◌∙◌, sym, subst, inl, inr, false, ◌||◌, Option, some, List,
  [], ◌∷◌, length, leb, ◌==◌, if◌then◌else◌, take, drop, arith, Bool-cases, length-drop,
  drop-length,
}
use sandix.Tty.{TtyOps}
use sandix.Tty.Ntty.{
  opost, NttyData, Tty, Written, o_flag, is_error, write_out, process_output, process_output_block,
  end_loop, cooked_loop, raw_loop, n_tty_write,
}
use sandix.Tty.Cook.{cook, prepend}
use sandix.Tty.Handed.{Handed, idle, written, flushed, Accepts, Handed-keeps}
use sandix.Tty.Sends.{
  Sent, process_output-Put, process_output_block-Passed, Sent-trans, is_error-small,
}

-- What n_tty_write sends.
unfoldable pub sent_text : ℕ → List ℕ → NttyData → List ℕ × NttyData
sent_text oflag buf l = if o_flag oflag opost then cook oflag buf l else (buf, l)

module _ {D : Type 0} (ops : TtyOps D) (oflag : ℕ) (Ready : D → Type 0)
    (accepts : Accepts ops Ready) where
  abbrev ended : Tty D → ℕ → Option (Written D)
  ended end n = some (record { written = n; retval = 0; tty = end })

  -- The loop has ended, with the text sent.
  abbrev Ended : List ℕ → ℕ → Tty D → Option (Written D) → Type 0
  Ended buf done t r =
      (end : Tty D) × (r ≡ ended end (done + length buf))
      × Sent ops oflag Ready accepts t end (cook oflag buf t.ldata)

  -- A round that ends the loop, and one that goes on.
  last_round :
      (fuel : ℕ) (b : ℕ) (bs : List ℕ) (done : ℕ) (t : Tty D)
      → let (num, t1) = process_output_block ops oflag (b ∷ bs) t in
        is_error num ≡ false
        → drop num (b ∷ bs) ≡ []
        → cooked_loop ops oflag (suc fuel) (b ∷ bs) done t
          ≡ some (record { written = done + num; retval = 0; tty = end_loop ops oflag t1 })
  unfolding cooked_loop
  last_round fuel b bs done t good all = rw (cooked_loop, good, all) refl

  next_round :
      (fuel : ℕ) (b : ℕ) (bs : List ℕ) (done : ℕ) (t : Tty D) (ch : ℕ) (rest : List ℕ) (n : ℕ)
      → let (num, t1) = process_output_block ops oflag (b ∷ bs) t in
        is_error num ≡ false
        → drop num (b ∷ bs) ≡ ch ∷ rest
        → (process_output ops oflag ch t1).0 ≡ some n
        → cooked_loop ops oflag (suc fuel) (b ∷ bs) done t
          ≡ cooked_loop ops oflag fuel rest (done + num + 1) (process_output ops oflag ch t1).1
  unfolding cooked_loop
  next_round fuel b bs done t ch rest n good more put = rw (cooked_loop, good, more, put) refl

  cooked_loop-Ended :
      (fuel : ℕ) (buf : List ℕ) (done : ℕ) (t : Tty D)
      → Ready t.dev
      → length buf < fuel
      → length buf < 0x8000_0000
      → Ended buf done t (cooked_loop ops oflag fuel buf done t)
  unfolding cooked_loop cook
  cooked_loop-Ended zero buf done t ready enough short = absurd (omega arith)
  cooked_loop-Ended (suc fuel) [] done t ready enough short =
      (end_loop ops oflag t, ap (ended (end_loop ops oflag t)) (omega arith), (flushed idle, refl))
  cooked_loop-Ended (suc fuel) (b ∷ bs) done t ready enough short =
      let num = (process_output_block ops oflag (b ∷ bs) t).0 in
      let t1 = (process_output_block ops oflag (b ∷ bs) t).1 in
      let (fits, sent, rest) =
        process_output_block-Passed ops oflag Ready accepts (b ∷ bs) t ready short in
      let good = is_error-small num (omega (arith, fits, short)) in
      let size = length-drop num (b ∷ bs) fits in
      elim (drop num (b ∷ bs))
          as (λ left.
            drop num (b ∷ bs) ≡ left
            → Ended (b ∷ bs) done t (cooked_loop ops oflag (suc fuel) (b ∷ bs) done t)) [
              | [] ↦ λ all. (
                end_loop ops oflag t1,
                last_round fuel b bs done t good all
                    ∙ ap (ended (end_loop ops oflag t1)) (omega (arith, size, ap length all)),
                subst (Sent ops oflag Ready accepts t (end_loop ops oflag t1))
                    (sym (
                      rest
                      ∙ ap (λ left. prepend (take num (b ∷ bs)) (cook oflag left t1.ldata)) all))
                    (Sent-trans ops oflag Ready accepts t t1 _ _ _ sent (flushed idle, refl)),
              )
              | ch ∷ left ↦ λ more.
                  let ready1 = Handed-keeps accepts ready sent in
                  let ((n, ok), first) = process_output-Put ops oflag Ready accepts ch t1 ready1 in
                  let ready2 = Handed-keeps accepts ready1 first.0 in
                  let t2 = (process_output ops oflag ch t1).1 in
                  let fewer : length left < length (b ∷ bs) = omega (arith, size, ap length more) in
                  let (end, ends, second) =
                    cooked_loop-Ended fuel left (done + num + 1) t2 ready2
                      (omega (arith, fewer, enough)) (omega (arith, fewer, short)) in
                  (
                    end,
                    next_round fuel b bs done t ch left n good more ok
                        ∙ ends
                        ∙ ap (ended end) (omega (arith, size, ap length more)),
                    subst (Sent ops oflag Ready accepts t end)
                        (sym (
                          rest
                          ∙ ap (λ left. prepend (take num (b ∷ bs)) (cook oflag left t1.ldata))
                              more))
                        (Sent-trans ops oflag Ready accepts t t1 _ _ _ sent (
                          Sent-trans ops oflag Ready accepts t1 t2 _ _ _ first.0 (
                            subst (λ l. Sent ops oflag Ready accepts t2 end (cook oflag left l))
                              first.1 second))),
                  )
            ]
        refl

  raw_round :
      (fuel : ℕ) (b : ℕ) (bs : List ℕ) (t : Tty D)
      → Ready t.dev
      → length bs < 0x7fff_ffff
      → (end : Tty D) × (raw_loop ops oflag (suc (suc fuel)) (b ∷ bs) 0 t
          ≡ ended end (length (b ∷ bs)))
        × Sent ops oflag Ready accepts t end (b ∷ bs, t.ldata)
  unfolding raw_loop
  raw_round fuel b bs t ready short =
      let c = (ops.write (b ∷ bs) t.dev).0 in
      let all = accepts.taken (b ∷ bs) t.dev ready (omega (arith, short)) in
      let good : leb 0x8000_0000 c || c == 0 ≡ false = ground (arith, all, short) in
      let left : drop c (b ∷ bs) ≡ [] = ap (λ n. drop n (b ∷ bs)) all ∙ drop-length (b ∷ bs) in
      (
        (write_out ops oflag (b ∷ bs) t).1,
        rw (raw_loop, good, left)
            (ap (ended (write_out ops oflag (b ∷ bs) t).1) (omega (arith, all))),
        (written (b ∷ bs) idle, refl),
      )

  raw_loop-Ended :
      (fuel : ℕ) (buf : List ℕ) (t : Tty D)
      → Ready t.dev
      → length buf < fuel
      → length buf < 0x8000_0000
      → (end : Tty D) × (raw_loop ops oflag fuel buf 0 t ≡ ended end (length buf))
        × Sent ops oflag Ready accepts t end (buf, t.ldata)
  unfolding raw_loop
  raw_loop-Ended zero buf t ready enough short = absurd (omega arith)
  raw_loop-Ended (suc fuel) [] t ready enough short = (t, refl, (idle, refl))
  raw_loop-Ended (suc zero) (b ∷ bs) t ready enough short = absurd (omega arith)
  raw_loop-Ended (suc (suc fuel)) (b ∷ bs) t ready enough short =
      raw_round fuel b bs t ready (omega arith)

  result : (n : ℕ) → (if n == 0 then 0 else n) ≡ n
  result n = ground arith

  -- On a driver that, as long as it is ready, takes what is written and has room for 8 bytes,
  -- n_tty_write ends within one round more than there are characters. It returns their number, the
  -- pieces that the driver was handed are together the text that the characters stand for one by
  -- one, and the columns are those behind that text.
  pub n_tty_write-sends :
      (fuel : ℕ) (buf : List ℕ) (t : Tty D)
      → Ready t.dev
      → length buf < fuel
      → length buf < 0x8000_0000
      → (end : Tty D) × (n_tty_write ops oflag fuel buf t ≡ some (length buf, end))
        × Handed ops t.dev (sent_text oflag buf t.ldata).0 end.dev
        × (end.ldata ≡ (sent_text oflag buf t.ldata).1)
  unfolding n_tty_write sent_text
  n_tty_write-sends fuel buf t ready enough short = elim (Bool-cases (o_flag oflag opost)) [
    | inl post ↦
        let (end, ends, (sent, columns)) = cooked_loop-Ended fuel buf 0 t ready enough short in
        let ends : cooked_loop ops oflag fuel buf 0 t ≡ ended end (length buf) =
          ends ∙ ap (ended end) (omega arith) in
        rw (n_tty_write, sent_text, post, ends, result (length buf)) (end, refl, sent, columns)
    | inr raw ↦
        let (end, ends, (sent, columns)) = raw_loop-Ended fuel buf t ready enough short in
        rw (n_tty_write, sent_text, raw, ends, result (length buf)) (end, refl, sent, columns)
  ]
