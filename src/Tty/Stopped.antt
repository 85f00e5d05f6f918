-- ===== src/Tty/Stopped.antt =====
-- drivers/tty/n_tty.c on a driver without room, as when the terminal is stopped.
use sandix.Common.{
  ℕ, zero, suc, ◌+◌, ◌≡◌, refl, ◌∙◌, ap, true, false, Option, none, some, List, ◌∷◌, drop,
}
use sandix.Tty.{TtyOps, tty_write_room}
use sandix.Tty.Ntty.{
  opost, Tty, o_flag, is_error, do_output_char, process_output, process_output_block, cooked_loop,
  n_tty_write,
}

module _ {D : Type 0} (ops : TtyOps D) (oflag : ℕ) (t : Tty D)
    (full : tty_write_room ops t.dev ≡ 0) where
  no_block : (buf : List ℕ) → process_output_block ops oflag buf t ≡ (0, t)
  unfolding process_output_block
  no_block buf = rw (process_output_block, full) refl

  no_output : (c : ℕ) → do_output_char ops oflag c (tty_write_room ops t.dev) t ≡ (none, t)
  unfolding do_output_char
  no_output c = rw (do_output_char, full) refl

  no_char : (c : ℕ) → process_output ops oflag c t ≡ (none, t)
  unfolding process_output
  no_char c =
      ap
        (λ (r : Option ℕ × Tty D). elim r.0 as (λ x. Option ℕ × Tty D) [
          | none ↦ (none, r.1)
          | some n ↦ (some 0, r.1)
        ])
        (no_output c)

  -- A round that passes nothing.
  retry_round :
      (fuel : ℕ) (b : ℕ) (bs : List ℕ) (done : ℕ)
      → let (num, t1) = process_output_block ops oflag (b ∷ bs) t in
        is_error num ≡ false
        → drop num (b ∷ bs) ≡ b ∷ bs
        → (process_output ops oflag b t1).0 ≡ none
        → cooked_loop ops oflag (suc fuel) (b ∷ bs) done t
          ≡ cooked_loop ops oflag fuel (b ∷ bs) (done + num) (process_output ops oflag b t1).1
  unfolding cooked_loop
  retry_round fuel b bs done good all retry = rw (cooked_loop, good, all, retry) refl

  stuck :
      (fuel : ℕ) (b : ℕ) (bs : List ℕ) (done : ℕ)
      → cooked_loop ops oflag fuel (b ∷ bs) done t ≡ none
  unfolding cooked_loop is_error
  stuck zero b bs done = refl
  stuck (suc fuel) b bs done =
      let passed = ap (λ r. r.0) (no_block (b ∷ bs)) in
      let put = ap (λ r. process_output ops oflag b r.1) (no_block (b ∷ bs)) ∙ no_char b in
      retry_round fuel b bs done (ap is_error passed) (ap (λ n. drop n (b ∷ bs)) passed)
        (ap (λ r. r.0) put)
      ∙ ap
          (λ r.
            cooked_loop ops oflag fuel (b ∷ bs)
              (done + (process_output_block ops oflag (b ∷ bs) t).0) r.1)
          put
      ∙ stuck fuel b bs _

-- Where the driver has no room and OPOST is set, n_tty_write does not end on a text that is not
-- empty: no number of rounds is enough, since each leaves the driver and the text as they are.
pub n_tty_write-stuck :
    {D : Type 0} (ops : TtyOps D) (oflag : ℕ) (t : Tty D)
    → tty_write_room ops t.dev ≡ 0
    → o_flag oflag opost ≡ true
    → (fuel : ℕ) (b : ℕ) (bs : List ℕ) → n_tty_write ops oflag fuel (b ∷ bs) t ≡ none
unfolding n_tty_write
n_tty_write-stuck ops oflag t full post fuel b bs =
    rw (n_tty_write, post, stuck ops oflag t full fuel b bs 0) refl
