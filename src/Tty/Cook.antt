-- ===== src/Tty/Cook.antt =====
-- drivers/tty/n_tty.c: what a text is with OPOST, character by character, and that the blocks of
-- process_output_block are the same.
use sandix.Common.{
  ℕ, zero, suc, ◌+◌, ◌-◌, ◌%◌, ◌≤◌, ◌≡◌, refl, ap, ◌∙◌, sym, inl, inr, true, false, ◌&&◌, List, [],
  ◌∷◌, ◌++◌, length, ◌==◌, if◌then◌else◌, take, drop, arith, Bool-cases,
}
use sandix.Tty.Ntty.{
  onlcr, ocrnl, onocr, onlret, NttyData, o_flag, expands_tabs, block_char, block_chars, blanks,
  upcase,
}

-- What a character is sent as, and the columns behind it.
unfoldable pub cooked : ℕ → ℕ → NttyData → List ℕ × NttyData
cooked oflag c l =
    let start : NttyData = record { column = 0; canon_column = 0 } in
    if c == 10
    then (let column = if o_flag oflag onlret then 0 else l.column in
        if o_flag oflag onlcr
        then (13 ∷ 10 ∷ [], start)
        else (10 ∷ [], record { column = column; canon_column = column }))
    else if c == 13
    then (if o_flag oflag onocr && l.column == 0
        then ([], l)
        else if o_flag oflag ocrnl
        then (10 ∷ [], if o_flag oflag onlret then start else l)
        else (13 ∷ [], start))
    else if c == 9
    then (let spaces = 8 - l.column % 8 in
        (
          if expands_tabs oflag then blanks spaces else 9 ∷ [],
          record l { column = (l.column + spaces) % 0x1_0000_0000 },
        ))
    else if c == 8
    then (8 ∷ [], record l { column = l.column - 1 })
    else (upcase oflag c ∷ [], l)

abbrev pub prepend : List ℕ → List ℕ × NttyData → List ℕ × NttyData
prepend cs (ds, l) = (cs ++ ds, l)

-- What a text is sent as.
unfoldable pub cook : ℕ → List ℕ → NttyData → List ℕ × NttyData
cook oflag [] l = ([], l)
cook oflag (c ∷ cs) l = let (ds, l1) = cooked oflag c l in prepend ds (cook oflag cs l1)

-- A character that the loop of a block passes is sent as it is, and one that ends it leaves the
-- character's text to be found.
block_char-more :
    (oflag c : ℕ) (l : NttyData)
    → (block_char oflag c l).0 ≡ true
    → cooked oflag c l ≡ (c ∷ [], (block_char oflag c l).1)
unfolding block_char cooked
block_char-more oflag c l h = ground arith

block_char-last :
    (oflag c : ℕ) (l : NttyData)
    → (block_char oflag c l).0 ≡ false
    → cooked oflag c l ≡ cooked oflag c (block_char oflag c l).1
unfolding block_char cooked
block_char-last oflag c l h = ground arith

cook-cons :
    (oflag c : ℕ) (cs : List ℕ) (l : NttyData) (r : List ℕ × NttyData)
    → cooked oflag c l ≡ r
    → cook oflag (c ∷ cs) l ≡ prepend r.0 (cook oflag cs r.1)
unfolding cook
cook-cons oflag c cs l r h = ap (λ (r : List ℕ × NttyData). prepend r.0 (cook oflag cs r.1)) h

-- The characters in front of the one that ends the block, or of the limit, are sent as they are.
pub block_chars-cook :
    (oflag limit : ℕ) (buf : List ℕ) (l : NttyData)
    → let (i, l1) = block_chars oflag (take limit buf) l in
      (i ≤ length buf) × (cook oflag buf l ≡ prepend (take i buf) (cook oflag (drop i buf) l1))
unfolding block_chars
block_chars-cook oflag zero buf l = (omega arith, refl)
block_chars-cook oflag (suc limit) [] l = (omega arith, refl)
block_chars-cook oflag (suc limit) (c ∷ cs) l = elim (Bool-cases (block_char oflag c l).0) [
  | inl more ↦
      rw (block_chars, more)
        (let (fits, rest) = block_chars-cook oflag limit cs (block_char oflag c l).1 in
          (
            omega (arith, fits),
            cook-cons oflag c cs l _ (block_char-more oflag c l more) ∙ ap (prepend (c ∷ [])) rest,
          ))
  | inr last ↦
      rw (block_chars, last)
        (
          omega arith,
          cook-cons oflag c cs l _ (block_char-last oflag c l last)
              ∙ sym (cook-cons oflag c cs (block_char oflag c l).1 _ refl),
        )
]
