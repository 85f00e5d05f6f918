-- ===== src/Printf/Format/Literal.antt =====
-- lib/vsprintf.c: what vsnprintf makes of the text in front of the first conversion.
use sandix.Common.{
  ℕ, zero, suc, ◌+◌, ◌-◌, ◌*◌, ◌%◌, ◌≤◌, ◌<◌, ◌≡◌, ◌≢◌, refl, sym, ap, ◌∙◌, ◌⊎◌, inl, inr, false,
  some, List, [], ◌∷◌, ◌++◌, arith, length, get_elem?, ltb, ◌==◌,
}
use native.Mathlib.Decide.{dec_lt}
use sandix.Strings.Mem.{Memory}
use sandix.Resource.{Resource}
use sandix.Printf.{Output, put, put_all}
use sandix.Printf.Bounds.{Wrote, Wrote-refl, Wrote-trans, put_all-Wrote}
use sandix.Printf.Decode.{split_text, decode_start, format_decode}
use sandix.Printf.Format.{format_round, format_loop, buffer_end, terminate, start_spec, vsnprintf}
use sandix.Printf.Format.Result.{Printed, format_loop-Wrote, terminate-Printed}

-- No byte is a `%`.
abbrev pub IsLiteral : List ℕ → Type 0
IsLiteral [] = Unit {0}
IsLiteral (c ∷ cs) = (c ≢ 37) × IsLiteral cs

-- The format ends, or a conversion begins.
abbrev pub IsConversion : List ℕ → Type 0
IsConversion [] = Unit {0}
IsConversion (c ∷ cs) = c ≡ 37

split_text-append :
    (text rest : List ℕ)
    → IsLiteral text
    → IsConversion rest
    → split_text (text ++ rest) ≡ (text, rest)
unfolding split_text
split_text-append [] [] h k = refl
split_text-append [] (c ∷ cs) h k = ground (arith, k)
split_text-append (c ∷ cs) rest h k =
    let other : (c == 37) ≡ false = ground (arith, h.0) in
    rw (split_text-append cs rest h.1 k, other) refl

length-append : (xs ys : List ℕ) → length (xs ++ ys) ≡ length xs + length ys
length-append [] ys = omega arith
length-append (x ∷ xs) ys = omega (arith, length-append xs ys)

put_all-length : (end : ℕ) (cs : List ℕ) (o : Output) → (put_all end cs o).at ≡ o.at + length cs
unfolding put_all put
put_all-length end [] o = omega arith
put_all-length end (c ∷ cs) o = put_all-length end cs (put end c o) ∙ omega arith

-- Each byte of the text that has room stands at its place.
put_all-bytes :
    (end : ℕ) (cs : List ℕ) (o : Output) (i : ℕ)
    → (length cs ≤ i)
      ⊎ (end ≤ o.at + i)
      ⊎ (get_elem? cs i ≡ some ((put_all end cs o).mem (o.at + i)))
unfolding put_all put
put_all-bytes end [] o i = inl (omega arith)
put_all-bytes end (c ∷ cs) o zero = elim (dec_lt o.at end) [
  | yes room ↦
      let later = (put_all-Wrote end cs (put end c o)).kept (o.at + 0) (inl (omega arith)) in
      inr (inr (ap some (sym (later ∙ ground arith))))
  | no full ↦ inr (inl (omega arith))
]
put_all-bytes end (c ∷ cs) o (suc i) =
    let next : o.at + 1 + i ≡ o.at + suc i = omega arith in
    elim (put_all-bytes end cs (put end c o) i) [
      | inl over ↦ inl (omega arith)
      | inr (inl full) ↦ inr (inl (omega (arith, full)))
      | inr (inr e) ↦ inr (inr (e ∙ ap (λ q. some ((put_all end (c ∷ cs) o).mem q)) next))
    ]

terminate-front :
    (buf end : ℕ) (o : Output) (q : ℕ) → q < o.at → q + 1 < end → terminate buf end o q ≡ o.mem q
unfolding terminate
terminate-front buf end o q h k = ground arith

module _ (args : ℕ → ℕ) (resource_at : ℕ → Resource) (end : ℕ) where
  -- The first round prints the text, and the others only write behind it.
  first_round :
      (k : ℕ) (c : ℕ) (cs rest : List ℕ) (o : Output)
      → IsLiteral (c ∷ cs)
      → IsConversion rest
      → format_loop args resource_at end
          (suc k)
          (record { spec = start_spec; fmt = (c ∷ cs) ++ rest; arg = 0; out = o })
        ≡ format_loop args resource_at end k
            (record { spec = start_spec; fmt = rest; arg = 0; out = put_all end (c ∷ cs) o })
  unfolding format_loop format_round format_decode decode_start
  first_round k c cs rest o h l =
      let other : (c == 37) ≡ false = ground (arith, h.0) in
      rw (format_decode, decode_start, other, split_text-append (c ∷ cs) rest h l) refl

  -- The loop prints the text, and what follows stands behind it; nothing does if the format ends.
  record Starts (text rest : List ℕ) (o o' : Output) : Type 0 where
    runs :
        format_loop args resource_at end
          (2 * length (text ++ rest) + 1)
          (record { spec = start_spec; fmt = text ++ rest; arg = 0; out = o })
        ≡ some o'
    wrote : Wrote end (put_all end text o) o'
    alone : (rest ≢ []) ⊎ (o' ≡ put_all end text o)

  later_rounds :
      (k : ℕ) (rest : List ℕ) (o : Output)
      → 2 * length rest < k
      → (o' : Output) × (format_loop args resource_at end k
            (record { spec = start_spec; fmt = rest; arg = 0; out = o })
          ≡ some o')
        × Wrote end o o'
        × ((rest ≢ []) ⊎ (o' ≡ o))
  unfolding format_loop
  later_rounds zero rest o h = absurd (omega arith)
  later_rounds (suc k) [] o h = (o, refl, Wrote-refl end o, inr refl)
  later_rounds (suc k) (c ∷ cs) o h =
      let (o', runs, wrote) =
        format_loop-Wrote args resource_at end (suc k) start_spec (c ∷ cs) 0 o (omega arith) in
      (o', runs, wrote, inl (λ e. cc))

  loop_Starts :
      (text rest : List ℕ) (o : Output)
      → IsLiteral text
      → IsConversion rest
      → (o' : Output) × Starts text rest o o'
  unfolding put_all
  loop_Starts [] rest o h l =
      let (o', runs, wrote, alone) = later_rounds (2 * length rest + 1) rest o (omega arith) in
      (o', record { runs = runs; wrote = wrote; alone = alone })
  loop_Starts (c ∷ cs) rest o h l =
      let n : ℕ = 2 * length ((c ∷ cs) ++ rest) in
      let (o', runs, wrote, alone) =
        later_rounds n rest (put_all end (c ∷ cs) o) (omega (arith, length-append cs rest)) in
      let fuel : n + 1 ≡ suc n = omega arith in
      (
        o',
        record {
          runs =
              ap
                (λ k.
                  format_loop args resource_at end k
                    (record { spec = start_spec; fmt = (c ∷ cs) ++ rest; arg = 0; out = o }))
                fuel
              ∙ first_round n c cs rest o h l
              ∙ runs;
          wrote = wrote;
          alone = alone;
        },
      )

-- For a buffer of at most INT_MAX bytes that ends in the address space, and a format that begins with
-- a text without `%`, behind which it ends or a conversion begins: vsnprintf ends, whatever the rest
-- of the format, the arguments and the memory are. Each byte of the text stands at its place in the
-- buffer, if there is room for it and the NUL. No byte outside the buffer changes; a count is
-- returned modulo 2 ^ 32, which is the length of the text if the format ends behind it and is not
-- less in any case; and in a buffer that is not empty there is a NUL at this count, or in the last
-- byte if the count is too large.
pub vsnprintf-Literal :
    (args : ℕ → ℕ) (resource_at : ℕ → Resource) (buf size : ℕ) (text rest : List ℕ) (m : Memory)
    → IsLiteral text
    → IsConversion rest
    → size ≤ 0x7fff_ffff
    → buf + size ≤ 0xffff_ffff_ffff_ffff
    → (count ret : ℕ) × (m' : Memory) × Printed buf size m count ret m'
      × (vsnprintf args resource_at buf size (text ++ rest) m ≡ some (ret, m'))
      × (length text ≤ count)
      × ((rest ≢ []) ⊎ (count ≡ length text))
      × ((i : ℕ) → (length text ≤ i) ⊎ (size ≤ i + 1) ⊎ (get_elem? text i ≡ some (m' (buf + i))))
unfolding vsnprintf
vsnprintf-Literal args resource_at buf size text rest m h l small room =
    let fits : ltb 0x7fff_ffff size ≡ false = ground arith in
    let end : ℕ = buffer_end buf size in
    let at_end : end ≡ buf + size = ground arith in
    let o : Output = record { at = buf; mem = m } in
    let (o', s) = loop_Starts args resource_at end text rest o h l in
    let long = put_all-length end text o in
    let wrote = Wrote-trans (put_all-Wrote end text o) s.wrote in
    (
      o'.at - buf,
      (o'.at - buf) % 0x1_0000_0000,
      terminate buf end o',
      terminate-Printed buf size end m o' at_end wrote,
      rw (fits, s.runs) refl,
      omega (arith, s.wrote.forward, long),
      elim s.alone [
        | inl more ↦ inl more
        | inr same ↦ inr (omega (arith, long, ap (λ u. u.at) same))
      ],
      λ i. elim (dec_lt i (length text)) [
        | no over ↦ inl (omega arith)
        | yes inside ↦ elim (dec_lt (i + 1) size) [
          | no full ↦ inr (inl (omega arith))
          | yes fit ↦
              let kept = s.wrote.kept (buf + i) (inl (omega (arith, long))) in
              let front =
                terminate-front buf end o' (buf + i) (omega (arith, long, s.wrote.forward))
                  (omega (arith, at_end)) in
              elim (put_all-bytes end text o i) [
                | inl over ↦ absurd (omega arith)
                | inr (inl full) ↦ absurd (omega (arith, at_end, full))
                | inr (inr e) ↦ inr (inr (e ∙ ap some (sym (front ∙ kept))))
              ]
        ]
      ],
    )
