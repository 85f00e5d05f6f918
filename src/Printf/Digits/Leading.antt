-- ===== src/Printf/Digits/Leading.antt =====
-- lib/vsprintf.c: put_dec writes no leading zeros.
use sandix.Common.{
  ℕ, ◌-◌, ◌*◌, ◌/◌, ◌<◌, ◌≡◌, refl, ap, ◌∙◌, ◌⊎◌, inl, inr, Bool, true, false, not, arith, List, [],
  ◌∷◌, ◌++◌, ltb, ◌==◌, if◌then◌else◌, Bool-cases,
}
use sandix.Printf.Digits.{
  decpair, last_pair, div100, div100_small, put_dec_trunc8, put_dec_helper4, part0, part1, part2,
  drop_zeros, put_low, part3, put_dec,
}
use sandix.Printf.Digits.Value.{
  value, Denotes, put_dec-Denotes, div100-eq, div100_small-eq, parts_sum,
}

-- The most significant character, which is the last one, is there and is not `0`.
abbrev pub leads : List ℕ → Bool
leads [] = false
leads (c ∷ []) = not (c == 48)
leads (c ∷ d ∷ ds) = leads (d ∷ ds)

leads-cons : (c : ℕ) (cs : List ℕ) → leads cs ≡ true → leads (c ∷ cs) ≡ true
leads-cons c [] h = cc
leads-cons c (d ∷ ds) h = h

leads-append : (ds cs : List ℕ) → leads cs ≡ true → leads (ds ++ cs) ≡ true
leads-append [] cs h = h
leads-append (d ∷ ds) cs h = leads-cons d (ds ++ cs) (leads-append ds cs h)

last_pair-leads : (x : ℕ) → 0 < x → leads (last_pair x) ≡ true
unfolding last_pair decpair
last_pair-leads x h = elim (Bool-cases (ltb x 10)) [
  | inl e ↦ rw (last_pair, e) (ground arith)
  | inr e ↦ rw (last_pair, e) (ground arith)
]

-- A step of put_dec_trunc8: the number has two digits at most, or two are written and the quotient
-- by 100 is left.
pair_leads :
    (r q : ℕ) (cs : List ℕ)
    → 0 < r
    → q ≡ r / 100
    → (0 < q → leads cs ≡ true)
    → leads (if ltb r 100 then last_pair r else decpair (r - 100 * q) ++ cs) ≡ true
pair_leads r q cs h e k = elim (Bool-cases (ltb r 100)) [
  | inl t ↦ rw t (last_pair-leads r h)
  | inr t ↦ rw t (leads-append (decpair (r - 100 * q)) cs (k (ground arith)))
]

put_dec_trunc8-leads : (r : ℕ) → 0 < r → r < 1_0000_0000 → leads (put_dec_trunc8 r) ≡ true
unfolding put_dec_trunc8
put_dec_trunc8-leads r h k =
    let a = div100 r in
    let a-eq : a ≡ r / 100 = div100-eq r k in
    let b = div100 a in
    let b-eq : b ≡ a / 100 = div100-eq a (omega (arith, a-eq)) in
    let c = div100_small b in
    let c-eq : c ≡ b / 100 = div100_small-eq b (omega (arith, a-eq, b-eq)) in
    pair_leads r a _ h a-eq
      (λ p. pair_leads a b _ p b-eq (λ p'. pair_leads b c _ p' c-eq (λ p''. last_pair-leads c p'')))

-- A step of drop_zeros.
abbrev behind : ℕ → List ℕ → List ℕ
behind c [] = if c == 48 then [] else c ∷ []
behind c (d ∷ ds) = c ∷ d ∷ ds

drop_zeros-leads : (cs : List ℕ) → (drop_zeros cs ≡ []) ⊎ (leads (drop_zeros cs) ≡ true)
unfolding drop_zeros
drop_zeros-leads [] = inl refl
drop_zeros-leads (c ∷ cs) = cut (drop_zeros cs) (drop_zeros-leads cs)
  where
    cut :
        (rest : List ℕ)
        → (rest ≡ []) ⊎ (leads rest ≡ true)
        → (behind c rest ≡ []) ⊎ (leads (behind c rest) ≡ true)
    cut [] h = elim (Bool-cases (c == 48)) [
      | inl e ↦ inl (rw e refl)
      | inr e ↦ inr (rw e (ground (arith, e)))
    ]
    cut (d ∷ ds) (inl e) = absurd cc
    cut (d ∷ ds) (inr e) = inr e

zero_text : put_dec 0 ≡ 48 ∷ []
unfolding put_dec put_dec_trunc8 last_pair
zero_text = refl

put_low-leads : (n : ℕ) (rest : List ℕ) → leads rest ≡ true → leads (put_low n rest) ≡ true
unfolding put_low
put_low-leads n rest h =
    leads-append (put_dec_helper4 (part0 n)) _
      (leads-append (put_dec_helper4 (part1 n)) _ (leads-append (put_dec_helper4 (part2 n)) rest h))

put_dec-leads : (n : ℕ) → n < 0x1_0000_0000_0000_0000 → 0 < n → leads (put_dec n) ≡ true
unfolding put_dec
put_dec-leads n h pos = elim (Bool-cases (ltb n 1_0000_0000)) [
  | inl e ↦ rw (put_dec, e) (put_dec_trunc8-leads n pos (ground arith))
  | inr e ↦ elim (Bool-cases (part3 n == 0)) [
    | inl z ↦ elim (drop_zeros-leads (put_low n [])) [
      | inl nothing ↦
          let d = put_dec-Denotes n h in
          let empty : put_dec n ≡ [] = rw (put_dec, e, z) nothing in
          absurd (omega (arith, pos, d.value, ap value empty))
      | inr lead ↦ rw (put_dec, e, z) lead
    ]
    | inr z ↦
        rw (put_dec, e, z)
          (put_low-leads n _ (put_dec_trunc8-leads (part3 n) (ground arith) ((parts_sum n h).1)))
  ]
]

-- For a 64-bit number put_dec writes decimal digits that stand for the number, least digit first. The
-- text of 0 is one 0, and that of any other number ends in a digit that is not 0, so that it has no
-- leading zero.
pub put_dec-IsDecimal :
    (n : ℕ)
    → n < 0x1_0000_0000_0000_0000
    → Denotes n (put_dec n) × (((n ≡ 0) × (put_dec n ≡ 48 ∷ [])) ⊎ (leads (put_dec n) ≡ true))
put_dec-IsDecimal n h = (
  put_dec-Denotes n h,
  elim (Bool-cases (n == 0)) [
    | inl z ↦ let at : n ≡ 0 = ground arith in inl (at, ap put_dec at ∙ zero_text)
    | inr z ↦ inr (put_dec-leads n h (ground arith))
  ],
)
