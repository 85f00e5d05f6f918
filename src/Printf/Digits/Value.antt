-- ===== src/Printf/Digits/Value.antt =====
-- lib/vsprintf.c: the number that the digits of put_dec stand for.
use sandix.Common.{
  ℕ, ◌+◌, ◌-◌, ◌*◌, ◌/◌, ◌%◌, ◌≤◌, ◌<◌, ◌≡◌, refl, ◌∙◌, arith, List, [], ◌∷◌, ◌++◌, ltb, ◌==◌,
  if◌then◌else◌, Bool-cases, inl, inr,
}
use sandix.Printf.Digits.{
  decpair, last_pair, div100, div100_small, div10000, put_dec_trunc8, put_dec_full4,
  put_dec_helper4, drop_zeros, put_low, part0, part1, part2, part3, put_dec,
}

-- The number of a text of decimal digits, least digit first.
abbrev pub value : List ℕ → ℕ
value [] = 0
value (c ∷ cs) = c - 48 + 10 * value cs

abbrev pub AreDigits : List ℕ → Type 0
AreDigits [] = Unit {0}
AreDigits (c ∷ cs) = (48 ≤ c) × (c ≤ 57) × AreDigits cs

-- The text stands for `n`.
pub record Denotes (n : ℕ) (cs : List ℕ) : Type 0 where
  pub value : value cs ≡ n
  pub digits : AreDigits cs

pub div100-eq : (r : ℕ) → r < 1_0000_0000 → div100 r ≡ r / 100
unfolding div100
div100-eq r h = omega arith

pub div100_small-eq : (r : ℕ) → r < 1_0000 → div100_small r ≡ r / 100
unfolding div100_small
div100_small-eq r h = omega arith

div10000-eq : (x : ℕ) → x ≤ 11_2552_0955 → div10000 x ≡ x / 10000
unfolding div10000
div10000-eq x h = omega arith

decpair-Denotes :
    (x n : ℕ) (cs : List ℕ) → x < 100 → Denotes n cs → Denotes (x + 100 * n) (decpair x ++ cs)
unfolding decpair
decpair-Denotes x n cs h d = record {
  value = omega (arith, d.value);
  digits = (omega arith, omega arith, (omega arith, omega arith, d.digits));
}

last_pair-Denotes : (x : ℕ) → x < 100 → Denotes x (last_pair x)
unfolding last_pair decpair
last_pair-Denotes x h = elim (Bool-cases (ltb x 10)) [
  | inl e ↦
      rw (last_pair, e) (record { value = omega arith; digits = (omega arith, ground arith, tt) })
  | inr e ↦
      rw (last_pair, e)
        (record {
          value = omega arith;
          digits = (omega arith, omega arith, (omega arith, omega arith, tt));
        })
]

-- The same text for a number written another way.
Denotes-eq : {n m : ℕ} {cs : List ℕ} → n ≡ m → Denotes n cs → Denotes m cs
Denotes-eq e d = record { value = d.value ∙ e; digits = d.digits }

put_dec_full4-Denotes :
    (r n : ℕ) (cs : List ℕ)
    → r < 1_0000
    → Denotes n cs
    → Denotes (r + 10000 * n) (put_dec_full4 r ++ cs)
unfolding put_dec_full4 decpair
put_dec_full4-Denotes r n cs h d = Denotes-eq (omega (arith, div100_small-eq r h)) (
    decpair-Denotes (r - 100 * div100_small r) (div100_small r + 100 * n)
      (decpair (div100_small r) ++ cs) (omega (arith, div100_small-eq r h))
      (decpair-Denotes (div100_small r) n cs (omega (arith, div100_small-eq r h)) d))

put_dec_helper4-Denotes :
    (x n : ℕ) (cs : List ℕ)
    → x ≤ 11_2552_0955
    → Denotes n cs
    → Denotes (x % 10000 + 10000 * n) (put_dec_helper4 x ++ cs)
unfolding put_dec_helper4
put_dec_helper4-Denotes x n cs h d =
    Denotes-eq (omega (arith, div10000-eq x h))
      (put_dec_full4-Denotes (x - div10000 x * 10000) n cs (omega (arith, div10000-eq x h)) d)

put_dec_trunc8-Denotes : (r : ℕ) → r < 1_0000_0000 → Denotes r (put_dec_trunc8 r)
unfolding put_dec_trunc8
put_dec_trunc8-Denotes r h = elim (Bool-cases (ltb r 100)) [
  | inl e ↦ rw (put_dec_trunc8, e) (last_pair-Denotes r (ground arith))
  | inr e ↦
      let q = div100 r in
      let q-eq : q ≡ r / 100 = div100-eq r h in
      rw (put_dec_trunc8, e)
        (Denotes-eq (omega (arith, q-eq)) (
          decpair-Denotes (r - 100 * q) q _ (omega (arith, q-eq))
            (six_digits q (omega (arith, q-eq)))))
]
  where
    four_digits :
        (r : ℕ)
        → r < 1_0000
        → Denotes r (
            if ltb r 100
            then last_pair r
            else (let q = div100_small r in decpair (r - 100 * q) ++ last_pair q))
    four_digits r h = elim (Bool-cases (ltb r 100)) [
      | inl e ↦ rw e (last_pair-Denotes r (ground arith))
      | inr e ↦
          let q = div100_small r in
          let q-eq : q ≡ r / 100 = div100_small-eq r h in
          rw e (
            Denotes-eq (omega (arith, q-eq)) (
              decpair-Denotes (r - 100 * q) q (last_pair q) (omega (arith, q-eq))
                (last_pair-Denotes q (omega (arith, q-eq)))))
    ]

    six_digits :
        (q : ℕ)
        → q < 100_0000
        → Denotes q (
            if ltb q 100
            then last_pair q
            else (let r' = div100 q in
                decpair (q - 100 * r')
                ++ (if ltb r' 100
                    then last_pair r'
                    else (let q' = div100_small r' in decpair (r' - 100 * q') ++ last_pair q'))))
    six_digits q h = elim (Bool-cases (ltb q 100)) [
      | inl e ↦ rw e (last_pair-Denotes q (ground arith))
      | inr e ↦
          let r = div100 q in
          let r-eq : r ≡ q / 100 = div100-eq q (omega arith) in
          rw e (
            Denotes-eq (omega (arith, r-eq)) (
              decpair-Denotes (q - 100 * r) r _ (omega (arith, r-eq))
                (four_digits r (omega (arith, r-eq)))))
    ]

drop_zeros-Denotes : (n : ℕ) (cs : List ℕ) → Denotes n cs → Denotes n (drop_zeros cs)
unfolding drop_zeros
drop_zeros-Denotes n [] d = d
drop_zeros-Denotes n (c ∷ cs) d =
    cut (drop_zeros cs)
      (drop_zeros-Denotes (value cs) cs (record { value = refl; digits = d.digits.2 }))
  where
    cut :
        (rest : List ℕ)
        → Denotes (value cs) rest
        → Denotes n (elim rest as (λ _. List ℕ) [
          | [] ↦ if c == 48 then [] else c ∷ []
          | d ∷ ds ↦ c ∷ d ∷ ds
        ])
    cut (e ∷ ds) k = record {
      value = omega (arith, d.value, k.value);
      digits = (d.digits.0, d.digits.1, k.digits);
    }
    cut [] k = elim (Bool-cases (c == 48)) [
      | inl z ↦ rw z (record { value = ground (arith, d.value, k.value); digits = tt })
      | inr z ↦ rw z (record {
        value = omega (arith, d.value, k.value);
        digits = (d.digits.0, d.digits.1, tt);
      })
    ]

-- The parts are what is left of `n` behind four, eight and twelve digits.
parts_bounds :
    (n : ℕ)
    → n < 0x1_0000_0000_0000_0000
    → (part0 n ≤ 11_2552_0955) × (part1 n ≤ 11_2552_0955) × (part2 n ≤ 11_2552_0955)
unfolding part0 part1 part2 div10000
parts_bounds n h = omega arith

pub parts_sum :
    (n : ℕ)
    → n < 0x1_0000_0000_0000_0000
    → (part0 n % 10000 + 10000 * (part1 n % 10000 + 10000 * (part2 n % 10000 + 10000 * part3 n))
        ≡ n)
      × (part3 n < 1_0000_0000)
unfolding part0 part1 part2 part3
parts_sum n h =
    let (b0, b1, b2) = parts_bounds n h in
    omega (
      arith,
      b0,
      b1,
      b2,
      div10000-eq (part0 n) b0,
      div10000-eq (part1 n) b1,
      div10000-eq (part2 n) b2,
    )

put_low-Denotes :
    (n : ℕ) (rest : List ℕ)
    → n < 0x1_0000_0000_0000_0000
    → Denotes (part3 n) rest
    → Denotes n (put_low n rest)
unfolding put_low
put_low-Denotes n rest h d =
    let (b0, b1, b2) = parts_bounds n h in
    Denotes-eq ((parts_sum n h).0) (
      put_dec_helper4-Denotes (part0 n) _ _ b0 (
        put_dec_helper4-Denotes (part1 n) _ _ b1
          (put_dec_helper4-Denotes (part2 n) (part3 n) rest b2 d)))

-- For a 64-bit number put_dec writes decimal digits that stand for the number, least digit first.
pub put_dec-Denotes : (n : ℕ) → n < 0x1_0000_0000_0000_0000 → Denotes n (put_dec n)
unfolding put_dec
put_dec-Denotes n h = elim (Bool-cases (ltb n 1_0000_0000)) [
  | inl e ↦ rw (put_dec, e) (put_dec_trunc8-Denotes n (ground arith))
  | inr e ↦ elim (Bool-cases (part3 n == 0)) [
    | inl z ↦
        rw (put_dec, e, z)
          (drop_zeros-Denotes n (put_low n [])
            (put_low-Denotes n [] h (record { value = ground arith; digits = tt })))
    | inr z ↦
        rw (put_dec, e, z)
          (put_low-Denotes n (put_dec_trunc8 (part3 n)) h
            (put_dec_trunc8-Denotes (part3 n) ((parts_sum n h).1)))
  ]
]
