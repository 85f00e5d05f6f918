-- ===== src/Printf/Format/Tasks.antt =====
-- lib/vsprintf.c: each call of format_decode brings the loop of vsnprintf nearer to its end.
use Prim.Native.Nat.{bit_or}
use sandix.Common.{
  ℕ, suc, ◌+◌, ◌-◌, ◌*◌, ◌≤◌, ◌<◌, ◌≡◌, refl, inl, inr, Bool, true, false, ◌&&◌, ◌||◌, List, [],
  ◌∷◌, arith, length, if◌then◌else◌, ◌==◌, Bool-cases,
}
use sandix.Strings.Ctype.{isdigit}
use sandix.Printf.{FormatType, type_width, type_precision, PrintfSpec}
use sandix.Printf.Decode.{
  Decoded, decoded, to_number, lower, head, tail, skip_atoi, number_type, decode_conversion,
  decode_modifier, decode_precision, decode_width, flag_of, decode_flags, split_text, decode_start,
  format_decode,
}
use sandix.Printf.Format.{skip_alnum}

-- How many rounds are left: two for a byte of the format, and one if an argument was taken for a
-- width or a precision.
abbrev pub waits : FormatType → ℕ
waits type_width = 1
waits type_precision = 1
waits _ = 0

abbrev pub tasks : Decoded → ℕ
tasks d = 2 * length d.rest + waits d.spec.type

pub length-skip_alnum : (cs : List ℕ) → length (skip_alnum cs) ≤ length cs
unfolding skip_alnum
length-skip_alnum [] = omega arith
length-skip_alnum (c ∷ cs) = ground (arith, length-skip_alnum cs)

length-skip_atoi : (i : ℕ) (cs : List ℕ) → length ((skip_atoi i cs).1) ≤ length cs
unfolding skip_atoi
length-skip_atoi i [] = omega arith
length-skip_atoi i (c ∷ cs) = ground (arith, length-skip_atoi (i * 10 + (c - 48)) cs)

length-tail : (cs : List ℕ) → length (tail cs) ≤ length cs
length-tail [] = omega arith
length-tail (c ∷ cs) = omega arith

waits-number_type : (spec : PrintfSpec) → waits (number_type spec) ≡ 0
unfolding number_type
waits-number_type spec = ground arith

-- A call leaves at most `n` tasks.
record Leaves (n : ℕ) (d : Decoded) : Type 0 where
  few : tasks d ≤ n

Leaves-if :
    {n : ℕ} {d e : Decoded} (b : Bool)
    → (b ≡ true → Leaves n d)
    → Leaves n e
    → Leaves n (if b then d else e)
Leaves-if true h k = h refl
Leaves-if false h k = k

-- A byte that is there is one to pass.
length-tail_lt : (cs : List ℕ) (c : ℕ) → (head cs == suc c) ≡ true → length (tail cs) < length cs
length-tail_lt [] c h = ground arith
length-tail_lt (x ∷ cs) c h = omega arith

Leaves-conversion :
    (spec : PrintfSpec) (fmt : List ℕ) → Leaves (2 * length fmt) (decode_conversion spec fmt)
unfolding decode_conversion
Leaves-conversion spec fmt =
    let c = head fmt in
    let passed : (s : PrintfSpec) (t : FormatType)
        → waits t ≡ 0
        → Leaves (2 * length fmt) (decoded s t (tail fmt)) =
      λ s t e. record { few = omega (arith, length-tail fmt, e) } in
    let numbered : (s : PrintfSpec) (flag base : ℕ)
        → Leaves (2 * length fmt) (to_number s flag base (tail fmt)) =
      λ s flag base.
        passed (record s { flags = bit_or s.flags flag; base = base }) _ (waits-number_type _) in
    let based : PrintfSpec = record spec { base = 10 } in
    Leaves-if (c == 99) (λ _. passed based _ refl)
      (Leaves-if (c == 115) (λ _. passed based _ refl)
        (Leaves-if (c == 112) (λ _. passed based _ refl)
          (Leaves-if (c == 37) (λ _. passed based _ refl)
            (Leaves-if (c == 100 || c == 105) (λ _. numbered based _ _)
              (Leaves-if (c == 117) (λ _. numbered based _ _)
                (Leaves-if (c == 120) (λ _. numbered based _ _)
                  (Leaves-if (c == 88) (λ _. numbered based _ _)
                    (Leaves-if (c == 111) (λ _. numbered based _ _)
                      (record { few = omega arith })))))))))

Leaves-mono : {n k : ℕ} {d : Decoded} → n ≤ k → Leaves n d → Leaves k d
Leaves-mono h l = record { few = omega (arith, h, l.few) }

Leaves-modifier :
    (spec : PrintfSpec) (fmt : List ℕ) → Leaves (2 * length fmt) (decode_modifier spec fmt)
unfolding decode_modifier
Leaves-modifier spec fmt =
    let next = tail fmt in
    let less : 2 * length next ≤ 2 * length fmt = omega (arith, length-tail fmt) in
    let least : 2 * length (tail next) ≤ 2 * length fmt =
      omega (arith, length-tail next, length-tail fmt) in
    Leaves-if
      (head fmt == 104 || lower (head fmt) == 108 || lower (head fmt) == 122 || head fmt == 116)
      (λ _.
        Leaves-if (head next == head fmt && head fmt == 108)
          (λ _. Leaves-mono least (Leaves-conversion _ (tail next)))
          (Leaves-if (head next == head fmt && head fmt == 104)
            (λ _. Leaves-mono least (Leaves-conversion _ (tail next)))
            (Leaves-mono less (Leaves-conversion _ next))))
      (Leaves-conversion _ fmt)

Leaves-precision :
    (spec : PrintfSpec) (fmt : List ℕ) → Leaves (2 * length fmt) (decode_precision spec fmt)
unfolding decode_precision
Leaves-precision spec fmt =
    let next = tail fmt in
    let less : length next ≤ length fmt = length-tail fmt in
    Leaves-if (head fmt == 46)
      (λ _.
        Leaves-if (isdigit (head next))
          (λ _.
            Leaves-mono (omega (arith, less, length-skip_atoi 0 next))
              (Leaves-modifier _ ((skip_atoi 0 next).1)))
          (Leaves-if (head next == 42)
            (λ h. record { few = omega (arith, less, length-tail_lt next 41 h) })
            (Leaves-mono (omega (arith, less)) (Leaves-modifier _ next))))
      (Leaves-modifier _ fmt)

Leaves-width : (spec : PrintfSpec) (fmt : List ℕ) → Leaves (2 * length fmt) (decode_width spec fmt)
unfolding decode_width
Leaves-width spec fmt =
    Leaves-if (isdigit (head fmt))
      (λ _.
        Leaves-mono (omega (arith, length-skip_atoi 0 fmt))
          (Leaves-precision _ ((skip_atoi 0 fmt).1)))
      (Leaves-if (head fmt == 42) (λ h. record { few = omega (arith, length-tail_lt fmt 41 h) })
        (Leaves-precision _ fmt))

Leaves-flags : (spec : PrintfSpec) (fmt : List ℕ) → Leaves (2 * length fmt) (decode_flags spec fmt)
unfolding decode_flags
Leaves-flags spec [] = Leaves-width spec []
Leaves-flags spec (c ∷ cs) = elim (Bool-cases (flag_of c == 0)) [
  | inl e ↦ rw (decode_flags, e) (Leaves-width spec (c ∷ cs))
  | inr e ↦
      rw (decode_flags, e)
        (Leaves-mono (omega arith)
          (Leaves-flags (record spec { flags = bit_or spec.flags (flag_of c) }) cs))
]

length-split_text : (cs : List ℕ) → length ((split_text cs).1) ≤ length cs
unfolding split_text
length-split_text [] = omega arith
length-split_text (c ∷ cs) = ground (arith, length-split_text cs)

length-split_text_lt :
    (c : ℕ) (cs : List ℕ) → (c == 37) ≡ false → length ((split_text (c ∷ cs)).1) ≤ length cs
unfolding split_text
length-split_text_lt c cs e = rw e (length-split_text cs)

Leaves-start :
    (spec : PrintfSpec) (c : ℕ) (cs : List ℕ) → Leaves (2 * length cs) (decode_start spec (c ∷ cs))
unfolding decode_start
Leaves-start spec c cs = elim (Bool-cases (c == 37)) [
  | inl e ↦ rw (decode_start, e) (Leaves-flags _ cs)
  | inr e ↦ rw (decode_start, e) (record { few = omega (arith, length-split_text_lt c cs e) })
]

-- A call takes a task at least.
pub Leaves-decode :
    (spec : PrintfSpec) (c : ℕ) (cs : List ℕ)
    → tasks (format_decode spec (c ∷ cs)) < 2 * length (c ∷ cs) + waits spec.type
unfolding format_decode
Leaves-decode spec c cs =
    elim spec.type
        as (λ t.
          spec.type ≡ t
          → tasks (format_decode spec (c ∷ cs)) < 2 * length (c ∷ cs) + waits spec.type) [
            | type_width ↦
                λ e. rw (format_decode, e) (omega (arith, (Leaves-precision _ (c ∷ cs)).few))
            | type_precision ↦
                λ e. rw (format_decode, e) (omega (arith, (Leaves-modifier _ (c ∷ cs)).few))
            | _ ↦ λ e. rw (format_decode, e) (omega (arith, (Leaves-start spec c cs).few))
          ]
      refl
