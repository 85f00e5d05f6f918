-- ===== src/Printf/Format/Result.antt =====
-- lib/vsprintf.c: vsnprintf ends, stays in its buffer and terminates the text.
use sandix.Common.{
  ℕ, zero, suc, ◌+◌, ◌-◌, ◌*◌, ◌%◌, ◌≤◌, ◌<◌, ◌≡◌, refl, ap, ◌⊎◌, inl, inr, false, some, List, [],
  ◌∷◌, arith, length, if◌then◌else◌, ltb, ◌==◌, min,
}
use native.Mathlib.Decide.{dec_lt}
use sandix.Strings.Mem.{Memory}
use sandix.Resource.{Resource}
use sandix.Printf.{
  type_none, type_width, type_precision, type_char, type_str, type_ptr, type_percent_char,
  type_invalid, PrintfSpec, Output,
}
use sandix.Printf.Bounds.{
  Wrote, Wrote-refl, Wrote-trans, Wrote-if, put-Wrote, put_all-Wrote, pad-Wrote,
}
use sandix.Printf.Bounds.Fields.{number-Wrote, string-Wrote, pointer-Wrote}
use sandix.Printf.Decode.{Decoded, format_decode}
use sandix.Printf.Format.{
  put_char, Format, format_round, format_loop, buffer_end, terminate, start_spec, vsnprintf,
  vscnprintf,
}
use sandix.Printf.Format.Tasks.{waits, tasks, length-skip_alnum, Leaves-decode}

put_char-Wrote : (end c : ℕ) (spec : PrintfSpec) (o : Output) → Wrote end o (put_char end c spec o)
unfolding put_char
put_char-Wrote end c spec o =
    Wrote-trans
      (Wrote-trans (Wrote-if _ (pad-Wrote end 32 _ o) (Wrote-refl end o)) (put-Wrote end _ _))
      (pad-Wrote end 32 _ _)

abbrev tasks_left : Format → ℕ
tasks_left f = 2 * length f.fmt + waits f.spec.type

-- What a round does.
record Advances (end : ℕ) (d : Decoded) (o : Output) (f : Format) : Type 0 where
  fewer : tasks_left f ≤ tasks d
  wrote : Wrote end o f.out

module _ (args : ℕ → ℕ) (resource_at : ℕ → Resource) (end : ℕ) where
  format_round-Advances :
      (d : Decoded) (arg : ℕ) (o : Output)
      → Advances end d o (format_round args resource_at end d arg o)
  unfolding format_round
  format_round-Advances d arg o =
      elim d.spec.type
          as (λ t. d.spec.type ≡ t → Advances end d o (format_round args resource_at end d arg o)) [
            | type_none ↦ λ e.
                rw (format_round, e)
                  (record { fewer = omega (arith, ap waits e); wrote = put_all-Wrote end d.text o })
            | type_width ↦ λ e.
                rw (format_round, e)
                  (record { fewer = omega (arith, ap waits e); wrote = Wrote-refl end o })
            | type_precision ↦ λ e.
                rw (format_round, e)
                  (record { fewer = omega (arith, ap waits e); wrote = Wrote-refl end o })
            | type_char ↦ λ e.
                rw (format_round, e)
                  (record {
                    fewer = omega (arith, ap waits e);
                    wrote = put_char-Wrote end (args arg) d.spec o;
                  })
            | type_str ↦ λ e.
                rw (format_round, e)
                  (record {
                    fewer = omega (arith, ap waits e);
                    wrote = string-Wrote end _ d.spec o;
                  })
            | type_ptr ↦ λ e.
                rw (format_round, e)
                  (record {
                    fewer = omega (arith, ap waits e, length-skip_alnum d.rest);
                    wrote = pointer-Wrote resource_at _ _ end (args arg) d.spec o;
                  })
            | type_percent_char ↦ λ e.
                rw (format_round, e)
                  (record { fewer = omega (arith, ap waits e); wrote = put-Wrote end 37 o })
            | type_invalid ↦ λ e.
                rw (format_round, e)
                  (record { fewer = omega (arith, ap waits e); wrote = put-Wrote end 37 o })
            | _ ↦ λ e.
                rw (format_round, e)
                  (record {
                    fewer = omega (arith, ap waits e);
                    wrote = number-Wrote end _ d.spec o;
                  })
          ]
        refl

  pub format_loop-Wrote :
      (k : ℕ) (spec : PrintfSpec) (fmt : List ℕ) (arg : ℕ) (out : Output)
      → 2 * length fmt + waits spec.type < k
      → (o : Output) × (format_loop args resource_at end k
            (record { spec = spec; fmt = fmt; arg = arg; out = out })
          ≡ some o)
        × Wrote end out o
  unfolding format_loop
  format_loop-Wrote zero spec fmt arg out h = absurd (omega arith)
  format_loop-Wrote (suc k) spec [] arg out h = (out, refl, Wrote-refl end out)
  format_loop-Wrote (suc k) spec (c ∷ cs) arg out h =
      let d = format_decode spec (c ∷ cs) in
      let f = format_round args resource_at end d arg out in
      let step = format_round-Advances d arg out in
      let (o, runs, wrote) =
        format_loop-Wrote k f.spec f.fmt f.arg f.out
          (omega (arith, step.fewer, Leaves-decode spec c cs, h)) in
      (o, runs, Wrote-trans step.wrote wrote)

-- What a call of vsnprintf leaves behind: no byte outside the buffer has changed, the text has
-- `count` bytes, which is returned as an int, and in a buffer that is not empty it has a NUL, where
-- it ends or in the last byte.
pub record Printed (buf size : ℕ) (before : Memory) (count ret : ℕ) (after : Memory) : Type 0 where
  pub kept : (q : ℕ) → ((buf ≤ q) × (q < buf + size)) ⊎ (after q ≡ before q)
  pub counted : ret ≡ count % 0x1_0000_0000
  pub ended : (size ≡ 0) ⊎ (after (buf + min count (size - 1)) ≡ 0)

terminate-kept :
    (buf size end : ℕ) (m : Memory) (o : Output)
    → end ≡ buf + size
    → Wrote end (record { at = buf; mem = m }) o
    → (q : ℕ) → (q < buf) ⊎ (buf + size ≤ q)
    → terminate buf end o q ≡ m q
unfolding terminate
terminate-kept buf size end m o e w q h =
    ground (arith, e, w.forward, w.kept q (ground (arith, e, h)), h)

pub terminate-Printed :
    (buf size end : ℕ) (m : Memory) (o : Output)
    → end ≡ buf + size
    → Wrote end (record { at = buf; mem = m }) o
    → Printed buf size m (o.at - buf) ((o.at - buf) % 0x1_0000_0000) (terminate buf end o)
unfolding terminate
terminate-Printed buf size end m o e w = record {
  kept = λ q. elim (dec_lt q buf) [
    | yes front ↦ inr (terminate-kept buf size end m o e w q (inl front))
    | no low ↦ elim (dec_lt q (buf + size)) [
      | yes inside ↦ inl (omega arith, inside)
      | no back ↦ inr (terminate-kept buf size end m o e w q (inr (omega arith)))
    ]
  ];
  counted = refl;
  ended = elim (dec_lt 0 size) [
    | yes some_room ↦ inr (ground (arith, e, w.forward))
    | no empty ↦ inl (omega arith)
  ];
}

-- vsnprintf ends, whatever the format, the arguments and the memory are, for a buffer of at most
-- INT_MAX bytes that ends in the address space. It changes no byte outside the buffer, it returns a
-- count modulo 2 ^ 32, and if the buffer is not empty there is a NUL at this count, or in the
-- buffer's last byte if the count is too large.
pub vsnprintf-Printed :
    (args : ℕ → ℕ) (resource_at : ℕ → Resource) (buf size : ℕ) (fmt : List ℕ) (m : Memory)
    → size ≤ 0x7fff_ffff
    → buf + size ≤ 0xffff_ffff_ffff_ffff
    → (count ret : ℕ) × (m' : Memory) × (vsnprintf args resource_at buf size fmt m ≡ some (ret, m'))
      × Printed buf size m count ret m'
unfolding vsnprintf
vsnprintf-Printed args resource_at buf size fmt m h k =
    let small : ltb 0x7fff_ffff size ≡ false = ground arith in
    let end : ℕ = buffer_end buf size in
    let (o, runs, wrote) =
      format_loop-Wrote args resource_at end (2 * length fmt + 1) start_spec fmt 0
        (record { at = buf; mem = m }) (omega arith) in
    (
      o.at - buf,
      (o.at - buf) % 0x1_0000_0000,
      terminate buf end o,
      rw (small, runs) refl,
      terminate-Printed buf size end m o (ground arith) wrote,
    )

-- For such a buffer that is not empty vscnprintf ends, changes no byte outside the buffer, and
-- returns a number less than its size, with a NUL in the buffer at that place or behind it.
pub vscnprintf_fits :
    (args : ℕ → ℕ) (resource_at : ℕ → Resource) (buf size : ℕ) (fmt : List ℕ) (m : Memory)
    → size ≤ 0x7fff_ffff
    → buf + size ≤ 0xffff_ffff_ffff_ffff
    → 0 < size
    → (n : ℕ) × (m' : Memory) × (k : ℕ) × (vscnprintf args resource_at buf size fmt m
        ≡ some (n, m'))
      × ((q : ℕ) → ((buf ≤ q) × (q < buf + size)) ⊎ (m' q ≡ m q))
      × (n ≤ k)
      × (k < size)
      × (m' (buf + k) ≡ 0)
unfolding vscnprintf
vscnprintf_fits args resource_at buf size fmt m h k pos =
    let (count, ret, m', runs, p) = vsnprintf-Printed args resource_at buf size fmt m h k in
    let n : ℕ = if ltb ret size then ret else if size == 0 then 0 else size - 1 in
    (
      n,
      m',
      min count (size - 1),
      rw (vscnprintf, runs) refl,
      p.kept,
      ground (arith, p.counted),
      omega arith,
      elim p.ended [ inl empty ↦ absurd (omega arith) | inr ended ↦ ended ],
    )
