-- ===== src/E820/Setup.antt =====
-- setup_memory_map (arch/x86/kernel/e820.c): the map that the kernel works with.
use sandix.Common.{
  ℕ, ◌+◌, ◌≤◌, ◌<◌, ◌≡◌, refl, sym, ap, ◌∙◌, inl, inr, Bool, true, false, List, [], ◌∷◌, ◌++◌,
  arith, length, length-append, ltb, leb, Bool-cases,
}
use sandix.Word.{ullong_max, add64}
use sandix.Memblock.Types.{Run, ok, bug}
use sandix.E820.{
  E820Entry, e820_max, any_wraps, sanitize_e820_map, e820_add_region, append_loop, append_e820_map,
  setup_memory_map,
}
use sandix.E820.Sanitize.{AreApart}
use sandix.E820.Points.{AreWords}
use sandix.E820.Order.{AreU64, any_wraps-AreWords}
use sandix.E820.Typed.{AreApart-le}
use sandix.E820.Outcome.{
  Keeps, SanitizeOutcome, small, wrapping, crowded, sanitized, sanitize_e820_map-SanitizeOutcome,
  AreWords-any_wraps,
}

AreApart-AreWords : (lo : ℕ) (es : List E820Entry) → AreApart lo es ullong_max → AreWords es
AreApart-AreWords lo [] a = tt
AreApart-AreWords lo (e ∷ es) a =
    (AreApart-le (e.addr + e.size) es ullong_max a.2, AreApart-AreWords (e.addr + e.size) es a.2)

append_assoc :
    (xs : List E820Entry) (y : E820Entry) (ys : List E820Entry)
    → (xs ++ y ∷ []) ++ ys ≡ xs ++ y ∷ ys
append_assoc [] y ys = refl
append_assoc (x ∷ xs) y ys = ap (◌∷◌ x) (append_assoc xs y ys)

append_nil : (xs : List E820Entry) → xs ++ [] ≡ xs
append_nil [] = refl
append_nil (x ∷ xs) = ap (◌∷◌ x) (append_nil xs)

-- Entries that do not wrap around and fit the map are all copied.
append_loop-copies :
    (map es : List E820Entry)
    → any_wraps es ≡ false
    → length map + length es ≤ e820_max
    → append_loop map es ≡ (true, map ++ es)
unfolding append_loop any_wraps e820_add_region
append_loop-copies map [] h fits = ap (λ (m : List E820Entry). (true, m)) (sym (append_nil map))
append_loop-copies map (e ∷ es) h fits =
    let entry : E820Entry = record { addr = e.addr; size = e.size; type = e.type } in
    let fine : ltb (add64 e.addr e.size) e.addr ≡ false = ground (arith, h) in
    let room : leb e820_max (length map) ≡ false = ground (arith, fits) in
    let longer = length-append map (entry ∷ []) in
    rw (append_loop, fine, e820_add_region, room)
      (append_loop-copies (map ++ entry ∷ []) es (ground (arith, h)) (omega (arith, fits, longer))
        ∙ ap (λ (m : List E820Entry). (true, m)) (append_assoc map entry es))

append_loop-stops : (map es : List E820Entry) → any_wraps es ≡ true → (append_loop map es).0 ≡ false
unfolding append_loop any_wraps
append_loop-stops map [] h = sym h
append_loop-stops map (e ∷ es) h = elim (Bool-cases (ltb (add64 e.addr e.size) e.addr)) [
  | inl wraps ↦ rw (append_loop, wraps) refl
  | inr fine ↦
      rw (append_loop, fine)
        (append_loop-stops (e820_add_region map e.addr e.size e.type) es (ground (arith, h, fine)))
]

-- Why the kernel cannot start with a map: it has less than two entries, one that wraps around, or
-- too many; or less than two entries are left of it.
pub data Unusable (params : List E820Entry) : Type 0 where
  few : length params < 2 → Unusable params
  wraps : ¬ AreWords params → Unusable params
  many : e820_max < length params → Unusable params
  merged : (out : List E820Entry) → Keeps params e820_max out → length out < 2 → Unusable params

-- A call stops the kernel, or both maps are the same new one.
pub data SetupOutcome (params : List E820Entry)
    : Run (List E820Entry × List E820Entry) → Type 0 where
  stopped : Unusable params → SetupOutcome params bug
  copied :
      {out : List E820Entry}
      → AreApart 0 out ullong_max
      → Keeps params e820_max out
      → 2 ≤ length out
      → SetupOutcome params (ok (out, out))

finish :
    (params : List E820Entry) (r : Run (Bool × List E820Entry))
    → AreU64 params
    → sanitize_e820_map params e820_max ≡ r
    → SanitizeOutcome params e820_max r
    → SetupOutcome params (setup_memory_map [] params)
unfolding setup_memory_map append_e820_map
finish params r u e (small h) =
    let short : ltb (length params) 2 ≡ true = ground (arith, h) in
    rw (setup_memory_map, e, append_e820_map, short) (stopped (few h))
finish params r u e (wrapping h) = elim (Bool-cases (any_wraps params)) [
  | inr fine ↦ absurd (h (any_wraps-AreWords params u fine))
  | inl bad ↦ elim (Bool-cases (ltb (length params) 2)) [
    | inl short ↦ rw (setup_memory_map, e, append_e820_map, short) (stopped (wraps h))
    | inr long ↦
        rw (setup_memory_map, e, append_e820_map, long, append_loop-stops [] params bad)
          (stopped (wraps h))
  ]
]
finish params r u e (crowded h) = rw (setup_memory_map, e) (stopped (many h))
finish params r u e (sanitized {out = out} apart keeps) = elim (Bool-cases (ltb (length out) 2)) [
  | inl short ↦
      rw (setup_memory_map, e, append_e820_map, short) (stopped (merged out keeps (ground arith)))
  | inr long ↦
      let fine = AreWords-any_wraps out (AreApart-AreWords 0 out apart) in
      let copies = append_loop-copies [] out fine (omega (arith, keeps.0)) in
      rw (setup_memory_map, e, append_e820_map, long, copies) (copied apart keeps (ground arith))
]

-- At boot, when the map e820 is empty and the firmware's map has 64-bit words, setup_memory_map
-- stops the kernel, because the firmware's map is unusable or less than two entries are left of it;
-- or it leaves the same new map in e820 and in the boot parameters, complete, with entries in
-- ascending order that are not empty and do not overlap, and they are E820MAX or give each address
-- the largest type that an entry of the firmware's map gives it.
pub setup_memory_map-SetupOutcome :
    (params : List E820Entry) → AreU64 params → SetupOutcome params (setup_memory_map [] params)
setup_memory_map-SetupOutcome params u =
    finish params (sanitize_e820_map params e820_max) u refl
      (sanitize_e820_map-SanitizeOutcome params e820_max u)
