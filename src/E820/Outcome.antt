-- ===== src/E820/Outcome.antt =====
-- sanitize_e820_map (arch/x86/kernel/e820.c): how a call ends.
use sandix.Common.{
  ℕ, ◌+◌, ◌≤◌, ◌<◌, ◌≡◌, refl, ◌⊎◌, inl, inr, Bool, true, false, not, ◌||◌, List, [], ◌∷◌, ◌++◌,
  arith, length, ltb, ◌==◌, Bool-cases,
}
use native.Mathlib.Decide.{dec_lt}
use sandix.Word.{ullong_max, add64-eq, sub64}
use sandix.Memblock.Types.{Run, ok, bug}
use sandix.E820.{
  E820Entry, ChangeMember, Sanitized, close_entry, update_overlap, overlap_type, sanitize_step,
  sanitize_loop, any_wraps, sanitize_e820_map,
}
use sandix.E820.Sanitize.{
  Ascend, AreApart, IsBehind, sanitize_step-IsBehind, sanitize_loop-AreApart,
}
use sandix.E820.Points.{AreWords}
use sandix.E820.Order.{AreU64, any_wraps-AreWords, points, points-Ascend}
use sandix.E820.Overlap.{max_type, overlap_type-max_type}
use sandix.E820.Sweep.{IsSwept, listed-covering, points-IsSwept}
use sandix.E820.Typed.{
  max_type-max, IsTyped, IsTyped-next, sanitize_step-IsTyped, sanitize_step-IsSwept,
}

length-snoc : (es : List E820Entry) (e : E820Entry) → length (es ++ e ∷ []) ≡ length es + 1
length-snoc [] e = refl
length-snoc (d ∷ ds) e = omega (arith, length-snoc ds e)

close_entry-length :
    (p : ℕ) (s : Sanitized)
    → (length s.done ≤ length (close_entry p s)) × (length (close_entry p s) ≤ length s.done + 1)
unfolding close_entry
close_entry-length p s = elim (Bool-cases (s.last_type == 0 || sub64 p s.last_addr == 0)) [
  | inl same ↦ rw (close_entry, same) (omega arith, omega arith)
  | inr more ↦ rw (close_entry, more, length-snoc s.done _) (omega arith, omega arith)
]

-- What a loop makes of the map: no more entries than there is room for, and either this many or
-- entries that give each address the type that the map gives it.
abbrev pub Keeps : List E820Entry → ℕ → List E820Entry → Type 0
Keeps biosmap max_nr out =
    (length out ≤ max_nr)
    × ((length out ≡ max_nr) ⊎ ((x : ℕ) → max_type out x ≡ max_type biosmap x))

module _ (biosmap : List E820Entry) (words : AreWords biosmap) (max_nr : ℕ) where
  sanitize_step-length :
      (c : ChangeMember) (s : Sanitized)
      → length s.done < max_nr
      → ((sanitize_step biosmap max_nr c s).0 ≡ true
          × length ((sanitize_step biosmap max_nr c s).1).done < max_nr)
        ⊎ ((sanitize_step biosmap max_nr c s).0 ≡ false
            × length ((sanitize_step biosmap max_nr c s).1).done ≡ max_nr)
  unfolding sanitize_step
  sanitize_step-length c s h =
      let current : ℕ = overlap_type biosmap (update_overlap biosmap c s.overlap) in
      let grown = close_entry-length c.addr s in
      elim (Bool-cases (not (current == s.last_type) || current == 12)) [
        | inr stay ↦ rw (sanitize_step, stay) (inl (refl, h))
        | inl change ↦
            rw (sanitize_step, change)
              (elim (dec_lt (length (close_entry c.addr s)) max_nr) [
                | yes room ↦ inl (ground arith, room)
                | no full ↦ inr (ground (arith, grown, h), omega (arith, grown, h))
              ])
      ]

  -- Behind the last change point no entry is open.
  end-Keeps :
      (a : ℕ) (s : Sanitized)
      → IsSwept biosmap words a [] s.overlap
      → IsBehind a s
      → IsTyped biosmap words a s
      → (x : ℕ) → max_type s.done x ≡ max_type biosmap x
  end-Keeps a s swept behind types x =
      let top : overlap_type biosmap s.overlap ≡ max_type biosmap ullong_max =
        overlap_type-max_type biosmap ullong_max s.overlap (
          listed-covering biosmap words a (ullong_max + 1) [] s.overlap swept tt ullong_max
            behind.word (omega arith)) in
      let next = IsTyped-next biosmap words a (x + 1) [] s swept tt behind types x (omega arith) in
      ground (arith, top, max_type-max biosmap words, next, types.latest)

  sanitize_loop-Keeps :
      (a : ℕ) (cs : List ChangeMember) (s : Sanitized)
      → IsSwept biosmap words a cs s.overlap
      → Ascend a cs
      → IsBehind a s
      → IsTyped biosmap words a s
      → length s.done < max_nr
      → Keeps biosmap max_nr (sanitize_loop biosmap max_nr cs s)
  unfolding sanitize_loop
  sanitize_loop-Keeps a [] s swept ascend behind types room =
      (omega (arith, room), inr (end-Keeps a s swept behind types))
  sanitize_loop-Keeps a (c ∷ cs) s swept ascend behind types room =
      elim (sanitize_step-length c s room) [
        | inl (on, room') ↦
            rw (sanitize_loop, on)
              (sanitize_loop-Keeps c.addr cs ((sanitize_step biosmap max_nr c s).1)
                (sanitize_step-IsSwept biosmap words max_nr a c cs s swept ascend behind types)
                ascend.2 (sanitize_step-IsBehind biosmap max_nr a c s behind ascend.0 ascend.1)
                (sanitize_step-IsTyped biosmap words max_nr a c cs s swept ascend behind types)
                room')
        | inr (off, full) ↦ rw (sanitize_loop, off) (omega (arith, full), inl full)
      ]

pub AreWords-any_wraps : (es : List E820Entry) → AreWords es → any_wraps es ≡ false
unfolding any_wraps
AreWords-any_wraps [] w = refl
AreWords-any_wraps (e ∷ es) w =
    rw (add64-eq e.addr e.size w.0) (ground (arith, AreWords-any_wraps es w.1))

nothing-overlap_type : (biosmap : List E820Entry) → 0 ≡ overlap_type biosmap []
unfolding overlap_type
nothing-overlap_type biosmap = refl

-- A call ends in one of four ways: it leaves a map with one entry or none alone, and one with an
-- entry that wraps around the address space; it stops the kernel on more entries than `max_nr`; or
-- it returns entries that are in order, not empty and apart.
pub data SanitizeOutcome (biosmap : List E820Entry) (max_nr : ℕ)
    : Run (Bool × List E820Entry) → Type 0 where
  small : length biosmap < 2 → SanitizeOutcome biosmap max_nr (ok (false, biosmap))
  wrapping : ¬ AreWords biosmap → SanitizeOutcome biosmap max_nr (ok (false, biosmap))
  crowded : max_nr < length biosmap → SanitizeOutcome biosmap max_nr bug
  sanitized :
      {out : List E820Entry}
      → AreApart 0 out ullong_max
      → Keeps biosmap max_nr out
      → SanitizeOutcome biosmap max_nr (ok (true, out))

-- On a map of 64-bit words a call of sanitize_e820_map ends as SanitizeOutcome says: it returns -1
-- and the map as it was, which has less than two entries or one that wraps around; or there are
-- more entries than max_nr_map and a BUG_ON stops it; or it returns 0, and the new entries are in
-- ascending order, not empty and do not overlap, they are max_nr_map at most, and they are exactly
-- as many or give each address the largest type that an entry of the old map gives it.
pub sanitize_e820_map-SanitizeOutcome :
    (biosmap : List E820Entry) (max_nr : ℕ)
    → AreU64 biosmap
    → SanitizeOutcome biosmap max_nr (sanitize_e820_map biosmap max_nr)
unfolding sanitize_e820_map
sanitize_e820_map-SanitizeOutcome biosmap max_nr u =
    let start : Sanitized = record { overlap = []; done = []; last_addr = 0; last_type = 0 } in
    elim (Bool-cases (ltb (length biosmap) 2)) [
      | inl few ↦ rw few (small (ground arith))
      | inr more ↦ elim (Bool-cases (ltb max_nr (length biosmap))) [
        | inl over ↦ rw (more, over) (crowded (ground arith))
        | inr room ↦ elim (Bool-cases (any_wraps biosmap)) [
          | inl wraps ↦
              rw (more, room, wraps)
                (wrapping (λ w. ground (arith, AreWords-any_wraps biosmap w, wraps)))
          | inr fine ↦
              let words = any_wraps-AreWords biosmap u fine in
              let behind : IsBehind 0 start = record {
                finished = omega arith;
                started = omega arith;
                word = omega arith;
              } in
              let types : IsTyped biosmap words 0 start = record {
                typed = λ x h. absurd (omega (arith, h));
                latest = nothing-overlap_type biosmap;
              } in
              rw (more, room, fine)
                (sanitized
                  (sanitize_loop-AreApart biosmap max_nr 0 (points biosmap) start behind
                    (points-Ascend biosmap words))
                  (sanitize_loop-Keeps biosmap words max_nr 0 (points biosmap) start
                    (points-IsSwept biosmap words) (points-Ascend biosmap words) behind types
                    (ground arith)))
        ]
      ]
    ]
