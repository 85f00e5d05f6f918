-- ===== src/Memblock/Round/Count.antt =====
-- The first round of memblock_add_range (mm/memblock.c) counts the regions that the second inserts.
use sandix.Common.{
  ℕ, zero, suc, ◌+◌, ◌<◌, ◌≡◌, refl, false, inl, inr, List, [], some, ◌∷◌, ◌++◌, arith, length,
  length-append, min, leb, get_elem?, get_elem?-append, get_elem?-length, Bool-cases,
}
use sandix.Memblock.Types.{Region, Run, ok, ◌>>=◌}
use sandix.Memblock.Ops.{NewRange, AddState, add_gap, add_loop}
use sandix.Memblock.Cover.{IsOrdered}
use sandix.Memblock.Splice.{gap, splice, splice-end, splice-pass, splice-fill}
use sandix.Memblock.Round.{
  IsAt, IsAt-step, add_loop-none, add_loop-end, add_loop-pass, add_loop-fill,
}

-- A round from `s` over `rest` ends, and counts the regions that the splice has more.
abbrev Counts : NewRange → List Region → AddState → Run AddState → Type 0
Counts n rest s run =
    (s' : AddState) × (run ≡ ok s')
    × (s'.nr_new + length rest ≡ s.nr_new + length (splice n s.base rest))

add_gap-false :
    (n : NewRange) (to : ℕ) (s : AddState)
    → add_gap false n to s ≡ ok (record s { nr_new = s.nr_new + length (gap n s.base to) })
unfolding add_gap gap
add_gap-false n to s = ground arith

pub add_loop-false :
    (k m : ℕ) (n : NewRange) (lo : ℕ) (before rest : List Region) (s : AddState)
    → length rest < k
    → IsOrdered lo rest
    → IsAt m before rest s
    → Counts n rest s (add_loop k false n s >>= add_gap false n n.end)
add_loop-false zero m n lo before rest s h o p = absurd (omega arith)
add_loop-false (suc k) m n lo before [] s h o p =
    unfold splice in
    rw
      (
        add_loop-none k false n s (rw (p.split, p.place) (get_elem?-length before)),
        add_gap-false n n.end s,
      )
      (_, refl, omega arith)
add_loop-false (suc k) m n lo before (r ∷ rest) s h o p =
    let here : get_elem? s.type.regions s.idx ≡ some r =
      rw (p.split, p.place) (get_elem?-append before r rest) in
    elim (Bool-cases (leb n.end r.base)) [
      | inl c ↦
          rw
            (
              add_loop-end k false n s r here o.2 c,
              splice-end n s.base r rest c,
              add_gap-false n n.end s,
            )
            (_, refl, omega (arith, length-append (gap n s.base n.end) (r ∷ rest)))
      | inr c ↦ elim (Bool-cases (leb (r.base + r.size) s.base)) [
        | inl d ↦
            let (s', runs, count) =
              add_loop-false k m n (r.base + r.size) (before ++ r ∷ []) rest
                (record s { idx = s.idx + 1 }) (omega arith) o.3
                (IsAt-step m before r rest s s.base p) in
            rw (add_loop-pass k false n s r here o.2 c d, splice-pass n s.base r rest c d, runs)
              (s', refl, omega (arith, count))
        | inr d ↦
            let g : List Region = gap n s.base r.base in
            let next : ℕ = min (r.base + r.size) n.end in
            let s1 : AddState = record s { nr_new = s.nr_new + length g } in
            let p1 : IsAt m before (r ∷ rest) s1 = record {
              split = p.split;
              place = p.place;
              total = p.total;
              limit = p.limit;
            } in
            let (s', runs, count) =
              add_loop-false k m n (r.base + r.size) (before ++ r ∷ []) rest
                (record s1 { idx = s.idx + 1; base = next }) (omega arith) o.3
                (IsAt-step m before r rest s1 next p1) in
            rw
              (
                add_loop-fill k false n s r here o.2 c d,
                splice-fill n s.base r rest c d,
                add_gap-false n r.base s,
                runs,
              )
              (s', refl, omega (arith, count, length-append g (r ∷ splice n next rest)))
      ]
    ]
