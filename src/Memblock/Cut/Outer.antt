-- ===== src/Memblock/Cut/Outer.antt =====
-- memblock_isolate_range (mm/memblock.c): the whole loop.
use mathlib.Core.List.{append_assoc}
use native.Mathlib.Nat.{zero-add}
use sandix.Common.{
  ℕ, zero, suc, ◌+◌, ◌-◌, ◌≤◌, ◌<◌, ◌≡◌, refl, sym, ◌∙◌, List, [], ◌∷◌, ◌++◌, arith, length,
  length-append, get_elem?-length,
}
use sandix.Word.{ullong_max}
use sandix.Memblock.Types.{Region}
use sandix.Memblock.Cover.{sum_sizes, sum_sizes-append, IsOrdered}
use sandix.Memblock.Parts.{lower, upper, below, above, parts_cases}
use sandix.Memblock.Cut.{CutState, isolate_loop}
use sandix.Memblock.Cut.Isolate.{
  IsCutAt, Marks, cut_here, split_region_lem, Isolates, isolate_loop-none, isolate_loop-pass,
  isolate_loop-lower,
}
use sandix.Memblock.Cut.Inside.{inside_loop, stop_Isolates, halved, halved-IsCutAt}

-- The three parts in a row.
abbrev pub isolated : ℕ → ℕ → List Region → List Region
isolated base end rs = below base rs ++ (below end (above base rs) ++ above end (above base rs))

IsCutAt-step :
    (m : ℕ) (before : List Region) (r : Region) (rest : List Region) (s : CutState)
    → IsCutAt m before (r ∷ rest) s
    → IsCutAt m (before ++ r ∷ []) rest (record s { idx = s.idx + 1 })
IsCutAt-step m before r rest s p =
    let seam = append_assoc before (r ∷ []) rest in
    record {
      split = p.split ∙ sym seam;
      place = omega (arith, p.place, length-append before (r ∷ []));
      total = rw seam p.total;
      limit = p.limit;
    }

-- Nothing is marked yet.
abbrev IsFresh : CutState → Type 0
IsFresh s = (s.start_rgn ≡ 0) × (s.end_rgn ≡ 0)

fresh-Marks : (at : ℕ) (s : CutState) → IsFresh s → Marks at 0 s
fresh-Marks at s q = record {
  span = omega (arith, q.0, q.1);
  from = λ h. absurd (omega arith);
  none_yet = λ h. q.1;
}

abbrev Goal : ℕ → ℕ → ℕ → List Region → List Region → List Region → ℕ → CutState → Type 0
Goal m base end before bs us k s =
    Isolates m (before ++ (bs ++ (below end us ++ above end us))) (length before + length bs)
      (length (below end us)) (isolate_loop k base end s)

module _ (k m base end : ℕ) (before : List Region) (r : Region) (rest : List Region) (s : CutState)
    (f : length (r ∷ rest) + 2 ≤ k) (room : length before + length (r ∷ rest) + 2 ≤ m)
    (sum : sum_sizes (before ++ r ∷ rest) ≤ ullong_max) (p : IsCutAt m before (r ∷ rest) s)
    (q : IsFresh s) where
  -- The first entry of the range begins in it.
  outer_over :
      base ≤ r.base → IsOrdered r.base (r ∷ rest) → Goal m base end before [] (r ∷ rest) k s
  outer_over b o = rw zero-add at (
      inside_loop k m base end r.base (length before + 0) 0 before (r ∷ rest) s f b o (omega arith)
        sum (omega arith) p (fresh-Marks (length before + 0) s q))

  -- The first entry of the range begins below it, and is split.
  outer_cross :
      base < end
      → r.base < base
      → base < r.base + r.size
      → r.base + r.size ≤ ullong_max
      → IsOrdered (r.base + r.size) rest
      → Goal m base end before (lower r base ∷ []) (upper r base ∷ rest) (suc k) s
  outer_cross e h c top o =
      let low : Region = lower r base in
      let up : Region = upper r base in
      let s1 : CutState = halved m 0 0 before r rest s p base in
      let p1 = halved-IsCutAt m 0 0 before r rest s p base h c in
      let p2 = IsCutAt-step m before low (up ∷ rest) s1 p1 in
      let split = split_region_lem m before r rest s p base h c top (omega arith) sum in
      let step = isolate_loop-lower k base end s r (cut_here m before r rest s p) top e h c split in
      let end_up : base + (r.size - (base - r.base)) ≡ r.base + r.size = omega arith in
      let ordered : IsOrdered base (up ∷ rest) =
        (omega arith, omega arith, rw end_up top, rw end_up o) in
      let seam = append_assoc before (low ∷ []) (up ∷ rest) in
      let out = append_assoc before (low ∷ []) (below end (up ∷ rest) ++ above end (up ∷ rest)) in
      let number = length-append before (low ∷ []) in
      let result =
        inside_loop k m base end base (length before + 1) 0 (before ++ low ∷ []) (up ∷ rest)
          (record s1 { idx = s1.idx + 1 }) f (omega arith) ordered (omega (arith, number))
          (rw seam (
            omega (
              arith,
              sum,
              sum_sizes-append before (r ∷ rest),
              sum_sizes-append before (low ∷ up ∷ rest),
            )))
          (omega (arith, number)) p2
          (fresh-Marks (length before + 1) (record s1 { idx = s1.idx + 1 }) q) in
      rw step (rw (out, zero-add) at result)

pub outer_loop :
    (k m base end lo : ℕ) (before rest : List Region) (s : CutState)
    → length rest + 3 ≤ k
    → base < end
    → IsOrdered lo rest
    → length before + length rest + 2 ≤ m
    → sum_sizes (before ++ rest) ≤ ullong_max
    → IsCutAt m before rest s
    → IsFresh s
    → Goal m base end before (below base rest) (above base rest) k s
outer_loop zero m base end lo before rest s f e o room sum p q = absurd (omega arith)
outer_loop (suc k) m base end lo before [] s f e o room sum p q =
    unfold below above in
    rw (isolate_loop-none k base end s (rw (p.split, p.place) (get_elem?-length before)))
      (stop_Isolates m (length before + 0) 0 0 before [] s refl p (fresh-Marks _ s q))
outer_loop (suc k) m base end lo before (r ∷ rest) s f e o room sum p q =
    parts_cases base r rest (λ bs us. Goal m base end before bs us (suc k) s)
      (λ h.
        let out = append_assoc before (r ∷ []) (isolated base end rest) in
        let number = length-append before (r ∷ []) in
        let shift : length (before ++ r ∷ []) + length (below base rest)
            ≡ length before + suc (length (below base rest)) =
          omega (arith, number) in
        rw (isolate_loop-pass k base end s r (cut_here m before r rest s p) o.2 (omega arith) h) (
          rw (out, shift) at
            (outer_loop k m base end (r.base + r.size) (before ++ r ∷ []) rest
              (record s { idx = s.idx + 1 }) (omega arith) e o.3 (omega (arith, room, number))
              (rw (append_assoc before (r ∷ []) rest) sum) (IsCutAt-step m before r rest s p) q)))
      (λ h c. outer_cross k m base end before r rest s (omega arith) room sum p q e h c o.2 o.3)
      λ h c.
        outer_over (suc k) m base end before r rest s (omega arith) room sum p q h
          (omega arith, o.1, o.2, o.3)
