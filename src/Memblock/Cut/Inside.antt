-- ===== src/Memblock/Cut/Inside.antt =====
-- memblock_isolate_range (mm/memblock.c): the part of its loop from the start of the range on.
use mathlib.Core.List.{append_assoc}
use sandix.Common.{
  ℕ, zero, suc, ◌+◌, ◌≤◌, ◌<◌, ◌≡◌, refl, sym, ◌∙◌, List, [], ◌∷◌, ◌++◌, arith, length,
  length-append, ◌==◌, if◌then◌else◌, get_elem?-length,
}
use sandix.Word.{ullong_max}
use sandix.Memblock.Types.{Region, ok}
use sandix.Memblock.Cover.{sum_sizes, sum_sizes-append, IsOrdered}
use sandix.Memblock.Parts.{lower, upper, below, above, parts_cases}
use sandix.Memblock.Cut.{CutState, isolate_loop}
use sandix.Memblock.Cut.Isolate.{
  IsCutAt, Marks, cut_here, split_region_lem, Isolates, isolate_loop-none, isolate_loop-end,
  isolate_loop-upper, isolate_loop-mark,
}

Marks-same : (at count c : ℕ) (s : CutState) → count ≡ c → Marks at count s → Marks at c s
Marks-same at count c s e q = record {
  span = omega (arith, q.span);
  from = λ h. q.from (omega arith);
  none_yet = λ h. q.none_yet (omega arith);
}

pub stop_Isolates :
    (m at count c : ℕ) (before rest : List Region) (s : CutState)
    → count ≡ c
    → IsCutAt m before rest s
    → Marks at count s
    → Isolates m (before ++ rest) at c (ok s)
stop_Isolates m at count c before rest s e p q = record {
  final = s;
  runs = refl;
  regions = p.split;
  total = p.total;
  limit = p.limit;
  marks = Marks-same at count c s e q;
}

-- The state after a round that marks the entry at idx.
abbrev marked : CutState → CutState
marked s = record s {
  idx = s.idx + 1;
  start_rgn = if s.end_rgn == 0 then s.idx else s.start_rgn;
  end_rgn = s.idx + 1;
}

module _ (m at count : ℕ) (before : List Region) (r : Region) (rest : List Region) (s : CutState)
    (p : IsCutAt m before (r ∷ rest) s) where
  marked-IsCutAt : IsCutAt m (before ++ r ∷ []) rest (marked s)
  marked-IsCutAt =
      let seam = append_assoc before (r ∷ []) rest in
      record {
        split = p.split ∙ sym seam;
        place = omega (arith, p.place, length-append before (r ∷ []));
        total = rw seam p.total;
        limit = p.limit;
      }

  marked-Marks : length before ≡ at + count → Marks at count s → Marks at (count + 1) (marked s)
  marked-Marks l q = record {
    span = ground (arith, p.place, q.span, q.none_yet, q.from);
    from = λ h. ground (arith, p.place, q.span, q.none_yet, q.from);
    none_yet = λ h. absurd (omega arith);
  }

  -- The state after a split at `to`.
  abbrev pub halved : ℕ → CutState
  halved to = record s {
    type = record s.type { regions = before ++ lower r to ∷ upper r to ∷ rest };
  }

  pub halved-IsCutAt :
      (to : ℕ)
      → r.base < to
      → to < r.base + r.size
      → IsCutAt m before (lower r to ∷ upper r to ∷ rest) (halved to)
  halved-IsCutAt to h k = record {
    split = refl;
    place = p.place;
    total = omega (
      arith,
      p.total,
      sum_sizes-append before (r ∷ rest),
      sum_sizes-append before (lower r to ∷ upper r to ∷ rest),
    );
    limit = p.limit;
  }

-- An entry that crosses the end of the range is split, its lower part marked, and the loop ends.
inside_cross :
    (k m base end at count : ℕ) (before : List Region) (r : Region) (rest : List Region)
    (s : CutState)
    → base ≤ r.base
    → r.base < end
    → end < r.base + r.size
    → r.base + r.size ≤ ullong_max
    → length before + length (r ∷ rest) < m
    → sum_sizes (before ++ r ∷ rest) ≤ ullong_max
    → length before ≡ at + count
    → IsCutAt m before (r ∷ rest) s
    → Marks at count s
    → Isolates m
        (before ++ lower r end ∷ upper r end ∷ rest)
        at
        (count + 1)
        (isolate_loop (suc (suc (suc k))) base end s)
inside_cross k m base end at count before r rest s b h c top room sum l p q =
    let low : Region = lower r end in
    let up : Region = upper r end in
    let s1 : CutState = halved m at count before r rest s p end in
    let p1 = halved-IsCutAt m at count before r rest s p end h c in
    let p2 = marked-IsCutAt m at count before low (up ∷ rest) s1 p1 in
    let q1 : Marks at count s1 = record { span = q.span; from = q.from; none_yet = q.none_yet } in
    let q2 = marked-Marks m at count before low (up ∷ rest) s1 p1 l q1 in
    let first =
      isolate_loop-upper (suc (suc k)) base end s r (cut_here m before r rest s p) top b h
        (omega arith) c (split_region_lem m before r rest s p end h c top room sum) in
    let second =
      isolate_loop-mark (suc k) base end s1 low (cut_here m before low (up ∷ rest) s1 p1)
        (omega arith) b h (omega arith) (omega arith) in
    let third =
      isolate_loop-end k base end (marked s1) up
        (cut_here m (before ++ low ∷ []) up rest (marked s1) p2) (omega arith) (omega arith) in
    rw (first ∙ second ∙ third) (
      rw append_assoc at (
        stop_Isolates m at (count + 1) (count + 1) (before ++ low ∷ []) (up ∷ rest) (marked s1) refl
          p2 q2))

pub inside_loop :
    (k m base end lo at count : ℕ) (before rest : List Region) (s : CutState)
    → length rest + 2 ≤ k
    → base ≤ lo
    → IsOrdered lo rest
    → length before + length rest < m
    → sum_sizes (before ++ rest) ≤ ullong_max
    → length before ≡ at + count
    → IsCutAt m before rest s
    → Marks at count s
    → Isolates m
        (before ++ (below end rest ++ above end rest))
        at
        (count + length (below end rest))
        (isolate_loop k base end s)
inside_loop (suc (suc (suc k))) m base end lo at count before (r ∷ rest) s f b o room sum l p q =
    let here = cut_here m before r rest s p in
    let fuel : ℕ = suc (suc (suc k)) in
    parts_cases end r rest
      (λ bs us.
        Isolates m (before ++ (bs ++ us)) at (count + length bs) (isolate_loop fuel base end s))
      (λ h.
        let seam = append_assoc before (r ∷ []) (below end rest ++ above end rest) in
        let number : count + suc (length (below end rest)) ≡ count + 1 + length (below end rest) =
          omega arith in
        rw
          (
            isolate_loop-mark (suc (suc k)) base end s r here o.2 (omega arith) (omega arith)
                (omega arith) h,
            ← seam,
            number,
          )
          (inside_loop (suc (suc k)) m base end (r.base + r.size) at (count + 1) (before ++ r ∷ [])
            rest (marked s) (omega arith) (omega arith) o.3
            (omega (arith, room, length-append before (r ∷ [])))
            (rw (append_assoc before (r ∷ []) rest) sum)
            (omega (arith, l, length-append before (r ∷ [])))
            (marked-IsCutAt m at count before r rest s p)
            (marked-Marks m at count before r rest s p l q)))
      (λ h c.
        inside_cross k m base end at count before r rest s (omega arith) h c o.2 room sum l p q)
      λ h c.
        rw (isolate_loop-end (suc (suc k)) base end s r here o.2 h)
          (stop_Isolates m at count (count + 0) before (r ∷ rest) s (omega arith) p q)
inside_loop zero m base end lo at count before rest s f b o room sum l p q = absurd (omega arith)
inside_loop (suc k) m base end lo at count before [] s f b o room sum l p q =
    unfold below above in
    rw (isolate_loop-none k base end s (rw (p.split, p.place) (get_elem?-length before)))
      (stop_Isolates m at count (count + 0) before [] s (omega arith) p q)
inside_loop k m base end lo at count before (r ∷ rest) s f b o room sum l p q = absurd (omega arith)
