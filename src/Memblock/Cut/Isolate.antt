-- ===== src/Memblock/Cut/Isolate.antt =====
-- memblock_isolate_range (mm/memblock.c): the steps of its loop.
use sandix.Common.{
  ℕ, suc, ◌+◌, ◌-◌, ◌≤◌, ◌<◌, ◌≡◌, ap, ◌∙◌, List, ◌∷◌, ◌++◌, none, some, arith, length, ◌==◌,
  if◌then◌else◌, get_elem?, get_elem?-append, set, set-append, le→leb,
}
use sandix.Word.{ullong_max, sub64-eq}
use sandix.Memblock.Types.{Region, MemblockType, Run, ok}
use sandix.Memblock.Cover.{sum_sizes, sum_sizes-append, region_end-eq}
use sandix.Memblock.Parts.{lower, upper}
use sandix.Memblock.Round.Insert.{memblock_insert_region_lem}
use sandix.Memblock.Cut.{CutState, split_region, isolate_step, isolate_loop}

-- The loop stands between `before` and `rest`.
pub record IsCutAt (m : ℕ) (before rest : List Region) (s : CutState) : Type 0 where
  pub split : s.type.regions ≡ before ++ rest
  pub place : s.idx ≡ length before
  pub total : s.type.total_size ≡ sum_sizes (before ++ rest)
  pub limit : s.type.max ≡ m

-- The out parameters mark `count` entries from `at` on, and are both 0 if there is none.
pub record Marks (at count : ℕ) (s : CutState) : Type 0 where
  pub span : s.end_rgn ≡ s.start_rgn + count
  pub from : 0 < count → s.start_rgn ≡ at
  pub none_yet : count ≡ 0 → s.end_rgn ≡ 0

module _ (m : ℕ) (before : List Region) (r : Region) (rest : List Region) (s : CutState)
    (p : IsCutAt m before (r ∷ rest) s) where
  pub cut_here : get_elem? s.type.regions s.idx ≡ some r
  cut_here = rw (p.split, p.place) (get_elem?-append before r rest)

  pub split_region_lem :
      (at : ℕ)
      → r.base < at
      → at < r.base + r.size
      → r.base + r.size ≤ ullong_max
      → length before + length (r ∷ rest) < m
      → sum_sizes (before ++ r ∷ rest) ≤ ullong_max
      → split_region s.type s.idx r at
        ≡ ok (record s.type { regions = before ++ lower r at ∷ upper r at ∷ rest })
  unfolding split_region
  split_region_lem at h k top room sum =
      let sums = sum_sizes-append before (r ∷ rest) in
      let cut = sub64-eq at r.base (omega arith) (omega arith) in
      let size = sub64-eq r.size (at - r.base) (omega arith) (omega arith) in
      let total =
        sub64-eq s.type.total_size (at - r.base) (omega (arith, p.total, sums))
          (omega (arith, p.total, sum)) in
      let back : s.type.total_size - (at - r.base) + (at - r.base) ≡ s.type.total_size =
        omega (arith, p.total, sums) in
      let written =
        ap (λ rs. set rs s.idx (upper r at)) p.split
        ∙ ap (λ i. set (before ++ r ∷ rest) i (upper r at)) p.place
        ∙ set-append before r (upper r at) rest in
      rw (
        cut,
        size,
        total,
        memblock_insert_region_lem
            (record s.type {
              total_size = s.type.total_size - (at - r.base);
              regions = set s.type.regions s.idx (upper r at);
            })
            s.idx r.base (at - r.base) r.nid r.flags before (upper r at ∷ rest) written p.place
            (omega (arith, room, p.limit)) (omega (arith, back, p.total, sum)),
        back,
      )

-- What the loop leaves: the entries `out`, of which `count` from `at` on are marked.
pub record Isolates (m : ℕ) (out : List Region) (at count : ℕ) (run : Run CutState) : Type 0 where
  pub final : CutState
  pub runs : run ≡ ok final
  pub regions : final.type.regions ≡ out
  pub total : final.type.total_size ≡ sum_sizes out
  pub limit : final.type.max ≡ m
  pub marks : Marks at count final

-- One round of the loop, by what it finds at idx.
module _ (k base end : ℕ) (s : CutState) where
  pub isolate_loop-none :
      get_elem? s.type.regions s.idx ≡ none → isolate_loop (suc k) base end s ≡ ok s
  unfolding isolate_loop
  isolate_loop-none e = ground arith

  module _ (r : Region) (e : get_elem? s.type.regions s.idx ≡ some r)
      (top : r.base + r.size ≤ ullong_max) where
    pub isolate_loop-end : end ≤ r.base → isolate_loop (suc k) base end s ≡ ok s
    unfolding isolate_loop
    isolate_loop-end h = ground (arith, le→leb end r.base h)

    pub isolate_loop-pass :
        r.base < end
        → r.base + r.size ≤ base
        → isolate_loop (suc k) base end s ≡ isolate_loop k base end (record s { idx = s.idx + 1 })
    unfolding isolate_loop
    isolate_loop-pass h p = ground (arith, region_end-eq r top)

    -- The entry meets the range: it is split from below, from above, or marked.
    pub isolate_loop-lower :
        {t : MemblockType}
        → base < end
        → r.base < base
        → base < r.base + r.size
        → split_region s.type s.idx r base ≡ ok t
        → isolate_loop (suc k) base end s
          ≡ isolate_loop k base end (record s { type = t; idx = s.idx + 1 })
    unfolding isolate_loop isolate_step
    isolate_loop-lower h p q c = ground (arith, region_end-eq r top)

    pub isolate_loop-upper :
        {t : MemblockType}
        → base ≤ r.base
        → r.base < end
        → base < r.base + r.size
        → end < r.base + r.size
        → split_region s.type s.idx r end ≡ ok t
        → isolate_loop (suc k) base end s ≡ isolate_loop k base end (record s { type = t })
    unfolding isolate_loop isolate_step
    isolate_loop-upper h p q w c = ground (arith, region_end-eq r top)

    pub isolate_loop-mark :
        base ≤ r.base
        → r.base < end
        → base < r.base + r.size
        → r.base + r.size ≤ end
        → isolate_loop (suc k) base end s
          ≡ isolate_loop k base end (record s {
            idx = s.idx + 1;
            start_rgn = if s.end_rgn == 0 then s.idx else s.start_rgn;
            end_rgn = s.idx + 1;
          })
    unfolding isolate_loop isolate_step
    isolate_loop-mark h p q w = ground (arith, region_end-eq r top)
