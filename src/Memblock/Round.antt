-- ===== src/Memblock/Round.antt =====
-- The rounds of memblock_add_range (mm/memblock.c): where they stand, and their steps.
pub mod Insert
pub mod Count
use mathlib.Core.List.{append_assoc, append-nil}
use sandix.Common.{
  ℕ, zero, suc, ◌+◌, ◌-◌, ◌≤◌, ◌<◌, ◌≡◌, refl, sym, ap, ◌∙◌, Bool, true, false, inl, inr, List, [],
  none, some, ◌∷◌, ◌++◌, arith, length, length-append, min, ltb, leb, get_elem?, get_elem?-append,
  get_elem?-length, insert_at-append, Bool-cases, ltb→lt, ltb→le,
}
use sandix.Word.{ullong_max, add64, add64-eq, sub64, sub64-eq}
use sandix.Memblock.Types.{Region, MemblockType, nr_regions, Run, ok, ◌>>=◌}
use sandix.Memblock.Ops.{memblock_insert_region, NewRange, AddState, add_gap, add_loop, region_end}
use sandix.Memblock.Cover.{sum_sizes, sum_sizes-append, IsOrdered, region_end-eq}
use sandix.Memblock.Splice.{gap, splice, splice-end, splice-pass, splice-fill, splice_grows}

-- The loop stands between `before` and `rest`.
pub record IsAt (m : ℕ) (before rest : List Region) (s : AddState) : Type 0 where
  pub split : s.type.regions ≡ before ++ rest
  pub place : s.idx ≡ length before
  pub total : s.type.total_size ≡ sum_sizes (before ++ rest)
  pub limit : s.type.max ≡ m

-- One step of the loop, by what it finds at idx.
module _ (k : ℕ) (insert : Bool) (n : NewRange) (s : AddState) where
  pub add_loop-none : get_elem? s.type.regions s.idx ≡ none → add_loop (suc k) insert n s ≡ ok s
  unfolding add_loop
  add_loop-none e = ground arith

  module _ (r : Region) (e : get_elem? s.type.regions s.idx ≡ some r)
      (top : r.base + r.size ≤ ullong_max) where
    pub add_loop-end : leb n.end r.base ≡ true → add_loop (suc k) insert n s ≡ ok s
    unfolding add_loop
    add_loop-end h = ground arith

    pub add_loop-pass :
        leb n.end r.base ≡ false
        → leb (r.base + r.size) s.base ≡ true
        → add_loop (suc k) insert n s ≡ add_loop k insert n (record s { idx = s.idx + 1 })
    unfolding add_loop
    add_loop-pass h p = ground (arith, region_end-eq r top)

    pub add_loop-fill :
        leb n.end r.base ≡ false
        → leb (r.base + r.size) s.base ≡ false
        → add_loop (suc k) insert n s ≡ (
            add_gap insert n r.base s >>= λ s'.
            add_loop k insert n
              (record s' { idx = s'.idx + 1; base = min (r.base + r.size) n.end }))
    unfolding add_loop
    add_loop-fill h p = ground (arith, region_end-eq r top)

pub IsAt-step :
    (m : ℕ) (before : List Region) (r : Region) (rest : List Region) (s : AddState) (b : ℕ)
    → IsAt m before (r ∷ rest) s
    → IsAt m (before ++ r ∷ []) rest (record s { idx = s.idx + 1; base = b })
IsAt-step m before r rest s b p =
    let seam = append_assoc before (r ∷ []) rest in
    record {
      split = p.split ∙ sym seam;
      place = omega (arith, p.place, length-append before (r ∷ []));
      total = rw seam p.total;
      limit = p.limit;
    }
