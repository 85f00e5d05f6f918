-- ===== src/Memblock/Range/Finds.antt =====
-- __next_mem_range_rev (mm/memblock.c): each area that it returns is free, and it gets ahead.
use sandix.Common.{
  ℕ, zero, suc, ◌+◌, ◌≤◌, ◌<◌, ◌≡◌, refl, inl, inr, true, false, Option, none, some, List, [], ◌∷◌,
  arith, length, get_elem?, Bool-cases,
}
use sandix.Word.{ullong_max}
use sandix.Memblock.Types.{Region, MemblockType, nr_regions, Run, ok}
use sandix.Memblock.Cover.{within, covers, IsValid}
use sandix.Memblock.Range.{
  Area, hit, miss, pack, less_one, word32, scan_areas_rev, scan_regions_rev, skips,
}
use sandix.Memblock.Range.Free.{get_elem?-covers, get_elem?-IsOrdered}
use sandix.Memblock.Range.Rev.{Walks, misses, hits, scan_areas_rev-Walks}

-- What a call comes to from the counts na and nb on: nothing is left, or an area of type_a that
-- type_b does not cover, with an index that is further on.
pub data Finds (a b : MemblockType) (na nb : ℕ) (run : Run (ℕ × Option Area)) : Type 0 where
  nothing : run ≡ ok (ullong_max, none) → Finds a b na nb run
  finds :
      (g : Area) (na' nb' : ℕ)
      → na' ≤ na
      → nb' ≤ nb
      → na' + nb' < na + nb
      → ((x : ℕ)
          → within g.start g.end x ≡ true
          → (covers a.regions x ≡ true) × (covers b.regions x ≡ false))
      → run ≡ ok (pack (less_one na') (less_one nb'), some g)
      → Finds a b na nb run

Finds-mono :
    {a b : MemblockType} {na nb nb' : ℕ} {run : Run (ℕ × Option Area)}
    → nb' ≤ nb
    → Finds a b na nb' run
    → Finds a b (suc na) nb run
Finds-mono h (nothing e) = nothing e
Finds-mono h (finds g p q i j k c e) = finds g p q (omega arith) (omega arith) (omega arith) c e

region_exists :
    (rs : List Region) (i : ℕ) → i < length rs → (r : Region) × (get_elem? rs i ≡ some r)
region_exists [] i h = absurd (omega arith)
region_exists (r ∷ rs) zero h = (r, refl)
region_exists (r ∷ rs) (suc i) h = region_exists rs i (omega arith)

region_top :
    (t : MemblockType) (i : ℕ) (r : Region)
    → IsValid t
    → get_elem? t.regions i ≡ some r
    → r.base + r.size ≤ ullong_max
region_top t i r v e = elim v.shape [
  | inl (q, split, at, bare, total) ↦ vacant_top i q (rw split at e) at bare
  | inr filled ↦ (get_elem?-IsOrdered 0 t.regions i r filled.ordered e).1
]
  where
    vacant_top :
        (j : ℕ) (q : Region)
        → get_elem? (q ∷ []) j ≡ some r
        → q.base ≡ 0
        → q.size ≡ 0
        → r.base + r.size ≤ ullong_max
    vacant_top zero q e at bare = ground arith
    vacant_top (suc j) q e at bare = cc

module _ (a b : MemblockType) (nid flags : ℕ) (va : IsValid a) (vb : IsValid b)
    (la : nr_regions a < word32) (lb : nr_regions b + 1 < word32) where
  module _ (idx_a nb : ℕ) (m : Region) (here : get_elem? a.regions idx_a ≡ some m) where
    regions-skip :
        skips nid flags m ≡ true
        → scan_regions_rev nid flags a (some b) (suc idx_a) nb
          ≡ scan_regions_rev nid flags a (some b) idx_a nb
    unfolding scan_regions_rev
    regions-skip s = ground arith

    regions-hit :
        {g : Area} {i j : ℕ}
        → skips nid flags m ≡ false
        → scan_areas_rev b.regions m idx_a nb ≡ ok (hit g i j)
        → scan_regions_rev nid flags a (some b) (suc idx_a) nb ≡ ok (pack i j, some g)
    unfolding scan_regions_rev
    regions-hit s e = ground arith

    regions-miss :
        {nb' : ℕ}
        → skips nid flags m ≡ false
        → scan_areas_rev b.regions m idx_a nb ≡ ok (miss nb')
        → scan_regions_rev nid flags a (some b) (suc idx_a) nb
          ≡ scan_regions_rev nid flags a (some b) idx_a nb'
    unfolding scan_regions_rev
    regions-miss s e = ground arith

    walked :
        skips nid flags m ≡ false
        → ((nb' : ℕ)
            → nb' ≤ nb
            → Finds a b (suc idx_a) nb (scan_regions_rev nid flags a (some b) idx_a nb'))
        → Walks b m (suc idx_a) nb (scan_areas_rev b.regions m idx_a nb)
        → Finds a b (suc idx_a) nb (scan_regions_rev nid flags a (some b) (suc idx_a) nb)
    walked s rest (misses nb' l e) = rw (regions-miss s e) (rest nb' l)
    walked s rest (hits g i j p q r c e) =
        finds g i j p q r (λ x w. (get_elem?-covers a.regions idx_a m x here (c x w).0, (c x w).1))
          (regions-hit s e)

  -- On two arrays in use whose indices fit an int, the loops of __next_mem_range_rev, from any
  -- regions and areas within the arrays on, end, with no read outside the arrays: they report the
  -- end, or an area all of whose addresses type_a covers and type_b does not, with a next index that
  -- unpacks to no more regions and areas, and fewer of them together.
  pub scan_regions_rev-Finds :
      (na nb : ℕ)
      → na ≤ nr_regions a
      → nb ≤ nr_regions b + 1
      → Finds a b na nb (scan_regions_rev nid flags a (some b) na nb)
  scan_regions_rev-Finds zero nb h k = unfold scan_regions_rev in nothing refl
  scan_regions_rev-Finds (suc idx_a) nb h k =
      let (m, here) = region_exists a.regions idx_a h in
      let rest = λ (nb' : ℕ) (l : nb' ≤ nb).
        Finds-mono l (scan_regions_rev-Finds idx_a nb' (omega arith) (omega arith)) in
      elim (Bool-cases (skips nid flags m)) [
        | inl s ↦ rw (regions-skip idx_a nb m here s) (rest nb (omega arith))
        | inr s ↦ walked idx_a nb m here s rest (
            scan_areas_rev-Walks b m idx_a vb (region_top a idx_a m va here) (omega arith) nb k
              (omega arith))
      ]
