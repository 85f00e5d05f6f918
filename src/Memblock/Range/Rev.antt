-- ===== src/Memblock/Range/Rev.antt =====
-- __next_mem_range_rev (mm/memblock.c): its inner loop, over the areas that type_b leaves.
use sandix.Common.{
  ℕ, zero, suc, ◌+◌, ◌≤◌, ◌<◌, ◌≡◌, refl, inl, inr, true, false, arith, min, max, ltb, leb,
  Bool-cases,
}
use sandix.Word.{ullong_max}
use sandix.Memblock.Types.{Region, MemblockType, nr_regions, Run, ok}
use sandix.Memblock.Ops.{region_end}
use sandix.Memblock.Cover.{within, holds, covers, IsValid, region_end-eq}
use sandix.Memblock.Range.{
  Area, Scan, hit, miss, less_one, word32, area_start, area_end, scan_areas_rev,
}
use sandix.Memblock.Range.Free.{area_start_exists, area_clear}

-- The area lies in `m`, and `t` covers none of it.
abbrev pub IsClear : MemblockType → Region → Area → Type 0
IsClear t m g =
    (x : ℕ) → within g.start g.end x ≡ true → (holds m x ≡ true) × (covers t.regions x ≡ false)

-- What the walk over the areas comes to, from the counts na and nb on.
pub data Walks (t : MemblockType) (m : Region) (na nb : ℕ) (run : Run Scan) : Type 0 where
  misses : (nb' : ℕ) → nb' ≤ nb → run ≡ ok (miss nb') → Walks t m na nb run
  hits :
      (g : Area) (na' nb' : ℕ)
      → na' ≤ na
      → nb' ≤ nb
      → na' + nb' < na + nb
      → IsClear t m g
      → run ≡ ok (hit g (less_one na') (less_one nb'))
      → Walks t m na nb run

pub less_one-suc : (i : ℕ) → i < word32 → less_one (suc i) ≡ i
less_one-suc i h = omega arith

module _ (t : MemblockType) (m : Region) (idx_a : ℕ) (v : IsValid t)
    (top : m.base + m.size ≤ ullong_max) (small : idx_a < word32) where
  abbrev found : ℕ → ℕ → Area
  found from idx_b = record {
    start = max m.base from;
    end = min (region_end m) (area_end t.regions idx_b);
    nid = m.nid;
  }

  found-IsClear :
      (idx_b from : ℕ) → area_start t.regions idx_b ≡ ok from → IsClear t m (found from idx_b)
  found-IsClear idx_b from s x w =
      let end_eq = region_end-eq m top in
      (ground (arith, end_eq), area_clear t idx_b from x v s (ground arith) (ground arith))

  scan_hit :
      (idx_b from : ℕ)
      → idx_b < word32
      → area_start t.regions idx_b ≡ ok from
      → leb (area_end t.regions idx_b) m.base ≡ false
      → ltb from (region_end m) ≡ true
      → Walks t m (suc idx_a) (suc idx_b) (scan_areas_rev t.regions m idx_a (suc idx_b))
  unfolding scan_areas_rev
  scan_hit idx_b from hb s e f = elim (Bool-cases (leb from m.base)) [
    | inl c ↦
        rw (s, e, f, c)
          (hits (found from idx_b) idx_a (suc idx_b) (omega arith) (omega arith) (omega arith)
            (found-IsClear idx_b from s) (rw (less_one-suc idx_b hb)))
    | inr c ↦
        rw (s, e, f, c)
          (hits (found from idx_b) (suc idx_a) idx_b (omega arith) (omega arith) (omega arith)
            (found-IsClear idx_b from s) (rw (less_one-suc idx_a small)))
  ]

  scan_miss :
      (idx_b from : ℕ)
      → area_start t.regions idx_b ≡ ok from
      → leb (area_end t.regions idx_b) m.base ≡ true
      → scan_areas_rev t.regions m idx_a (suc idx_b) ≡ ok (miss (suc idx_b))
  unfolding scan_areas_rev
  scan_miss idx_b from s e = rw (s, e)

  scan_on :
      (idx_b from : ℕ)
      → area_start t.regions idx_b ≡ ok from
      → leb (area_end t.regions idx_b) m.base ≡ false
      → ltb from (region_end m) ≡ false
      → scan_areas_rev t.regions m idx_a (suc idx_b) ≡ scan_areas_rev t.regions m idx_a idx_b
  unfolding scan_areas_rev
  scan_on idx_b from s e f = rw (s, e, f)

  Walks-suc :
      (nb : ℕ) {run : Run Scan} → Walks t m (suc idx_a) nb run → Walks t m (suc idx_a) (suc nb) run
  Walks-suc nb (misses nb' h e) = misses nb' (omega arith) e
  Walks-suc nb (hits g na' nb' h k l c e) = hits g na' nb' h (omega arith) (omega arith) c e

  pub scan_areas_rev-Walks :
      (nb : ℕ)
      → nb ≤ nr_regions t + 1
      → nb ≤ word32
      → Walks t m (suc idx_a) nb (scan_areas_rev t.regions m idx_a nb)
  scan_areas_rev-Walks zero h k = unfold scan_areas_rev in misses 0 (omega arith) refl
  scan_areas_rev-Walks (suc idx_b) h k =
      let (from, s) = area_start_exists t.regions idx_b (omega arith) in
      elim (Bool-cases (leb (area_end t.regions idx_b) m.base)) [
        | inl e ↦ misses (suc idx_b) (omega arith) (scan_miss idx_b from s e)
        | inr e ↦ elim (Bool-cases (ltb from (region_end m))) [
          | inl f ↦ scan_hit idx_b from k s e f
          | inr f ↦
              rw (scan_on idx_b from s e f)
                (Walks-suc idx_b (scan_areas_rev-Walks idx_b (omega arith) (omega arith)))
        ]
      ]
