-- ===== src/Memblock/Cut/Ways.antt =====
-- memblock_isolate_range (mm/memblock.c): its ways, and the array without the range.
use native.Mathlib.Nat.{zero-add}
use sandix.Common.{
  ℕ, suc, ◌+◌, ◌*◌, ◌≤◌, ◌<◌, ◌≡◌, refl, ap, ◌∙◌, none, some, List, [], ◌++◌, arith, length,
  length-append, if◌then◌else◌, lt→ltb, le→ltb, pos→ne, get_elem?,
}
use sandix.Word.{ullong_max, add64-eq}
use sandix.Memblock.Types.{Region, MemblockType, nr_regions, success, enomem, ok}
use sandix.Memblock.Ops.{memblock_cap_size}
use sandix.Memblock.Cover.{
  within, attr_at, attr_at-append, sum_sizes, sum_sizes-append, IsOrdered, IsOrdered-sum, IsVacant,
  IsFilled,
}
use sandix.Memblock.Parts.{
  below, above, attr_at-below_part, below-IsOrdered, above-IsOrdered, above-IsOrdered_lo,
  parts_size,
}
use sandix.Memblock.Cut.{CutState, isolate_loop, memblock_isolate_range}
use sandix.Memblock.Cut.Isolate.{Isolates, isolate_loop-none, isolate_loop-pass}
use sandix.Memblock.Cut.Outer.{isolated, outer_loop}

abbrev pub start_state : MemblockType → CutState
start_state t = record { type = t; idx = 0; start_rgn = 0; end_rgn = 0 }

-- The three ways of memblock_isolate_range.
module _ (t : MemblockType) (base size : ℕ) where
  abbrev end : ℕ
  end = base + memblock_cap_size base size

  pub isolate-empty :
      memblock_cap_size base size ≡ 0
      → memblock_isolate_range t base size ≡ ok (success, start_state t)
  unfolding memblock_isolate_range
  isolate-empty e = rw e

  pub isolate-full :
      0 < memblock_cap_size base size
      → t.max < nr_regions t + 2
      → memblock_isolate_range t base size ≡ ok (enomem, start_state t)
  unfolding memblock_isolate_range
  isolate-full c h = rw (pos→ne _ c, lt→ltb _ _ h)

  pub isolate-runs :
      base ≤ ullong_max
      → 0 < memblock_cap_size base size
      → nr_regions t + 2 ≤ t.max
      → {s : CutState} → isolate_loop (3 * nr_regions t + 1) base end (start_state t) ≡ ok s
      → memblock_isolate_range t base size ≡ ok (success, s)
  unfolding memblock_isolate_range
  isolate-runs b c h e =
      rw (pos→ne _ c, le→ltb _ _ h, add64-eq base (memblock_cap_size base size) (omega arith), e)

  pub isolate-filled :
      0 < memblock_cap_size base size
      → nr_regions t + 2 ≤ t.max
      → IsFilled t
      → Isolates t.max
          (isolated base end t.regions)
          (length (below base t.regions))
          (length (below end (above base t.regions)))
          (isolate_loop (3 * nr_regions t + 1) base end (start_state t))
  isolate-filled c h v = rw zero-add at (
      outer_loop (3 * nr_regions t + 1) t.max base end 0 [] t.regions (start_state t)
        (omega (arith, v.occupied)) (omega arith) v.ordered (omega arith)
        (omega (arith, IsOrdered-sum 0 t.regions (omega arith) v.ordered))
        (record { split = refl; place = refl; total = v.total; limit = refl }) (refl, refl))

  pub isolate-vacant :
      0 < memblock_cap_size base size
      → IsVacant t
      → isolate_loop (3 * nr_regions t + 1) base end (start_state t)
        ≡ ok (record (start_state t) { idx = 1 })
  isolate-vacant c (r, split, at, bare, total) =
      let fuel : 3 * nr_regions t + 1 ≡ suc (suc 2) = omega (arith, ap length split) in
      let found : get_elem? t.regions 0 ≡ some r = ap (λ rs. get_elem? rs 0) split in
      let behind : get_elem? t.regions 1 ≡ none = ap (λ rs. get_elem? rs 1) split in
      rw fuel (
        isolate_loop-pass (suc 2) base end (start_state t) r found (omega arith) (omega arith)
          (omega arith)
        ∙ isolate_loop-none 2 base end (record (start_state t) { idx = 1 }) behind)

-- The array without [base, end).
abbrev pub outside : ℕ → ℕ → List Region → List Region
outside base end rs = below base rs ++ above end (above base rs)

module _ (base end : ℕ) (h : base ≤ end) (rs : List Region) (o : IsOrdered 0 rs) where
  pub outside-IsOrdered : IsOrdered 0 (outside base end rs)
  outside-IsOrdered =
      below-IsOrdered 0 base rs (above end (above base rs)) (omega arith) o
        (above-IsOrdered_lo base end (above base rs) (above-IsOrdered 0 base rs o))

  pub attr_at-outside :
      (a : ℕ) → attr_at (outside base end rs) a ≡ (if within base end a then none else attr_at rs a)
  attr_at-outside a =
      let near = attr_at-below_part 0 base rs a o in
      let far = attr_at-below_part base end (above base rs) a (above-IsOrdered 0 base rs o) in
      ground
        (arith, attr_at-append (below base rs) (above end (above base rs)) a, near.0, near.1, far.1)

  pub length-outside : length (outside base end rs) ≤ length rs + 2
  length-outside = omega (
    arith,
    length-append (below base rs) (above end (above base rs)),
    (parts_size base rs).0,
    (parts_size end (above base rs)).0,
  )

  -- Before the marked entries go, no byte has.
  pub sum-isolated : sum_sizes (isolated base end rs) ≡ sum_sizes rs
  sum-isolated = omega (
    arith,
    sum_sizes-append (below base rs) (below end (above base rs) ++ above end (above base rs)),
    sum_sizes-append (below end (above base rs)) (above end (above base rs)),
    (parts_size base rs).2,
    (parts_size end (above base rs)).2,
  )

  pub length-isolated : length rs ≤ length (isolated base end rs)
  length-isolated = omega (
    arith,
    length-append (below base rs) (below end (above base rs) ++ above end (above base rs)),
    length-append (below end (above base rs)) (above end (above base rs)),
    (parts_size base rs).1,
    (parts_size end (above base rs)).1,
  )
