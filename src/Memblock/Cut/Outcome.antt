-- ===== src/Memblock/Cut/Outcome.antt =====
-- memblock_remove_range (mm/memblock.c): how a call ends, on every array in use.
use native.Mathlib.Decide.{dec_lt, dec_le}
use sandix.Common.{
  ℕ, ◌+◌, ◌-◌, ◌≤◌, ◌<◌, ◌≡◌, refl, sym, ap, ◌∙◌, inl, inr, none, List, [], ◌∷◌, arith, length,
  if◌then◌else◌,
}
use sandix.Word.{ullong_max}
use sandix.Memblock.Types.{Region, MemblockType, nr_regions, Status, success, enomem, ok, ◌>>=◌}
use sandix.Memblock.Ops.{memblock_cap_size}
use sandix.Memblock.Cover.{
  within, attr_at, sum_sizes, IsOrdered, IsOrdered-sum, IsVacant, IsFilled, IsValid,
}
use sandix.Memblock.Parts.{below, above}
use sandix.Memblock.Cut.{
  CutState, memblock_isolate_range, or_empty, remove_regions, memblock_remove_range,
}
use sandix.Memblock.Cut.Remove.{remove_regions_lem}
use sandix.Memblock.Cut.Ways.{
  isolate-empty, isolate-full, isolate-runs, isolate-filled, isolate-vacant, outside,
  outside-IsOrdered, attr_at-outside, length-outside, sum-isolated, length-isolated,
}

-- What a call that removes leaves: an array in use that covers what was covered outside
-- [base, end), each address with its node and flags.
pub record Removed (t : MemblockType) (base end : ℕ) (t' : MemblockType) : Type 0 where
  pub valid : IsValid t'
  pub limit : t'.max ≡ t.max
  pub attrs :
      (a : ℕ) → attr_at t'.regions a ≡ (if within base end a then none else attr_at t.regions a)

-- A call removes the range, or the array has no room for the two splits.
pub data RemoveOutcome (t : MemblockType) (base end : ℕ) : Status × MemblockType → Type 0 where
  removed : {t' : MemblockType} → Removed t base end t' → RemoveOutcome t base end (success, t')
  full : base < end → t.max < nr_regions t + 2 → RemoveOutcome t base end (enomem, t)

or_empty-IsValid :
    (rs : List Region) (t : MemblockType)
    → IsOrdered 0 rs
    → 0 < t.max
    → length rs ≤ t.max
    → t.regions ≡ or_empty rs
    → t.total_size ≡ sum_sizes (or_empty rs)
    → IsValid t
or_empty-IsValid [] t o roomy bounded e total = record {
  shape = inl (_, e, refl, refl, total);
  roomy = roomy;
  bounded = omega (arith, ap length e);
}
or_empty-IsValid (r ∷ rs) t o roomy bounded e total = record {
  shape = inr (record {
    occupied = omega (arith, ap length e);
    ordered = rw e o;
    total = total ∙ ap sum_sizes (sym e);
  });
  roomy = roomy;
  bounded = omega (arith, ap length e);
}

attr_at-or_empty : (rs : List Region) (a : ℕ) → attr_at (or_empty rs) a ≡ attr_at rs a
attr_at-or_empty [] a = ground arith
attr_at-or_empty (r ∷ rs) a = refl

module _ (t : MemblockType) (base size : ℕ) (b : base ≤ ullong_max) where
  abbrev end : ℕ
  end = base + memblock_cap_size base size

  remove-isolated :
      {s : CutState}
      → memblock_isolate_range t base size ≡ ok (success, s)
      → memblock_remove_range t base size
        ≡ (remove_regions (s.end_rgn - s.start_rgn) s.start_rgn s.type >>= λ t'. ok (success, t'))
  unfolding memblock_remove_range
  remove-isolated e = rw e

  remove-nothing :
      {s : CutState}
      → memblock_isolate_range t base size ≡ ok (success, s)
      → s.end_rgn ≡ 0
      → memblock_remove_range t base size ≡ ok (success, s.type)
  unfolding remove_regions
  remove-nothing {s} e q =
      let none_marked : s.end_rgn - s.start_rgn ≡ 0 = omega arith in
      remove-isolated e ∙ rw none_marked

  remove-full :
      0 < memblock_cap_size base size
      → t.max < nr_regions t + 2
      → memblock_remove_range t base size ≡ ok (enomem, t)
  unfolding memblock_remove_range
  remove-full c h = rw (isolate-full t base size c h)

  remove_filled :
      0 < memblock_cap_size base size
      → nr_regions t + 2 ≤ t.max
      → IsFilled t
      → (t' : MemblockType) × (memblock_remove_range t base size ≡ ok (success, t'))
        × Removed t base end t'
  remove_filled c room v =
      let i = isolate-filled t base size c room v in
      let near : List Region = below base t.regions in
      let rest : List Region = above base t.regions in
      let sum = IsOrdered-sum 0 t.regions (omega arith) v.ordered in
      let (t', runs, held) =
        remove_regions_lem t.max near (below end rest) (above end rest) i.final.type
          i.final.start_rgn i.marks.from
          (omega (arith, v.occupied, length-isolated base end (omega arith) t.regions v.ordered))
          (omega (arith, sum, sum-isolated base end (omega arith) t.regions v.ordered))
          (record { regions = i.regions; total = i.total; limit = i.limit }) in
      let count : i.final.end_rgn - i.final.start_rgn ≡ length (below end rest) =
        omega (arith, i.marks.span) in
      (
        t',
        remove-isolated (isolate-runs t base size b c room i.runs) ∙ rw (count, runs),
        record {
          valid =
              or_empty-IsValid (outside base end t.regions) t'
                (outside-IsOrdered base end (omega arith) t.regions v.ordered)
                (omega (arith, held.limit))
                (omega
                  (arith, held.limit, length-outside base end (omega arith) t.regions v.ordered))
                held.regions held.total;
          limit = held.limit;
          attrs = λ a.
              ap (λ rs. attr_at rs a) held.regions
              ∙ attr_at-or_empty (outside base end t.regions) a
              ∙ attr_at-outside base end (omega arith) t.regions v.ordered a;
        },
      )

  vacant_attr : IsVacant t → (a : ℕ) → attr_at t.regions a ≡ none
  vacant_attr (r, split, at, bare, total) a = rw split (ground arith)

  -- On an array in use a call of memblock_remove_range returns, with no BUG_ON on the way, and ends
  -- as RemoveOutcome says: it returns 0, and the array is in order, with its total, and covers
  -- exactly what it covered outside the range; or it returns -ENOMEM, the array has less than two
  -- free entries, and is as it was.
  pub memblock_remove_range-RemoveOutcome :
      IsValid t
      → (o : Status × MemblockType) × (memblock_remove_range t base size ≡ ok o)
        × RemoveOutcome t base end o
  memblock_remove_range-RemoveOutcome v = elim (dec_lt 0 (memblock_cap_size base size)) [
    | no e ↦
        let nothing : memblock_cap_size base size ≡ 0 = omega arith in
        (
          (success, t),
          remove-nothing (isolate-empty t base size nothing) refl,
          removed (record { valid = v; limit = refl; attrs = λ a. ground arith }),
        )
    | yes c ↦ elim (dec_le (nr_regions t + 2) t.max) [
      | no e ↦ ((enomem, t), remove-full c (omega arith), full (omega arith) (omega arith))
      | yes room ↦ elim v.shape [
        | inl vacant ↦ (
          (success, t),
          remove-nothing (isolate-runs t base size b c room (isolate-vacant t base size c vacant))
              refl,
          removed (record {
            valid = v;
            limit = refl;
            attrs = λ a. ground (arith, vacant_attr vacant a);
          }),
        )
        | inr filled ↦
            let (t', runs, gone) = remove_filled c room filled in
            ((success, t'), runs, removed gone)
      ]
    ]
  ]

pub RemoveOutcome-IsValid :
    {t : MemblockType} {base end : ℕ} {o : Status × MemblockType}
    → IsValid t
    → RemoveOutcome t base end o
    → IsValid o.1
RemoveOutcome-IsValid v (removed r) = r.valid
RemoveOutcome-IsValid v (full h m) = v

pub RemoveOutcome-attrs :
    {t : MemblockType} {base end : ℕ} {o : Status × MemblockType}
    → RemoveOutcome t base end o
    → o.0 ≡ success
    → (a : ℕ) → attr_at o.1.regions a ≡ (if within base end a then none else attr_at t.regions a)
RemoveOutcome-attrs (removed r) e a = r.attrs a
RemoveOutcome-attrs (full h m) e a = cc
