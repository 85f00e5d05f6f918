-- ===== src/Memblock/Add/Outcome.antt =====
-- memblock_add_range (mm/memblock.c): how a call ends, on every array in use.
use native.Mathlib.Decide.{dec_lt, dec_le}
use sandix.Common.{
  ℕ, ◌≤◌, ◌<◌, ◌≡◌, refl, ap, subst, ◌∙◌, inl, inr, [], ◌∷◌, none, some, arith, length,
  if◌then◌else◌, get_elem?, pos→ne,
}
use sandix.Word.{ullong_max}
use sandix.Memblock.Types.{MemblockType, Status, success, enomem, ok}
use sandix.Memblock.Ops.{NewRange, memblock_cap_size, memblock_add_range}
use sandix.Memblock.Cover.{within, attr_at, or_else, IsVacant, IsFilled, IsValid}
use sandix.Memblock.Splice.{splice}
use sandix.Memblock.Add.{
  new_range, Added, add_rounds-full, add_rounds-room, memblock_add_range-rounds,
}

-- A call ends in one of three ways: it adds the range, it has nothing to add, or the array has no
-- room for the pieces.
pub data AddOutcome (t : MemblockType) (n : NewRange) (base : ℕ)
    : Status × MemblockType → Type 0 where
  grown : {t' : MemblockType} → Added t n base t' → AddOutcome t n base (success, t')
  empty : n.end ≡ base → AddOutcome t n base (success, t)
  full : IsFilled t → t.max < length (splice n base t.regions) → AddOutcome t n base (enomem, t)

module _ (t : MemblockType) (base size nid flags : ℕ) where
  abbrev n : NewRange
  n = new_range base size nid flags

  add_vacant :
      base ≤ ullong_max
      → 0 < memblock_cap_size base size
      → 0 < t.max
      → IsVacant t
      → (t' : MemblockType) × (memblock_add_range t base size nid flags ≡ ok (success, t'))
        × Added t n base t'
  unfolding memblock_add_range
  add_vacant b c room (r, split, at, bare, total) =
      let found : get_elem? t.regions 0 ≡ some r = ap (λ rs. get_elem? rs 0) split in
      rw (found, pos→ne _ c, bare, split)
        (
          record t {
            total_size = memblock_cap_size base size;
            regions =
                record { base = base; size = memblock_cap_size base size; flags = flags; nid = nid }
                ∷ [];
          },
          refl,
          record {
            filled = record {
              occupied = omega arith;
              ordered = (omega arith, c, omega arith, tt);
              total = omega arith;
            };
            minimal = tt;
            bounded = room;
            limit = refl;
            same = λ a. ground arith;
            attrs = λ a. ground arith;
          },
        )

  add_nothing :
      memblock_cap_size base size ≡ 0 → memblock_add_range t base size nid flags ≡ ok (success, t)
  unfolding memblock_add_range
  add_nothing e = rw e

  -- On an array in use and for a base in the address space a call of memblock_add_range returns,
  -- with no BUG_ON on the way, and ends as AddOutcome says: it returns 0 and the array covers the
  -- new range and what it covered, is in order, has its total and no neighbours to merge; or it
  -- returns 0 and nothing was to be added; or it returns -ENOMEM, the pieces do not fit, and the
  -- array is as it was.
  pub memblock_add_range-AddOutcome :
      IsValid t
      → base ≤ ullong_max
      → (o : Status × MemblockType) × (memblock_add_range t base size nid flags ≡ ok o)
        × AddOutcome t n base o
  memblock_add_range-AddOutcome v b = elim (dec_lt 0 (memblock_cap_size base size)) [
    | no e ↦
        let nothing : memblock_cap_size base size ≡ 0 = omega arith in
        ((success, t), add_nothing nothing, empty (omega arith))
    | yes c ↦ elim v.shape [
      | inl vacant ↦
          let (t', runs, added) = add_vacant b c v.roomy vacant in
          ((success, t'), runs, grown added)
      | inr filled ↦
          rw (memblock_add_range-rounds t base size nid flags b c filled)
            (elim (dec_le (length (splice n base t.regions)) t.max) [
              | yes room ↦
                  let (t', runs, added) = add_rounds-room t n base filled (omega arith) room in
                  ((success, t'), runs, grown added)
              | no e ↦
                  let more : t.max < length (splice n base t.regions) = omega arith in
                  ((enomem, t), add_rounds-full t n base filled more, full filled more)
            ])
    ]
  ]

Added-IsValid :
    {t : MemblockType} {n : NewRange} {base : ℕ} {t' : MemblockType}
    → IsValid t
    → Added t n base t'
    → IsValid t'
Added-IsValid v a = record {
  shape = inr a.filled;
  roomy = omega (arith, v.roomy, a.limit);
  bounded = a.bounded;
}

pub AddOutcome-IsValid :
    {t : MemblockType} {n : NewRange} {base : ℕ} {o : Status × MemblockType}
    → IsValid t
    → AddOutcome t n base o
    → IsValid o.1
AddOutcome-IsValid v (grown a) = Added-IsValid v a
AddOutcome-IsValid v (empty e) = v
AddOutcome-IsValid v (full f m) = v

pub AddOutcome-attrs :
    {t : MemblockType} {n : NewRange} {base : ℕ} {o : Status × MemblockType}
    → AddOutcome t n base o
    → o.0 ≡ success
    → (a : ℕ)
    → attr_at o.1.regions a
      ≡ or_else (attr_at t.regions a) (if within base n.end a then some (n.nid, n.flags) else none)
AddOutcome-attrs (grown g) e a = g.attrs a
AddOutcome-attrs (empty h) e a = ground arith
AddOutcome-attrs (full f m) e a = cc

-- Whatever memblock_add_range returns, the array stays in order and in its storage.
pub memblock_add_range-IsValid :
    (t : MemblockType) (base size nid flags : ℕ) (o : Status × MemblockType)
    → IsValid t
    → base ≤ ullong_max
    → memblock_add_range t base size nid flags ≡ ok o
    → IsValid o.1
memblock_add_range-IsValid t base size nid flags o v b e =
    let (o', runs, outcome) = memblock_add_range-AddOutcome t base size nid flags v b in
    let same : o' ≡ o = cc in subst (λ p. IsValid p.1) same (AddOutcome-IsValid v outcome)

-- On an array that holds regions, memblock_add_range with a base in the address space and a range
-- that is not empty returns -ENOMEM and changes nothing if the pieces outside the existing regions
-- do not fit the array.
pub memblock_add_range-enomem :
    (t : MemblockType) (base size nid flags : ℕ)
    → IsFilled t
    → base ≤ ullong_max
    → 0 < memblock_cap_size base size
    → t.max < length (splice (new_range base size nid flags) base t.regions)
    → memblock_add_range t base size nid flags ≡ ok (enomem, t)
memblock_add_range-enomem t base size nid flags v b c more =
    memblock_add_range-rounds t base size nid flags b c v
    ∙ add_rounds-full t (new_range base size nid flags) base v more
