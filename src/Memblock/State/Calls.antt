-- ===== src/Memblock/State/Calls.antt =====
-- mm/memblock.c: calls on the variable `memblock`.
use sandix.Common.{ℕ, ◌+◌, ◌≤◌, ◌≡◌, refl, sym, ap, ◌∙◌, true, inl, none, arith}
use sandix.Word.{ullong_max}
use sandix.Memblock.Types.{MemblockType, Status, success, ok}
use sandix.Memblock.Ops.{memblock_cap_size, memblock_add_range}
use sandix.Memblock.Cover.{within, attr_at, IsValid}
use sandix.Memblock.Add.{new_range}
use sandix.Memblock.Add.Outcome.{
  AddOutcome, memblock_add_range-AddOutcome, AddOutcome-IsValid, AddOutcome-attrs,
}
use sandix.Memblock.Cut.{max_nr_nodes, memblock_remove_range}
use sandix.Memblock.Cut.Outcome.{
  RemoveOutcome, memblock_remove_range-RemoveOutcome, RemoveOutcome-IsValid, RemoveOutcome-attrs,
}
use sandix.Memblock.State.{
  Memblock, init_type, memblock, memblock_set_current_limit, Called, memblock_add_node,
  memblock_add, memblock_reserve, memblock_remove, memblock_free,
}

-- The calls that add and remove ranges or set the limit, with an address for a base. The others that
-- change the state, memblock_trim_memory and memblock_set_node, are not among them: trimming loses
-- the total.
pub data Call : Type 0 where
  set_limit : ℕ → Call
  add_node : ℕ → ℕ → ℕ → Call
  add reserve remove free : ℕ → ℕ → Call

abbrev pub base_of : Call → ℕ
base_of (set_limit limit) = 0
base_of (add_node base size nid) = base
base_of (add base size) = base
base_of (reserve base size) = base
base_of (remove base size) = base
base_of (free base size) = base

unfoldable pub call : Call → Memblock → Called
unfolding memblock_set_current_limit memblock_add_node memblock_add memblock_reserve memblock_remove
    memblock_free
call (set_limit limit) m = ok (success, memblock_set_current_limit limit m)
call (add_node base size nid) m = memblock_add_node base size nid m
call (add base size) m = memblock_add base size m
call (reserve base size) m = memblock_reserve base size m
call (remove base size) m = memblock_remove base size m
call (free base size) m = memblock_free base size m

ok-injective : {A : Type 0} {a b : A} → ok a ≡ ok b → a ≡ b
ok-injective e = cc

pub record IsSound (m : Memblock) : Type 0 where
  pub memory : IsValid m.memory
  pub reserved : IsValid m.reserved

added_sound :
    (t : MemblockType) (base size nid : ℕ)
    → IsValid t
    → base ≤ ullong_max
    → (o : Status × MemblockType) × (memblock_add_range t base size nid 0 ≡ ok o) × IsValid o.1
added_sound t base size nid v b =
    let (o, runs, ends) = memblock_add_range-AddOutcome t base size nid 0 v b in
    (o, runs, AddOutcome-IsValid v ends)

removed_sound :
    (t : MemblockType) (base size : ℕ)
    → IsValid t
    → base ≤ ullong_max
    → (o : Status × MemblockType) × (memblock_remove_range t base size ≡ ok o) × IsValid o.1
removed_sound t base size v b =
    let (o, runs, ends) = memblock_remove_range-RemoveOutcome t base size b v in
    (o, runs, RemoveOutcome-IsValid v ends)

-- On sound state each call of memblock_set_current_limit, memblock_add_node, memblock_add,
-- memblock_reserve, memblock_remove and memblock_free with a base in the address space returns,
-- with no BUG_ON on the way, and both arrays are sound afterwards, whether it succeeds or not: in
-- order, with their totals, and in their storage.
pub call-IsSound :
    (c : Call) (m : Memblock)
    → IsSound m
    → base_of c ≤ ullong_max
    → (r : Status) × (w : Memblock) × (call c m ≡ ok (r, w)) × IsSound w
unfolding call
call-IsSound (set_limit limit) m v b =
    let after : Memblock = record m { current_limit = limit } in
    (success, after, refl, record { memory = v.memory; reserved = v.reserved })
call-IsSound (add base size) m v b =
    let (o, runs, valid) = added_sound m.memory base size max_nr_nodes v.memory b in
    (o.0, record m { memory = o.1 }, rw runs, record { memory = valid; reserved = v.reserved })
call-IsSound (add_node base size nid) m v b =
    let (o, runs, valid) = added_sound m.memory base size nid v.memory b in
    (o.0, record m { memory = o.1 }, rw runs, record { memory = valid; reserved = v.reserved })
call-IsSound (reserve base size) m v b =
    let (o, runs, valid) = added_sound m.reserved base size max_nr_nodes v.reserved b in
    (o.0, record m { reserved = o.1 }, rw runs, record { memory = v.memory; reserved = valid })
call-IsSound (remove base size) m v b =
    let (o, runs, valid) = removed_sound m.memory base size v.memory b in
    (o.0, record m { memory = o.1 }, rw runs, record { memory = valid; reserved = v.reserved })
call-IsSound (free base size) m v b =
    let (o, runs, valid) = removed_sound m.reserved base size v.reserved b in
    (o.0, record m { reserved = o.1 }, rw runs, record { memory = v.memory; reserved = valid })

pub memblock-IsSound : IsSound memblock
memblock-IsSound = record { memory = zeros; reserved = zeros }
  where
    zeros : IsValid init_type
    zeros = record {
      shape = inl (_, refl, refl, refl, refl);
      roomy = omega arith;
      bounded = omega arith;
    }

pub reserve_sound :
    (m : Memblock) (base size : ℕ)
    → IsSound m
    → base ≤ ullong_max
    → (o : Status × MemblockType) × (memblock_reserve base size m
        ≡ ok (o.0, record m { reserved = o.1 }))
      × AddOutcome m.reserved (new_range base size max_nr_nodes 0) base o
      × IsValid o.1
unfolding memblock_reserve
reserve_sound m base size v b =
    let (o, runs, ends) =
      memblock_add_range-AddOutcome m.reserved base size max_nr_nodes 0 v.reserved b in
    (o, rw runs, ends, AddOutcome-IsValid v.reserved ends)

-- What a reservation and a release that returned did.
module _ (m u : Memblock) (base size : ℕ) (r : Status) (b : base ≤ ullong_max)
    (v : IsValid m.reserved) where
  reserved_by :
      memblock_reserve base size m ≡ ok (r, u)
      → (o : Status × MemblockType) × AddOutcome m.reserved
          (new_range base size max_nr_nodes 0)
          base
          o
        × (o.0 ≡ r)
        × (u ≡ record m { reserved = o.1 })
  unfolding memblock_reserve
  reserved_by e =
      let (o, runs, ends) = memblock_add_range-AddOutcome m.reserved base size max_nr_nodes 0 v b in
      let same = ok-injective (rw runs at e) in
      (o, ends, ap (λ p. p.0) same, sym (ap (λ p. p.1) same))

  freed_by :
      memblock_free base size m ≡ ok (r, u)
      → (o : Status × MemblockType) × RemoveOutcome m.reserved base
          (base + memblock_cap_size base size)
          o
        × (o.0 ≡ r)
        × (u ≡ record m { reserved = o.1 })
  unfolding memblock_free
  freed_by e =
      let (o, runs, ends) = memblock_remove_range-RemoveOutcome m.reserved base size b v in
      let same = ok-injective (rw runs at e) in
      (o, ends, ap (λ p. p.0) same, sym (ap (λ p. p.1) same))

-- On sound state, and for a base in the address space, a reservation of a range that was free, then
-- its release, where both succeed, give back the reserved addresses as they were, each with its
-- node and flags, and leave the memory array alone.
pub free-reserve :
    (m u w : Memblock) (base size : ℕ)
    → IsSound m
    → base ≤ ullong_max
    → ((a : ℕ)
        → within base (base + memblock_cap_size base size) a ≡ true
        → attr_at m.reserved.regions a ≡ none)
    → memblock_reserve base size m ≡ ok (success, u)
    → memblock_free base size u ≡ ok (success, w)
    → ((a : ℕ) → attr_at w.reserved.regions a ≡ attr_at m.reserved.regions a)
      × (w.memory ≡ m.memory)
free-reserve m u w base size v b clear first second =
    let (o, ends, done, after) = reserved_by m u base size success b v.reserved first in
    let valid = rw (← ap (λ x. x.reserved) after) at (AddOutcome-IsValid v.reserved ends) in
    let (o', ends', done', after') = freed_by u w base size success b valid second in
    (
      λ a.
          ap (λ x. attr_at x.reserved.regions a) after'
          ∙ RemoveOutcome-attrs ends' done' a
          ∙ ground (
            arith,
            clear a,
            ap (λ x. attr_at x.reserved.regions a) after ∙ AddOutcome-attrs ends done a,
          ),
      ap (λ x. x.memory) after' ∙ ap (λ x. x.memory) after,
    )
