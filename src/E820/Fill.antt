-- ===== src/E820/Fill.antt =====
-- memblock_x86_fill (arch/x86/kernel/e820.c): the loop that adds the map's RAM to `memory`.
use sandix.Common.{
  ℕ, ◌+◌, ◌≤◌, ◌≡◌, refl, ◌∙◌, ◌⊎◌, inl, inr, Bool, true, false, ◌&&◌, ◌||◌, List, [], ◌∷◌, arith,
  ◌==◌, Bool-cases,
}
use sandix.Word.{ullong_max}
use sandix.Memblock.Types.{MemblockType, Status, ok}
use sandix.Memblock.Ops.{NewRange, memblock_cap_size}
use sandix.Memblock.Cut.{max_nr_nodes}
use sandix.Memblock.Cover.{covers, within}
use sandix.Memblock.Add.Outcome.{
  AddOutcome, grown, empty, full, memblock_add_range-AddOutcome, AddOutcome-IsValid,
}
use sandix.Memblock.State.{Memblock, memblock_add}
use sandix.Memblock.State.Calls.{IsSound}
use sandix.E820.{E820Entry, e820_ram, fill_loop}
use sandix.E820.Order.{AreU64}
use sandix.E820.Points.{spans}

-- Some RAM entry holds the address.
abbrev pub ram_at : List E820Entry → ℕ → Bool
ram_at [] a = false
ram_at (e ∷ es) a = (e.type == e820_ram && spans e a) || ram_at es a

-- What the loop leaves behind: both arrays are in use, `reserved` is as it was, `memory` holds what
-- it held and nothing but that and the map's RAM.
pub record Filled (es : List E820Entry) (before after : Memblock) : Type 0 where
  pub sound : IsSound after
  pub reserved : after.reserved ≡ before.reserved
  pub kept :
      (a : ℕ) → (covers before.memory.regions a ≡ false) ⊎ (covers after.memory.regions a ≡ true)
  pub ram :
      (a : ℕ)
      → (covers after.memory.regions a ≡ false)
        ⊎ ((covers before.memory.regions a || ram_at es a) ≡ true)

AddOutcome-covers :
    {t : MemblockType} {n : NewRange} {base : ℕ} {o : Status × MemblockType}
    → AddOutcome t n base o
    → (a : ℕ)
    → (covers o.1.regions a ≡ covers t.regions a)
      ⊎ (covers o.1.regions a ≡ (covers t.regions a || within base n.end a))
AddOutcome-covers (grown g) a = inr (g.same a)
AddOutcome-covers (empty h) a = inl refl
AddOutcome-covers (full f m) a = inl refl

-- One call of memblock_add for an entry of RAM.
added :
    (e : E820Entry) (m : Memblock)
    → IsSound m
    → e.addr ≤ ullong_max
    → (r : Status) × (w : Memblock) × (memblock_add e.addr e.size m ≡ ok (r, w))
      × IsSound w
      × (w.reserved ≡ m.reserved)
      × ((a : ℕ)
          → (covers w.memory.regions a ≡ covers m.memory.regions a)
            ⊎ (covers w.memory.regions a ≡ (
                covers m.memory.regions a
                || within e.addr (e.addr + memblock_cap_size e.addr e.size) a)))
unfolding memblock_add
added e m v b =
    let (o, runs, ends) =
      memblock_add_range-AddOutcome m.memory e.addr e.size max_nr_nodes 0 v.memory b in
    (
      o.0,
      record m { memory = o.1 },
      rw runs refl,
      record { memory = AddOutcome-IsValid v.memory ends; reserved = v.reserved },
      refl,
      AddOutcome-covers ends,
    )

-- On two arrays in use and a map of 64-bit words the loop of memblock_x86_fill ends, without a
-- BUG_ON, whether the array has room for all entries or not: both arrays are in use, `reserved` has
-- not changed, and `memory` holds all that it held before and nothing that was not in it and is not
-- in a RAM entry of the map.
pub fill_loop-Filled :
    (es : List E820Entry) (m : Memblock)
    → IsSound m
    → AreU64 es
    → (w : Memblock) × (fill_loop es m ≡ ok w) × Filled es m w
unfolding fill_loop
fill_loop-Filled [] m v u = (
  m,
  refl,
  record { sound = v; reserved = refl; kept = λ a. ground arith; ram = λ a. ground arith },
)
fill_loop-Filled (e ∷ es) m v u = elim (Bool-cases (e.type == e820_ram)) [
  | inr other ↦
      let (w, runs, f) = fill_loop-Filled es m v u.2 in
      (
        w,
        rw (fill_loop, other) runs,
        record {
          sound = f.sound;
          reserved = f.reserved;
          kept = f.kept;
          ram = λ a. ground (arith, f.ram a, other);
        },
      )
  | inl usable ↦
      let (r, m', adds, v', same, covered) = added e m v u.0 in
      let (w, runs, f) = fill_loop-Filled es m' v' u.2 in
      (
        w,
        rw (fill_loop, usable, adds) runs,
        record {
          sound = f.sound;
          reserved = f.reserved ∙ same;
          kept = λ a. ground (arith, f.kept a, covered a);
          ram = λ a. ground (arith, f.ram a, covered a, usable);
        },
      )
]
