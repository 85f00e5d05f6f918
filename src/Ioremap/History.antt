-- ===== src/Ioremap/History.antt =====
-- mm/early_ioremap.c: histories of calls behind the setup.
use sandix.Common.{ℕ, ◌-◌, ◌*◌, ◌≤◌, ◌<◌, ◌≡◌, inl, none, arith}
use sandix.Word.{ullong_max}
use sandix.Ioremap.{Slots, early_ioremap_setup, early_ioremap, early_iounmap}
use sandix.Ioremap.Map.{IsLayout, fix_to_virt-eq}
use sandix.Ioremap.Outcome.{early_ioremap-MapOutcome}
use sandix.Ioremap.Back.{IsSlots}
use sandix.Ioremap.Calls.{early_ioremap-IsSlots, early_iounmap-IsSlots}

module _ (fixaddr_top btmap_begin : ℕ) (l : IsLayout fixaddr_top btmap_begin) where
  -- What a history of calls makes of slots that are all free and not mapped behind the setup.
  pub data Reach (start : Slots) : Slots → Type 0 where
    setup : Reach start (early_ioremap_setup fixaddr_top btmap_begin start)
    map :
        {s : Slots} (phys size prot : ℕ)
        → Reach start s
        → phys ≤ ullong_max
        → size ≤ 0xffff_e000
        → 0 < prot
        → Reach start ((early_ioremap fixaddr_top btmap_begin phys size prot s).1)
    unmap :
        {s : Slots} (addr size : ℕ)
        → Reach start s
        → Reach start (early_iounmap fixaddr_top btmap_begin addr size s)

  pub record IsBlank (s : Slots) : Type 0 where
    pub free : (i : ℕ) → s.prev_map i ≡ 0
    pub empty : (j : ℕ) → s.fixmap j ≡ none

  setup-IsSlots :
      (s : Slots)
      → IsBlank s
      → IsSlots fixaddr_top btmap_begin l (early_ioremap_setup fixaddr_top btmap_begin s)
  unfolding early_ioremap_setup
  setup-IsSlots s k = record {
    virt = λ i b.
        let at = fix_to_virt-eq fixaddr_top btmap_begin l (btmap_begin - i * 64) (omega arith) in
        ground (arith, at, b);
    held = λ i b. inl (k.free i);
    spare = λ i j b low high. inl (k.empty j);
    short = λ i b. inl (k.free i);
  }

  -- If no slot is taken and nothing is mapped before early_ioremap_setup, then behind it and any
  -- history of calls of early_iounmap, with whatever address and size, and of early_ioremap with a
  -- physical address of 64 bits, a size of 0xffffe000 at most and a protection that is not 0, the slots are in order: each slot has its address, a taken one holds an address in its first
  -- page with 64 pages at most, and no page of a slot is mapped but those of the range it holds.
  pub Reach-IsSlots :
      (start s : Slots) → IsBlank start → Reach start s → IsSlots fixaddr_top btmap_begin l s
  Reach-IsSlots start s k setup = setup-IsSlots start k
  Reach-IsSlots start s k (map {s = s0} phys size prot r w small p) =
      let v = Reach-IsSlots start s0 k r in
      early_ioremap-IsSlots fixaddr_top btmap_begin l phys size s0
        (early_ioremap fixaddr_top btmap_begin phys size prot s0) v
        (early_ioremap-MapOutcome fixaddr_top btmap_begin l phys size prot s0 w small p v.virt)
  Reach-IsSlots start s k (unmap {s = s0} addr size r) =
      early_iounmap-IsSlots fixaddr_top btmap_begin l addr size s0 (Reach-IsSlots start s0 k r)
