-- ===== src/Ioremap/Back.antt =====
-- mm/early_ioremap.c: early_iounmap takes back a mapping.
use sandix.Common.{
  ℕ, ◌+◌, ◌-◌, ◌*◌, ◌/◌, ◌%◌, ◌≤◌, ◌<◌, ◌≡◌, sym, ap, subst, ◌∙◌, ◌⊎◌, inl, inr, true, false, none,
  some, ltb, ◌==◌, arith,
}
use native.Mathlib.Decide.{ℕ_discrete, dec_lt}
use sandix.Word.{ullong_max}
use sandix.Ioremap.{
  ulong, Slots, page_align, find_slot, fix_to_virt, clear_pages, early_ioremap, early_iounmap,
}
use sandix.Ioremap.Pages.{clear_pages-entry, clear_pages-other}
use sandix.Ioremap.Map.{find_slot-cases, pages, IsLayout, fix_to_virt-eq}
use sandix.Ioremap.Outcome.{Mapped, MapOutcome, refused, mapped, early_ioremap-MapOutcome}

module _ (fixaddr_top btmap_begin : ℕ) (l : IsLayout fixaddr_top btmap_begin) where
  -- The slots are set up, each taken one has an address in its first page, and no page
  -- is mapped but those of its range.
  pub record IsSlots (s : Slots) : Type 0 where
    pub virt : (i : ℕ) → i < 8 → s.slot_virt i ≡ fixaddr_top - (btmap_begin - 64 * i) * 4096
    pub held :
        (i : ℕ)
        → i < 8
        → (s.prev_map i ≡ 0)
          ⊎ ((s.slot_virt i ≤ s.prev_map i) × (s.prev_map i < s.slot_virt i + 4096))
    pub spare :
        (i j : ℕ)
        → i < 8
        → j ≤ btmap_begin - 64 * i
        → btmap_begin - 64 * i < j + 64
        → (s.fixmap j ≡ none)
          ⊎ ((0 < s.prev_map i) × (btmap_begin - 64 * i < j + pages (s.prev_map i) (s.prev_size i)))
    pub short : (i : ℕ) → i < 8 → (s.prev_map i ≡ 0) ⊎ (pages (s.prev_map i) (s.prev_size i) ≤ 64)

  -- A page of a free slot is not mapped.
  pub bare_page :
      (s : Slots) (i j : ℕ)
      → IsSlots s
      → i < 8
      → s.prev_map i ≡ 0
      → j ≤ btmap_begin - 64 * i
      → btmap_begin - 64 * i < j + 64
      → s.fixmap j ≡ none
  bare_page s i j v b free low high = elim (v.spare i j b low high) [
    | inl bare ↦ bare
    | inr (pos, inside) ↦ absurd (omega (arith, pos, free))
  ]

  module _ (phys size : ℕ) (s : Slots) (addr : ℕ) (s' : Slots) (v : IsSlots s)
      (m : Mapped fixaddr_top btmap_begin l phys size s addr s') where
    -- No other slot holds the address.
    own : (i : ℕ) → i < 8 → s'.prev_map i ≡ addr → i ≡ m.slot
    own i b e = elim (ℕ_discrete i m.slot) [
      | yes same ↦ same
      | no other ↦
          let kept : s.prev_map i ≡ addr = ground (arith, m.held i, e, other) in
          let inside = v.held i b in
          absurd (
            ground (
              arith,
              kept,
              inside,
              v.virt i b,
              m.is_address,
              m.not_null,
              m.one_of,
              other,
              l.enough,
              l.above,
              l.aligned,
            ))
    ]

    found : find_slot addr s'.prev_map 8 0 ≡ some m.slot
    found = elim (find_slot-cases addr s'.prev_map 8 0) [
      | inl (e, others) ↦
          absurd
            (others m.slot (omega arith) (omega (arith, m.one_of)) (ground (arith, m.held m.slot)))
      | inr (i, e, low, high, holds, earlier) ↦ e ∙ ap some (own i (omega (arith, high)) holds)
    ]

    reaches : ltb addr (fix_to_virt fixaddr_top btmap_begin btmap_begin) ≡ false
    reaches =
        let low = fix_to_virt-eq fixaddr_top btmap_begin l btmap_begin (omega arith) in
        ground (arith, low, m.is_address, l.above, l.enough)

    nrpages-eq : page_align ulong ((addr % 4096 + size) % ulong) / 4096 ≡ pages phys size
    unfolding page_align
    nrpages-eq =
        let offset : addr % 4096 ≡ phys % 4096 =
          omega (arith, m.is_address, m.one_of, l.enough, l.above, l.aligned) in
        omega (arith, offset, m.fits)

    cleared :
        (j : ℕ) → clear_pages (pages phys size) (btmap_begin - 64 * m.slot) s'.fixmap j ≡ s.fixmap j
    cleared j = elim (m.others j) [
      | inl (low, high) ↦
          clear_pages-entry (pages phys size) (btmap_begin - 64 * m.slot) j s'.fixmap
            (omega (arith, m.fits, m.one_of, l.enough)) low high
          ∙ sym (bare_page s m.slot j v m.one_of m.free low (omega (arith, m.fits, high)))
      | inr same ↦ elim (dec_lt (btmap_begin - 64 * m.slot) j) [
        | yes above ↦
            clear_pages-other (pages phys size) (btmap_begin - 64 * m.slot) j s'.fixmap
              (omega (arith, m.fits, m.one_of, l.enough)) (inl above)
            ∙ same
        | no low ↦ elim (dec_lt (btmap_begin - 64 * m.slot) (j + pages phys size)) [
          | yes inside ↦
              clear_pages-entry (pages phys size) (btmap_begin - 64 * m.slot) j s'.fixmap
                (omega (arith, m.fits, m.one_of, l.enough)) (omega arith) inside
              ∙ sym (
                  bare_page s m.slot j v m.one_of m.free (omega arith)
                    (omega (arith, m.fits, inside)))
          | no below ↦
              clear_pages-other (pages phys size) (btmap_begin - 64 * m.slot) j s'.fixmap
                (omega (arith, m.fits, m.one_of, l.enough)) (inr (omega arith))
              ∙ same
        ]
      ]
    ]

    unmapped :
        (j : ℕ)
        → ((early_iounmap fixaddr_top btmap_begin addr size s').prev_map j ≡ s.prev_map j)
          × ((early_iounmap fixaddr_top btmap_begin addr size s').fixmap j ≡ s.fixmap j)
    unfolding early_iounmap
    unmapped j =
        let own_size : (s'.prev_size m.slot == size) ≡ true = ground (arith, m.sized m.slot) in
        rw (early_iounmap, found, own_size, reaches, nrpages-eq)
          (ground (arith, m.held j, m.free), cleared j)

  MapOutcome-Mapped :
      {phys size : ℕ} {s : Slots} {addr : ℕ} {s' : Slots}
      → MapOutcome fixaddr_top btmap_begin l phys size s (addr, s')
      → 0 < addr
      → Mapped fixaddr_top btmap_begin l phys size s addr s'
  MapOutcome-Mapped (refused r e e' e'' kept) pos = absurd (omega arith)
  MapOutcome-Mapped (mapped m) pos = m

  -- With the slots in order, for a physical address of 64 bits, a protection that is not 0 and a size
  -- of 0xffffe000 at most: when early_ioremap has returned an address that is not NULL,
  -- early_iounmap with this address and the same size gives back prev_map and the page table as
  -- they were before the two calls, so that the slot is free again. prev_size keeps the size.
  pub early_iounmap-early_ioremap :
      (phys size prot : ℕ) (s : Slots) (addr : ℕ) (s' : Slots)
      → IsSlots s
      → phys ≤ ullong_max
      → size ≤ 0xffff_e000
      → 0 < prot
      → early_ioremap fixaddr_top btmap_begin phys size prot s ≡ (addr, s')
      → 0 < addr
      → (j : ℕ)
      → ((early_iounmap fixaddr_top btmap_begin addr size s').prev_map j ≡ s.prev_map j)
        × ((early_iounmap fixaddr_top btmap_begin addr size s').fixmap j ≡ s.fixmap j)
  early_iounmap-early_ioremap phys size prot s addr s' v w small p runs pos j =
      unmapped phys size s addr s' v
        (MapOutcome-Mapped
          (subst (MapOutcome fixaddr_top btmap_begin l phys size s) runs
            (early_ioremap-MapOutcome fixaddr_top btmap_begin l phys size prot s w small p v.virt))
          pos)
        j
