-- ===== src/Ioremap/Calls.antt =====
-- mm/early_ioremap.c: every call keeps the slots in order.
use sandix.Common.{
  ℕ, ◌+◌, ◌-◌, ◌*◌, ◌/◌, ◌%◌, ◌≤◌, ◌<◌, ◌≡◌, ap, ◌∙◌, ◌⊎◌, inl, inr, none, ltb, ◌==◌, arith,
  Bool-cases,
}
use native.Mathlib.Decide.{ℕ_discrete, dec_lt}
use sandix.Ioremap.{ulong, Slots, update, page_align, fix_to_virt, clear_pages, early_iounmap}
use sandix.Ioremap.Pages.{clear_pages-entry, clear_pages-other}
use sandix.Ioremap.Map.{find_slot-cases, pages, IsLayout, fix_to_virt-eq}
use sandix.Ioremap.Outcome.{Mapped, MapOutcome, refused, mapped}
use sandix.Ioremap.Back.{IsSlots, bare_page}

module _ (fixaddr_top btmap_begin : ℕ) (l : IsLayout fixaddr_top btmap_begin) where
  module _ (phys size : ℕ) (s : Slots) (addr : ℕ) (s' : Slots)
      (v : IsSlots fixaddr_top btmap_begin l s)
      (m : Mapped fixaddr_top btmap_begin l phys size s addr s') where
    same_offset : addr % 4096 ≡ phys % 4096
    same_offset = omega (arith, m.is_address, m.one_of, l.enough, l.above, l.aligned)

    Mapped-IsSlots : IsSlots fixaddr_top btmap_begin l s'
    Mapped-IsSlots = record {
      virt = λ i b. m.virt i ∙ v.virt i b;
      held = λ i b. elim (ℕ_discrete i m.slot) [
        | yes same ↦ inr (
            ground (
              arith,
              same,
              m.held i,
              m.virt i,
              v.virt i b,
              m.is_address,
              m.one_of,
              l.above,
              l.enough,
            ))
        | no other ↦ ground (arith, m.held i, m.virt i, v.held i b, other)
      ];
      spare = λ i j b low high. elim (ℕ_discrete i m.slot) [
        | yes same ↦ elim (m.others j) [
          | inl (below, inside) ↦ inr (
            ground (arith, same, m.held i, m.not_null),
            ground (arith, same, m.held i, m.sized i, inside, same_offset),
          )
          | inr kept ↦ inl (
              kept
              ∙ bare_page fixaddr_top btmap_begin l s i j v b (ap s.prev_map same ∙ m.free) low
                  high)
        ]
        | no other ↦ elim (m.others j) [
          | inl (below, inside) ↦
              absurd (omega (arith, below, inside, low, high, other, m.fits, m.one_of, b, l.enough))
          | inr kept ↦ ground (arith, kept, v.spare i j b low high, m.held i, m.sized i, other)
        ]
      ];
      short = λ i b. elim (ℕ_discrete i m.slot) [
        | yes same ↦ inr (ground (arith, same, m.held i, m.sized i, same_offset, m.fits))
        | no other ↦ ground (arith, v.short i b, m.held i, m.sized i, other)
      ];
    }

  refused-IsSlots :
      (s s' : Slots)
      → IsSlots fixaddr_top btmap_begin l s
      → s'.prev_map ≡ s.prev_map
      → s'.fixmap ≡ s.fixmap
      → s'.slot_virt ≡ s.slot_virt
      → ((j : ℕ) → (s.prev_map j ≡ 0) ⊎ (s'.prev_size j ≡ s.prev_size j))
      → IsSlots fixaddr_top btmap_begin l s'
  refused-IsSlots s s' v maps entries virts sizes =
      let map_at : (i : ℕ) → s'.prev_map i ≡ s.prev_map i = λ i. ap (λ f. f i) maps in
      let virt_at : (i : ℕ) → s'.slot_virt i ≡ s.slot_virt i = λ i. ap (λ f. f i) virts in
      record {
        virt = λ i b. virt_at i ∙ v.virt i b;
        held = λ i b. ground (arith, map_at i, virt_at i, v.held i b);
        spare = λ i j b low high.
            let entry : s'.fixmap j ≡ s.fixmap j = ap (λ f. f j) entries in
            ground (arith, entry, map_at i, sizes i, v.spare i j b low high);
        short = λ i b. ground (arith, map_at i, sizes i, v.short i b);
      }

  pub early_ioremap-IsSlots :
      (phys size : ℕ) (s : Slots) (r : ℕ × Slots)
      → IsSlots fixaddr_top btmap_begin l s
      → MapOutcome fixaddr_top btmap_begin l phys size s r
      → IsSlots fixaddr_top btmap_begin l (r.1)
  early_ioremap-IsSlots phys size s r v (refused {s' = s'} why maps entries virts sizes) =
      refused-IsSlots s s' v maps entries virts sizes
  early_ioremap-IsSlots phys size s r v (mapped {addr = addr} {s' = s'} m) =
      Mapped-IsSlots phys size s addr s' v m

  module _ (addr size slot : ℕ) (s : Slots) (v : IsSlots fixaddr_top btmap_begin l s) (b : slot < 8)
      (holds : s.prev_map slot ≡ addr) (sized : s.prev_size slot ≡ size) (pos : 0 < addr) where
    few : pages addr size ≤ 64
    few = ground (arith, v.short slot b, holds, sized, pos)

    unmap_pages : page_align ulong ((addr % 4096 + size) % ulong) / 4096 ≡ pages addr size
    unfolding page_align
    unmap_pages = omega (arith, few)

    -- An entry is cleared, or it is not one of the mapping.
    cleared_or_other :
        (j : ℕ)
        → (clear_pages (pages addr size) (btmap_begin - 64 * slot) s.fixmap j ≡ none)
          ⊎ ((clear_pages (pages addr size) (btmap_begin - 64 * slot) s.fixmap j ≡ s.fixmap j)
              × ((btmap_begin - 64 * slot < j) ⊎ (j + pages addr size ≤ btmap_begin - 64 * slot)))
    cleared_or_other j =
        let room : pages addr size ≤ btmap_begin - 64 * slot + 1 =
          omega (arith, few, b, l.enough) in
        elim (dec_lt (btmap_begin - 64 * slot) j) [
          | yes above ↦ inr (
            clear_pages-other (pages addr size) (btmap_begin - 64 * slot) j s.fixmap room
                (inl above),
            inl above,
          )
          | no low ↦ elim (dec_lt (btmap_begin - 64 * slot) (j + pages addr size)) [
            | yes inside ↦ inl (
                clear_pages-entry (pages addr size) (btmap_begin - 64 * slot) j s.fixmap room
                  (omega arith) inside)
            | no below ↦ inr (
              clear_pages-other (pages addr size) (btmap_begin - 64 * slot) j s.fixmap room
                  (inr (omega arith)),
              inr (omega arith),
            )
          ]
        ]

    cleared-IsSlots : IsSlots fixaddr_top btmap_begin l (record s {
      prev_map = update s.prev_map slot 0;
      fixmap = clear_pages (pages addr size) (btmap_begin - 64 * slot) s.fixmap;
    })
    cleared-IsSlots = record {
      virt = v.virt;
      held = λ i c. elim (ℕ_discrete i slot) [
        | yes same ↦ inl (ground (arith, same))
        | no other ↦ ground (arith, v.held i c, other)
      ];
      spare = λ i j c low high. elim (cleared_or_other j) [
        | inl bare ↦ inl bare
        | inr (kept, outside) ↦ elim (ℕ_discrete i slot) [
          | yes same ↦ elim (v.spare i j c low high) [
            | inl bare ↦ inl (kept ∙ bare)
            | inr (taken, inside) ↦
                absurd (ground (arith, same, holds, sized, outside, low, inside))
          ]
          | no other ↦ ground (arith, kept, v.spare i j c low high, other)
        ]
      ];
      short = λ i c. elim (ℕ_discrete i slot) [
        | yes same ↦ inl (ground (arith, same))
        | no other ↦ ground (arith, v.short i c, other)
      ];
    }

  pub early_iounmap-IsSlots :
      (addr size : ℕ) (s : Slots)
      → IsSlots fixaddr_top btmap_begin l s
      → IsSlots fixaddr_top btmap_begin l (early_iounmap fixaddr_top btmap_begin addr size s)
  unfolding early_iounmap
  early_iounmap-IsSlots addr size s v = elim (find_slot-cases addr s.prev_map 8 0) [
    | inl (e, others) ↦ rw (early_iounmap, e) v
    | inr (slot, e, low, high, holds, earlier) ↦ elim (Bool-cases (s.prev_size slot == size)) [
      | inr different ↦ rw (early_iounmap, e, different) v
      | inl same ↦ elim (Bool-cases (ltb addr (fix_to_virt fixaddr_top btmap_begin btmap_begin))) [
        | inl under ↦ rw (early_iounmap, e, same, under) v
        | inr reached ↦
            let sized : s.prev_size slot ≡ size = ground (arith, same) in
            let start = fix_to_virt-eq fixaddr_top btmap_begin l btmap_begin (omega arith) in
            let pos : 0 < addr = ground (arith, reached, start, l.above) in
            rw
              (
                early_iounmap,
                e,
                same,
                reached,
                unmap_pages addr size slot s v (omega (arith, high)) holds sized pos,
              )
              (cleared-IsSlots addr size slot s v (omega (arith, high)) holds sized pos)
      ]
    ]
  ]
