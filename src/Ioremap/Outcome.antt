-- ===== src/Ioremap/Outcome.antt =====
-- mm/early_ioremap.c: how a call of early_ioremap ends.
use sandix.Common.{
  ℕ, ◌+◌, ◌-◌, ◌*◌, ◌/◌, ◌%◌, ◌≤◌, ◌<◌, ◌≡◌, ◌≢◌, refl, ap, ◌∙◌, ◌⊎◌, inl, inr, true, false, ◌||◌,
  some, ltb, ◌==◌, arith, Bool-cases,
}
use native.Mathlib.Decide.{ℕ_discrete, dec_lt}
use sandix.Word.{word, ullong_max, add64, sub64}
use sandix.Ioremap.{ulong, Fixmap, Slots, update, page_of, map_pages, early_ioremap}
use sandix.Ioremap.Pages.{map_pages-entry, map_pages-other}
use sandix.Ioremap.Map.{find_slot-cases, pages, IsLayout, physical, translate, nrpages-eq}

module _ (fixaddr_top btmap_begin : ℕ) (l : IsLayout fixaddr_top btmap_begin) where
  abbrev first : ℕ → ℕ
  first slot = btmap_begin - 64 * slot

  -- The virtual address that a slot gives to a physical one.
  abbrev pub address : ℕ → ℕ → ℕ
  address slot phys = phys % 4096 + (fixaddr_top - first slot * 4096)

  mapped_byte :
      (slot phys size prot j : ℕ) (f : Fixmap)
      → slot < 8
      → phys ≤ ullong_max
      → phys + size ≤ word
      → pages phys size ≤ 64
      → 0 < prot
      → j < size
      → translate fixaddr_top btmap_begin
          (map_pages (pages phys size) (first slot) (page_of phys % ulong) prot f)
          (address slot phys + j)
        ≡ some (phys % ulong + j)
  mapped_byte slot phys size prot j f b w fits few p h =
      let k : ℕ = (phys % 4096 + j) / 4096 in
      let inside : k < pages phys size = omega arith in
      let at : (fixaddr_top - page_of (address slot phys + j)) / 4096 ≡ first slot - k =
        omega (arith, l.aligned, l.enough, l.above) in
      let entry =
        map_pages-entry (pages phys size) (first slot) (page_of phys % ulong) prot k f
          (omega (arith, l.enough)) (omega arith) p inside in
      let v : ℕ = address slot phys + j in
      ap (λ o. physical o (v % 4096))
        (ap (map_pages (pages phys size) (first slot) (page_of phys % ulong) prot f) at ∙ entry)
      ∙ ap some (omega (arith, l.aligned, l.enough, l.above))

  mapped_others :
      (slot phys size prot : ℕ) (f : Fixmap)
      → slot < 8
      → pages phys size ≤ 64
      → (j : ℕ)
      → ((j ≤ first slot) × (first slot < j + pages phys size))
        ⊎ (map_pages (pages phys size) (first slot) (page_of phys % ulong) prot f j ≡ f j)
  mapped_others slot phys size prot f b few j = elim (dec_lt (first slot) j) [
    | yes above ↦ inr (
        map_pages-other (pages phys size) (first slot) (page_of phys % ulong) prot j f
          (omega (arith, l.enough)) (inl above))
    | no low ↦ elim (dec_lt (first slot) (j + pages phys size)) [
      | yes inside ↦ inl (omega arith, inside)
      | no below ↦ inr (
          map_pages-other (pages phys size) (first slot) (page_of phys % ulong) prot j f
            (omega (arith, l.enough)) (inr (omega arith)))
    ]
  ]

  address-eq :
      (slot phys : ℕ) (s : Slots)
      → slot < 8
      → ((i : ℕ) → i < 8 → s.slot_virt i ≡ fixaddr_top - first i * 4096)
      → (phys % 4096 + s.slot_virt slot) % ulong ≡ address slot phys
  address-eq slot phys s b virt =
      omega (arith, virt slot b, l.above, l.enough, l.word_top, l.aligned)

  -- Why a request is refused.
  pub data Refused (phys size : ℕ) (s : Slots) : Type 0 where
    taken : ((slot : ℕ) → slot < 8 → s.prev_map slot ≢ 0) → Refused phys size s
    bare : size ≡ 0 → Refused phys size s
    wraps : word < phys + size → Refused phys size s
    large : 64 < pages phys size → Refused phys size s

  -- What a request that succeeds leaves behind.
  pub record Mapped (phys size : ℕ) (s : Slots) (addr : ℕ) (s' : Slots) : Type 0 where
    pub slot : ℕ
    pub one_of : slot < 8
    pub free : s.prev_map slot ≡ 0
    pub earliest : (j : ℕ) → (slot ≤ j) ⊎ (s.prev_map j ≢ 0)
    pub not_null : 0 < addr
    pub fits : (0 < size) × (phys + size ≤ word) × (pages phys size ≤ 64)
    pub is_address : addr ≡ address slot phys
    pub bytes :
        (j : ℕ)
        → (size ≤ j)
          ⊎ (translate fixaddr_top btmap_begin s'.fixmap (addr + j) ≡ some (phys % ulong + j))
    pub others :
        (j : ℕ)
        → ((j ≤ first slot) × (first slot < j + pages phys size)) ⊎ (s'.fixmap j ≡ s.fixmap j)
    pub held : (j : ℕ) → s'.prev_map j ≡ update s.prev_map slot addr j
    pub sized : (j : ℕ) → s'.prev_size j ≡ update s.prev_size slot size j
    pub virt : (j : ℕ) → s'.slot_virt j ≡ s.slot_virt j

  -- A call returns NULL and changes no mapping, or maps all bytes.
  pub data MapOutcome (phys size : ℕ) (s : Slots) : ℕ × Slots → Type 0 where
    refused :
        {s' : Slots}
        → Refused phys size s
        → s'.prev_map ≡ s.prev_map
        → s'.fixmap ≡ s.fixmap
        → s'.slot_virt ≡ s.slot_virt
        → ((j : ℕ) → (s.prev_map j ≡ 0) ⊎ (s'.prev_size j ≡ s.prev_size j))
        → MapOutcome phys size s (0, s')
    mapped :
        {addr : ℕ} {s' : Slots} → Mapped phys size s addr s' → MapOutcome phys size s (addr, s')

  bad_range :
      (phys size : ℕ) (s : Slots)
      → phys ≤ ullong_max
      → (size == 0 || ltb (sub64 (add64 phys size) 1) phys) ≡ true
      → size ≤ 0xffff_e000
      → Refused phys size s
  unfolding add64 sub64
  bad_range phys size s w bad small = elim (ℕ_discrete size 0) [
    | yes e ↦ bare e
    | no ne ↦ wraps (ground (arith, w, bad, small))
  ]

  good_range :
      (phys size : ℕ)
      → phys ≤ ullong_max
      → (size == 0 || ltb (sub64 (add64 phys size) 1) phys) ≡ false
      → size ≤ 0xffff_e000
      → (0 < size) × (phys + size ≤ word)
  unfolding add64 sub64
  good_range phys size w good small = (ground arith, ground arith)

  update_free :
      (slot size : ℕ) (s : Slots)
      → s.prev_map slot ≡ 0
      → (j : ℕ) → (s.prev_map j ≡ 0) ⊎ (update s.prev_size slot size j ≡ s.prev_size j)
  update_free slot size s free j = elim (ℕ_discrete j slot) [
    | yes same ↦ inl (ap s.prev_map same ∙ free)
    | no other ↦ inr (ground (arith, other))
  ]

  -- With the slots set up, for a physical address of 64 bits, a protection that is not 0, and a size
  -- of 0xffffe000 at most, early_ioremap returns NULL, because all slots are taken, the size is 0,
  -- the range goes over 2 ^ 64, or it has more than 64 pages, and changes nothing but the size of a
  -- free slot; or it takes the first free slot and returns an address that is not NULL, at which
  -- every byte of the range is mapped to its distance from the start, added to the low 32 bits of
  -- the physical address (which are the address itself below 4 GB), and no other entry changes.
  pub early_ioremap-MapOutcome :
      (phys size prot : ℕ) (s : Slots)
      → phys ≤ ullong_max
      → size ≤ 0xffff_e000
      → 0 < prot
      → ((i : ℕ) → i < 8 → s.slot_virt i ≡ fixaddr_top - first i * 4096)
      → MapOutcome phys size s (early_ioremap fixaddr_top btmap_begin phys size prot s)
  unfolding early_ioremap
  early_ioremap-MapOutcome phys size prot s w small p virt =
      elim (find_slot-cases 0 s.prev_map 8 0) [
        | inl (e, held) ↦
            rw (early_ioremap, e)
              (refused (taken (λ slot h. held slot (omega arith) (omega arith))) refl refl refl
                (λ j. inr refl))
        | inr (slot, e, low, high, free, earlier) ↦
            rw (early_ioremap, e)
              (elim (Bool-cases (size == 0 || ltb (sub64 (add64 phys size) 1) phys)) [
                | inl bad ↦
                    rw bad
                      (refused (bad_range phys size s w bad small) refl refl refl (λ j. inr refl))
                | inr good ↦
                    let (pos, fits) = good_range phys size w good small in
                    rw
                      (
                        good,
                        nrpages-eq fixaddr_top btmap_begin phys size w pos fits small,
                        address-eq slot phys s high virt,
                      )
                      (elim (Bool-cases (ltb 64 (pages phys size))) [
                        | inl over ↦ rw over (
                            refused (large (ground arith)) refl refl refl
                              (update_free slot size s free))
                        | inr few ↦ rw few (
                            mapped (record {
                              slot = slot;
                              one_of = high;
                              free = free;
                              earliest = λ j. elim (dec_lt j slot) [
                                | yes before ↦ inr (earlier j (omega arith) before)
                                | no after ↦ inl (omega arith)
                              ];
                              not_null = omega (arith, l.above);
                              fits = (pos, fits, ground arith);
                              is_address = refl;
                              bytes = λ j. elim (dec_lt j size) [
                                | yes inside ↦ inr (
                                    mapped_byte slot phys size prot j s.fixmap high w fits
                                      (ground arith) p inside)
                                | no behind ↦ inl (omega arith)
                              ];
                              others =
                                  mapped_others slot phys size prot s.fixmap high (ground arith);
                              held = λ j. refl;
                              sized = λ j. refl;
                              virt = λ j. refl;
                            }))
                      ])
              ])
      ]
