-- ===== src/Ioremap/Map.antt =====
-- mm/early_ioremap.c: what a mapping gives.
use sandix.Common.{
  ℕ, zero, suc, ◌+◌, ◌-◌, ◌*◌, ◌/◌, ◌%◌, ◌≤◌, ◌<◌, ◌≡◌, ◌≢◌, refl, sym, ap, ◌∙◌, ◌⊎◌, inl, inr,
  Option, none, some, arith,
}
use native.Mathlib.Decide.{ℕ_discrete, dec_lt}
use sandix.Word.{word, ullong_max, add64, sub64}
use sandix.Ioremap.{ulong, Fixmap, page_of, page_align, find_slot, fix_to_virt}

-- The search ends at the first slot that holds the key, if there is one.
pub find_slot-cases :
    (key : ℕ) (map : ℕ → ℕ) (n i : ℕ)
    → ((find_slot key map n i ≡ none) × ((j : ℕ) → i ≤ j → j < i + n → map j ≢ key))
      ⊎ ((slot : ℕ) × (find_slot key map n i ≡ some slot)
          × (i ≤ slot)
          × (slot < i + n)
          × (map slot ≡ key)
          × ((j : ℕ) → i ≤ j → j < slot → map j ≢ key))
unfolding find_slot
find_slot-cases key map zero i = inl (refl, λ j h k e. absurd (omega arith))
find_slot-cases key map (suc n) i = elim (ℕ_discrete (map i) key) [
  | yes e ↦ inr (i, ground (arith, e), omega arith, omega arith, e, λ j h k. absurd (omega arith))
  | no ne ↦ elim (find_slot-cases key map n (i + 1)) [
    | inl (e, others) ↦ inl (
      ground (arith, ne, e),
      λ j h k. elim (ℕ_discrete j i) [
        | yes same ↦ λ e. ne (ap map (sym same) ∙ e)
        | no other ↦ others j (omega arith) (omega arith)
      ],
    )
    | inr (slot, e, low, high, holds, others) ↦ inr (
      slot,
      ground (arith, ne, e),
      omega arith,
      omega arith,
      holds,
      λ j h k. elim (ℕ_discrete j i) [
        | yes same ↦ λ e. ne (ap map (sym same) ∙ e)
        | no other ↦ others j (omega arith) (omega arith)
      ],
    )
  ]
]

-- The pages that hold `size` bytes from `x` on.
abbrev pub pages : ℕ → ℕ → ℕ
pages x size = (x % 4096 + size + 4095) / 4096

abbrev pub physical : Option (ℕ × ℕ) → ℕ → Option ℕ
physical none offset = none
physical (some (pfn, prot)) offset = some (pfn * 4096 + offset)

module _ (fixaddr_top btmap_begin : ℕ) where
  -- The fixed addresses are pages above NULL, and there are enough of them.
  pub record IsLayout : Type 0 where
    pub aligned : fixaddr_top % 4096 ≡ 0
    pub word_top : fixaddr_top < ulong
    pub enough : 511 ≤ btmap_begin
    pub above : btmap_begin * 4096 < fixaddr_top

  -- The physical address at a virtual one.
  abbrev pub translate : Fixmap → ℕ → Option ℕ
  translate f v = physical (f ((fixaddr_top - page_of v) / 4096)) (v % 4096)

  pub fix_to_virt-eq :
      IsLayout
      → (x : ℕ) → x ≤ btmap_begin
      → fix_to_virt fixaddr_top btmap_begin x ≡ fixaddr_top - x * 4096
  unfolding fix_to_virt
  fix_to_virt-eq l x h = omega (arith, l.word_top, l.above, h)

  -- The number of pages that the code computes.
  pub nrpages-eq :
      (phys size : ℕ)
      → phys ≤ ullong_max
      → 0 < size
      → phys + size ≤ word
      → size ≤ 0xffff_e000
      → sub64 (page_align word (add64 (sub64 (add64 phys size) 1) 1)) (page_of phys % ulong)
          % ulong
          / 4096
        ≡ pages phys size
  unfolding sub64 add64 page_align
  nrpages-eq phys size b pos fits small =
      let last : (sub64 (add64 phys size) 1 + 1) % word ≡ (phys + size) % word = omega arith in
      elim (dec_lt (phys + size + 4095) word) [
        | yes below ↦
            let align : page_align word (add64 (sub64 (add64 phys size) 1) 1)
                ≡ (phys + size + 4095) / 4096 * 4096 =
              omega (arith, last) in
            omega (arith, align)
        | no top ↦
            let align : page_align word (add64 (sub64 (add64 phys size) 1) 1) ≡ 0 =
              omega (arith, last) in
            omega (arith, align)
      ]
