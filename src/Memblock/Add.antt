-- ===== src/Memblock/Add.antt =====
-- memblock_add_range (mm/memblock.c): its rounds, on an array that holds regions.
pub mod Outcome
use sandix.Common.{
  ℕ, zero, suc, ◌+◌, ◌-◌, ◌≤◌, ◌<◌, ◌≡◌, refl, sym, ap, ◌∙◌, ◌||◌, Bool, true, false, inl, inr,
  List, [], ◌∷◌, ◌++◌, Option, none, some, arith, length, min, ltb, leb, ◌==◌, if◌then◌else◌,
  get_elem?, set, Bool-cases, ltb→lt, ltb→le, lt→ltb, le→ltb, pos→ne,
}
use sandix.Word.{ullong_max, add64, add64-eq}
use sandix.Memblock.Types.{
  Region, MemblockType, nr_regions, Status, success, enomem, Run, ok, ◌>>=◌,
}
use sandix.Memblock.Ops.{
  NewRange, AddState, memblock_cap_size, add_loop, add_gap, add_round, add_rounds, merge_from,
  memblock_merge_regions, memblock_add_range,
}
use sandix.Memblock.Cover.{
  within, covers, attr_at, or_else, sum_sizes, IsOrdered, IsOrdered-sum, IsVacant, IsFilled,
  IsValid,
}
use sandix.Memblock.Splice.{splice, splice_grows, splice-IsOrdered, covers-splice, attr_at-splice}
use sandix.Memblock.Merge.{IsMinimal, Merges, merge_from-Merges}
use sandix.Memblock.Round.Count.{add_loop-false}
use sandix.Memblock.Round.Insert.{Inserts, add_loop-true}

abbrev pub new_range : ℕ → ℕ → ℕ → ℕ → NewRange
new_range base size nid flags = record {
  end = base + memblock_cap_size base size;
  nid = nid;
  flags = flags;
}

pub nonempty {ℓ} :
    {A : Type ℓ} (xs : List A) → 0 < length xs → (x : A) × (rest : List A) × (xs ≡ x ∷ rest)
nonempty [] h = absurd (omega arith)
nonempty (x ∷ rest) h = (x, rest, refl)

module _ (t : MemblockType) (n : NewRange) (base : ℕ) (v : IsFilled t) where
  add_round-false :
      (s : AddState) × (add_round false n base t ≡ ok s)
      × (nr_regions t + s.nr_new ≡ length (splice n base t.regions))
  unfolding add_round
  add_round-false =
      let (s, runs, count) =
        add_loop-false (nr_regions t + 1) t.max n 0 [] t.regions
          (record { type = t; idx = 0; base = base; nr_new = 0 }) (omega arith) v.ordered
          (record { split = refl; place = refl; total = v.total; limit = refl }) in
      (s, runs, omega (arith, count))

  spliced-IsOrdered : n.end ≤ ullong_max → IsOrdered 0 (splice n base t.regions)
  spliced-IsOrdered e = splice-IsOrdered n 0 base t.regions e (omega arith) v.ordered

  add_round-true :
      n.end ≤ ullong_max
      → length (splice n base t.regions) ≤ t.max
      → Inserts t.max (splice n base t.regions) (add_round true n base t)
  unfolding add_round
  add_round-true e room =
      add_loop-true (nr_regions t + 1) t.max n 0 [] t.regions
        (record { type = t; idx = 0; base = base; nr_new = 0 }) (omega arith) e v.ordered
        (record {
          room = room;
          sum = omega (
            arith,
            IsOrdered-sum 0 (splice n base t.regions) (omega arith) (spliced-IsOrdered e),
          );
        })
        (record { split = refl; place = refl; total = v.total; limit = refl })

pub memblock_merge_regions_lem :
    (t : MemblockType) (this : Region) (rest : List Region)
    → t.regions ≡ this ∷ rest
    → (m : Merges 0 this rest)
    → memblock_merge_regions t ≡ ok (record t { regions = m.first ∷ m.others })
unfolding memblock_merge_regions
memblock_merge_regions_lem t this rest e m = rw (e, m.runs)

-- What a call that adds leaves: an array in order whose neighbours differ, in the same storage, that
-- covers the new range and what was covered, each address with its node and flags.
pub record Added (t : MemblockType) (n : NewRange) (base : ℕ) (t' : MemblockType) : Type 0 where
  pub filled : IsFilled t'
  pub minimal : IsMinimal t'.regions
  pub bounded : nr_regions t' ≤ t'.max
  pub limit : t'.max ≡ t.max
  pub same : (a : ℕ) → covers t'.regions a ≡ (covers t.regions a || within base n.end a)
  pub attrs :
      (a : ℕ)
      → attr_at t'.regions a
        ≡ or_else
            (attr_at t.regions a)
            (if within base n.end a then some (n.nid, n.flags) else none)

module _ (t : MemblockType) (n : NewRange) (base : ℕ) (v : IsFilled t) where
  pub add_rounds-full :
      t.max < length (splice n base t.regions) → add_rounds n base t ≡ ok (enomem, t)
  unfolding add_rounds
  add_rounds-full full =
      let (s, runs, count) = add_round-false t n base v in
      rw (runs, count, lt→ltb t.max (length (splice n base t.regions)) full)

  pub add_rounds-room :
      n.end ≤ ullong_max
      → length (splice n base t.regions) ≤ t.max
      → (t' : MemblockType) × (add_rounds n base t ≡ ok (success, t')) × Added t n base t'
  unfolding add_rounds
  add_rounds-room e room =
      let (c, counted, count) = add_round-false t n base v in
      let i = add_round-true t n base v e room in
      let (this, rest, split) =
        nonempty (splice n base t.regions)
          (omega (arith, v.occupied, (splice_grows n base t.regions).0)) in
      let m = merge_from-Merges 0 this rest (rw split at (spliced-IsOrdered t n base v e)) in
      let merged = memblock_merge_regions_lem i.final.type this rest (i.regions ∙ split) m in
      rw (counted, count, le→ltb (length (splice n base t.regions)) t.max room, i.runs, merged)
        (
          record i.final.type { regions = m.first ∷ m.others },
          refl,
          record {
            filled = record {
              occupied = omega arith;
              ordered = m.ordered;
              total = i.total ∙ ap sum_sizes split ∙ sym m.total;
            };
            minimal = m.minimal;
            bounded = omega (arith, m.shorter, ap length split, i.limit);
            limit = i.limit;
            same = λ a.
                m.same a ∙ sym (ap (λ rs. covers rs a) split) ∙ covers-splice n base t.regions a;
            attrs = λ a.
                m.attrs a
                ∙ sym (ap (λ rs. attr_at rs a) split)
                ∙ attr_at-splice n 0 base t.regions a v.ordered;
          },
        )

module _ (t : MemblockType) (base size nid flags : ℕ) where
  abbrev new : NewRange
  new = new_range base size nid flags

  pub memblock_add_range-rounds :
      base ≤ ullong_max
      → 0 < memblock_cap_size base size
      → IsFilled t
      → memblock_add_range t base size nid flags ≡ add_rounds new base t
  unfolding memblock_add_range
  memblock_add_range-rounds b c v =
      let (first, rest, split) = nonempty t.regions v.occupied in
      let o = rw split at v.ordered in
      let found : get_elem? t.regions 0 ≡ some first = ap (λ rs. get_elem? rs 0) split in
      rw
        (found, add64-eq base (memblock_cap_size base size) (omega arith), pos→ne _ c, pos→ne _ o.1)
