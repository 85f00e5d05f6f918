-- ===== src/Memblock/Cut.antt =====
-- mm/memblock.c: the operations on one region array that split regions and take them out.
pub mod Isolate
pub mod Inside
pub mod Outer
pub mod Remove
pub mod Ways
pub mod Outcome
use sandix.Common.{
  ℕ, zero, suc, ◌+◌, ◌-◌, ◌*◌, Bool, true, false, List, [], ◌∷◌, none, some, ltb, leb, ◌==◌,
  if◌then◌else◌, get_elem?, set, insert_at, erase_at,
}
use sandix.Word.{add64, sub64}
use sandix.Memblock.Types.{
  Region, MemblockType, nr_regions, Status, success, enomem, Run, ok, bug, fault, out_of_fuel,
  ◌>>=◌,
}
use sandix.Memblock.Ops.{
  memblock_cap_size, region_end, memblock_insert_region, memblock_merge_regions,
}

-- 1 << NODES_SHIFT, with CONFIG_NODES_SHIFT not set.
abbrev pub max_nr_nodes : ℕ
max_nr_nodes = 1

abbrev pub empty_region : Region
empty_region = record { base = 0; size = 0; flags = 0; nid = max_nr_nodes }

-- An array of no entry gets the empty one.
abbrev pub or_empty : List Region → List Region
or_empty [] = empty_region ∷ []
or_empty (r ∷ rs) = r ∷ rs

unfoldable pub memblock_remove_region : MemblockType → ℕ → Run MemblockType
memblock_remove_region t i = elim (get_elem? t.regions i) [
  | none ↦ fault
  | some r ↦ ok (record t {
    total_size = sub64 t.total_size r.size;
    regions = or_empty (erase_at i t.regions);
  })
]

-- What the loop of memblock_isolate_range changes.
pub record CutState : Type 0 where
  pub type : MemblockType
  pub idx : ℕ
  pub start_rgn : ℕ
  pub end_rgn : ℕ

-- The entry at idx becomes [at, rend), and [rbase, at) is inserted before it.
unfoldable pub split_region : MemblockType → ℕ → Region → ℕ → Run MemblockType
unfolding memblock_insert_region
split_region t idx r at =
    let cut = sub64 at r.base in
    let upper : Region = record r { base = at; size = sub64 r.size cut } in
    memblock_insert_region
      (record t { total_size = sub64 t.total_size cut; regions = set t.regions idx upper }) idx
      r.base cut r.nid r.flags

-- One round at the entry `r`, which meets [base, end). The second way leaves idx, as `idx--` and
-- the loop's `idx++` do.
unfoldable pub isolate_step : ℕ → ℕ → Region → CutState → Run CutState
unfolding split_region
isolate_step base end r s =
    if ltb r.base base
    then (split_region s.type s.idx r base >>= λ t. ok (record s { type = t; idx = s.idx + 1 }))
    else if ltb end (region_end r)
    then (split_region s.type s.idx r end >>= λ t. ok (record s { type = t }))
    else ok (record s {
      idx = s.idx + 1;
      start_rgn = if s.end_rgn == 0 then s.idx else s.start_rgn;
      end_rgn = s.idx + 1;
    })

-- The fuel counts rounds: an entry takes three at most.
unfoldable pub isolate_loop : ℕ → ℕ → ℕ → CutState → Run CutState
unfolding isolate_step
isolate_loop zero base end s = out_of_fuel
isolate_loop (suc k) base end s = elim (get_elem? s.type.regions s.idx) [
  | none ↦ ok s
  | some r ↦ elim (leb end r.base) [
    | true ↦ ok s
    | false ↦ elim (leb (region_end r) base) [
      | true ↦ isolate_loop k base end (record s { idx = s.idx + 1 })
      | false ↦ isolate_step base end r s >>= isolate_loop k base end
    ]
  ]
]

-- The out parameters are part of the result.
unfoldable pub memblock_isolate_range : MemblockType → ℕ → ℕ → Run (Status × CutState)
memblock_isolate_range t base size =
    let capped = memblock_cap_size base size in
    let start : CutState = record { type = t; idx = 0; start_rgn = 0; end_rgn = 0 } in
    if capped == 0
    then ok (success, start)
    else if ltb t.max (nr_regions t + 2)
    then ok (enomem, start)
    else (isolate_loop (3 * nr_regions t + 1) base (add64 base capped) start >>= λ s.
        ok (success, s))

-- `for (i = end_rgn - 1; i >= start_rgn; i--)`, with `n` entries to go.
unfoldable pub remove_regions : ℕ → ℕ → MemblockType → Run MemblockType
unfolding memblock_remove_region
remove_regions zero start t = ok t
remove_regions (suc n) start t = memblock_remove_region t (start + n) >>= remove_regions n start

unfoldable pub memblock_remove_range : MemblockType → ℕ → ℕ → Run (Status × MemblockType)
memblock_remove_range t base size = memblock_isolate_range t base size >>= λ (ret, s). elim ret [
  | enomem ↦ ok (enomem, s.type)
  | success ↦ remove_regions (s.end_rgn - s.start_rgn) s.start_rgn s.type >>= λ t'. ok (success, t')
]

-- `for (i = start_rgn; i < end_rgn; i++)`, with `n` entries to go.
unfoldable pub set_nodes : ℕ → ℕ → ℕ → List Region → Run (List Region)
set_nodes zero i nid rs = ok rs
set_nodes (suc n) i nid rs = elim (get_elem? rs i) [
  | none ↦ fault
  | some r ↦ set_nodes n (i + 1) nid (set rs i (record r { nid = nid }))
]

unfoldable pub memblock_set_node : ℕ → ℕ → MemblockType → ℕ → Run (Status × MemblockType)
memblock_set_node base size t nid = memblock_isolate_range t base size >>= λ (ret, s). elim ret [
  | enomem ↦ ok (enomem, s.type)
  | success ↦ set_nodes (s.end_rgn - s.start_rgn) s.start_rgn nid s.type.regions >>= λ rs.
      memblock_merge_regions (record s.type { regions = rs }) >>= λ t'. ok (success, t')
]
