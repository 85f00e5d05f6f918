-- ===== src/Memblock/Ops.antt =====
-- mm/memblock.c: the operations on one region array that add memory.
use sandix.Common.{
  ℕ, zero, suc, ◌+◌, ◌-◌, Bool, true, false, not, ◌||◌, List, [], ◌∷◌, none, some, min, ltb, leb,
  ◌==◌, if◌then◌else◌, get_elem?, set, insert_at,
}
use sandix.Word.{ullong_max, add64, sub64}
use sandix.Memblock.Types.{
  Region, MemblockType, nr_regions, Status, success, enomem, Run, ok, bug, fault, out_of_fuel,
  ◌>>=◌,
}

-- The new size, which the C function both stores and returns.
abbrev pub memblock_cap_size : ℕ → ℕ → ℕ
memblock_cap_size base size = min size (ullong_max - base)

-- this->base + this->size
abbrev pub region_end : Region → ℕ
region_end r = add64 r.base r.size

unfoldable pub memblock_insert_region : MemblockType → ℕ → ℕ → ℕ → ℕ → ℕ → Run MemblockType
memblock_insert_region t idx base size nid flags =
    if leb t.max (nr_regions t)
    then bug
    else ok (record t {
      total_size = add64 t.total_size size;
      regions =
          insert_at idx (record { base = base; size = size; flags = flags; nid = nid }) t.regions;
    })

-- The test under which the loop does not merge `this` and `next`.
unfoldable pub keeps_apart : Region → Region → Bool
keeps_apart this next =
    not (region_end this == next.base)
    || not (this.nid == next.nid)
    || not (this.flags == next.flags)

-- The loop at index i, with `this` the entry there and the entries behind it as a list.
unfoldable pub merge_from : Region → List Region → Run (List Region)
merge_from this [] = ok (this ∷ [])
merge_from this (next ∷ rest) = elim (keeps_apart this next) [
  | true ↦
      if ltb next.base (region_end this)
      then bug
      else (merge_from next rest >>= λ merged. ok (this ∷ merged))
  | false ↦ merge_from (record this { size = add64 this.size next.size }) rest
]

unfoldable pub memblock_merge_regions : MemblockType → Run MemblockType
unfolding merge_from keeps_apart
memblock_merge_regions t = elim t.regions [
  | [] ↦ fault
  | this ∷ rest ↦ merge_from this rest >>= λ merged. ok (record t { regions = merged })
]

-- The arguments of memblock_add_range that its loop does not change.
pub record NewRange : Type 0 where
  pub end : ℕ
  pub nid : ℕ
  pub flags : ℕ

-- What the loop of memblock_add_range changes.
pub record AddState : Type 0 where
  pub type : MemblockType
  pub idx : ℕ
  pub base : ℕ
  pub nr_new : ℕ

-- If [s.base, to) is not empty, count it, and in the second round insert it before entry idx.
unfoldable pub add_gap : Bool → NewRange → ℕ → AddState → Run AddState
unfolding memblock_insert_region
add_gap insert n to s =
    if ltb s.base to
    then (if insert
        then (memblock_insert_region s.type s.idx s.base (sub64 to s.base) n.nid n.flags >>= λ t.
            ok (record s { type = t; idx = s.idx + 1; nr_new = s.nr_new + 1 }))
        else ok (record s { nr_new = s.nr_new + 1 }))
    else ok s

-- One round over the entries; the fuel counts the entries left, and one for the final test.
unfoldable pub add_loop : ℕ → Bool → NewRange → AddState → Run AddState
add_loop zero insert n s = out_of_fuel
add_loop (suc k) insert n s = elim (get_elem? s.type.regions s.idx) [
  | none ↦ ok s
  | some r ↦ elim (leb n.end r.base) [
    | true ↦ ok s
    | false ↦ elim (leb (region_end r) s.base) [
      | true ↦ add_loop k insert n (record s { idx = s.idx + 1 })
      | false ↦ add_gap insert n r.base s >>= λ s'.
          add_loop k insert n (record s' { idx = s'.idx + 1; base = min (region_end r) n.end })
    ]
  ]
]

-- One of the two rounds behind the label `repeat`.
unfoldable pub add_round : Bool → NewRange → ℕ → MemblockType → Run AddState
unfolding add_loop add_gap
add_round insert n obase t =
    add_loop (nr_regions t + 1) insert n (record { type = t; idx = 0; base = obase; nr_new = 0 })
    >>= add_gap insert n n.end

-- From the label `repeat` on: count, give up if the array is too small, then insert and merge.
unfoldable pub add_rounds : NewRange → ℕ → MemblockType → Run (Status × MemblockType)
unfolding add_round memblock_merge_regions
add_rounds n obase t = add_round false n obase t >>= λ counted.
    if ltb t.max (nr_regions t + counted.nr_new)
    then ok (enomem, t)
    else (add_round true n obase t >>= λ s.
        memblock_merge_regions s.type >>= λ merged. ok (success, merged))

unfoldable pub memblock_add_range : MemblockType → ℕ → ℕ → ℕ → ℕ → Run (Status × MemblockType)
memblock_add_range t base size nid flags =
    let capped = memblock_cap_size base size in
    if capped == 0 then ok (success, t) else elim (get_elem? t.regions 0) [
      | none ↦ fault
      | some first ↦
          if first.size == 0
          then ok (
            success,
            record t {
              total_size = capped;
              regions =
                  set t.regions 0 (record { base = base; size = capped; flags = flags; nid = nid });
            },
          )
          else add_rounds (record { end = add64 base capped; nid = nid; flags = flags }) base t
    ]
