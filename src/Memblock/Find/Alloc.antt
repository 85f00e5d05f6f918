-- ===== src/Memblock/Find/Alloc.antt =====
-- memblock_virt_alloc_internal (mm/memblock.c): what an allocation hands out.
use sandix.Common.{
  ℕ, ◌+◌, ◌≤◌, ◌<◌, ◌≡◌, refl, ◌⊎◌, inl, inr, true, false, ◌||◌, not, Option, none, some, arith,
  max, ltb, ◌==◌, if◌then◌else◌, Bool-cases,
}
use sandix.Word.{ullong_max}
use sandix.Memblock.Types.{MemblockType, Status, Run, ok}
use sandix.Memblock.Cover.{within, covers, IsValid}
use sandix.Memblock.Add.{new_range}
use sandix.Memblock.Add.Outcome.{AddOutcome}
use sandix.Memblock.Cut.{max_nr_nodes}
use sandix.Memblock.State.{Memblock}
use sandix.Memblock.State.Calls.{IsSound, reserve_sound}
use sandix.Memblock.Range.{numa_no_node, any_node}
use sandix.Memblock.Find.{
  Request, bounded, memblock_find_in_range_node, alloc_round, alloc_done,
  memblock_virt_alloc_internal,
}
use sandix.Memblock.Find.TopDown.{IsFreeBlock, memblock_find_in_range_node_sound}

-- [addr, addr + size) is memory that was not reserved, below `top`, and not in the first page.
pub record IsBlock (size top : ℕ) (m : Memblock) (addr : ℕ) : Type 0 where
  pub low : 4096 ≤ addr
  pub high : addr + size ≤ top
  pub memory : (x : ℕ) → within addr (addr + size) x ≡ true → covers m.memory.regions x ≡ true
  pub free : (x : ℕ) → within addr (addr + size) x ≡ true → covers m.reserved.regions x ≡ false

-- NULL, and nothing has changed; or a free block, and the array `reserved` is what memblock_reserve
-- makes of it.
pub data Allocates (size top : ℕ) (m : Memblock) : Option ℕ × Memblock → Type 0 where
  fails : Allocates size top m (none, m)
  hands_out :
      (addr : ℕ) (o : Status × MemblockType)
      → IsBlock size top m addr
      → AddOutcome m.reserved (new_range addr size max_nr_nodes 0) addr o
      → IsValid o.1
      → Allocates size top m (some addr, record m { reserved = o.1 })

module _ (kernel_end : ℕ) (m : Memblock) (v : IsSound m) (la : m.memory.max < 0x8000_0000)
    (lb : m.reserved.max < 0x8000_0000) (hl : m.current_limit ≤ ullong_max) where
  -- A search for `q` that ends below `top`.
  abbrev Rounds : Request → ℕ → Run ℕ → Type 0
  Rounds q top run = (cand : ℕ) × (run ≡ ok cand) × ((cand ≡ 0) ⊎ IsBlock q.size top m cand)

  found-IsBlock :
      (q : Request) (top cand : ℕ)
      → (bounded q m).end ≤ top
      → (cand ≡ 0) ⊎ IsFreeBlock (bounded q m) m cand
      → (cand ≡ 0) ⊎ IsBlock q.size top m cand
  found-IsBlock q top cand h (inl e) = inl e
  found-IsBlock q top cand h (inr f) = inr (record {
    low = omega (arith, f.low);
    high = omega (arith, f.high);
    memory = f.memory;
    free = f.free;
  })

  search_block :
      (q : Request) (top : ℕ)
      → q.start ≤ ullong_max
      → q.end ≤ ullong_max
      → (bounded q m).end ≤ top
      → Rounds q top (memblock_find_in_range_node kernel_end q m)
  search_block q top hs he h =
      let (cand, runs, f) = memblock_find_in_range_node_sound kernel_end q m v la lb hs he hl in
      (cand, runs, found-IsBlock q top cand h f)

  alloc_round_block :
      (q : Request) (top : ℕ)
      → q.start ≤ ullong_max
      → q.end ≤ ullong_max
      → (bounded q m).end ≤ top
      → Rounds q top (alloc_round kernel_end q m)
  unfolding alloc_round
  alloc_round_block q top hs he h =
      let (cand, runs, f) = search_block q top hs he h in
      let (cand', runs', f') = search_block (record q { nid = numa_no_node }) top hs he h in
      elim (Bool-cases (not (cand == 0) || q.nid == numa_no_node)) [
        | inl done ↦ (cand, rw runs (rw done), f)
        | inr again ↦ (cand', rw runs (rw (again, runs')), f')
      ]

  done_block :
      (addr size top : ℕ)
      → addr ≤ ullong_max
      → IsBlock size top m addr
      → (r : Option ℕ × Memblock) × (alloc_done addr size m ≡ ok r) × Allocates size top m r
  unfolding alloc_done
  done_block addr size top ha b =
      let (o, runs, ends, valid) = reserve_sound m addr size v ha in
      ((some addr, record m { reserved = o.1 }), rw runs, hands_out addr o b ends valid)

  abbrev Ends : ℕ → ℕ → Run (Option ℕ × Memblock) → Type 0
  Ends size top run = (r : Option ℕ × Memblock) × (run ≡ ok r) × Allocates size top m r

  -- The test behind a round.
  branch-Ends :
      (c size top : ℕ) (rest : Run (Option ℕ × Memblock))
      → top ≤ ullong_max
      → (c ≡ 0) ⊎ IsBlock size top m c
      → Ends size top rest
      → Ends size top (if not (c == 0) then alloc_done c size m else rest)
  branch-Ends c size top rest h (inl e) other =
      let zero_found : (c == 0) ≡ true = ground arith in rw zero_found other
  branch-Ends c size top rest h (inr b) other =
      let some_found : (c == 0) ≡ false = ground (arith, b.low) in
      rw some_found (done_block c size top (omega (arith, b.high)) b)

  -- On sound state whose arrays have room for fewer than 2 ^ 31 regions, with a limit and bounds in
  -- the address space, before slab is up, an allocation returns. Either it returns NULL and has
  -- changed nothing, or it returns the base of a block that is memory, was not reserved, is not in
  -- the first page and ends by the limit (or by the lower bound, if that is above the limit), and
  -- the reserved array is what memblock_reserve makes of the block, which can be -ENOMEM and no
  -- change.
  pub memblock_virt_alloc_internal_lem :
      (size align min_addr max_addr nid : ℕ)
      → min_addr ≤ ullong_max
      → max_addr ≤ ullong_max
      → (r : Option ℕ × Memblock) × (memblock_virt_alloc_internal false kernel_end size align
            min_addr max_addr nid m
          ≡ ok r)
        × Allocates size (max (max min_addr 4096) m.current_limit) m r
  unfolding memblock_virt_alloc_internal
  memblock_virt_alloc_internal_lem size align min_addr max_addr nid hs he =
      let top : ℕ = max (max min_addr 4096) m.current_limit in
      let limit : ℕ = if ltb m.current_limit max_addr then m.current_limit else max_addr in
      let q : Request = record {
        start = min_addr;
        end = limit;
        size = size;
        align = if align == 0 then 64 else align;
        nid = any_node nid;
        flags = 0;
      } in
      let hq : limit ≤ ullong_max = ground arith in
      let (c, runs, f) = alloc_round_block q top hs hq (ground arith) in
      let (d, runs', f') =
        alloc_round_block (record q { start = 0 }) top (omega arith) hq (ground arith) in
      rw runs (
        branch-Ends c size top _ (omega arith) f (elim (Bool-cases (min_addr == 0)) [
          | inl z ↦ rw z ((none, m), refl, fails)
          | inr n ↦ rw n (
              rw runs'
                (branch-Ends d size top (ok (none, m)) (omega arith) f' ((none, m), refl, fails)))
        ]))
