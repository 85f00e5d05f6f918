-- ===== src/Memblock/Find/TopDown.antt =====
-- __memblock_find_range_top_down (mm/memblock.c): the search ends, and what it finds is free.
use sandix.Common.{
  ℕ, zero, suc, ◌+◌, ◌-◌, ◌/◌, ◌%◌, ◌≤◌, ◌<◌, ◌≡◌, refl, ◌∙◌, ◌⊎◌, inl, inr, true, false, Option,
  none, some, arith, ◌==◌, Bool-cases, Option-cases,
}
use sandix.Word.{ullong_max, sub64, sub64-eq, bit_and-le}
use sandix.Memblock.Types.{nr_regions, Run, ok}
use sandix.Memblock.Cover.{within, covers}
use sandix.Memblock.State.{Memblock}
use sandix.Memblock.State.Calls.{IsSound}
use sandix.Memblock.Range.{
  Area, pack, less_one, word32, any_node, scan_regions_rev, next_mem_range_rev,
}
use sandix.Memblock.Range.Finds.{Finds, nothing, finds, scan_regions_rev-Finds}
use sandix.Memblock.Find.{
  Request, clamp, round_down, try_top_down, find_top_down, find_fuel, bounded,
  memblock_find_in_range_node,
}

-- [cand, cand + size) lies in the request's range, in memory, and is not reserved.
pub record IsFreeBlock (q : Request) (m : Memblock) (cand : ℕ) : Type 0 where
  pub low : q.start ≤ cand
  pub high : cand + q.size ≤ q.end
  pub memory : (x : ℕ) → within cand (cand + q.size) x ≡ true → covers m.memory.regions x ≡ true
  pub free : (x : ℕ) → within cand (cand + q.size) x ≡ true → covers m.reserved.regions x ≡ false

round_down-le : (x y : ℕ) → round_down x y ≤ x
unfolding round_down
round_down-le x y = bit_and-le x (ullong_max - sub64 y 1)

try_top_down-some :
    (q : Request) (g : Area) (cand : ℕ)
    → try_top_down q g ≡ some cand
    → (q.size ≤ clamp g.end q.start q.end)
      × (cand ≡ round_down (sub64 (clamp g.end q.start q.end) q.size) q.align)
      × (clamp g.start q.start q.end ≤ cand)
unfolding try_top_down
try_top_down-some q g cand t = ground arith

-- A candidate lies in the area that it was made from.
try_top_down_inside :
    (q : Request) (g : Area) (cand : ℕ)
    → q.start ≤ q.end
    → q.end ≤ ullong_max
    → try_top_down q g ≡ some cand
    → (q.start ≤ cand)
      × (cand + q.size ≤ q.end)
      × ((x : ℕ) → within cand (cand + q.size) x ≡ true → within g.start g.end x ≡ true)
try_top_down_inside q g cand h e t =
    let (fits, at, low) = try_top_down-some q g cand t in
    let this_end : ℕ = clamp g.end q.start q.end in
    let room = sub64-eq this_end q.size fits (omega arith) in
    let down = round_down-le (sub64 this_end q.size) q.align in
    let top : cand + q.size ≤ this_end = omega (arith, at, down, room, fits) in
    (omega (arith, low), omega (arith, top), λ x w. inside x w low top)
  where
    inside :
        (x : ℕ)
        → within cand (cand + q.size) x ≡ true
        → clamp g.start q.start q.end ≤ cand
        → cand + q.size ≤ clamp g.end q.start q.end
        → within g.start g.end x ≡ true
    inside x w low top =
        let lo : cand ≤ x = ground arith in
        let hi : x < cand + q.size = ground arith in
        let p : g.start ≤ x = omega arith in let r : x < g.end = omega arith in ground arith

unpack_a :
    (na nb : ℕ) → na < word32 → nb < word32 → (pack (less_one na) (less_one nb) + 1) % word32 ≡ na
unpack_a na nb h k = omega arith

unpack_b :
    (na nb : ℕ)
    → na < word32
    → nb < word32
    → (pack (less_one na) (less_one nb) / word32 + 1) % word32 ≡ nb
unpack_b na nb h k = omega arith

-- A search that has `na` regions and `nb` areas to go.
module _ (q : Request) (m : Memblock) (v : IsSound m) (la : nr_regions m.memory < word32)
    (lb : nr_regions m.reserved + 1 < word32) (h : q.start ≤ q.end) (e : q.end ≤ ullong_max) where
  abbrev Results : Run ℕ → Type 0
  Results run = (cand : ℕ) × (run ≡ ok cand) × ((cand ≡ 0) ⊎ IsFreeBlock q m cand)

  abbrev scan : ℕ → ℕ → Run (ℕ × Option Area)
  scan na nb = scan_regions_rev (any_node q.nid) q.flags m.memory (some m.reserved) na nb

  abbrev step : ℕ → Run (ℕ × Option Area)
  step i = next_mem_range_rev i q.nid q.flags m.memory (some m.reserved)

  next-unpack :
      (na nb : ℕ)
      → na < word32
      → nb < word32
      → (pack (less_one na) (less_one nb) == ullong_max) ≡ false
      → step (pack (less_one na) (less_one nb)) ≡ scan na nb
  unfolding next_mem_range_rev
  next-unpack na nb ha hb more = rw (more, unpack_a na nb ha hb, unpack_b na nb ha hb)

  next-first : step ullong_max ≡ scan (nr_regions m.memory) (nr_regions m.reserved + 1)
  unfolding next_mem_range_rev
  next-first = refl

  top_down-none : (k i : ℕ) → step i ≡ ok (ullong_max, none) → find_top_down (suc k) q m i ≡ ok 0
  unfolding find_top_down
  top_down-none k i s = rw s

  top_down-last :
      (k i j : ℕ) (g : Option Area)
      → step i ≡ ok (j, g)
      → (j == ullong_max) ≡ true
      → find_top_down (suc k) q m i ≡ ok 0
  unfolding find_top_down
  top_down-last k i j g s l = rw s (ground arith)

  top_down-some :
      (k i j : ℕ) (g : Area) (cand : ℕ)
      → step i ≡ ok (j, some g)
      → (j == ullong_max) ≡ false
      → try_top_down q g ≡ some cand
      → find_top_down (suc k) q m i ≡ ok cand
  unfolding find_top_down
  top_down-some k i j g cand s l t = rw s (ground arith)

  top_down-on :
      (k i j : ℕ) (g : Area)
      → step i ≡ ok (j, some g)
      → (j == ullong_max) ≡ false
      → try_top_down q g ≡ none
      → find_top_down (suc k) q m i ≡ find_top_down k q m j
  unfolding find_top_down
  top_down-on k i j g s l t = rw s (ground arith)

  abbrev Later : ℕ → ℕ → ℕ → Type 0
  Later k na nb =
      (na' nb' : ℕ)
      → na' ≤ na
      → nb' ≤ nb
      → na' + nb' < na + nb
      → step (pack (less_one na') (less_one nb')) ≡ scan na' nb'
      → Results (find_top_down k q m (pack (less_one na') (less_one nb')))

  found :
      (k i na nb : ℕ)
      → na ≤ nr_regions m.memory
      → nb ≤ nr_regions m.reserved + 1
      → step i ≡ scan na nb
      → Later k na nb
      → Finds m.memory m.reserved na nb (scan na nb)
      → Results (find_top_down (suc k) q m i)
  found k i na nb ha hb s later (nothing r) = (0, top_down-none k i (s ∙ r), inl refl)
  found k i na nb ha hb s later (finds g na' nb' p o w clear r) =
      elim (Bool-cases (pack (less_one na') (less_one nb') == ullong_max)) [
        | inl last ↦ (0, top_down-last k i _ (some g) (s ∙ r) last, inl refl)
        | inr more ↦ elim (Option-cases (try_top_down q g)) [
          | inl t ↦
              rw (top_down-on k i _ g (s ∙ r) more t)
                (later na' nb' p o w (next-unpack na' nb' (omega arith) (omega arith) more))
          | inr (cand, t) ↦
              let (low, high, inside) = try_top_down_inside q g cand h e t in
              (
                cand,
                top_down-some k i _ g cand (s ∙ r) more t,
                inr (record {
                  low = low;
                  high = high;
                  memory = λ x c. (clear x (inside x c)).0;
                  free = λ x c. (clear x (inside x c)).1;
                }),
              )
        ]
      ]

  -- The rounds from an index that stands for the counts na and nb.
  find_top_down_results :
      (k i na nb : ℕ)
      → na + nb < k
      → na ≤ nr_regions m.memory
      → nb ≤ nr_regions m.reserved + 1
      → step i ≡ scan na nb
      → Results (find_top_down k q m i)
  find_top_down_results zero i na nb f ha hb s = absurd (omega arith)
  find_top_down_results (suc k) i na nb f ha hb s =
      found k i na nb ha hb s
        (λ na' nb' p r w t.
          find_top_down_results k (pack (less_one na') (less_one nb')) na' nb' (omega arith)
            (omega arith) (omega arith) t)
        (scan_regions_rev-Finds m.memory m.reserved (any_node q.nid) q.flags v.memory v.reserved la
          lb na nb ha hb)

-- On sound state whose arrays have room for fewer than 2 ^ 31 regions, with a limit and a request
-- in the address space, memblock_find_in_range_node returns: 0, or the base of a block that lies in
-- the request's range behind the first page, in memory, and is not reserved.
pub memblock_find_in_range_node_sound :
    (kernel_end : ℕ) (q : Request) (m : Memblock)
    → IsSound m
    → m.memory.max < 0x8000_0000
    → m.reserved.max < 0x8000_0000
    → q.start ≤ ullong_max
    → q.end ≤ ullong_max
    → m.current_limit ≤ ullong_max
    → (cand : ℕ) × (memblock_find_in_range_node kernel_end q m ≡ ok cand)
      × ((cand ≡ 0) ⊎ IsFreeBlock (bounded q m) m cand)
unfolding memblock_find_in_range_node
memblock_find_in_range_node_sound kernel_end q m v la lb hs he hl =
    find_top_down_results (bounded q m) m v (omega (arith, v.memory.bounded))
      (omega (arith, v.reserved.bounded)) (omega arith) (ground arith) (find_fuel m) ullong_max
      (nr_regions m.memory) (nr_regions m.reserved + 1) (omega arith) (omega arith) (omega arith)
      (next-first (bounded q m) m v (omega (arith, v.memory.bounded))
        (omega (arith, v.reserved.bounded)) (omega arith) (ground arith))
