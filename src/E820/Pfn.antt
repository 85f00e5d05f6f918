-- ===== src/E820/Pfn.antt =====
-- e820_end_pfn (arch/x86/kernel/e820.c): the highest page frame number.
use sandix.Common.{
  ℕ, ◌/◌, ◌≤◌, ◌≡◌, inl, inr, not, ◌&&◌, ◌||◌, List, [], ◌∷◌, arith, ltb, leb, ◌==◌, min, max,
  if◌then◌else◌, Bool-cases,
}
use sandix.Word.{add64}
use sandix.E820.{E820Entry, e820_ram, e820_pram, end_pfn_loop, e820_end_pfn}

-- The largest end of the RAM and persistent memory that starts at `limit` or below, in pages and
-- cut at `limit`.
abbrev pub highest : ℕ → List E820Entry → ℕ
highest limit [] = 0
highest limit (e ∷ es) =
    max
      (if (e.type == e820_ram || e.type == e820_pram) && leb (e.addr / 4096) limit
        then min limit (add64 e.addr e.size / 4096)
        else 0)
      (highest limit es)

highest-le : (limit : ℕ) (es : List E820Entry) → highest limit es ≤ limit
highest-le limit [] = omega arith
highest-le limit (e ∷ es) = ground (arith, highest-le limit es)

end_pfn_loop-highest :
    (limit : ℕ) (es : List E820Entry) (last : ℕ)
    → last ≤ limit
    → end_pfn_loop limit es last ≡ max last (highest limit es)
unfolding end_pfn_loop
end_pfn_loop-highest limit [] last h = omega arith
end_pfn_loop-highest limit (e ∷ es) last h =
    let end = add64 e.addr e.size / 4096 in
    let below = highest-le limit es in
    elim (Bool-cases
      ((not (e.type == e820_ram) && not (e.type == e820_pram)) || ltb limit (e.addr / 4096))) [
        | inl skip ↦ rw (end_pfn_loop, skip) (ground (arith, end_pfn_loop-highest limit es last h))
        | inr take ↦ elim (Bool-cases (ltb limit end)) [
          | inl over ↦ rw (end_pfn_loop, take, over) (ground (arith, below))
          | inr inside ↦
              let rest = end_pfn_loop-highest limit es (max last end) (ground arith) in
              rw (end_pfn_loop, take, inside) (ground (arith, rest, below))
        ]
      ]

-- e820_end_pfn returns the largest end, in page frames, of the RAM and persistent memory that
-- starts at the limit or below, cut at the limit and at MAX_ARCH_PFN: the early end of its loop
-- misses no entry.
pub e820_end_pfn-highest :
    (max_arch_pfn : ℕ) (map : List E820Entry) (limit : ℕ)
    → e820_end_pfn max_arch_pfn map limit ≡ min max_arch_pfn (highest limit map)
unfolding e820_end_pfn
e820_end_pfn-highest max_arch_pfn map limit =
    let loop = end_pfn_loop-highest limit map 0 (omega arith) in ground (arith, loop)
