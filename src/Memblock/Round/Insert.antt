-- ===== src/Memblock/Round/Insert.antt =====
-- The second round of memblock_add_range (mm/memblock.c) leaves the spliced list.
use mathlib.Core.List.{append_assoc, append-nil}
use sandix.Common.{
  ℕ, zero, suc, ◌+◌, ◌-◌, ◌≤◌, ◌<◌, ◌≡◌, refl, sym, ap, true, false, inl, inr, List, [], some, ◌∷◌,
  ◌++◌, arith, length, length-append, min, ltb, leb, get_elem?, get_elem?-append, get_elem?-length,
  insert_at-append, Bool-cases, ltb→lt,
}
use sandix.Word.{ullong_max, add64-eq, sub64-eq}
use sandix.Memblock.Types.{Region, MemblockType, Run, ok, ◌>>=◌}
use sandix.Memblock.Ops.{memblock_insert_region, NewRange, AddState, add_gap, add_loop}
use sandix.Memblock.Cover.{sum_sizes, sum_sizes-append, IsOrdered}
use sandix.Memblock.Splice.{gap, splice, splice-end, splice-pass, splice-fill, splice_grows}
use sandix.Memblock.Round.{
  IsAt, IsAt-step, add_loop-none, add_loop-end, add_loop-pass, add_loop-fill,
}

-- `out` fits the storage and the address space.
pub record Fits (m : ℕ) (out : List Region) : Type 0 where
  pub room : length out ≤ m
  pub sum : sum_sizes out ≤ ullong_max

pub memblock_insert_region_lem :
    (t : MemblockType) (idx base size nid flags : ℕ) (before rest : List Region)
    → t.regions ≡ before ++ rest
    → idx ≡ length before
    → length before + length rest < t.max
    → t.total_size + size ≤ ullong_max
    → memblock_insert_region t idx base size nid flags
      ≡ ok (record t {
        total_size = t.total_size + size;
        regions = before ++ record { base = base; size = size; flags = flags; nid = nid } ∷ rest;
      })
unfolding memblock_insert_region
memblock_insert_region_lem t idx base size nid flags before rest e place room sum = ground (
  arith,
  ap length e,
  length-append before rest,
  insert_at-append before (record { base = base; size = size; flags = flags; nid = nid }) rest,
  add64-eq t.total_size size sum,
)

abbrev Gapped : ℕ → NewRange → List Region → List Region → ℕ → AddState → Type 0
Gapped m n before rest to s =
    (s' : AddState) × (add_gap true n to s ≡ ok s') × IsAt m (before ++ gap n s.base to) rest s'

module _ (m : ℕ) (n : NewRange) (before rest : List Region) (to : ℕ) (s : AddState)
    (p : IsAt m before rest s) where
  add_gap-none : ltb s.base to ≡ false → Gapped m n before rest to s
  unfolding add_gap gap
  add_gap-none c = rw (c, append-nil) (s, refl, p)

  -- The new region, as the round inserts it.
  abbrev fresh : Region
  fresh = record { base = s.base; size = to - s.base; flags = n.flags; nid = n.nid }

  gap-fresh : ltb s.base to ≡ true → gap n s.base to ≡ fresh ∷ []
  unfolding gap
  gap-fresh c = rw c

  add_gap-some :
      to ≤ ullong_max
      → Fits m (before ++ fresh ∷ rest)
      → ltb s.base to ≡ true
      → Gapped m n before rest to s
  unfolding add_gap
  add_gap-some e f c =
      let lengths = length-append before (fresh ∷ rest) in
      let sums = sum_sizes-append before (fresh ∷ rest) in
      let sums' = sum_sizes-append before rest in
      let inserted =
        memblock_insert_region_lem s.type s.idx s.base (to - s.base) n.nid n.flags before rest
          p.split p.place (omega (arith, f.room, p.limit, lengths))
          (omega (arith, f.sum, p.total, sums, sums')) in
      rw (gap-fresh c, c, sub64-eq to s.base (omega (arith, ltb→lt s.base to c)) e, inserted)
        (
          record s {
            type = record s.type {
              total_size = s.type.total_size + (to - s.base);
              regions = before ++ fresh ∷ rest;
            };
            idx = s.idx + 1;
            nr_new = s.nr_new + 1;
          },
          refl,
          record {
            split = sym (append_assoc before (fresh ∷ []) rest);
            place = omega (arith, p.place, length-append before (fresh ∷ []));
            total =
                rw (append_assoc before (fresh ∷ []) rest) (omega (arith, p.total, sums, sums'));
            limit = p.limit;
          },
        )

  pub add_gap-true :
      to ≤ ullong_max → Fits m ((before ++ gap n s.base to) ++ rest) → Gapped m n before rest to s
  add_gap-true e f = elim (Bool-cases (ltb s.base to)) [
    | inl c ↦ add_gap-some e (rw (gap-fresh c, append_assoc before (fresh ∷ []) rest) at f) c
    | inr c ↦ add_gap-none c
  ]

-- What the second round leaves: `out` in place of the regions, with the total to match.
pub record Inserts (m : ℕ) (out : List Region) (run : Run AddState) : Type 0 where
  pub final : AddState
  pub runs : run ≡ ok final
  pub regions : final.type.regions ≡ out
  pub total : final.type.total_size ≡ sum_sizes out
  pub limit : final.type.max ≡ m

gap-Inserts :
    (m : ℕ) (n : NewRange) (before rest : List Region) (to : ℕ) (s : AddState)
    → Gapped m n before rest to s
    → Inserts m (before ++ gap n s.base to ++ rest) (add_gap true n to s)
gap-Inserts m n before rest to s (s', runs, at) = record {
  final = s';
  runs = runs;
  regions = at.split;
  total = at.total;
  limit = at.limit;
}

-- The goal of a round that stands between `before` and `rest`.
abbrev pub Goal : ℕ → NewRange → List Region → List Region → ℕ → AddState → Type 0
Goal m n before rest k s =
    Inserts m (before ++ splice n s.base rest) (add_loop k true n s >>= add_gap true n n.end)

abbrev RestGoals : ℕ → NewRange → List Region → ℕ → Type 0
RestGoals m n rest k =
    (before : List Region) (t : AddState)
    → Fits m (before ++ splice n t.base rest)
    → IsAt m before rest t
    → Goal m n before rest k t

Fits-head :
    (m : ℕ) (before : List Region) (r : Region) (rest tail : List Region)
    → (length rest ≤ length tail) × (sum_sizes rest ≤ sum_sizes tail)
    → Fits m (before ++ r ∷ tail)
    → Fits m (before ++ r ∷ rest)
Fits-head m before r rest tail g f = record {
  room =
      omega (arith, f.room, g.0, length-append before (r ∷ tail), length-append before (r ∷ rest));
  sum =
      omega
        (arith, f.sum, g.1, sum_sizes-append before (r ∷ tail), sum_sizes-append before (r ∷ rest));
}

-- The invariants of a round that stands before the entry `r`.
module _ (k m : ℕ) (n : NewRange) (lo : ℕ) (before : List Region) (r : Region) (rest : List Region)
    (s : AddState) (e : n.end ≤ ullong_max) (o : IsOrdered lo (r ∷ rest))
    (f : Fits m (before ++ splice n s.base (r ∷ rest))) (p : IsAt m before (r ∷ rest) s) where
  here : get_elem? s.type.regions s.idx ≡ some r
  here = rw (p.split, p.place) (get_elem?-append before r rest)

  Goal-end : leb n.end r.base ≡ true → Goal m n before (r ∷ rest) (suc k) s
  Goal-end h =
      let out = append_assoc before (gap n s.base n.end) (r ∷ rest) in
      let f' = rw (splice-end n s.base r rest h, ← out) at f in
      rw (add_loop-end k true n s r here o.2 h, splice-end n s.base r rest h, ← out)
        (gap-Inserts m n before (r ∷ rest) n.end s
          (add_gap-true m n before (r ∷ rest) n.end s p e f'))

  Goal-pass :
      leb n.end r.base ≡ false
      → leb (r.base + r.size) s.base ≡ true
      → RestGoals m n rest k
      → Goal m n before (r ∷ rest) (suc k) s
  Goal-pass h c ih =
      let out = append_assoc before (r ∷ []) (splice n s.base rest) in
      let f' = rw (splice-pass n s.base r rest h c, ← out) at f in
      rw (add_loop-pass k true n s r here o.2 h c, splice-pass n s.base r rest h c, ← out)
        (ih (before ++ r ∷ []) (record s { idx = s.idx + 1 }) f'
          (IsAt-step m before r rest s s.base p))

  Goal-fill :
      leb n.end r.base ≡ false
      → leb (r.base + r.size) s.base ≡ false
      → RestGoals m n rest k
      → Goal m n before (r ∷ rest) (suc k) s
  Goal-fill h c ih =
      let next : ℕ = min (r.base + r.size) n.end in
      let g : List Region = gap n s.base r.base in
      let tail : List Region = splice n next rest in
      let cut = splice-fill n s.base r rest h c in
      let f' : Fits m (before ++ g ++ r ∷ tail) =
        rw (cut, ← append_assoc before g (r ∷ tail)) at f in
      let (s', runs, at) =
        add_gap-true m n before (r ∷ rest) r.base s p (omega (arith, o.2))
          (Fits-head m (before ++ g) r rest tail (splice_grows n next rest) f') in
      let seam = append_assoc (before ++ g) (r ∷ []) tail in
      rw
        (
          add_loop-fill k true n s r here o.2 h c,
          cut,
          runs,
          ← append_assoc before g (r ∷ tail),
          ← seam,
        )
        (ih (before ++ g ++ r ∷ []) (record s' { idx = s'.idx + 1; base = next })
          (rw (← seam) at f') (IsAt-step m (before ++ g) r rest s' next at))

pub add_loop-true :
    (k m : ℕ) (n : NewRange) (lo : ℕ) (before rest : List Region) (s : AddState)
    → length rest < k
    → n.end ≤ ullong_max
    → IsOrdered lo rest
    → Fits m (before ++ splice n s.base rest)
    → IsAt m before rest s
    → Goal m n before rest k s
add_loop-true zero m n lo before rest s h e o f p = absurd (omega arith)
add_loop-true (suc k) m n lo before [] s h e o f p =
    unfold splice in
    let f' = rw (← append-nil (before ++ gap n s.base n.end)) at f in
    rw (add_loop-none k true n s (rw (p.split, p.place) (get_elem?-length before))) (
      rw append-nil at
        (gap-Inserts m n before [] n.end s (add_gap-true m n before [] n.end s p e f')))
add_loop-true (suc k) m n lo before (r ∷ rest) s h e o f p =
    let next : RestGoals m n rest k =
      λ b t f' p'. add_loop-true k m n (r.base + r.size) b rest t (omega arith) e o.3 f' p' in
    elim (Bool-cases (leb n.end r.base)) [
      | inl c ↦ Goal-end k m n lo before r rest s e o f p c
      | inr c ↦ elim (Bool-cases (leb (r.base + r.size) s.base)) [
        | inl d ↦ Goal-pass k m n lo before r rest s e o f p c d next
        | inr d ↦ Goal-fill k m n lo before r rest s e o f p c d next
      ]
    ]
