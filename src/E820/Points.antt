-- ===== src/E820/Points.antt =====
-- arch/x86/kernel/e820.c: how many change points there are up to an address, and the overlap list.
use sandix.Common.{
  ℕ, suc, ◌+◌, ◌≤◌, ◌≡◌, refl, ap, ◌∙◌, inl, inr, Bool, not, ◌&&◌, some, List, [], ◌∷◌, arith, ltb,
  leb, ◌==◌, get_elem?, Bool-cases,
}
use sandix.Word.{ullong_max, add64-eq}
use sandix.Sort.Keeps.{bit, count}
use sandix.E820.{E820Entry, ChangeMember, change_points, addr_of, is_start}

-- The entries end in the address space.
abbrev pub AreWords : List E820Entry → Type 0
AreWords [] = Unit {0}
AreWords (e ∷ es) = (e.addr + e.size ≤ ullong_max) × AreWords es

abbrev pub spans : E820Entry → ℕ → Bool
spans e x = leb e.addr x && ltb x (e.addr + e.size)

-- How many entries with an index that passes the test hold `x`, from index `i` on.
abbrev pub covering : (ℕ → Bool) → ℕ → ℕ → List E820Entry → ℕ
covering g x i [] = 0
covering g x i (e ∷ es) = bit (spans e x && g i) + covering g x (i + 1) es

module _ (biosmap : List E820Entry) where
  abbrev pub starts : (ℕ → Bool) → ChangeMember → Bool
  starts g c = is_start biosmap c && g c.pbios

  abbrev pub ends : (ℕ → Bool) → ChangeMember → Bool
  ends g c = not (is_start biosmap c) && g c.pbios

  -- `es` are the entries from index `i` on.
  abbrev pub From : ℕ → List E820Entry → Type 0
  From i es = (k : ℕ) → get_elem? biosmap (i + k) ≡ get_elem? es k

  pub From-next : (i : ℕ) (e : E820Entry) (es : List E820Entry) → From i (e ∷ es) → From (i + 1) es
  From-next i e es from k = ap (get_elem? biosmap) (omega arith) ∙ from (suc k)

  pub From-head :
      (i : ℕ) (e : E820Entry) (es : List E820Entry) → From i (e ∷ es) → get_elem? biosmap i ≡ some e
  From-head i e es from = ap (get_elem? biosmap) (omega arith) ∙ from 0

  pub From-all : From 0 biosmap
  From-all k = ap (get_elem? biosmap) (omega arith)

  -- Up to `x` there are as many starts as ends and entries that hold `x`.
  pub balance :
      (g : ℕ → Bool) (x i : ℕ) (es : List E820Entry)
      → From i es
      → AreWords es
      → count (λ c. starts g c && leb c.addr x) (change_points i es)
        ≡ count (λ c. ends g c && leb c.addr x) (change_points i es) + covering g x i es
  unfolding change_points
  balance g x i [] from w = refl
  balance g x i (e ∷ es) from w =
      let rest = balance g x (i + 1) es (From-next i e es from) w.1 in
      let at = ap addr_of (From-head i e es from) in
      let stop = add64-eq e.addr e.size w.0 in
      elim (Bool-cases (e.size == 0)) [
        | inl empty ↦ rw (change_points, empty) (ground (arith, rest))
        | inr filled ↦ rw (change_points, filled, at, stop) (ground (arith, rest))
      ]

  -- No change point is in front of its entry.
  abbrev pub early : ChangeMember → Bool
  early c = ltb c.addr (addr_of (get_elem? biosmap c.pbios))

  pub change_points-early :
      (i : ℕ) (es : List E820Entry) → From i es → AreWords es → count early (change_points i es) ≡ 0
  unfolding change_points
  change_points-early i [] from w = refl
  change_points-early i (e ∷ es) from w =
      let rest = change_points-early (i + 1) es (From-next i e es from) w.1 in
      let at = ap addr_of (From-head i e es from) in
      let stop = add64-eq e.addr e.size w.0 in
      elim (Bool-cases (e.size == 0)) [
        | inl empty ↦ rw (change_points, empty) rest
        | inr filled ↦ rw (change_points, filled, at, stop) (ground (arith, rest))
      ]

  -- An entry ends once, and not among those behind it.
  pub change_points-ends :
      (j i : ℕ) (es : List E820Entry)
      → From i es
      → AreWords es
      → count (ends (λ k. k == j)) (change_points i es) ≤ bit (leb i j)
  unfolding change_points
  change_points-ends j i [] from w = omega arith
  change_points-ends j i (e ∷ es) from w =
      let rest = change_points-ends j (i + 1) es (From-next i e es from) w.1 in
      let at = ap addr_of (From-head i e es from) in
      let stop = add64-eq e.addr e.size w.0 in
      elim (Bool-cases (e.size == 0)) [
        | inl empty ↦ rw (change_points, empty) (ground (arith, rest))
        | inr filled ↦ rw (change_points, filled, at, stop) (ground (arith, rest))
      ]
