-- ===== src/E820/Order.antt =====
-- sanitize_e820_map (arch/x86/kernel/e820.c): the change points behind the call of sort.
use sandix.Common.{
  ℕ, suc, ◌+◌, ◌≤◌, ◌≡◌, refl, ◌∙◌, inl, inr, Bool, false, some, List, [], ◌∷◌, arith, ltb, ◌==◌,
  get_elem?, Bool-cases,
}
use sandix.Word.{ullong_max, add64, add64-eq}
use sandix.Sort.{sort}
use sandix.Sort.Keeps.{count, sort-count}
use sandix.Sort.Sorted.{IsSorted, sort-IsSorted}
use sandix.E820.{no_member, E820Entry, ChangeMember, change_points, comes_before, any_wraps}
use sandix.E820.Sanitize.{Ascend, comes_before-IsOrder}
use sandix.E820.Points.{AreWords}

-- The fields of the entries are 64-bit words.
abbrev pub AreU64 : List E820Entry → Type 0
AreU64 [] = Unit {0}
AreU64 (e ∷ es) = (e.addr ≤ ullong_max) × (e.size ≤ ullong_max) × AreU64 es

pub any_wraps-AreWords : (es : List E820Entry) → AreU64 es → any_wraps es ≡ false → AreWords es
unfolding any_wraps add64
any_wraps-AreWords [] u h = tt
any_wraps-AreWords (e ∷ es) u h =
    (ground (arith, u.0, u.1, h), any_wraps-AreWords es u.2 (ground (arith, h)))

abbrev beyond : ChangeMember → Bool
beyond c = ltb ullong_max c.addr

change_points-bounded :
    (i : ℕ) (es : List E820Entry) → AreWords es → count beyond (change_points i es) ≡ 0
unfolding change_points
change_points-bounded i [] w = refl
change_points-bounded i (e ∷ es) w =
    let rest = change_points-bounded (i + 1) es w.1 in
    let stop = add64-eq e.addr e.size w.0 in
    elim (Bool-cases (e.size == 0)) [
      | inl empty ↦ rw (change_points, empty) rest
      | inr filled ↦ rw (change_points, filled, stop) (ground (arith, rest, w.0))
    ]

module _ (biosmap : List E820Entry) where
  IsSorted-tail :
      (c : ChangeMember) (cs : List ChangeMember)
      → IsSorted (comes_before biosmap) (c ∷ cs)
      → IsSorted (comes_before biosmap) cs
  IsSorted-tail c cs s p q a b less e e' = s (suc p) (suc q) a b (omega arith) e e'

  IsSorted-Ascend :
      (a : ℕ) (cs : List ChangeMember)
      → IsSorted (comes_before biosmap) cs
      → count beyond cs ≡ 0
      → ((c : ChangeMember) → get_elem? cs 0 ≡ some c → a ≤ c.addr)
      → Ascend a cs
  IsSorted-Ascend a [] s bound first = tt
  IsSorted-Ascend a (c ∷ cs) s bound first = (
    first c refl,
    ground (arith, bound),
    IsSorted-Ascend c.addr cs (IsSorted-tail c cs s) (omega (arith, bound))
        (λ d at. let apart = s 0 1 c d (omega arith) refl at in ground (arith, apart)),
  )

  abbrev pub points : List ChangeMember
  points = sort (comes_before biosmap) no_member (change_points 0 biosmap)

  pub points-Ascend : AreWords biosmap → Ascend 0 points
  points-Ascend w =
      IsSorted-Ascend 0 points
        (sort-IsSorted (comes_before biosmap) (comes_before-IsOrder biosmap) no_member
          (change_points 0 biosmap))
        (sort-count (comes_before biosmap) beyond no_member (change_points 0 biosmap)
          ∙ change_points-bounded 0 biosmap w)
        (λ c at. omega arith)
