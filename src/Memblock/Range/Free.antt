-- ===== src/Memblock/Range/Free.antt =====
-- mm/memblock.c: the areas before the entries of an array hold no address of it.
use sandix.Common.{
  ℕ, zero, suc, ◌+◌, ◌≤◌, ◌<◌, ◌≡◌, refl, sym, ◌∙◌, inl, inr, true, false, some, List, [], ◌∷◌,
  arith, length, get_elem?,
}
use sandix.Word.{ullong_max}
use sandix.Memblock.Types.{Region, MemblockType, ok}
use sandix.Memblock.Ops.{region_end}
use sandix.Memblock.Cover.{holds, covers, IsOrdered, IsOrdered-below, IsValid, region_end-eq}
use sandix.Memblock.Range.{area_start, area_end}

-- An entry of an array in order, its end, and what it covers.
pub get_elem?-IsOrdered :
    (lo : ℕ) (rs : List Region) (i : ℕ) (r : Region)
    → IsOrdered lo rs
    → get_elem? rs i ≡ some r
    → (lo ≤ r.base) × (r.base + r.size ≤ ullong_max)
get_elem?-IsOrdered lo [] i r o e = cc
get_elem?-IsOrdered lo (q ∷ rs) zero r o e = ground arith
get_elem?-IsOrdered lo (q ∷ rs) (suc i) r o e =
    let ih = get_elem?-IsOrdered (q.base + q.size) rs i r o.3 e in (omega (arith, ih.0, o.0), ih.1)

pub get_elem?-covers :
    (rs : List Region) (i : ℕ) (r : Region) (x : ℕ)
    → get_elem? rs i ≡ some r
    → holds r x ≡ true
    → covers rs x ≡ true
get_elem?-covers [] i r x e h = cc
get_elem?-covers (q ∷ rs) zero r x e h = ground arith
get_elem?-covers (q ∷ rs) (suc i) r x e h = ground (arith, get_elem?-covers rs i r x e h)

area_start-suc :
    (r : Region) (rs : List Region) (i : ℕ)
    → area_start (r ∷ rs) (suc (suc i)) ≡ area_start rs (suc i)
unfolding area_start
area_start-suc r rs i = refl

area_start-one :
    (r : Region) (rs : List Region) (from : ℕ)
    → r.base + r.size ≤ ullong_max
    → area_start (r ∷ rs) 1 ≡ ok from
    → from ≡ r.base + r.size
unfolding area_start
area_start-one r rs from top s = ground (arith, region_end-eq r top)

area_end-suc : (r : Region) (rs : List Region) (i : ℕ) → area_end (r ∷ rs) (suc i) ≡ area_end rs i
unfolding area_end
area_end-suc r rs i = refl

area_free_zero :
    (lo : ℕ) (rs : List Region) (x : ℕ) → IsOrdered lo rs → x < area_end rs 0 → covers rs x ≡ false
unfolding area_end
area_free_zero lo [] x o h = refl
area_free_zero lo (r ∷ rs) x o h = IsOrdered-below r.base (r ∷ rs) x (omega arith, o.1, o.2, o.3) h

-- An address between the end of an entry and the base of the next is in no entry.
pub area_free :
    (lo : ℕ) (rs : List Region) (i from x : ℕ)
    → IsOrdered lo rs
    → area_start rs i ≡ ok from
    → from ≤ x
    → x < area_end rs i
    → (covers rs x ≡ false) × ((0 < i) → lo ≤ x)
area_free lo rs zero from x o s h k = (area_free_zero lo rs x o k, λ p. absurd (omega arith))
area_free lo [] (suc i) from x o s h k = unfold area_start in cc
area_free lo (r ∷ rs) (suc zero) from x o s h k =
    let first = area_start-one r rs from o.2 s in
    let rest = area_free_zero (r.base + r.size) rs x o.3 (rw (area_end-suc r rs 0) at k) in
    (ground (arith, rest), λ p. omega (arith, o.0))
area_free lo (r ∷ rs) (suc (suc i)) from x o s h k =
    let ih =
      area_free (r.base + r.size) rs (suc i) from x o.3 (sym (area_start-suc r rs i) ∙ s) h
        (rw (area_end-suc r rs (suc i)) at k) in
    let past = ih.1 (omega arith) in (ground (arith, ih.0), λ p. omega (arith, o.0))

-- The area before an entry, and the one behind the last, has a start.
pub area_start_exists :
    (rs : List Region) (i : ℕ) → i ≤ length rs → (from : ℕ) × (area_start rs i ≡ ok from)
area_start_exists rs zero h = unfold area_start in (0, refl)
area_start_exists [] (suc i) h = absurd (omega arith)
area_start_exists (r ∷ rs) (suc zero) h = unfold area_start in (region_end r, refl)
area_start_exists (r ∷ rs) (suc (suc i)) h =
    let (from, e) = area_start_exists rs (suc i) (omega arith) in (from, area_start-suc r rs i ∙ e)

-- The areas of an array in use are free of it, also before its first region is added.
pub area_clear :
    (t : MemblockType) (i from x : ℕ)
    → IsValid t
    → area_start t.regions i ≡ ok from
    → from ≤ x
    → x < area_end t.regions i
    → covers t.regions x ≡ false
area_clear t i from x v s h k = elim v.shape [
  | inl (r, split, at, bare, total) ↦ rw split (ground arith)
  | inr filled ↦ (area_free 0 t.regions i from x filled.ordered s h k).0
]
