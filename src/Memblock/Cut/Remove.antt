-- ===== src/Memblock/Cut/Remove.antt =====
-- The loop of memblock_remove_range (mm/memblock.c) that takes the marked entries out.
use mathlib.Core.List.{append_assoc}
use mathlib.Core.Path.{fun_ext}
use sandix.Common.{
  ℕ, zero, suc, ◌+◌, ◌-◌, ◌≤◌, ◌<◌, ◌≡◌, refl, ap, ◌∙◌, List, [], ◌∷◌, ◌++◌, some, arith, length,
  length-append, get_elem?, get_elem?-append, erase_at, erase_at-append,
}
use sandix.Word.{ullong_max, sub64, sub64-eq}
use sandix.Memblock.Types.{Region, MemblockType, Run, ok, bug, fault, out_of_fuel, ◌>>=◌}
use sandix.Memblock.Cover.{sum_sizes, sum_sizes-append}
use sandix.Memblock.Cut.{or_empty, memblock_remove_region, remove_regions}

-- The array holds `rs`, with the total to match.
pub record Holds (m : ℕ) (rs : List Region) (t : MemblockType) : Type 0 where
  pub regions : t.regions ≡ rs
  pub total : t.total_size ≡ sum_sizes rs
  pub limit : t.max ≡ m

abbrev Removes : ℕ → List Region → Run MemblockType → Type 0
Removes m rs run = (t : MemblockType) × (run ≡ ok t) × Holds m (or_empty rs) t

sum_sizes-or_empty : (rs : List Region) → sum_sizes (or_empty rs) ≡ sum_sizes rs
sum_sizes-or_empty [] = omega arith
sum_sizes-or_empty (r ∷ rs) = refl

remove_found :
    (t : MemblockType) (i : ℕ) (r : Region)
    → get_elem? t.regions i ≡ some r
    → memblock_remove_region t i
      ≡ ok (record t {
        total_size = sub64 t.total_size r.size;
        regions = or_empty (erase_at i t.regions);
      })
unfolding memblock_remove_region
remove_found t i r e = ground arith

-- Taking one entry out.
memblock_remove_region_lem :
    (m i : ℕ) (xs : List Region) (y : Region) (zs : List Region) (t : MemblockType)
    → i ≡ length xs
    → sum_sizes (xs ++ y ∷ zs) ≤ ullong_max
    → Holds m (xs ++ y ∷ zs) t
    → Removes m (xs ++ zs) (memblock_remove_region t i)
memblock_remove_region_lem m i xs y zs t place sum h =
    let sums = sum_sizes-append xs (y ∷ zs) in
    let found : get_elem? t.regions i ≡ some y = rw (h.regions, place) (get_elem?-append xs y zs) in
    let erased : erase_at i t.regions ≡ xs ++ zs =
      rw (h.regions, place) (erase_at-append xs y zs) in
    let less =
      sub64-eq t.total_size y.size (omega (arith, h.total, sums)) (omega (arith, h.total, sum)) in
    rw (remove_found t i y found, less, erased)
      (
        record t { total_size = t.total_size - y.size; regions = or_empty (xs ++ zs) },
        refl,
        record {
          regions = refl;
          total =
              omega (arith, h.total, sums, sum_sizes-append xs zs, sum_sizes-or_empty (xs ++ zs));
          limit = h.limit;
        },
      )

>>=-assoc :
    {A B C : Type 0} (m : Run A) (f : A → Run B) (g : B → Run C)
    → ((m >>= f) >>= g) ≡ (m >>= λ a. f a >>= g)
>>=-assoc (ok a) f g = refl
>>=-assoc bug f g = refl
>>=-assoc fault f g = refl
>>=-assoc out_of_fuel f g = refl

>>=-ok : {A : Type 0} (m : Run A) → (m >>= λ a. ok a) ≡ m
>>=-ok (ok a) = refl
>>=-ok bug = refl
>>=-ok fault = refl
>>=-ok out_of_fuel = refl

pub or_empty-eq : (rs : List Region) → 0 < length rs → or_empty rs ≡ rs
or_empty-eq [] h = absurd (omega arith)
or_empty-eq (r ∷ rs) h = refl

-- The loop goes down; seen from the other end, the first entry is taken out last.
remove_regions-first :
    (n start : ℕ) (t : MemblockType)
    → remove_regions (suc n) start t
      ≡ (remove_regions n (start + 1) t >>= λ u. memblock_remove_region u start)
unfolding remove_regions
remove_regions-first zero start t =
    let place : start + 0 ≡ start = omega arith in
    rw place (>>=-ok (memblock_remove_region t start))
remove_regions-first (suc n) start t =
    let place : start + suc n ≡ start + 1 + n = omega arith in
    rw (place, >>=-assoc)
      (ap (λ f. memblock_remove_region t (start + 1 + n) >>= f)
        (fun_ext (remove_regions-first n start)))

-- The marked entries `ys` behind `xs` are taken out.
pub remove_regions_lem :
    (m : ℕ) (xs ys zs : List Region) (t : MemblockType) (start : ℕ)
    → (0 < length ys → start ≡ length xs)
    → 0 < length (xs ++ (ys ++ zs))
    → sum_sizes (xs ++ (ys ++ zs)) ≤ ullong_max
    → Holds m (xs ++ (ys ++ zs)) t
    → Removes m (xs ++ zs) (remove_regions (length ys) start t)
remove_regions_lem m xs [] zs t start place some_left sum h =
    unfold remove_regions in (t, refl, rw (or_empty-eq (xs ++ zs) some_left) h)
remove_regions_lem m xs (y ∷ ys) zs t start place some_left sum h =
    let seam = append_assoc xs (y ∷ []) (ys ++ zs) in
    let seam' = append_assoc xs (y ∷ []) zs in
    let number = length-append xs (y ∷ []) in
    let sums = sum_sizes-append xs (y ∷ zs) in
    let (u, runs, held) =
      remove_regions_lem m (xs ++ y ∷ []) ys zs t (start + 1)
        (λ _. omega (arith, place (omega arith), number)) (rw seam some_left) (rw seam sum)
        (rw seam h) in
    let kept : or_empty (xs ++ y ∷ [] ++ zs) ≡ xs ++ y ∷ zs =
      or_empty-eq _ (omega (arith, length-append (xs ++ y ∷ []) zs, number)) ∙ seam' in
    let all = sum_sizes-append xs (y ∷ (ys ++ zs)) in
    let both = sum_sizes-append ys zs in
    rw (remove_regions-first (length ys) start t, runs)
      (memblock_remove_region_lem m start xs y zs u (place (omega arith))
        (omega (arith, sum, all, both, sums)) (rw kept at held))
