-- ===== src/E820/Sweep.antt =====
-- sanitize_e820_map (arch/x86/kernel/e820.c): the overlap list along the change points.
use sandix.Common.{
  ℕ, ◌+◌, ◌≤◌, ◌<◌, ◌≡◌, refl, ap, ◌∙◌, inl, inr, Bool, true, false, not, ◌&&◌, List, [], ◌∷◌,
  arith, leb, ◌==◌, get_elem?, Bool-cases,
}
use sandix.Word.{ullong_max}
use sandix.Sort.Keeps.{bit, count, sort-count}
use sandix.E820.{
  no_member, E820Entry, ChangeMember, change_points, addr_of, is_start, comes_before,
  update_overlap,
}
use sandix.E820.Sanitize.{Ascend}
use sandix.E820.Points.{
  AreWords, covering, starts, ends, early, From-all, balance, change_points-early,
  change_points-ends,
}
use sandix.E820.Overlap.{count-snoc, removed-count}
use sandix.E820.Order.{points}

pub covering-max :
    (g : ℕ → Bool) (i : ℕ) (es : List E820Entry) → AreWords es → covering g ullong_max i es ≡ 0
covering-max g i [] w = refl
covering-max g i (e ∷ es) w = ground (arith, covering-max g (i + 1) es w.1, w.0)

count-and : {A : Type 0} (f g : A → Bool) (xs : List A) → count (λ x. f x && g x) xs ≤ count f xs
count-and f g [] = omega arith
count-and f g (x ∷ xs) = let rest = count-and f g xs in ground (arith, rest)

module _ (biosmap : List E820Entry) (words : AreWords biosmap) where
  -- The change points from the address `a` on are `cs`, and the list holds the entries that have
  -- started and not ended in front of them.
  pub record IsSwept (a : ℕ) (cs : List ChangeMember) (list : List ℕ) : Type 0 where
    pub balanced :
        (g : ℕ → Bool) (x : ℕ)
        → a ≤ x
        → count g list + count (λ c. starts biosmap g c && leb c.addr x) cs
          ≡ count (λ c. ends biosmap g c && leb c.addr x) cs + covering g x 0 biosmap
    pub once : (j : ℕ) → count (ends biosmap (λ k. k == j)) cs ≤ 1
    pub late : count (early biosmap) cs ≡ 0

  pub points-IsSwept : IsSwept 0 (points biosmap) []
  points-IsSwept =
      let from = From-all biosmap in
      let cs = change_points 0 biosmap in
      record {
        balanced = λ g x h.
            let total = balance biosmap g x 0 biosmap from words in
            omega (
              arith,
              total,
              sort-count (comes_before biosmap) (λ c. starts biosmap g c && leb c.addr x) no_member
                  cs,
              sort-count (comes_before biosmap) (λ c. ends biosmap g c && leb c.addr x) no_member
                  cs,
            );
        once = λ j.
            let total = change_points-ends biosmap j 0 biosmap from words in
            ground (
              arith,
              total,
              sort-count (comes_before biosmap) (ends biosmap (λ k. k == j)) no_member cs,
            );
        late =
            sort-count (comes_before biosmap) (early biosmap) no_member cs
            ∙ change_points-early biosmap 0 biosmap from words;
      }

  -- Behind an end of an entry it does not start.
  no_start :
      (i a : ℕ) (x : ℕ) (cs : List ChangeMember)
      → Ascend a cs
      → addr_of (get_elem? biosmap i) < a
      → count (λ c. starts biosmap (λ k. k == i) c && leb c.addr x) cs ≡ 0
  no_start i a x [] o h = refl
  no_start i a x (c ∷ cs) o h =
      let rest = no_start i c.addr x cs o.2 (omega (arith, h, o.0)) in
      elim (Bool-cases (c.pbios == i)) [
        | inl e ↦
            let same : c.pbios ≡ i = ground arith in
            let at = ap (λ k. addr_of (get_elem? biosmap k)) same in
            ground (arith, rest, o.0, h, at)
        | inr e ↦ rw e (ground (arith, rest))
      ]

  module _ (a : ℕ) (c : ChangeMember) (cs : List ChangeMember) (list : List ℕ)
      (swept : IsSwept a (c ∷ cs) list) (ascend : Ascend a (c ∷ cs)) where
    -- An entry that ends is once in the list.
    listed : is_start biosmap c ≡ false → count (λ k. k == c.pbios) list ≡ 1
    listed e =
        let own = swept.balanced (λ k. k == c.pbios) ullong_max (omega (arith, ascend)) in
        let past : addr_of (get_elem? biosmap c.pbios) < c.addr = ground (arith, swept.late) in
        let none_left = no_start c.pbios c.addr ullong_max cs ascend.2 past in
        let outside = covering-max (λ k. k == c.pbios) 0 biosmap words in
        let once = swept.once c.pbios in
        let fewer =
          count-and (ends biosmap (λ k. k == c.pbios)) (λ d. leb d.addr ullong_max) (c ∷ cs) in
        ground (arith, own, none_left, outside, once, fewer, e, ascend.1)

    update_overlap-count :
        (g : ℕ → Bool)
        → count g (update_overlap biosmap c list) + bit (not (is_start biosmap c) && g c.pbios)
          ≡ count g list + bit (is_start biosmap c && g c.pbios)
    unfolding update_overlap
    update_overlap-count g = elim (Bool-cases (is_start biosmap c)) [
      | inl e ↦ rw (update_overlap, e) (ground (arith, count-snoc g list c.pbios))
      | inr e ↦ rw (update_overlap, e) (ground (arith, removed-count g c.pbios list (listed e)))
    ]

    pub update_overlap-IsSwept : IsSwept c.addr cs (update_overlap biosmap c list)
    update_overlap-IsSwept = record {
      balanced = λ g x h.
          let before = swept.balanced g x (omega (arith, h, ascend.0)) in
          let change = update_overlap-count g in
          let reached : leb c.addr x ≡ true = ground arith in
          ground (arith, before, change, reached);
      once = λ j. omega (arith, swept.once j);
      late = omega (arith, swept.late);
    }

  not_reached :
      (f : ChangeMember → Bool) (x b : ℕ) (cs : List ChangeMember)
      → Ascend b cs
      → x < b
      → count (λ c. f c && leb c.addr x) cs ≡ 0
  not_reached f x b [] o h = refl
  not_reached f x b (c ∷ cs) o h =
      let rest = not_reached f x c.addr cs o.2 (omega (arith, h, o.0)) in
      ground (arith, rest, h, o.0)

  -- In front of the next change point the list holds the entries that hold the address.
  pub listed-covering :
      (a b : ℕ) (cs : List ChangeMember) (list : List ℕ)
      → IsSwept a cs list
      → Ascend b cs
      → (x : ℕ) → a ≤ x
      → x < b
      → (g : ℕ → Bool) → count g list ≡ covering g x 0 biosmap
  listed-covering a b cs list swept ascend x h k g = omega (
    arith,
    swept.balanced g x h,
    not_reached (starts biosmap g) x b cs ascend k,
    not_reached (ends biosmap g) x b cs ascend k,
  )
