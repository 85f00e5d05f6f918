-- ===== src/Resource/Request.antt =====
-- __request_resource (kernel/resource.c): what a request does to the children of a resource.
use sandix.Common.{
  ℕ, zero, suc, ◌≤◌, ◌<◌, ◌≡◌, ◌≢◌, refl, ap, ◌∙◌, List, [], ◌∷◌, ◌++◌, ◌==◌, true, false, ◌||◌,
  arith, length, Option, some, ltb, Bool-cases, inl, inr, ◌⊎◌,
}
use sandix.Resource.{
  Store, Link, child_of, sibling_of, read_link, null, link_in, request_loop, request_conflict,
}
use sandix.Resource.Chain.{
  Chain, Sorted, Avoids, AvoidsLink, AvoidsLink-head, AvoidsLink-rest, Sorted-Avoids, owner,
  same_link, link_in-at, link_in-new, link_in-other, link_in-parent, link_in-SameRange, SameRange,
  owner-same_link, link_in-parent_other,
}

-- The links of the siblings stay where the new link is put elsewhere.
Chain-link_in :
    (s : Store) (root new : ℕ) (p q : Link) (xs : List ℕ)
    → read_link (link_in s root new p) q ≡ read_link s p
    → Avoids new xs
    → AvoidsLink p xs
    → Chain s p xs
    → Chain (link_in s root new p) q xs
Chain-link_in s root new p q xs = behind p q xs
  where
    behind :
        (r q : Link) (xs : List ℕ)
        → read_link (link_in s root new p) q ≡ read_link s r
        → Avoids new xs
        → AvoidsLink p xs
        → Chain s r xs
        → Chain (link_in s root new p) q xs
    behind r q [] e a b c = e ∙ c
    behind r q (x ∷ xs) e a b c = (
      e ∙ c.0,
      c.1,
      behind (sibling_of x) (sibling_of x) xs
          (link_in-other s root new p (sibling_of x) (ground (arith, a.0)) (apart p b)) a.1
          (AvoidsLink-rest p x xs b) c.2,
    )
      where
        apart : (p : Link) → AvoidsLink p (x ∷ xs) → same_link p (sibling_of x) ≡ false
        apart (child_of t) b = refl
        apart (sibling_of t) b = ground (arith, b.0)

-- What a request comes to: the new resource stands among the siblings, at its place in their order;
-- or a sibling with an address of its range is reported, and nothing has changed.
pub data Requested (s : Store) (root new : ℕ) (p : Link) (lo : ℕ) (xs : List ℕ)
    : ℕ × Store → Type 0 where
  granted :
      (us vs : List ℕ) (s' : Store)
      → xs ≡ us ++ vs
      → Chain s' p (us ++ new ∷ vs)
      → Sorted s lo (us ++ new ∷ vs)
      → (s' new).parent ≡ root
      → ((r : ℕ) → r ≢ new → (s' r).parent ≡ (s r).parent)
      → ((r : ℕ) → SameRange (s r) (s' r))
      → ((q : Link)
          → same_link (sibling_of new) q ≡ false
          → same_link p q ≡ false
          → AvoidsLink q xs
          → read_link s' q ≡ read_link s q)
      → Requested s root new p lo xs (null, s')
  refused :
      (us : List ℕ) (c : ℕ) (vs : List ℕ)
      → xs ≡ us ++ c ∷ vs
      → c ≢ null
      → (s c).start ≤ (s new).end
      → (s new).start ≤ (s c).end
      → Requested s root new p lo xs (c, s)

module _ (s : Store) (root new : ℕ) (not_null : new ≢ null)
    (ordered : (s new).start ≤ (s new).end) where
  -- The new resource goes in front of the siblings `xs`.
  in_front :
      (p : Link) (lo : ℕ) (xs : List ℕ)
      → owner p ≢ new
      → Avoids new xs
      → AvoidsLink p xs
      → Chain s p xs
      → lo ≤ (s new).start
      → Sorted s (suc (s new).end) xs
      → Requested s root new p lo xs (null, link_in s root new p)
  in_front p lo xs h a b c l o =
      granted [] xs (link_in s root new p) refl
        (
          link_in-at s root new p h,
          not_null,
          Chain-link_in s root new p (sibling_of new) xs (link_in-new s root new p h) a b c,
        )
        (l, ordered, o) (link_in-parent s root new p) (link_in-parent_other s root new p)
        (link_in-SameRange s root new p) (λ q g k d. link_in-other s root new p q g k)

  -- A sibling in front of all that happens.
  behind_first :
      (p : Link) (lo x : ℕ) (xs : List ℕ) {r : ℕ × Store}
      → owner p ≢ new
      → AvoidsLink p (x ∷ xs)
      → Chain s p (x ∷ xs)
      → Sorted s lo (x ∷ xs)
      → Requested s root new (sibling_of x) (suc (s x).end) xs r
      → Requested s root new p lo (x ∷ xs) r
  behind_first p lo x xs h b c o (granted us vs s' e chain sorted parent others ranges frame) =
      granted (x ∷ us) vs s' (ap (◌∷◌ x) e)
        (
          frame p (owner-same_link new p h) (AvoidsLink-head p x xs b) (AvoidsLink-rest p x xs b)
              ∙ c.0,
          c.1,
          chain,
        )
        (o.0, o.1, sorted) parent others ranges
        (λ q g k d. frame q g (AvoidsLink-head q x xs d) (AvoidsLink-rest q x xs d))
  behind_first p lo x xs h b c o (refused us t vs e n u v) =
      refused (x ∷ us) t vs (ap (◌∷◌ x) e) n u v

  -- A round of the loop with what *p is as `tmp`.
  abbrev round : ℕ → Link → ℕ → Option (ℕ × Store)
  round k p tmp = elim (tmp == null || ltb (s new).end (s tmp).start) [
    | true ↦ some (null, link_in s root new p)
    | false ↦ elim (ltb (s tmp).end (s new).start) [
      | true ↦ request_loop k s root new (sibling_of tmp)
      | false ↦ some (tmp, s)
    ]
  ]

  request_loop-round :
      (k : ℕ) (p : Link) {tmp : ℕ}
      → read_link s p ≡ tmp
      → request_loop (suc k) s root new p ≡ round k p tmp
  unfolding request_loop
  request_loop-round k p e = ap (round k p) e

  request_loop-Requested :
      (k : ℕ) (p : Link) (lo : ℕ) (xs : List ℕ)
      → owner p ≢ new
      → Avoids new xs
      → AvoidsLink p xs
      → Chain s p xs
      → Sorted s lo xs
      → lo ≤ (s new).start
      → length xs < k
      → (r : ℕ × Store) × (request_loop k s root new p ≡ some r) × Requested s root new p lo xs r
  request_loop-Requested zero p lo xs h a b c o l f = absurd (omega arith)
  request_loop-Requested (suc k) p lo [] h a b c o l f =
      let at_end : (read_link s p == null) ≡ true = ground (arith, c) in
      (
        (null, link_in s root new p),
        request_loop-round k p refl ∙ rw (round, at_end) refl,
        in_front p lo [] h a b c l tt,
      )
  request_loop-Requested (suc k) p lo (x ∷ xs) h a b c o l f =
      let there : (x == null) ≡ false = ground (arith, c.1) in
      elim (Bool-cases (ltb (s new).end (s x).start)) [
        | inl before ↦ (
          (null, link_in s root new p),
          request_loop-round k p c.0 ∙ rw (round, there, before) refl,
          in_front p lo (x ∷ xs) h a b c l (ground arith, o.1, o.2),
        )
        | inr meets ↦ elim (Bool-cases (ltb (s x).end (s new).start)) [
          | inr overlap ↦ (
            (x, s),
            request_loop-round k p c.0 ∙ rw (round, there, meets, overlap) refl,
            refused [] x xs refl c.1 (ground arith) (ground arith),
          )
          | inl behind ↦
              let (r, runs, q) =
                request_loop-Requested k (sibling_of x) (suc (s x).end) xs a.0 a.1
                  (Sorted-Avoids s (suc (s x).end) x xs (omega (arith, o.1)) o.2) c.2 o.2
                  (ground arith) (omega arith) in
              (
                r,
                request_loop-round k p c.0 ∙ rw (round, there, meets, behind) runs,
                behind_first p lo x xs h b c o q,
              )
        ]
      ]

-- A request for a range under `root`, with the siblings under it in order, ends with as much fuel as
-- there are siblings and one round more. If the range is empty or not in the root's, the root is
-- reported and nothing changes. Otherwise either the new resource stands among the children at its
-- place, with `root` as its parent, the children are in order and without an overlap, and all
-- ranges, the parents of all others, and all links but the one in front of the new resource and its
-- own `sibling` are as they were (its `child`, too); or a child that overlaps the range is reported, and
-- nothing changes.
pub request_conflict-Requested :
    (k : ℕ) (s : Store) (root new : ℕ) (xs : List ℕ)
    → root ≢ null
    → new ≢ null
    → root ≢ new
    → Avoids new xs
    → Chain s (child_of root) xs
    → Sorted s (s root).start xs
    → length xs < k
    → ((request_conflict k s root new ≡ some (root, s))
        × (((s new).end < (s new).start)
            ⊎ ((s new).start < (s root).start)
            ⊎ ((s root).end < (s new).end)))
      ⊎ ((r : ℕ × Store) × (request_conflict k s root new ≡ some r)
          × Requested s root new (child_of root) (s root).start xs r)
unfolding request_conflict
request_conflict-Requested k s root new xs hr hn ne a c o f =
    elim (Bool-cases (
      ltb (s new).end (s new).start
      || ltb (s new).start (s root).start
      || ltb (s root).end (s new).end)) [
        | inl outside ↦ inl (rw outside refl, ground arith)
        | inr inside ↦
            let (r, runs, q) =
              request_loop-Requested s root new hn (ground arith) k (child_of root) (s root).start
                xs ne a tt c o (ground arith) f in
            inr (r, rw inside runs, q)
      ]
