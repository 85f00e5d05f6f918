-- ===== src/Resource/Chain.antt =====
-- kernel/resource.c: the siblings behind a pointer, as a list of addresses.
use sandix.Common.{ℕ, suc, ◌≤◌, ◌<◌, ◌≡◌, ◌≢◌, refl, ap, List, [], ◌∷◌, ◌==◌, false, arith, Bool}
use sandix.Resource.{Resource, Store, Link, child_of, sibling_of, read_link, null, link_in}

-- The resources from `p` on are those of the list, and none is at NULL.
abbrev pub Chain : Store → Link → List ℕ → Type 0
Chain s p [] = read_link s p ≡ null
Chain s p (x ∷ xs) = (read_link s p ≡ x) × (x ≢ null) × Chain s (sibling_of x) xs

-- They are ranges that lie at `lo` or above, one behind the other.
abbrev pub Sorted : Store → ℕ → List ℕ → Type 0
Sorted s lo [] = Unit {0}
Sorted s lo (x ∷ xs) = (lo ≤ (s x).start) × ((s x).start ≤ (s x).end) × Sorted s (suc (s x).end) xs

-- None of them is `r`.
abbrev pub Avoids : ℕ → List ℕ → Type 0
Avoids r [] = Unit {0}
Avoids r (x ∷ xs) = (x ≢ r) × Avoids r xs

-- What stands behind a range is not the resource with this range.
pub Sorted-Avoids :
    (s : Store) (lo r : ℕ) (xs : List ℕ) → (s r).start < lo → Sorted s lo xs → Avoids r xs
Sorted-Avoids s lo r [] h o = tt
Sorted-Avoids s lo r (x ∷ xs) h o = (
  (λ e. absurd (omega (arith, o.0, ap (λ x. (s x).start) e))),
  Sorted-Avoids s (suc (s x).end) r xs (omega (arith, o.0, o.1)) o.2,
)

abbrev pub owner : Link → ℕ
owner (child_of r) = r
owner (sibling_of r) = r

abbrev pub same_link : Link → Link → Bool
same_link (child_of r) (child_of q) = r == q
same_link (sibling_of r) (sibling_of q) = r == q
same_link (child_of r) (sibling_of q) = false
same_link (sibling_of r) (child_of q) = false

pub owner-same_link : (new : ℕ) (p : Link) → owner p ≢ new → same_link (sibling_of new) p ≡ false
owner-same_link new (child_of r) h = refl
owner-same_link new (sibling_of r) h = ground arith

-- The field `sibling` of none of them is the link.
abbrev pub AvoidsLink : Link → List ℕ → Type 0
AvoidsLink (child_of r) xs = Unit {0}
AvoidsLink (sibling_of r) xs = Avoids r xs

pub AvoidsLink-head :
    (q : Link) (x : ℕ) (xs : List ℕ) → AvoidsLink q (x ∷ xs) → same_link (sibling_of x) q ≡ false
AvoidsLink-head (child_of r) x xs h = refl
AvoidsLink-head (sibling_of r) x xs h = ground (arith, h.0)

pub AvoidsLink-rest : (q : Link) (x : ℕ) (xs : List ℕ) → AvoidsLink q (x ∷ xs) → AvoidsLink q xs
AvoidsLink-rest (child_of r) x xs h = tt
AvoidsLink-rest (sibling_of r) x xs h = h.1

-- What link_in does to the links and the ranges.
pub link_in-at :
    (s : Store) (root new : ℕ) (p : Link) → owner p ≢ new → read_link (link_in s root new p) p ≡ new
unfolding link_in
link_in-at s root new (child_of r) h = ground arith
link_in-at s root new (sibling_of r) h = ground arith

pub link_in-new :
    (s : Store) (root new : ℕ) (p : Link)
    → owner p ≢ new
    → read_link (link_in s root new p) (sibling_of new) ≡ read_link s p
unfolding link_in
link_in-new s root new (child_of r) h = ground arith
link_in-new s root new (sibling_of r) h = ground arith

pub link_in-other :
    (s : Store) (root new : ℕ) (p q : Link)
    → same_link (sibling_of new) q ≡ false
    → same_link p q ≡ false
    → read_link (link_in s root new p) q ≡ read_link s q
unfolding link_in
link_in-other s root new (child_of r) (child_of t) h k = ground arith
link_in-other s root new (child_of r) (sibling_of t) h k = ground arith
link_in-other s root new (sibling_of r) (child_of t) h k = ground arith
link_in-other s root new (sibling_of r) (sibling_of t) h k = ground arith

pub link_in-parent :
    (s : Store) (root new : ℕ) (p : Link) → ((link_in s root new p) new).parent ≡ root
unfolding link_in
link_in-parent s root new p = ground arith

pub link_in-parent_other :
    (s : Store) (root new : ℕ) (p : Link) (r : ℕ)
    → r ≢ new
    → (link_in s root new p r).parent ≡ (s r).parent
unfolding link_in
link_in-parent_other s root new (child_of t) r h = ground (arith, h)
link_in-parent_other s root new (sibling_of t) r h = ground (arith, h)

-- The resource has the same range.
abbrev pub SameRange : Resource → Resource → Type 0
SameRange r r' = (r'.start ≡ r.start) × (r'.end ≡ r.end)

pub link_in-SameRange :
    (s : Store) (root new : ℕ) (p : Link) (q : ℕ) → SameRange (s q) (link_in s root new p q)
unfolding link_in
link_in-SameRange s root new (child_of r) q = (ground arith, ground arith)
link_in-SameRange s root new (sibling_of r) q = (ground arith, ground arith)
