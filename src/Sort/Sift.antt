-- ===== src/Sort/Sift.antt =====
-- lib/sort.c: the inner loop restores a heap.
use native.Mathlib.Decide.{ℕ_discrete, dec_lt}
use sandix.Common.{
  ℕ, zero, suc, ◌+◌, ◌-◌, ◌*◌, ◌≤◌, ◌<◌, ◌≡◌, ◌≢◌, refl, sym, ap, subst, ◌∙◌, ◌⊎◌, inl, inr, Bool,
  true, false, List, arith, ltb, length, Bool-cases,
}
use sandix.Sort.{swap, is_below, larger_child, sift_down}
use sandix.Sort.Array.{
  Reads, exchange, exchange-left, exchange-right, exchange-other, is_below-Reads, swap-Reads,
}

-- `c` is one of the two entries under `p` in the heap.
abbrev pub Child : ℕ → ℕ → Type 0
Child p c = (c ≡ p * 2 + 1) ⊎ (c ≡ p * 2 + 2)

Child-lt : {p c : ℕ} → Child p c → p < c
Child-lt h = ground arith

Child-parent : {p r c : ℕ} → Child p c → Child r c → p ≡ r
Child-parent h k = ground arith

-- `cmp_func` orders the elements: not less is transitive, and less is not both ways.
pub record IsOrder {A : Type 0} (below : A → A → Bool) : Type 0 where
  pub trans : {x y z : A} → below x y ≡ false → below y z ≡ false → below x z ≡ false
  pub asym : {x y : A} → below x y ≡ true → below y x ≡ false

module _ {A : Type 0} (below : A → A → Bool) where
  -- Each of the first `n` elements from `lo` on is not below its children.
  abbrev pub IsHeap : ℕ → ℕ → (ℕ → A) → Type 0
  IsHeap lo n h = (p c : ℕ) → Child p c → lo ≤ p → c < n → below (h p) (h c) ≡ false

  -- A heap but for entry `r`, whose children are not above its parent.
  pub record IsAlmostHeap (lo n r : ℕ) (h : ℕ → A) : Type 0 where
    pub others : (p c : ℕ) → Child p c → lo ≤ p → p ≢ r → c < n → below (h p) (h c) ≡ false
    pub around : (p c : ℕ) → Child p r → Child r c → lo ≤ p → c < n → below (h p) (h c) ≡ false

  -- What a call leaves: the first `n` elements are among those that were there, and form a heap.
  pub record Sifted (lo n : ℕ) (before : ℕ → A) (xs : List A) : Type 0 where
    pub after : ℕ → A
    pub reads : Reads xs after
    pub heap : IsHeap lo n after
    pub rest : (q : ℕ) → n ≤ q → after q ≡ before q
    pub among : (q : ℕ) → q < n → (s : ℕ) × (s < n) × (after q ≡ before s)

  module _ (order : IsOrder below) (behind : ℕ → A) where
    -- larger_child picks a child that none of the children is above.
    record IsLargest (n r : ℕ) (h : ℕ → A) (c : ℕ) : Type 0 where
      child : Child r c
      inside : c < n
      largest : (d : ℕ) → Child r d → d < n → below (h c) (h d) ≡ false

    pub irrefl : (x : A) → below x x ≡ false
    irrefl x = elim (Bool-cases (below x x)) [ inl e ↦ order.asym e | inr e ↦ e ]

    larger_child-IsLargest :
        (xs : List A) (h : ℕ → A) (n r : ℕ)
        → Reads xs h
        → n ≤ length xs
        → r * 2 + 1 < n
        → IsLargest n r h (larger_child below behind xs n r)
    unfolding larger_child
    larger_child-IsLargest xs h n r reads fits b =
        let c = r * 2 + 1 in
        elim (dec_lt c (n - 1)) [
          | no alone ↦
              let out : ltb c (n - 1) ≡ false = ground arith in
              rw (larger_child, out)
                (record {
                  child = inl refl;
                  inside = b;
                  largest = λ d e k. ap (λ d. below (h c) (h d)) (ground arith) ∙ irrefl (h c);
                })
          | yes two ↦
              let there : ltb c (n - 1) ≡ true = ground arith in
              let at : is_below below behind xs c (c + 1) ≡ below (h c) (h (c + 1)) =
                is_below-Reads below behind xs h c (c + 1) reads (omega arith) (omega arith) in
              elim (Bool-cases (below (h c) (h (c + 1)))) [
                | inl less ↦
                    rw (larger_child, there, at, less)
                      (record {
                        child = inr (omega arith);
                        inside = omega arith;
                        largest = λ d e k. elim e [
                          | inl e ↦ ap (λ d. below (h (c + 1)) (h d)) e ∙ order.asym less
                          | inr e ↦
                              ap (λ d. below (h (c + 1)) (h d)) (omega arith) ∙ irrefl (h (c + 1))
                        ];
                      })
                | inr more ↦
                    rw (larger_child, there, at, more)
                      (record {
                        child = inl refl;
                        inside = b;
                        largest = λ d e k. elim e [
                          | inl e ↦ ap (λ d. below (h c) (h d)) e ∙ irrefl (h c)
                          | inr e ↦ ap (λ d. below (h c) (h d)) (omega arith) ∙ more
                        ];
                      })
              ]
        ]

    -- A heap but for `r` is one if `r` is not below its largest child.
    settled :
        (lo n r c : ℕ) (h : ℕ → A)
        → IsAlmostHeap lo n r h
        → IsLargest n r h c
        → below (h r) (h c) ≡ false
        → IsHeap lo n h
    settled lo n r c h a l e p d child above inside = elim (ℕ_discrete p r) [
      | no ne ↦ a.others p d child above ne inside
      | yes same ↦
          ap (λ p. below (h p) (h d)) same
          ∙ order.trans e (l.largest d (subst (λ p. Child p d) same child) inside)
    ]

    -- A swap of `r` with its largest child leaves a heap but for the child.
    moved :
        (lo n r c : ℕ) (h : ℕ → A)
        → lo ≤ r
        → IsAlmostHeap lo n r h
        → IsLargest n r h c
        → below (h r) (h c) ≡ true
        → IsAlmostHeap lo n c (exchange h r c)
    moved lo n r c h above a l less = record {
      others = λ p d child low ne inside. elim (ℕ_discrete p r) [
        | yes same ↦
            let at : exchange h r c p ≡ h c = exchange-left h r c p same apart in
            elim (ℕ_discrete d c) [
              | yes e ↦
                  ap (λ x. below x (exchange h r c d)) at
                  ∙ ap (below (h c)) (exchange-right h r c d e)
                  ∙ order.asym less
              | no ne' ↦
                  ap (λ x. below x (exchange h r c d)) at
                  ∙ ap (below (h c)) (
                      exchange-other h r c d (λ e. absurd (omega (arith, Child-lt child, e, same)))
                        ne')
                  ∙ l.largest d (subst (λ p. Child p d) same child) inside
            ]
        | no other ↦
            let at : exchange h r c p ≡ h p = exchange-other h r c p other ne in
            elim (ℕ_discrete d r) [
              | yes e ↦
                  ap (λ x. below x (exchange h r c d)) at
                  ∙ ap (below (h p)) (exchange-left h r c d e apart)
                  ∙ a.around p c (subst (Child p) e child) l.child low l.inside
              | no ne' ↦
                  ap (λ x. below x (exchange h r c d)) at
                  ∙ ap (below (h p)) (
                      exchange-other h r c d ne'
                        (λ e. other (Child-parent (subst (Child p) e child) l.child)))
                  ∙ a.others p d child low other inside
            ]
      ];
      around = λ p d up down low inside.
          let same : p ≡ r = Child-parent up l.child in
          ap (λ x. below x (exchange h r c d)) (exchange-left h r c p same apart)
          ∙ ap (below (h c)) (
              exchange-other h r c d
                (λ e. absurd (omega (arith, Child-lt down, Child-lt l.child, e)))
                (λ e. absurd (omega (arith, Child-lt down, e))))
          ∙ a.others c d down (omega (arith, Child-lt l.child)) (λ e. apart (sym e)) inside;
    }
      where
        apart : r ≢ c
        apart e = absurd (omega (arith, Child-lt l.child, e))

    pub exchange-among :
        (h : ℕ → A) (n r c q : ℕ)
        → r < n
        → c < n
        → q < n
        → (s : ℕ) × (s < n) × (exchange h r c q ≡ h s)
    exchange-among h n r c q a b k = elim (ℕ_discrete q c) [
      | yes e ↦ (r, a, exchange-right h r c q e)
      | no ne ↦ elim (ℕ_discrete q r) [
        | yes e ↦ (c, b, exchange-left h r c q e (λ z. ne (e ∙ z)))
        | no ne' ↦ (q, k, exchange-other h r c q ne' ne)
      ]
    ]

    unmoved : (lo n : ℕ) (h : ℕ → A) (xs : List A) → Reads xs h → IsHeap lo n h → Sifted lo n h xs
    unmoved lo n h xs reads heap = record {
      after = h;
      reads = reads;
      heap = heap;
      rest = λ q k. refl;
      among = λ q k. (q, k, refl);
    }

    pub sift_down-Sifted :
        (k lo n : ℕ) (xs : List A) (r : ℕ) (h : ℕ → A)
        → Reads xs h
        → n ≤ length xs
        → lo ≤ r
        → r < n
        → n ≤ k + r
        → IsAlmostHeap lo n r h
        → Sifted lo n h (sift_down below behind k n xs r)
          × (length (sift_down below behind k n xs r) ≡ length xs)
    unfolding sift_down
    sift_down-Sifted zero lo n xs r h reads fits low inside fuel a = absurd (omega arith)
    sift_down-Sifted (suc k) lo n xs r h reads fits low inside fuel a =
        elim (Bool-cases (ltb (r * 2 + 1) n)) [
          | inr leaf ↦
              rw (sift_down, leaf)
                (
                  unmoved lo n h xs reads (λ p d child above b.
                      a.others p d child above (λ e. absurd (ground (arith, e))) b),
                  refl,
                )
          | inl parent ↦
              let c = larger_child below behind xs n r in
              let l : IsLargest n r h c =
                larger_child-IsLargest xs h n r reads fits (ground arith) in
              let at : is_below below behind xs r c ≡ below (h r) (h c) =
                is_below-Reads below behind xs h r c reads (omega arith)
                  (omega (arith, l.inside)) in
              elim (Bool-cases (below (h r) (h c))) [
                | inr stays ↦
                    rw (sift_down, parent, at, stays)
                      (unmoved lo n h xs reads (settled lo n r c h a l stays), refl)
                | inl less ↦
                    let (reads', same) =
                      swap-Reads below behind xs h r c reads (omega arith)
                        (omega (arith, l.inside)) in
                    let (s, same') =
                      sift_down-Sifted k lo n (swap below behind xs r c) c (exchange h r c) reads'
                        (omega (arith, same)) (omega (arith, Child-lt l.child)) l.inside
                        (omega (arith, Child-lt l.child)) (moved lo n r c h low a l less) in
                    rw (sift_down, parent, at, less)
                      (
                        record {
                          after = s.after;
                          reads = s.reads;
                          heap = s.heap;
                          rest = λ q b.
                              s.rest q b
                              ∙ exchange-other h r c q (λ e. absurd (omega arith))
                                  (λ e. absurd (omega (arith, l.inside, e)));
                          among = λ q b.
                              let (q', b', e) = s.among q b in
                              let (q2, b2, e2) = exchange-among h n r c q' inside l.inside b' in
                              (q2, b2, e ∙ e2);
                        },
                        same' ∙ same,
                      )
              ]
        ]
