-- ===== src/Sort/Sorted.antt =====
-- lib/sort.c: the array is sorted behind the two loops.
use sandix.Common.{
  ℕ, zero, suc, ◌-◌, ◌/◌, ◌≤◌, ◌<◌, ◌≡◌, refl, sym, ap, ◌∙◌, Bool, false, some, List, [], ◌∷◌,
  arith, get_elem?, length,
}
use mathlib.Core.Option.{some-injective}
use native.Mathlib.Decide.{dec_lt}
use sandix.Sort.{swap, sift_down, heapify, extract, sort}
use sandix.Sort.Array.{Reads, exchange, exchange-right, exchange-other, swap-Reads}
use sandix.Sort.Sift.{
  IsOrder, IsHeap, IsAlmostHeap, irrefl, exchange-among, Sifted, sift_down-Sifted,
}

module _ {A : Type 0} (below : A → A → Bool) where
  -- No element is below one in front of it, from entry `i` on.
  abbrev pub IsSortedFrom : ℕ → ℕ → (ℕ → A) → Type 0
  IsSortedFrom i n h = (p q : ℕ) → p < q → i ≤ q → q < n → below (h q) (h p) ≡ false

  -- No element of the list is below one in front of it.
  abbrev pub IsSorted : List A → Type 0
  IsSorted xs =
      (p q : ℕ) (a b : A)
      → p < q
      → get_elem? xs p ≡ some a
      → get_elem? xs q ≡ some b
      → below b a ≡ false

  module _ (order : IsOrder below) (behind : ℕ → A) where
    -- A heap stays one but for the entry in front of it.
    grown : (i n : ℕ) (h : ℕ → A) → IsHeap below (suc i) n h → IsAlmostHeap below i n i h
    grown i n h heap = record {
      others = λ p c child low ne inside. heap p c child (ground arith) inside;
      around = λ p c up down low inside. absurd (ground arith);
    }

    heapify-IsHeap :
        (n i : ℕ) (xs : List A) (h : ℕ → A)
        → length xs ≡ n
        → Reads xs h
        → i ≤ n / 2
        → IsHeap below i n h
        → (h' : ℕ → A) × Reads (heapify below behind n xs i) h'
          × (length (heapify below behind n xs i) ≡ n)
          × IsHeap below 0 n h'
    unfolding heapify
    heapify-IsHeap n zero xs h e reads b heap = (h, reads, e, heap)
    heapify-IsHeap n (suc i) xs h e reads b heap =
        let (s, same) =
          sift_down-Sifted below order behind n i n xs i h reads (omega (arith, e)) (omega arith)
            (omega arith) (omega arith) (grown i n h heap) in
        heapify-IsHeap n i (sift_down below behind n n xs i) s.after (same ∙ e) s.reads
          (omega arith) s.heap

    -- The first of a heap is not below the others.
    root : (k j n : ℕ) (h : ℕ → A) → j ≤ k → j < n → IsHeap below 0 n h → below (h 0) (h j) ≡ false
    root k zero n h b inside heap = irrefl below order behind (h 0)
    root zero (suc j) n h b inside heap = absurd (omega arith)
    root (suc k) (suc j) n h b inside heap =
        order.trans (root k (j / 2) n h (omega arith) (omega arith) heap)
          (heap (j / 2) (suc j) (ground arith) (omega arith) inside)

    -- The last of a heap goes to the front.
    dethroned :
        (i : ℕ) (h : ℕ → A)
        → IsHeap below 0 (suc (suc i)) h
        → IsAlmostHeap below 0 (suc i) 0 (exchange h 0 (suc i))
    dethroned i h heap = record {
      others = λ p c child low ne inside.
          ap (λ x. below x (exchange h 0 (suc i) c))
            (exchange-other h 0 (suc i) p ne (ground arith))
          ∙ ap (below (h p)) (exchange-other h 0 (suc i) c (ground arith) (ground arith))
          ∙ heap p c child low (omega arith);
      around = λ p c up down low inside. absurd (ground arith);
    }

    module _ (n i : ℕ) (h : ℕ → A) (ys : List A) (b : suc i < n)
        (heap : IsHeap below 0 (suc (suc i)) h) (sorted : IsSortedFrom (suc (suc i)) n h)
        (s : Sifted below 0 (suc i) (exchange h 0 (suc i)) ys) where
      -- Behind a round the first elements are still among the first.
      from_prefix : (p : ℕ) → p < suc (suc i) → (t : ℕ) × (t < suc (suc i)) × (s.after p ≡ h t)
      from_prefix p k = elim (dec_lt p (suc i)) [
        | yes inside ↦
            let (q, c, e) = s.among p inside in
            let (t, d, e') =
              exchange-among below order behind h (suc (suc i)) 0 (suc i) q (omega arith)
                (omega arith) (omega arith) in
            (t, d, e ∙ e')
        | no last ↦
            (0, omega arith, s.rest p (omega arith) ∙ exchange-right h 0 (suc i) p (omega arith))
      ]

      from_rest : (p : ℕ) → suc i < p → s.after p ≡ h p
      from_rest p k =
          s.rest p (omega arith) ∙ exchange-other h 0 (suc i) p (omega arith) (omega arith)

      round-IsSortedFrom : IsSortedFrom (suc i) n s.after
      round-IsSortedFrom p q less low inside = elim (dec_lt (suc i) q) [
        | no first ↦
            let top : s.after q ≡ h 0 = s.rest q low ∙ exchange-right h 0 (suc i) q (omega arith) in
            let (t, c, e) = from_prefix p (omega arith) in
            ap (λ x. below x (s.after p)) top
            ∙ ap (below (h 0)) e
            ∙ root t t (suc (suc i)) h (omega arith) c heap
        | yes above ↦ ap (λ x. below x (s.after p)) (from_rest q above) ∙ elim (dec_lt (suc i) p) [
          | yes behind ↦ ap (below (h q)) (from_rest p behind) ∙ sorted p q less above inside
          | no front ↦
              let (t, c, e) = from_prefix p (omega arith) in
              ap (below (h q)) e ∙ sorted t q (omega arith) above inside
        ]
      ]

    extract-IsSorted :
        (n i : ℕ) (xs : List A) (h : ℕ → A)
        → length xs ≡ n
        → Reads xs h
        → i < n
        → IsHeap below 0 (suc i) h
        → IsSortedFrom (suc i) n h
        → (h' : ℕ → A) × Reads (extract below behind xs i) h'
          × (length (extract below behind xs i) ≡ n)
          × IsSortedFrom 1 n h'
    unfolding extract
    extract-IsSorted n zero xs h e reads b heap sorted = (h, reads, e, sorted)
    extract-IsSorted n (suc i) xs h e reads b heap sorted =
        let (reads', same) =
          swap-Reads below behind xs h 0 (suc i) reads (omega (arith, e)) (omega (arith, e)) in
        let (s, same') =
          sift_down-Sifted below order behind (suc i) 0 (suc i) (swap below behind xs 0 (suc i)) 0
            (exchange h 0 (suc i)) reads' (omega (arith, e, same)) (omega arith) (omega arith)
            (omega arith) (dethroned i h heap) in
        extract-IsSorted n i
          (sift_down below behind (suc i) (suc i) (swap below behind xs 0 (suc i)) 0) s.after
          (same' ∙ (same ∙ e)) s.reads (omega arith) s.heap
          (round-IsSortedFrom n i h _ b heap sorted s)

    -- The elements of a list, with `d` behind them.
    element : A → List A → ℕ → A
    element d [] k = d
    element d (x ∷ xs) zero = x
    element d (x ∷ xs) (suc k) = element d xs k

    element-Reads : (d : A) (xs : List A) → Reads xs (element d xs)
    unfolding element
    element-Reads d [] k h = absurd (omega arith)
    element-Reads d (x ∷ xs) zero h = refl
    element-Reads d (x ∷ xs) (suc k) h = element-Reads d xs k (omega arith)

    get_elem?-lt : (xs : List A) (k : ℕ) (a : A) → get_elem? xs k ≡ some a → k < length xs
    get_elem?-lt [] k a e = absurd (ground arith)
    get_elem?-lt (x ∷ xs) zero a e = omega arith
    get_elem?-lt (x ∷ xs) (suc k) a e = omega (arith, get_elem?-lt xs k a e)

    Reads-IsSorted :
        (xs : List A) (h : ℕ → A) → Reads xs h → IsSortedFrom 1 (length xs) h → IsSorted xs
    Reads-IsSorted xs h reads sorted p q a b less e e' =
        let inside = get_elem?-lt xs q b e' in
        let at_p : a ≡ h p = some-injective a (h p) (sym e ∙ reads p (omega arith)) in
        let at_q : b ≡ h q = some-injective b (h q) (sym e' ∙ reads q inside) in
        ap (λ x. below x a) at_q ∙ ap (below (h q)) at_p ∙ sorted p q less (omega arith) inside

    -- If the comparison orders the elements, a sort leaves no element below one in front of it.
    pub sort-IsSorted : (xs : List A) → IsSorted (sort below behind xs)
    unfolding sort heapify extract
    sort-IsSorted [] = λ p q a b less e e'. absurd (ground arith)
    sort-IsSorted (x ∷ xs) =
        let n = length (x ∷ xs) in
        let (h, reads, e, heap) =
          heapify-IsHeap n (n / 2) (x ∷ xs) (element x (x ∷ xs)) refl (element-Reads x (x ∷ xs))
            (omega arith) (λ p c child low inside. absurd (ground arith)) in
        let (h', reads', e', sorted) =
          extract-IsSorted n (n - 1) (heapify below behind n (x ∷ xs) (n / 2)) h e reads
            (omega arith) (λ p c child low inside. heap p c child low (omega arith))
            (λ p q less low inside. absurd (omega arith)) in
        Reads-IsSorted (extract below behind (heapify below behind n (x ∷ xs) (n / 2)) (n - 1)) h'
          reads' (λ p q less low inside. sorted p q less low (omega (arith, e', inside)))
