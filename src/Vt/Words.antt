-- ===== src/Vt/Words.antt =====
-- include/video/video.h: what filling and copying the words of the video memory leaves.
use sandix.Common.{
  ℕ, zero, suc, ◌+◌, ◌*◌, ◌≤◌, ◌<◌, ◌≡◌, ◌⊎◌, refl, ap, ◌∙◌, inl, inr, true, false, arith, ◌==◌,
}
use sandix.Strings.Mem.{write}
use sandix.Vt.{scr_memsetw, scr_memcpyw}

pub write-here : (m : ℕ → ℕ) (p v : ℕ) → write m p v p ≡ v
write-here m p v = let same : (p == p) ≡ true = ground arith in rw same refl

pub write-there : (m : ℕ → ℕ) (p v q : ℕ) → (q < p) ⊎ (p < q) → write m p v q ≡ m q
write-there m p v q apart = let other : (q == p) ≡ false = ground (arith, apart) in rw other refl

pub scr_memsetw-outside :
    (m : ℕ → ℕ) (d v count p : ℕ) → (p < d) ⊎ (d + 2 * count ≤ p) → scr_memsetw m d v count p ≡ m p
unfolding scr_memsetw
scr_memsetw-outside m d v zero p out = refl
scr_memsetw-outside m d v (suc count) p (inl low) =
    scr_memsetw-outside (write m d v) (d + 2) v count p (inl (omega (arith, low)))
    ∙ write-there m d v p (inl low)
scr_memsetw-outside m d v (suc count) p (inr high) =
    scr_memsetw-outside (write m d v) (d + 2) v count p (inr (omega (arith, high)))
    ∙ write-there m d v p (inr (omega (arith, high)))

pub scr_memsetw-inside :
    (m : ℕ → ℕ) (d v count i : ℕ) → i < count → scr_memsetw m d v count (d + 2 * i) ≡ v
unfolding scr_memsetw
scr_memsetw-inside m d v zero i h = absurd (omega arith)
scr_memsetw-inside m d v (suc count) zero h =
    let first : d + 2 * 0 ≡ d = omega arith in
    ap (scr_memsetw (write m d v) (d + 2) v count) first
    ∙ scr_memsetw-outside (write m d v) (d + 2) v count d (inl (omega arith))
    ∙ write-here m d v
scr_memsetw-inside m d v (suc count) (suc i) h =
    let next : d + 2 * suc i ≡ d + 2 + 2 * i = omega arith in
    ap (scr_memsetw (write m d v) (d + 2) v count) next
    ∙ scr_memsetw-inside (write m d v) (d + 2) v count i (omega arith)

pub scr_memcpyw-outside :
    (m : ℕ → ℕ) (d s count p : ℕ) → (p < d) ⊎ (d + 2 * count ≤ p) → scr_memcpyw m d s count p ≡ m p
unfolding scr_memcpyw
scr_memcpyw-outside m d s zero p out = refl
scr_memcpyw-outside m d s (suc count) p (inl low) =
    scr_memcpyw-outside (write m d (m s)) (d + 2) (s + 2) count p (inl (omega (arith, low)))
    ∙ write-there m d (m s) p (inl low)
scr_memcpyw-outside m d s (suc count) p (inr high) =
    scr_memcpyw-outside (write m d (m s)) (d + 2) (s + 2) count p (inr (omega (arith, high)))
    ∙ write-there m d (m s) p (inr (omega (arith, high)))

-- The copy goes up, so it may overlap what lies above.
pub scr_memcpyw-inside :
    (m : ℕ → ℕ) (d s count i : ℕ)
    → d < s
    → i < count
    → scr_memcpyw m d s count (d + 2 * i) ≡ m (s + 2 * i)
unfolding scr_memcpyw
scr_memcpyw-inside m d s zero i up h = absurd (omega arith)
scr_memcpyw-inside m d s (suc count) zero up h =
    let first : d + 2 * 0 ≡ d = omega arith in
    let from : s ≡ s + 2 * 0 = omega arith in
    ap (scr_memcpyw (write m d (m s)) (d + 2) (s + 2) count) first
    ∙ scr_memcpyw-outside (write m d (m s)) (d + 2) (s + 2) count d (inl (omega arith))
    ∙ write-here m d (m s)
    ∙ ap m from
scr_memcpyw-inside m d s (suc count) (suc i) up h =
    let next : d + 2 * suc i ≡ d + 2 + 2 * i = omega arith in
    let from : s + 2 + 2 * i ≡ s + 2 * suc i = omega arith in
    ap (scr_memcpyw (write m d (m s)) (d + 2) (s + 2) count) next
    ∙ scr_memcpyw-inside (write m d (m s)) (d + 2) (s + 2) count i (omega arith) (omega arith)
    ∙ write-there m d (m s) (s + 2 + 2 * i) (inr (omega arith))
    ∙ ap m from
