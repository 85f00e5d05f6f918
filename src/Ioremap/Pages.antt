-- ===== src/Ioremap/Pages.antt =====
-- mm/early_ioremap.c: the entries that the loops over pages write.
use sandix.Common.{
  ℕ, zero, suc, ◌+◌, ◌-◌, ◌*◌, ◌/◌, ◌≤◌, ◌<◌, ◌≡◌, ◌≢◌, refl, ap, ◌∙◌, ◌⊎◌, none, some, arith,
}
use native.Mathlib.Decide.{dec_lt}
use sandix.Word.{word, add64}
use sandix.Ioremap.{Fixmap, update, set_fixmap, map_pages, clear_pages}

update-other : {A : Type 0} (f : ℕ → A) (i j : ℕ) (v : A) → j ≢ i → update f i v j ≡ f j
update-other f i j v ne = ground (arith, ne)

-- The entries outside the pages of a mapping do not change.
pub map_pages-other :
    (n idx phys prot j : ℕ) (f : Fixmap)
    → n ≤ idx + 1
    → (idx < j) ⊎ (j + n ≤ idx)
    → map_pages n idx phys prot f j ≡ f j
unfolding map_pages set_fixmap
map_pages-other zero idx phys prot j f b h = refl
map_pages-other (suc n) idx phys prot j f b h =
    map_pages-other n (idx - 1) (add64 phys 4096) prot j (set_fixmap idx phys prot f) (omega arith)
      (ground (arith, h))
    ∙ update-other f idx j _ (ground (arith, h))

-- Page `k` of a mapping has the k-th entry down from `idx`.
pub map_pages-entry :
    (n idx phys prot k : ℕ) (f : Fixmap)
    → n ≤ idx + 1
    → phys + n * 4096 ≤ word
    → 0 < prot
    → k < n
    → map_pages n idx phys prot f (idx - k) ≡ some (phys / 4096 + k, prot)
unfolding map_pages set_fixmap add64
map_pages-entry zero idx phys prot k f b w p h = absurd (omega arith)
map_pages-entry (suc n) idx phys prot zero f b w p h =
    map_pages-other n (idx - 1) (add64 phys 4096) prot (idx - 0) (set_fixmap idx phys prot f)
      (omega arith) (ground arith)
    ∙ ground arith
map_pages-entry (suc n) idx phys prot (suc k) f b w p h =
    let next : add64 phys 4096 ≡ phys + 4096 = omega arith in
    let rest =
      map_pages-entry n (idx - 1) (add64 phys 4096) prot k (set_fixmap idx phys prot f)
        (omega arith) (omega (arith, next)) p (omega arith) in
    ap (map_pages n (idx - 1) (add64 phys 4096) prot (set_fixmap idx phys prot f)) (omega arith)
    ∙ rest
    ∙ ap (λ q. some (q, prot)) (omega (arith, next))

pub clear_pages-other :
    (n idx j : ℕ) (f : Fixmap)
    → n ≤ idx + 1
    → (idx < j) ⊎ (j + n ≤ idx)
    → clear_pages n idx f j ≡ f j
unfolding clear_pages set_fixmap
clear_pages-other zero idx j f b h = refl
clear_pages-other (suc n) idx j f b h =
    clear_pages-other n (idx - 1) j (set_fixmap idx 0 0 f) (omega arith) (ground (arith, h))
    ∙ update-other f idx j _ (ground (arith, h))

pub clear_pages-entry :
    (n idx j : ℕ) (f : Fixmap) → n ≤ idx + 1 → j ≤ idx → idx < j + n → clear_pages n idx f j ≡ none
unfolding clear_pages set_fixmap
clear_pages-entry zero idx j f b h k = absurd (omega arith)
clear_pages-entry (suc n) idx j f b h k = elim (dec_lt j idx) [
  | yes below ↦
      clear_pages-entry n (idx - 1) j (set_fixmap idx 0 0 f) (omega arith) (omega arith)
        (omega arith)
  | no top ↦
      clear_pages-other n (idx - 1) j (set_fixmap idx 0 0 f) (omega arith) (ground arith)
      ∙ ground arith
]
