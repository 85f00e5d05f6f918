-- ===== src/Strings/Mem/Copy.antt =====
-- lib/string.c: what memcpy and memmove do to the memory.
use native.Mathlib.Decide.{dec_le}
use sandix.Common.{
  ℕ, zero, suc, ◌+◌, ◌≤◌, ◌<◌, ◌≡◌, ◌≢◌, refl, ap, ◌∙◌, ◌⊎◌, inl, inr, arith, le→leb, lt→leb,
}
use sandix.Strings.Mem.{Memory, write, memcpy, copy_down, memmove}

-- The address lies outside [lo, lo + n).
abbrev pub Outside : ℕ → ℕ → ℕ → Type 0
Outside lo n q = (q < lo) ⊎ (lo + n ≤ q)

-- `after` has at dest the `n` bytes that `before` has at src, and elsewhere those of `before`.
pub record Copied (before : Memory) (dest src n : ℕ) (after : Memory) : Type 0 where
  pub moved : (i : ℕ) → i < n → after (dest + i) ≡ before (src + i)
  pub kept : (q : ℕ) → Outside dest n q → after q ≡ before q

pub write-hit : (m : Memory) (p v q : ℕ) → q ≡ p → write m p v q ≡ v
write-hit m p v q e = ground arith

pub write-miss : (m : Memory) (p v q : ℕ) → q ≢ p → write m p v q ≡ m q
write-miss m p v q e = ground arith

memcpy-kept : (m : Memory) (d s n q : ℕ) → Outside d n q → memcpy m d s n q ≡ m q
unfolding memcpy
memcpy-kept m d s zero q h = refl
memcpy-kept m d s (suc n) q h =
    memcpy-kept (write m d (m s)) (d + 1) (s + 1) n q (ground arith)
    ∙ write-miss m d (m s) q (ground arith)

memcpy-moved :
    (m : Memory) (d s n i : ℕ) → (d ≤ s) ⊎ (s + n ≤ d) → i < n → memcpy m d s n (d + i) ≡ m (s + i)
unfolding memcpy
memcpy-moved m d s zero i h b = ground arith
memcpy-moved m d s (suc n) zero h b =
    memcpy-kept (write m d (m s)) (d + 1) (s + 1) n (d + 0) (inl (omega arith))
    ∙ write-hit m d (m s) (d + 0) (omega arith)
    ∙ ap m (omega arith)
memcpy-moved m d s (suc n) (suc i) h b =
    ap (memcpy (write m d (m s)) (d + 1) (s + 1) n) (omega arith)
    ∙ memcpy-moved (write m d (m s)) (d + 1) (s + 1) n i (ground arith) (omega arith)
    ∙ write-miss m d (m s) (s + 1 + i) (ground arith)
    ∙ ap m (omega arith)

-- memcpy copies where the areas do not overlap, or the source is not below the destination.
pub memcpy-Copied :
    (m : Memory) (dest src count : ℕ)
    → (dest ≤ src) ⊎ (src + count ≤ dest)
    → Copied m dest src count (memcpy m dest src count)
memcpy-Copied m dest src count h = record {
  moved = λ i. memcpy-moved m dest src count i h;
  kept = memcpy-kept m dest src count;
}

copy_down-kept : (m : Memory) (d s n q : ℕ) → Outside d n q → copy_down m d s n q ≡ m q
unfolding copy_down
copy_down-kept m d s zero q h = refl
copy_down-kept m d s (suc n) q h =
    copy_down-kept (write m (d + n) (m (s + n))) d s n q (ground arith)
    ∙ write-miss m (d + n) (m (s + n)) q (ground arith)

copy_down-moved : (m : Memory) (d s n i : ℕ) → s < d → i < n → copy_down m d s n (d + i) ≡ m (s + i)
unfolding copy_down
copy_down-moved m d s zero i h b = ground arith
copy_down-moved m d s (suc n) i h b = elim (dec_le n i) [
  | yes e ↦
      copy_down-kept (write m (d + n) (m (s + n))) d s n (d + i) (inr (omega arith))
      ∙ write-hit m (d + n) (m (s + n)) (d + i) (omega arith)
      ∙ ap m (omega arith)
  | no ne ↦
      copy_down-moved (write m (d + n) (m (s + n))) d s n i h (ground arith)
      ∙ write-miss m (d + n) (m (s + n)) (s + i) (ground arith)
]

-- memmove copies whatever way the two areas overlap: the destination gets the bytes that the source
-- had before the call, and no byte outside the destination changes.
pub memmove-Copied :
    (m : Memory) (dest src count : ℕ) → Copied m dest src count (memmove m dest src count)
unfolding memmove
memmove-Copied m dest src count = elim (dec_le dest src) [
  | yes h ↦ rw (le→leb dest src h) (memcpy-Copied m dest src count (inl h))
  | no h ↦
      let above : src < dest = ground arith in
      rw (lt→leb src dest above) (record {
        moved = λ i b. copy_down-moved m dest src count i above b;
        kept = copy_down-kept m dest src count;
      })
]
