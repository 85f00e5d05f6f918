-- ===== src/Zones/Frames.antt =====
-- mm/page_alloc.c: the pages of a zone that are present are the page frames of memory in it.
use sandix.Common.{
  ℕ, zero, suc, ◌+◌, ◌-◌, ◌≤◌, ◌<◌, ◌≡◌, refl, ap, ◌∙◌, inl, inr, Bool, false, ◌&&◌, ◌||◌, List, [],
  ◌∷◌, arith, min, max, ltb, leb, ◌==◌, if◌then◌else◌, Bool-cases,
}
use sandix.Word.{ullong_max, sub64, sub64-eq}
use sandix.Memblock.Find.{clamp}
use sandix.Memblock.Walk.{PfnRange}
use sandix.Zones.{
  ZoneLimits, zone_spanned_pages_in_node, absent_loop, absent_pages_in_range,
  zone_absent_pages_in_node, zone_size,
}

-- Ranges in order from a page frame on.
pub data InOrder : ℕ → List PfnRange → Type 0 where
  done : {from : ℕ} → InOrder from []
  next :
      {from : ℕ} {r : PfnRange} {rs : List PfnRange}
      → from ≤ r.start_pfn
      → r.start_pfn < r.end_pfn
      → r.end_pfn ≤ ullong_max
      → InOrder r.end_pfn rs
      → InOrder from (r ∷ rs)

-- Whether a page frame is in a range, or in one of them.
abbrev pub in_range : PfnRange → ℕ → Bool
in_range r n = leb r.start_pfn n && ltb n r.end_pfn

abbrev pub held : List PfnRange → ℕ → Bool
held [] n = false
held (r ∷ rs) n = in_range r n || held rs n

abbrev pub as_number : Bool → ℕ
as_number b = if b then 1 else 0

-- How many of the `k` page frames from `lo` on are in a range.
unfoldable pub frames : List PfnRange → ℕ → ℕ → ℕ
frames rs lo zero = 0
frames rs lo (suc k) = as_number (held rs lo) + frames rs (lo + 1) k

frames_of : PfnRange → ℕ → ℕ → ℕ
frames_of r lo zero = 0
frames_of r lo (suc k) = as_number (in_range r lo) + frames_of r (lo + 1) k

frames_of-eq :
    (r : PfnRange) (lo k : ℕ)
    → r.start_pfn < r.end_pfn
    → frames_of r lo k ≡ clamp r.end_pfn lo (lo + k) - clamp r.start_pfn lo (lo + k)
unfolding frames_of
frames_of-eq r lo zero h = omega arith
frames_of-eq r lo (suc k) h = ground (arith, frames_of-eq r (lo + 1) k h)

frames-le : (rs : List PfnRange) (lo k : ℕ) → frames rs lo k ≤ k
unfolding frames
frames-le rs lo zero = omega arith
frames-le rs lo (suc k) = elim (Bool-cases (held rs lo)) [
  | inl inside ↦ rw inside (omega (arith, frames-le rs (lo + 1) k))
  | inr out ↦ rw out (omega (arith, frames-le rs (lo + 1) k))
]

held_below : (from n : ℕ) (rs : List PfnRange) → InOrder from rs → n < from → held rs n ≡ false
held_below from n [] done h = refl
held_below from n (r ∷ rs) (next low some_frames top order) h =
    let out : in_range r n ≡ false = ground (arith, low, h) in
    rw out (held_below r.end_pfn n rs order (omega (arith, low, some_frames, h)))

frames-cons :
    (from : ℕ) (r : PfnRange) (rs : List PfnRange) (lo k : ℕ)
    → InOrder from (r ∷ rs)
    → frames (r ∷ rs) lo k ≡ frames_of r lo k + frames rs lo k
unfolding frames frames_of
frames-cons from r rs lo zero order = omega arith
frames-cons from r rs lo (suc k) (next low some_frames top order) =
    let rest = frames-cons from r rs (lo + 1) k (next low some_frames top order) in
    elim (Bool-cases (in_range r lo)) [
      | inl inside ↦
          let alone = held_below r.end_pfn lo rs order (ground (arith, inside)) in
          rw (inside, alone) (omega (arith, rest))
      | inr out ↦ rw out (omega (arith, rest))
    ]

-- The pages of a range inside the limits, as the code has them.
clamp-eq :
    (lo hi : ℕ) (r : PfnRange)
    → lo ≤ hi
    → hi ≤ ullong_max
    → r.start_pfn < r.end_pfn
    → sub64 (clamp r.end_pfn lo hi) (clamp r.start_pfn lo hi) ≡ frames_of r lo (hi - lo)
clamp-eq lo hi r order top some_frames =
    let size = frames_of-eq r lo (hi - lo) some_frames in
    let end : lo + (hi - lo) ≡ hi = omega (arith, order) in
    sub64-eq (clamp r.end_pfn lo hi) (clamp r.start_pfn lo hi) (omega (arith, some_frames, order))
      (omega (arith, top))
    ∙ omega (arith, size, end)

no_frames : (lo k : ℕ) → frames [] lo k ≡ 0
unfolding frames
no_frames lo zero = refl
no_frames lo (suc k) = omega (arith, no_frames (lo + 1) k)

absent_loop-frames :
    (from lo hi : ℕ) (rs : List PfnRange) (nr : ℕ)
    → InOrder from rs
    → lo ≤ hi
    → hi ≤ ullong_max
    → frames rs lo (hi - lo) ≤ nr
    → nr ≤ ullong_max
    → absent_loop lo hi rs nr ≡ nr - frames rs lo (hi - lo)
unfolding absent_loop
absent_loop-frames from lo hi [] nr done order top enough small =
    omega (arith, no_frames lo (hi - lo))
absent_loop-frames from lo hi (r ∷ rs) nr (next low some_frames end ranges) order top enough small =
    let split = frames-cons from r rs lo (hi - lo) (next low some_frames end ranges) in
    let size = clamp-eq lo hi r order top some_frames in
    let less : sub64 nr (sub64 (clamp r.end_pfn lo hi) (clamp r.start_pfn lo hi))
        ≡ nr - frames_of r lo (hi - lo) =
      ap (sub64 nr) size
      ∙ sub64-eq nr (frames_of r lo (hi - lo)) (omega (arith, split, enough)) small in
    ap (absent_loop lo hi rs) less
    ∙ absent_loop-frames r.end_pfn lo hi rs (nr - frames_of r lo (hi - lo)) ranges order top
        (omega (arith, split, enough)) (omega (arith, small))
    ∙ omega (arith, split)

-- The first page frame of a zone, and their number, in a node that goes from page frame `a` to `b`.
abbrev pub zone_start : ZoneLimits → ℕ → ℕ
zone_start z a = clamp a z.low z.high

abbrev pub zone_pages : ZoneLimits → ℕ → ℕ → ℕ
zone_pages z a b = clamp b z.low z.high - clamp a z.low z.high

module _ (z : ZoneLimits) (a b : ℕ) (order : a ≤ b) (limits : z.low ≤ z.high)
    (top : z.high ≤ ullong_max) where
  spanned-eq : (zone_spanned_pages_in_node z a b).0 ≡ (zone_pages z a b)
  unfolding zone_spanned_pages_in_node
  spanned-eq = elim (Bool-cases (a == 0 && b == 0)) [
    | inl empty ↦ rw (zone_spanned_pages_in_node, empty) (ground (arith, empty))
    | inr node ↦ elim (Bool-cases (ltb z.high a || ltb b z.low)) [
      | inl apart ↦
          rw (zone_spanned_pages_in_node, node, apart) (ground (arith, apart, order, limits))
      | inr meet ↦
          rw (zone_spanned_pages_in_node, node, meet)
            (sub64-eq (min z.high b) (max z.low a) (ground (arith, meet, order, limits))
                (omega (arith, top))
              ∙ ground (arith, meet, order, limits))
    ]
  ]

  absent-eq :
      (from : ℕ) (rs : List PfnRange)
      → InOrder from rs
      → zone_absent_pages_in_node z a b rs
        ≡ (zone_pages z a b) - frames rs (zone_start z a) (zone_pages z a b)
  unfolding zone_absent_pages_in_node absent_pages_in_range
  absent-eq from rs ranges = elim (Bool-cases (a == 0 && b == 0)) [
    | inl empty ↦ rw (zone_absent_pages_in_node, empty) (ground (arith, empty))
    | inr node ↦
        let size : sub64 (clamp b z.low z.high) (zone_start z a) ≡ (zone_pages z a b) =
          sub64-eq (clamp b z.low z.high) (zone_start z a) (omega (arith, order))
            (omega (arith, top)) in
        rw (zone_absent_pages_in_node, node)
          (ap (absent_loop (zone_start z a) (clamp b z.low z.high) rs) size
            ∙ absent_loop-frames from (zone_start z a) (clamp b z.low z.high) rs (zone_pages z a b)
                ranges (omega (arith, order)) (omega (arith, top))
                (frames-le rs (zone_start z a) (zone_pages z a b)) (omega (arith, top)))
  ]

  -- For ranges of memory in order, the pages that a zone of a node spans are those between its limits
  -- cut to the node, and its present pages are the page frames of memory among them.
  pub zone_size-frames :
      (from : ℕ) (rs : List PfnRange)
      → InOrder from rs
      → let size = zone_size z a b rs in
        (size.spanned_pages ≡ (zone_pages z a b))
        × (size.present_pages ≡ frames rs (zone_start z a) (zone_pages z a b))
  unfolding zone_size
  zone_size-frames from rs ranges =
      let absent = absent-eq from rs ranges in
      let few = frames-le rs (zone_start z a) (zone_pages z a b) in
      (
        spanned-eq,
        ap (λ n. sub64 n (zone_absent_pages_in_node z a b rs)) spanned-eq
            ∙ sub64-eq (zone_pages z a b) (zone_absent_pages_in_node z a b rs)
                (omega (arith, absent)) (omega (arith, top))
            ∙ omega (arith, absent, few),
      )
