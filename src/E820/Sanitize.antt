-- ===== src/E820/Sanitize.antt =====
-- sanitize_e820_map (arch/x86/kernel/e820.c): the entries that come out do not overlap.
use sandix.Common.{
  ℕ, ◌+◌, ◌-◌, ◌≤◌, ◌<◌, ◌≡◌, inl, inr, not, ◌||◌, List, [], ◌∷◌, ◌++◌, arith, ◌==◌, if◌then◌else◌,
  Bool-cases,
}
use sandix.Word.{ullong_max, sub64, sub64-eq}
use sandix.Sort.Sift.{IsOrder}
use sandix.E820.{
  E820Entry, ChangeMember, comes_before, Sanitized, close_entry, update_overlap, overlap_type,
  sanitize_step, sanitize_loop,
}

-- The comparison of the change points orders them.
pub comes_before-IsOrder : (biosmap : List E820Entry) → IsOrder (comes_before biosmap)
comes_before-IsOrder biosmap = record { trans = λ h k. ground arith; asym = λ h. ground arith }

-- The entries are not empty, and lie between `lo` and `hi`, one behind the other.
abbrev pub AreApart : ℕ → List E820Entry → ℕ → Type 0
AreApart lo [] hi = lo ≤ hi
AreApart lo (e ∷ es) hi = (lo ≤ e.addr) × (0 < e.size) × AreApart (e.addr + e.size) es hi

pub AreApart-mono :
    (lo : ℕ) (es : List E820Entry) (hi top : ℕ) → hi ≤ top → AreApart lo es hi → AreApart lo es top
AreApart-mono lo [] hi top h a = omega (arith, a, h)
AreApart-mono lo (e ∷ es) hi top h a = (a.0, a.1, AreApart-mono (e.addr + e.size) es hi top h a.2)

AreApart-snoc :
    (lo : ℕ) (es : List E820Entry) (hi : ℕ) (e : E820Entry)
    → AreApart lo es hi
    → hi ≤ e.addr
    → 0 < e.size
    → AreApart lo (es ++ e ∷ []) (e.addr + e.size)
AreApart-snoc lo [] hi e a h k = (omega (arith, a, h), k, omega arith)
AreApart-snoc lo (d ∷ ds) hi e a h k = (a.0, a.1, AreApart-snoc (d.addr + d.size) ds hi e a.2 h k)

-- The addresses of the change points from `a` on, in ascending order.
abbrev pub Ascend : ℕ → List ChangeMember → Type 0
Ascend a [] = Unit {0}
Ascend a (c ∷ cs) = (a ≤ c.addr) × (c.addr ≤ ullong_max) × Ascend c.addr cs

-- Behind the change points up to `a`: the finished entries are apart, in front of the open one.
pub record IsBehind (a : ℕ) (s : Sanitized) : Type 0 where
  pub finished : AreApart 0 s.done (if s.last_type == 0 then a else s.last_addr)
  pub started : s.last_addr ≤ a
  pub word : a ≤ ullong_max

close_entry-AreApart :
    (a p : ℕ) (s : Sanitized)
    → IsBehind a s
    → a ≤ p
    → p ≤ ullong_max
    → AreApart 0 (close_entry p s) p
unfolding close_entry
close_entry-AreApart a p s b h k =
    let size-eq : sub64 p s.last_addr ≡ p - s.last_addr =
      sub64-eq p s.last_addr (omega (arith, b.started)) k in
    elim (Bool-cases (s.last_type == 0)) [
      | inl off ↦ rw (close_entry, off) (AreApart-mono 0 s.done a p h (rw off at b.finished))
      | inr on ↦ elim (Bool-cases (sub64 p s.last_addr == 0)) [
        | inl empty ↦
            rw (close_entry, on, empty)
              (AreApart-mono 0 s.done s.last_addr p (omega (arith, b.started))
                (rw on at b.finished))
        | inr more ↦
            rw (close_entry, on, more)
              (AreApart-mono 0 _ (s.last_addr + sub64 p s.last_addr) p
                (omega (arith, size-eq, b.started))
                (AreApart-snoc 0 s.done s.last_addr
                  (record { addr = s.last_addr; size = sub64 p s.last_addr; type = s.last_type })
                  (rw on at b.finished) (omega arith) (ground arith)))
      ]
    ]

pub IsBehind-AreApart : (a : ℕ) (s : Sanitized) → IsBehind a s → AreApart 0 s.done a
IsBehind-AreApart a s b = elim (Bool-cases (s.last_type == 0)) [
  | inl off ↦ rw off at b.finished
  | inr on ↦ AreApart-mono 0 s.done s.last_addr a b.started (rw on at b.finished)
]

module _ (biosmap : List E820Entry) (max_nr : ℕ) where
  pub sanitize_step-IsBehind :
      (a : ℕ) (c : ChangeMember) (s : Sanitized)
      → IsBehind a s
      → a ≤ c.addr
      → c.addr ≤ ullong_max
      → IsBehind c.addr ((sanitize_step biosmap max_nr c s).1)
  unfolding sanitize_step
  sanitize_step-IsBehind a c s b h k =
      let current : ℕ = overlap_type biosmap (update_overlap biosmap c s.overlap) in
      elim (Bool-cases (not (current == s.last_type) || current == 12)) [
        | inl change ↦
            let closed = close_entry-AreApart a c.addr s b h k in
            rw (sanitize_step, change)
              (record {
                finished = elim (Bool-cases (current == 0)) [
                  | inl off ↦ rw off closed
                  | inr on ↦ rw on closed
                ];
                started = ground (arith, b.started);
                word = k;
              })
        | inr stay ↦
            rw (sanitize_step, stay)
              (record {
                finished = elim (Bool-cases (s.last_type == 0)) [
                  | inl off ↦ rw off (AreApart-mono 0 s.done a c.addr h (rw off at b.finished))
                  | inr on ↦ rw on (rw on at b.finished)
                ];
                started = omega (arith, b.started);
                word = k;
              })
      ]

  pub sanitize_loop-AreApart :
      (a : ℕ) (cs : List ChangeMember) (s : Sanitized)
      → IsBehind a s
      → Ascend a cs
      → AreApart 0 (sanitize_loop biosmap max_nr cs s) ullong_max
  unfolding sanitize_loop
  sanitize_loop-AreApart a [] s b o =
      AreApart-mono 0 s.done a ullong_max b.word (IsBehind-AreApart a s b)
  sanitize_loop-AreApart a (c ∷ cs) s b o =
      let step = sanitize_step biosmap max_nr c s in
      let next : IsBehind c.addr (step.1) = sanitize_step-IsBehind a c s b o.0 o.1 in
      elim (Bool-cases (step.0)) [
        | inl on ↦ rw (sanitize_loop, on) (sanitize_loop-AreApart c.addr cs (step.1) next o.2)
        | inr off ↦
            rw (sanitize_loop, off)
              (AreApart-mono 0 (step.1).done c.addr ullong_max o.1
                (IsBehind-AreApart c.addr (step.1) next))
      ]
