-- ===== src/E820/Typed.antt =====
-- sanitize_e820_map (arch/x86/kernel/e820.c): the types of the new entries along the change points.
use sandix.Common.{
  ℕ, ◌+◌, ◌-◌, ◌≤◌, ◌<◌, ◌≡◌, refl, inl, inr, not, ◌||◌, List, [], ◌∷◌, ◌++◌, arith, leb, ◌==◌, max,
  if◌then◌else◌, Bool-cases,
}
use native.Mathlib.Decide.{dec_lt}
use sandix.Word.{ullong_max, sub64, sub64-eq}
use sandix.E820.{
  E820Entry, ChangeMember, Sanitized, close_entry, update_overlap, overlap_type, sanitize_step,
}
use sandix.E820.Sanitize.{Ascend, AreApart, IsBehind, IsBehind-AreApart}
use sandix.E820.Points.{AreWords, spans}
use sandix.E820.Overlap.{max_type, overlap_type-max_type}
use sandix.E820.Sweep.{IsSwept, update_overlap-IsSwept, listed-covering}

pub AreApart-le : (lo : ℕ) (es : List E820Entry) (hi : ℕ) → AreApart lo es hi → lo ≤ hi
AreApart-le lo [] hi a = a
AreApart-le lo (e ∷ es) hi a =
    let rest = AreApart-le (e.addr + e.size) es hi a.2 in omega (arith, rest, a.0)

pub AreApart-max_type :
    (lo : ℕ) (es : List E820Entry) (hi x : ℕ) → AreApart lo es hi → hi ≤ x → max_type es x ≡ 0
AreApart-max_type lo [] hi x a h = refl
AreApart-max_type lo (e ∷ es) hi x a h =
    let rest = AreApart-max_type (e.addr + e.size) es hi x a.2 h in
    let inside = AreApart-le (e.addr + e.size) es hi a.2 in ground (arith, rest, inside, h)

max_type-snoc :
    (es : List E820Entry) (e : E820Entry) (x : ℕ)
    → max_type (es ++ e ∷ []) x ≡ max (max_type es x) (if spans e x then e.type else 0)
max_type-snoc [] e x = ground arith
max_type-snoc (d ∷ ds) e x = let rest = max_type-snoc ds e x in ground (arith, rest)

pub max_type-max : (es : List E820Entry) → AreWords es → max_type es ullong_max ≡ 0
max_type-max [] w = refl
max_type-max (e ∷ es) w = ground (arith, max_type-max es w.1, w.0)

-- The type that the open entry gives to `x`.
abbrev pub open_type : Sanitized → ℕ → ℕ
open_type s x = if leb s.last_addr x then s.last_type else 0

close_entry-max_type :
    (p x : ℕ) (s : Sanitized)
    → s.last_addr ≤ p
    → p ≤ ullong_max
    → x < p
    → max_type (close_entry p s) x ≡ max (max_type s.done x) (open_type s x)
unfolding close_entry
close_entry-max_type p x s h k inside =
    let size-eq : sub64 p s.last_addr ≡ p - s.last_addr = sub64-eq p s.last_addr h k in
    elim (Bool-cases (s.last_type == 0 || sub64 p s.last_addr == 0)) [
      | inl none_new ↦ rw (close_entry, none_new) (ground (arith, none_new, size-eq, inside))
      | inr new ↦
          let entry : E820Entry = record {
            addr = s.last_addr;
            size = sub64 p s.last_addr;
            type = s.last_type;
          } in
          rw (close_entry, new, max_type-snoc s.done entry x)
            (ground (arith, new, size-eq, inside, h))
    ]

module _ (biosmap : List E820Entry) (words : AreWords biosmap) where
  -- In front of `a` the new entries and the open one have the types of the map.
  pub record IsTyped (a : ℕ) (s : Sanitized) : Type 0 where
    pub typed : (x : ℕ) → x < a → max_type biosmap x ≡ max (max_type s.done x) (open_type s x)
    pub latest : s.last_type ≡ overlap_type biosmap s.overlap

  -- They have them up to the next change point.
  pub IsTyped-next :
      (a b : ℕ) (cs : List ChangeMember) (s : Sanitized)
      → IsSwept biosmap words a cs s.overlap
      → Ascend b cs
      → IsBehind a s
      → IsTyped a s
      → (x : ℕ) → x < b
      → max_type biosmap x ≡ max (max_type s.done x) (open_type s x)
  IsTyped-next a b cs s swept ascend behind types x inside = elim (dec_lt x a) [
    | yes before ↦ types.typed x before
    | no after ↦
        let current : overlap_type biosmap s.overlap ≡ max_type biosmap x =
          overlap_type-max_type biosmap x s.overlap
            (listed-covering biosmap words a b cs s.overlap swept ascend x (omega arith) inside) in
        let bare = AreApart-max_type 0 s.done a x (IsBehind-AreApart a s behind) (omega arith) in
        ground (arith, types.latest, current, bare, behind.started)
  ]

  module _ (max_nr a : ℕ) (c : ChangeMember) (cs : List ChangeMember) (s : Sanitized)
      (swept : IsSwept biosmap words a (c ∷ cs) s.overlap) (ascend : Ascend a (c ∷ cs))
      (behind : IsBehind a s) (types : IsTyped a s) where
    pub sanitize_step-IsTyped : IsTyped c.addr ((sanitize_step biosmap max_nr c s).1)
    unfolding sanitize_step
    sanitize_step-IsTyped =
        let current : ℕ = overlap_type biosmap (update_overlap biosmap c s.overlap) in
        let next =
          IsTyped-next a c.addr (c ∷ cs) s swept (omega arith, ascend.1, ascend.2) behind types in
        elim (Bool-cases (not (current == s.last_type) || current == 12)) [
          | inl change ↦
              rw (sanitize_step, change)
                (record {
                  typed = λ x inside.
                      let closed =
                        close_entry-max_type c.addr x s (omega (arith, behind.started, ascend.0))
                          ascend.1 inside in
                      ground (arith, next x inside, closed, inside);
                  latest = refl;
                })
          | inr stay ↦ rw (sanitize_step, stay) (record { typed = next; latest = ground arith })
        ]

    pub sanitize_step-IsSwept :
        IsSwept biosmap words c.addr cs ((sanitize_step biosmap max_nr c s).1).overlap
    unfolding sanitize_step
    sanitize_step-IsSwept =
        let current : ℕ = overlap_type biosmap (update_overlap biosmap c s.overlap) in
        let updated = update_overlap-IsSwept biosmap words a c cs s.overlap swept ascend in
        elim (Bool-cases (not (current == s.last_type) || current == 12)) [
          | inl change ↦ rw (sanitize_step, change) updated
          | inr stay ↦ rw (sanitize_step, stay) updated
        ]
