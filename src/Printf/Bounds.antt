-- ===== src/Printf/Bounds.antt =====
-- lib/vsprintf.c: which bytes the printing functions write.
pub mod Fields
use sandix.Common.{
  ℕ, zero, suc, ◌+◌, ◌-◌, ◌≤◌, ◌<◌, ◌≡◌, refl, ◌∙◌, ◌⊎◌, inl, inr, Bool, true, false, arith, List,
  [], ◌∷◌, if◌then◌else◌, ltb, ◌==◌,
}
use sandix.Strings.Mem.{Memory, write}
use sandix.Printf.{Output, put, put_all, pad}

-- The output only moves forward, and no byte before it or from `end` on changes.
pub record Wrote (end : ℕ) (o o' : Output) : Type 0 where
  pub forward : o.at ≤ o'.at
  pub kept : (q : ℕ) → (q < o.at) ⊎ (end ≤ q) → o'.mem q ≡ o.mem q

pub Wrote-refl : (end : ℕ) (o : Output) → Wrote end o o
Wrote-refl end o = record { forward = omega arith; kept = λ q h. refl }

pub Wrote-trans : {end : ℕ} {o u w : Output} → Wrote end o u → Wrote end u w → Wrote end o w
Wrote-trans a b = record {
  forward = omega (arith, a.forward, b.forward);
  kept = λ q h. b.kept q (ground (arith, a.forward)) ∙ a.kept q h;
}

pub Wrote-if :
    {end : ℕ} {o u w : Output} (b : Bool)
    → Wrote end o u
    → Wrote end o w
    → Wrote end o (if b then u else w)
Wrote-if true h k = h
Wrote-if false h k = k

pub put-Wrote : (end c : ℕ) (o : Output) → Wrote end o (put end c o)
unfolding put
put-Wrote end c o = record { forward = omega arith; kept = λ q h. ground arith }

pub put_all-Wrote : (end : ℕ) (cs : List ℕ) (o : Output) → Wrote end o (put_all end cs o)
unfolding put_all
put_all-Wrote end [] o = Wrote-refl end o
put_all-Wrote end (c ∷ cs) o = Wrote-trans (put-Wrote end c o) (put_all-Wrote end cs (put end c o))

pub pad-Wrote : (end c n : ℕ) (o : Output) → Wrote end o (pad end c n o)
unfolding pad
pad-Wrote end c zero o = Wrote-refl end o
pad-Wrote end c (suc n) o = Wrote-trans (put-Wrote end c o) (pad-Wrote end c n (put end c o))
