-- ===== src/Vt/Slots.antt =====
-- drivers/tty/vt/vt.c: the slots of the table of console drivers, how they are found and how often an
-- address is in them.
use sandix.Common.{
  ℕ, suc, ◌+◌, ◌≡◌, refl, ap, ◌∙◌, sym, subst, inl, inr, true, false, none, some, List, [], ◌∷◌,
  set, arith, ◌==◌, if◌then◌else◌, Bool-cases,
}
use sandix.Vt.Registry.{find_slot}

-- Whether two addresses are the same, and how often an address is in the table.
abbrev pub one : ℕ → ℕ → ℕ
one a b = if a == b then 1 else 0

unfoldable pub count : ℕ → List ℕ → ℕ
count con [] = 0
count con (s ∷ ss) = one con s + count con ss

-- The first slot with an address.
pub data FoundAt (con : ℕ) : List ℕ → ℕ → Type 0 where
  here : {s : ℕ} {ss : List ℕ} → (con == s) ≡ true → FoundAt con (s ∷ ss) 0
  there :
      {s : ℕ} {ss : List ℕ} {i : ℕ}
      → (con == s) ≡ false
      → FoundAt con ss i
      → FoundAt con (s ∷ ss) (suc i)

some_inj : (a b : ℕ) → some a ≡ some b → a ≡ b
some_inj a b e = cc

pub find_slot-FoundAt :
    (con : ℕ) (slots : List ℕ) (i : ℕ) → find_slot con slots ≡ some i → FoundAt con slots i
unfolding find_slot
find_slot-FoundAt con [] i h = absurd cc
find_slot-FoundAt con (s ∷ ss) i h = elim (Bool-cases (con == s)) [
  | inl same ↦
      let first : find_slot con (s ∷ ss) ≡ some 0 = rw (find_slot, same) refl in
      subst (FoundAt con (s ∷ ss)) (some_inj 0 i (sym first ∙ h)) (here same)
  | inr other ↦
      elim (find_slot con ss) as (λ r. find_slot con ss ≡ r → FoundAt con (s ∷ ss) i) [
        | none ↦ λ e.
            let nowhere : find_slot con (s ∷ ss) ≡ none = rw (find_slot, other, e) refl in absurd cc
        | some j ↦ λ e.
            let next : find_slot con (s ∷ ss) ≡ some (suc j) = rw (find_slot, other, e) refl in
            subst (FoundAt con (s ∷ ss)) (some_inj (suc j) i (sym next ∙ h))
              (there other (find_slot-FoundAt con ss j e))
      ]
        refl
]

pub FoundAt-find_slot :
    {con : ℕ} {slots : List ℕ} {i : ℕ} → FoundAt con slots i → find_slot con slots ≡ some i
unfolding find_slot
FoundAt-find_slot (here same) = rw (find_slot, same) refl
FoundAt-find_slot (there other at) = rw (find_slot, other, FoundAt-find_slot at) refl

-- An address that is not found is in no slot.
pub not_found :
    (con s : ℕ) (ss : List ℕ)
    → find_slot con (s ∷ ss) ≡ none
    → ((con == s) ≡ false) × (find_slot con ss ≡ none)
unfolding find_slot
not_found con s ss h = elim (Bool-cases (con == s)) [
  | inl same ↦ let first : find_slot con (s ∷ ss) ≡ some 0 = rw (find_slot, same) refl in absurd cc
  | inr other ↦
      elim (find_slot con ss)
          as (λ r. find_slot con ss ≡ r → ((con == s) ≡ false) × (find_slot con ss ≡ none)) [
            | none ↦ λ e. (other, e)
            | some j ↦ λ e.
                let next : find_slot con (s ∷ ss) ≡ some (suc j) = rw (find_slot, other, e) refl in
                absurd cc
          ]
        refl
]

pub find_slot-count : (con : ℕ) (slots : List ℕ) → find_slot con slots ≡ none → count con slots ≡ 0
unfolding count
find_slot-count con [] h = refl
find_slot-count con (s ∷ ss) h =
    let (other, e) = not_found con s ss h in rw other (omega (arith, find_slot-count con ss e))

-- An address takes the place of another.
pub count-set :
    {old : ℕ} {slots : List ℕ} {i : ℕ} (con new : ℕ)
    → FoundAt old slots i
    → count con (set slots i new) + one con old ≡ count con slots + one con new
unfolding count
count-set {old = old} con new (here {s = s} same) =
    let equal : old ≡ s = ground (arith, same) in omega (arith, ap (one con) equal)
count-set con new (there other at) = omega (arith, count-set con new at)
