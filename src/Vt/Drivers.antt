-- ===== src/Vt/Drivers.antt =====
-- drivers/tty/vt/vt.c: no console driver is in the table twice, and unregistering takes back a
-- registration.
use sandix.Common.{
  ℕ, ◌+◌, ◌≤◌, ◌≡◌, ◌≢◌, refl, ap, ◌∙◌, inl, inr, none, some, List, ◌∷◌, length, set, arith, ◌==◌,
  Bool-cases, length-set,
}
use sandix.Vt.Registry.{
  max_nr_con_drivers, einval, ebusy, empty_table, find_slot, register_con_driver,
  unregister_con_driver,
}
use sandix.Vt.Slots.{
  one, count, FoundAt, here, there, find_slot-FoundAt, FoundAt-find_slot, not_found,
  find_slot-count, count-set,
}

-- Four slots, and no driver in two of them.
pub record IsTable (slots : List ℕ) : Type 0 where
  pub size : length slots ≡ max_nr_con_drivers
  pub once : (con : ℕ) → con ≢ 0 → count con slots ≤ 1

-- What has been registered and unregistered, in any order.
pub data Reach : List ℕ → Type 0 where
  start : Reach empty_table
  registered : {slots : List ℕ} → (con : ℕ) → Reach slots → Reach (register_con_driver con slots).1
  unregistered :
      {slots : List ℕ} → (con : ℕ) → Reach slots → Reach (unregister_con_driver con slots).1

one_self : (a : ℕ) → one a a ≡ 1
one_self a = ground arith

one_other : (a b : ℕ) → a ≢ b → one a b ≡ 0
one_other a b h = ground (arith, h)

fresh_once :
    (c con : ℕ) (slots : List ℕ)
    → find_slot con slots ≡ none
    → count c slots ≤ 1
    → count c slots + one c con ≤ 1
fresh_once c con slots e h = elim (Bool-cases (c == con)) [
  | inl same ↦
      let equal : c ≡ con = ground (arith, same) in
      rw same (omega (arith, ap (λ a. count a slots) equal, find_slot-count con slots e))
  | inr other ↦ rw other (omega (arith, h))
]

register-IsTable :
    (con : ℕ) (slots : List ℕ) → IsTable slots → IsTable (register_con_driver con slots).1
unfolding register_con_driver
register-IsTable con slots t =
    elim (find_slot con slots)
        as (λ r. find_slot con slots ≡ r → IsTable (register_con_driver con slots).1) [
          | some i ↦ λ e. rw (register_con_driver, e) t
          | none ↦ λ e.
              elim (find_slot 0 slots)
                  as (λ r. find_slot 0 slots ≡ r → IsTable (register_con_driver con slots).1) [
                    | none ↦ λ f. rw (register_con_driver, e, f) t
                    | some i ↦ λ f.
                        rw (register_con_driver, e, f)
                          (record {
                            size = length-set slots i con ∙ t.size;
                            once = λ c h. omega (
                              arith,
                              count-set c con (find_slot-FoundAt 0 slots i f),
                              fresh_once c con slots e (t.once c h),
                            );
                          })
                  ]
                refl
        ]
      refl

unregister-IsTable :
    (con : ℕ) (slots : List ℕ) → IsTable slots → IsTable (unregister_con_driver con slots).1
unfolding unregister_con_driver
unregister-IsTable con slots t =
    elim (find_slot con slots)
        as (λ r. find_slot con slots ≡ r → IsTable (unregister_con_driver con slots).1) [
          | none ↦ λ e. rw (unregister_con_driver, e) t
          | some i ↦ λ e.
              rw (unregister_con_driver, e)
                (record {
                  size = length-set slots i 0 ∙ t.size;
                  once = λ c h. omega (
                    arith,
                    count-set c 0 (find_slot-FoundAt con slots i e),
                    one_other c 0 h,
                    t.once c h,
                  );
                })
        ]
      refl

-- After any registering and unregistering the table has its four slots, and no driver is in two.
pub Reach-IsTable : (slots : List ℕ) → Reach slots → IsTable slots
unfolding count
Reach-IsTable slots start = record { size = refl; once = λ con h. omega (arith, one_other con 0 h) }
Reach-IsTable slots (registered con r) = register-IsTable con _ (Reach-IsTable _ r)
Reach-IsTable slots (unregistered con r) = unregister-IsTable con _ (Reach-IsTable _ r)

-- A driver in the first empty slot is found there, and leaves the table as it was.
fill-FoundAt :
    {slots : List ℕ} {i : ℕ} (con : ℕ)
    → FoundAt 0 slots i
    → find_slot con slots ≡ none
    → FoundAt con (set slots i con) i
fill-FoundAt con (here same) h = here (ground arith)
fill-FoundAt con (there {s = s} {ss = ss} other at) h =
    let (apart, e) = not_found con s ss h in there apart (fill-FoundAt con at e)

set-set : {slots : List ℕ} {i : ℕ} (con : ℕ) → FoundAt 0 slots i → set (set slots i con) i 0 ≡ slots
set-set con (here {s = s} {ss = ss} same) =
    let equal : 0 ≡ s = ground (arith, same) in ap (λ a. a ∷ ss) equal
set-set con (there {s = s} other at) = ap (◌∷◌ s) (set-set con at)

-- Where a registration succeeds, unregistering the driver succeeds too and gives back the table as it
-- was before.
pub unregister-register :
    (con : ℕ) (slots : List ℕ)
    → (register_con_driver con slots).0 ≡ 0
    → unregister_con_driver con (register_con_driver con slots).1 ≡ (0, slots)
unfolding register_con_driver unregister_con_driver
unregister-register con slots ok =
    elim (find_slot con slots)
        as (λ r.
          find_slot con slots ≡ r
          → unregister_con_driver con (register_con_driver con slots).1 ≡ (0, slots)) [
            | some i ↦ λ e.
                let busy : (register_con_driver con slots).0 ≡ ebusy =
                  rw (register_con_driver, e) refl in
                absurd (omega (arith, busy, ok))
            | none ↦ λ e.
                elim (find_slot 0 slots)
                    as (λ r.
                      find_slot 0 slots ≡ r
                      → unregister_con_driver con (register_con_driver con slots).1 ≡ (0, slots)) [
                        | none ↦ λ f.
                            let full : (register_con_driver con slots).0 ≡ einval =
                              rw (register_con_driver, e, f) refl in
                            absurd (omega (arith, full, ok))
                        | some i ↦ λ f.
                            let at = find_slot-FoundAt 0 slots i f in
                            let found = FoundAt-find_slot (fill-FoundAt con at e) in
                            let filled : register_con_driver con slots ≡ (0, set slots i con) =
                              rw (register_con_driver, e, f) refl in
                            let emptied : unregister_con_driver con (set slots i con)
                                ≡ (0, set (set slots i con) i 0) =
                              rw (unregister_con_driver, found) refl in
                            ap (λ r. unregister_con_driver con r.1) filled
                            ∙ emptied
                            ∙ ap (λ ss. (0, ss)) (set-set con at)
                      ]
                  refl
          ]
      refl
