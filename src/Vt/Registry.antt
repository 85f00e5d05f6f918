-- ===== src/Vt/Registry.antt =====
-- drivers/tty/vt/vt.c: the table of the console drivers.
use sandix.Common.{ℕ, suc, Option, none, some, List, [], ◌∷◌, set, ◌==◌, if◌then◌else◌}

-- A driver is its address, and an empty slot is NULL, the address 0. The errors are ints.
abbrev pub einval : ℕ
einval = 0xffff_ffea

abbrev pub ebusy : ℕ
ebusy = 0xffff_fff0

-- MAX_NR_CON_DRIVERS
abbrev pub max_nr_con_drivers : ℕ
max_nr_con_drivers = 4

-- registed_con_drivers
abbrev pub empty_table : List ℕ
empty_table = 0 ∷ 0 ∷ 0 ∷ 0 ∷ []

-- The first slot with an address.
unfoldable pub find_slot : ℕ → List ℕ → Option ℕ
find_slot con [] = none
find_slot con (s ∷ ss) =
    let rest = find_slot con ss in
    if con == s then some 0 else elim rest [ none ↦ none | some i ↦ some (suc i) ]

-- The error, and the driver of the console.
unfoldable pub bind_con_driver : ℕ → ℕ → List ℕ → ℕ × ℕ
bind_con_driver driver con slots = elim (find_slot con slots) [
  | none ↦ (einval, driver)
  | some i ↦ (0, con)
]

-- con_startup of the driver is left to its caller.
unfoldable pub register_con_driver : ℕ → List ℕ → ℕ × List ℕ
register_con_driver con slots = elim (find_slot con slots) [
  | some i ↦ (ebusy, slots)
  | none ↦ elim (find_slot 0 slots) [ none ↦ (einval, slots) | some i ↦ (0, set slots i con) ]
]

-- unbind_con_driver always succeeds.
unfoldable pub unregister_con_driver : ℕ → List ℕ → ℕ × List ℕ
unregister_con_driver con slots = elim (find_slot con slots) [
  | none ↦ (einval, slots)
  | some i ↦ (0, set slots i 0)
]
