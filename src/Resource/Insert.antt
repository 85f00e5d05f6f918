-- ===== src/Resource/Insert.antt =====
-- __insert_resource (kernel/resource.c): a resource that takes over those it conflicts with.
use sandix.Common.{ℕ, zero, suc, Bool, true, false, ◌&&◌, ◌||◌, Option, none, some, ltb, ◌==◌}
use sandix.Resource.{
  Store, null, set_sibling, set_child, set_parent, request_conflict, Status, busy,
}

-- The first loop of __insert_resource: the parent it ends with, and what __request_resource says
-- there. It goes down while the conflict holds the whole new range and is not the parent, the new
-- resource, or of the same range. A depth of the tree is one round.
unfoldable pub descend : ℕ → ℕ → Store → ℕ → ℕ → Option (ℕ × ℕ × Bool × Store)
descend zero k s parent new = none
descend (suc d) k s parent new = elim (request_conflict k s parent new) [
  | none ↦ none
  | some (first, s') ↦ elim (first == null || first == parent || first == new) [
    | true ↦ some (parent, first, true, s')
    | false ↦
        elim (ltb (s' new).start (s' first).start
          || ltb (s' first).end (s' new).end
          || ((s' first).start == (s' new).start && (s' first).end == (s' new).end)) [
            | true ↦ some (parent, first, false, s')
            | false ↦ descend d k s' first new
          ]
  ]
]

-- The second loop: the last sibling that lies in the new range, or one that overlaps it partly.
unfoldable pub last_inside : ℕ → Store → ℕ → ℕ → Option (Bool × ℕ)
last_inside zero s new next = none
last_inside (suc k) s new next =
    elim (ltb (s next).start (s new).start || ltb (s new).end (s next).end) [
      | true ↦ some (false, next)
      | false ↦
          let sibling = (s next).sibling in
          elim (sibling == null || ltb (s new).end (s sibling).start) [
            | true ↦ some (true, next)
            | false ↦ last_inside k s new sibling
          ]
    ]

-- `for (next = first; next; next = next->sibling) next->parent = new;`
unfoldable pub adopt : ℕ → Store → ℕ → ℕ → Option Store
adopt zero s new next = none
adopt (suc k) s new next = elim (next == null) [
  | true ↦ some s
  | false ↦ adopt k (set_parent s next new) new (s next).sibling
]

-- `while (next->sibling != first) next = next->sibling;`
unfoldable pub sibling_before : ℕ → Store → ℕ → ℕ → Option ℕ
sibling_before zero s first next = none
sibling_before (suc k) s first next = elim ((s next).sibling == first) [
  | true ↦ some next
  | false ↦ sibling_before k s first (s next).sibling
]

-- The rest of __insert_resource, where the children from `first` to `last` go under the new one.
unfoldable pub take_over : ℕ → Store → ℕ → ℕ → ℕ → ℕ → Option Store
take_over k s parent new first last =
    let s1 = set_child (set_sibling (set_parent s new parent) new (s last).sibling) new first in
    elim (adopt k (set_sibling s1 last null) new first) [
      | none ↦ none
      | some s2 ↦ elim ((s2 parent).child == first) [
        | true ↦ some (set_child s2 parent new)
        | false ↦ elim (sibling_before k s2 first (s2 parent).child) [
          | none ↦ none
          | some next ↦ some (set_sibling s2 next new)
        ]
      ]
    ]

-- The conflict, or NULL, and the store; `d` is fuel for the depth and `k` for siblings.
unfoldable pub insert_conflict : ℕ → ℕ → Store → ℕ → ℕ → Option (ℕ × Store)
insert_conflict d k s parent new = elim (descend d k s parent new) [
  | none ↦ none
  | some (at, first, done, s') ↦ elim done [
    | true ↦ some (first, s')
    | false ↦ elim (last_inside k s' new first) [
      | none ↦ none
      | some (inside, next) ↦ elim inside [
        | false ↦ some (next, s')
        | true ↦ elim (take_over k s' at new first next) [ none ↦ none | some s2 ↦ some (null, s2) ]
      ]
    ]
  ]
]

unfoldable pub insert_resource : ℕ → ℕ → Store → ℕ → ℕ → Option (Status × Store)
insert_resource d k s parent new = elim (insert_conflict d k s parent new) [
  | none ↦ none
  | some (conflict, s') ↦ some (busy conflict, s')
]
