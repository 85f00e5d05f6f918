-- ===== src/Resource.antt =====
-- kernel/resource.c: the tree of I/O and memory resources, linked by pointers.
pub mod Chain
pub mod Request
pub mod Insert
mod Tests
use sandix.Common.{
  ℕ, zero, suc, ◌+◌, Bool, true, false, not, ◌&&◌, ◌||◌, Option, none, some, ltb, ◌==◌,
  if◌then◌else◌,
}
use sandix.Word.{ullong_max}

abbrev pub null : ℕ
null = 0

-- struct resource, without its name.
pub record Resource : Type 0 where
  pub start : ℕ
  pub end : ℕ
  pub flags : ℕ
  pub parent : ℕ
  pub sibling : ℕ
  pub child : ℕ

-- The resources by their addresses.
abbrev pub Store : Type 0
Store = ℕ → Resource

abbrev pub update : Store → ℕ → Resource → Store
update s p r q = if q == p then r else s q

-- A `struct resource **` points at the field `child` or `sibling` of a resource.
pub data Link : Type 0 where
  child_of sibling_of : ℕ → Link

abbrev pub read_link : Store → Link → ℕ
read_link s (child_of r) = (s r).child
read_link s (sibling_of r) = (s r).sibling

abbrev pub write_link : Store → Link → ℕ → Store
write_link s (child_of r) v = update s r (record (s r) { child = v })
write_link s (sibling_of r) v = update s r (record (s r) { sibling = v })

abbrev pub ioport_resource : Resource
ioport_resource = record {
  start = 0;
  end = 0xffff;
  flags = 0x100;
  parent = null;
  sibling = null;
  child = null;
}

abbrev pub iomem_resource : Resource
iomem_resource = record {
  start = 0;
  end = ullong_max;
  flags = 0x200;
  parent = null;
  sibling = null;
  child = null;
}

abbrev pub set_sibling : Store → ℕ → ℕ → Store
set_sibling s r v = write_link s (sibling_of r) v

abbrev pub set_child : Store → ℕ → ℕ → Store
set_child s r v = write_link s (child_of r) v

abbrev pub set_parent : Store → ℕ → ℕ → Store
set_parent s r v = update s r (record (s r) { parent = v })

-- `new` goes between *p and what it points at.
unfoldable pub link_in : Store → ℕ → ℕ → Link → Store
link_in s root new p =
    let s1 = set_sibling s new (read_link s p) in
    let s2 = write_link s1 p new in set_parent s2 new root

-- The loop of __request_resource: the conflict, or NULL, and the store. The loops over siblings are
-- on fuel, and none is the result without enough of it.
unfoldable pub request_loop : ℕ → Store → ℕ → ℕ → Link → Option (ℕ × Store)
request_loop zero s root new p = none
request_loop (suc k) s root new p =
    let tmp = read_link s p in
    elim (tmp == null || ltb (s new).end (s tmp).start) [
      | true ↦ some (null, link_in s root new p)
      | false ↦ elim (ltb (s tmp).end (s new).start) [
        | true ↦ request_loop k s root new (sibling_of tmp)
        | false ↦ some (tmp, s)
      ]
    ]

unfoldable pub request_conflict : ℕ → Store → ℕ → ℕ → Option (ℕ × Store)
request_conflict k s root new =
    if ltb (s new).end (s new).start
      || ltb (s new).start (s root).start
      || ltb (s root).end (s new).end
    then some (root, s)
    else request_loop k s root new (child_of root)

pub data Status : Type 0 where
  success ebusy einval : Status

-- `conflict ? -EBUSY : 0`
abbrev pub busy : ℕ → Status
busy conflict = if conflict == null then success else ebusy

unfoldable pub request_resource : ℕ → Store → ℕ → ℕ → Option (Status × Store)
request_resource k s root new = elim (request_conflict k s root new) [
  | none ↦ none
  | some (conflict, s') ↦ some (busy conflict, s')
]

-- The loop over the children of a resource that goes away: each gets its parent, and the last one
-- is reported.
unfoldable pub move_children : ℕ → Store → ℕ → ℕ → Option (ℕ × Store)
move_children zero s parent chd = none
move_children (suc k) s parent chd =
    let s' = set_parent s chd parent in
    elim ((s chd).sibling == null) [
      | true ↦ some (chd, s')
      | false ↦ move_children k s' parent (s chd).sibling
    ]

unfoldable pub release_loop : ℕ → Store → ℕ → Bool → Link → Option (Status × Store)
release_loop zero s old release_child p = none
release_loop (suc k) s old release_child p =
    let tmp = read_link s p in
    elim (tmp == null) [
      | true ↦ some (einval, s)
      | false ↦ elim (tmp == old) [
        | true ↦ elim (release_child || (s tmp).child == null) [
          | true ↦ some (success, set_parent (write_link s p (s tmp).sibling) old null)
          | false ↦ elim (move_children (suc k) s (s tmp).parent (s tmp).child) [
            | none ↦ none
            | some (chd, s') ↦
                let s1 = write_link s' p (s' tmp).child in
                let s2 = set_sibling s1 chd (s1 tmp).sibling in
                some (success, set_parent s2 old null)
          ]
        ]
        | false ↦ release_loop k s old release_child (sibling_of tmp)
      ]
    ]

-- __release_resource; release_resource takes it with release_child set.
unfoldable pub release : ℕ → Store → ℕ → Bool → Option (Status × Store)
release k s old release_child = release_loop k s old release_child (child_of (s old).parent)

unfoldable pub release_resource : ℕ → Store → ℕ → Option (Status × Store)
release_resource k s old = release k s old true
