-- ===== src/Resource/Tests.antt =====
-- kernel/resource.c: runs, and the theorem at a concrete tree.
use sandix.Common.{ℕ, ◌≡◌, ◌<◌, refl, ◌⊎◌, Option, none, some, [], ◌∷◌, ◌==◌, if◌then◌else◌, arith}
use sandix.Resource.{
  Resource, Store, child_of, ioport_resource, null, Status, success, ebusy, link_in, request_loop,
  request_conflict, request_resource, release_loop, release, release_resource,
}
use sandix.Resource.Request.{Requested, request_conflict-Requested}
use sandix.Resource.Insert.{
  descend, last_inside, adopt, take_over, insert_conflict, insert_resource,
}

abbrev range : ℕ → ℕ → ℕ → ℕ → Resource
range start end parent sibling = record {
  start = start;
  end = end;
  flags = 0x100;
  parent = parent;
  sibling = sibling;
  child = null;
}

-- The ports at 1, with two children at 2 and 3, and resources that are not linked yet at 4 and 5.
abbrev ports : Store
ports q =
    if q == 1
    then record ioport_resource { child = 2 }
    else if q == 2
    then range 0x100 0x1ff 1 3
    else if q == 3
    then range 0x300 0x3ff 1 null
    else if q == 4
    then range 0x200 0x2ff null null
    else range 0x080 0x3ff null null

-- The children of a resource: the first two, and the second one's parent.
abbrev children : Option (Status × Store) → ℕ → Option (Status × ℕ × ℕ × ℕ)
children none r = none
children (some (ret, s)) r =
    let first = (s r).child in
    let second = (s first).sibling in some (ret, first, second, (s second).parent)

request_runs : children (request_resource 3 ports 1 4) 1 ≡ some (success, 2, 4, 1)
unfolding request_resource request_conflict request_loop link_in
request_runs = refl

request_busy : children (request_resource 3 ports 1 5) 1 ≡ some (ebusy, 2, 3, 1)
unfolding request_resource request_conflict request_loop link_in
request_busy = refl

release_runs : children (release_resource 3 ports 2) 1 ≡ some (success, 3, 0, 0)
unfolding release_resource release release_loop
release_runs = refl

-- The resource at 5 takes the two children over.
insert_runs : children (insert_resource 2 3 ports 1 5) 5 ≡ some (success, 2, 3, 5)
unfolding insert_resource insert_conflict descend last_inside take_over adopt request_conflict
    request_loop
insert_runs = refl

request_conflict-Requested_example :
    ((request_conflict 3 ports 1 4 ≡ some (1, ports))
      × ((0x2ff < 0x200) ⊎ (0x200 < 0) ⊎ (0xffff < 0x2ff)))
    ⊎ ((r : ℕ × Store) × (request_conflict 3 ports 1 4 ≡ some r)
        × Requested ports 1 4 (child_of 1) 0 (2 ∷ 3 ∷ []) r)
request_conflict-Requested_example =
    request_conflict-Requested 3 ports 1 4 (2 ∷ 3 ∷ []) (omega arith) (omega arith) (omega arith)
      (omega arith, (omega arith, tt)) (refl, omega arith, (refl, omega arith, refl))
      (omega arith, omega arith, (omega arith, omega arith, tt)) (omega arith)
