-- ===== src/Memblock/State.antt =====
-- mm/memblock.c: the variable `memblock` and the calls that change it.
pub mod Calls
use sandix.Common.{ℕ, Bool, false, List, [], ◌∷◌, ◌++◌}
use sandix.Word.{ullong_max}
use sandix.Memblock.Types.{Region, MemblockType, Status, Run, ok, ◌>>=◌}
use sandix.Memblock.Ops.{memblock_add_range}
use sandix.Memblock.Cut.{max_nr_nodes, memblock_remove_range}

-- struct memblock
pub record Memblock : Type 0 where
  pub is_bottom_up : Bool
  pub current_limit : ℕ
  pub memory : MemblockType
  pub reserved : MemblockType

-- INIT_MEMBLOCK_REGIONS
abbrev pub init_memblock_regions : ℕ
init_memblock_regions = 128

-- A static array is all zeros.
abbrev pub init_type : MemblockType
init_type = record {
  max = init_memblock_regions;
  total_size = 0;
  regions = record { base = 0; size = 0; flags = 0; nid = 0 } ∷ [];
}

-- The initial value; MEMBLOCK_ALLOC_ANYWHERE is ~0.
abbrev pub memblock : Memblock
memblock = record {
  is_bottom_up = false;
  current_limit = ullong_max;
  memory = init_type;
  reserved = init_type;
}

pub memblock_set_current_limit : ℕ → Memblock → Memblock
memblock_set_current_limit limit m = record m { current_limit = limit }

-- A call's result and the variable behind it.
abbrev pub Called : Type 0
Called = Run (Status × Memblock)

abbrev on_memory : Memblock → Run (Status × MemblockType) → Called
on_memory m run = run >>= λ (ret, t). ok (ret, record m { memory = t })

abbrev on_reserved : Memblock → Run (Status × MemblockType) → Called
on_reserved m run = run >>= λ (ret, t). ok (ret, record m { reserved = t })

unfoldable pub memblock_add_node : ℕ → ℕ → ℕ → Memblock → Called
memblock_add_node base size nid m = on_memory m (memblock_add_range m.memory base size nid 0)

unfoldable pub memblock_add : ℕ → ℕ → Memblock → Called
memblock_add base size m = on_memory m (memblock_add_range m.memory base size max_nr_nodes 0)

unfoldable pub memblock_reserve : ℕ → ℕ → Memblock → Called
memblock_reserve base size m =
    on_reserved m (memblock_add_range m.reserved base size max_nr_nodes 0)

unfoldable pub memblock_remove : ℕ → ℕ → Memblock → Called
memblock_remove base size m = on_memory m (memblock_remove_range m.memory base size)

unfoldable pub memblock_free : ℕ → ℕ → Memblock → Called
memblock_free base size m = on_reserved m (memblock_remove_range m.reserved base size)
