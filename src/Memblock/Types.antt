-- ===== src/Memblock/Types.antt =====
-- mm/memblock.c and include/sandix/memblock.h: the region arrays and what a call can end in.
use sandix.Common.{ℕ, List, length}

-- struct memblock_region. `nid` is an int, as its 32-bit pattern.
pub record Region : Type 0 where
  pub base : ℕ
  pub size : ℕ
  pub flags : ℕ
  pub nid : ℕ

-- struct memblock_type. `regions` holds the entries in use, so nr_regions is its length.
pub record MemblockType : Type 0 where
  pub max : ℕ
  pub total_size : ℕ
  pub regions : List Region

abbrev pub nr_regions : MemblockType → ℕ
nr_regions t = length t.regions

-- 0 and -ENOMEM.
pub data Status : Type 0 where
  success enomem : Status

-- `bug` is a failed BUG_ON, `fault` a read behind the entries in use.
pub data Run (A : Type 0) : Type 0 where
  ok : A → Run A
  bug fault out_of_fuel : Run A

infixl 5 ◌>>=◌
abbrev pub ◌>>=◌ : {A B : Type 0} → Run A → (A → Run B) → Run B
ok a >>= f = f a
bug >>= f = bug
fault >>= f = fault
out_of_fuel >>= f = out_of_fuel
