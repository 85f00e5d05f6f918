-- ===== src/Memblock.antt =====
-- mm/memblock.c: the boot-time allocator.
pub mod Types
mod Tests
pub mod Ops
pub mod Cover
pub mod Splice
pub mod Merge
pub mod Round
pub mod Add
pub mod Cut
pub mod Parts
pub mod State
pub mod Range
pub mod Find
pub mod Walk
