-- ===== src/Mmu.antt =====
-- kernel/src/mmu.c and mmu.h: addresses, page table entries, and the three-level Sv39 tables.
pub mod Address
pub mod Entry
pub mod Table
pub mod Map
pub mod Bytes
pub mod Copying
pub mod Create
pub mod Leaf
pub mod Walk
pub mod Mapping
pub mod Growing
pub mod Fresh
mod WalkTests
mod Tests
