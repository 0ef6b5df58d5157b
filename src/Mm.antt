-- ===== src/Mm.antt =====
-- hammam/src/mm: the kernel's memory management.
pub mod Buddy
pub mod Region
pub mod UserPtr
pub mod PageCache
pub mod Heap
pub mod Paging
pub mod Tests
