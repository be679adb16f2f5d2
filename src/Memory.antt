-- ===== src/Memory.antt =====
-- memory/: the physical page allocator and the address spaces.
pub mod Pmm
pub mod Words
pub mod Vmm
pub mod Paging
pub mod Kmalloc
