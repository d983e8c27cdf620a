-- ===== src/Mm.antt =====
-- kernel/mm: the physical page allocator, the page tables, the arena of kernel virtual memory and
-- kmalloc, each on top of the one before.
pub mod Layout
pub mod Pm
pub mod Memmap
pub mod Paging
pub mod Arena
pub mod Hhdm
pub mod Setup
mod Tests
