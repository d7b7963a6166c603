-- ===== src/Memory.antt =====
-- lib/memory: the allocator over a static array of bytes, and the ordered lists of blocks under it.
pub mod Heap
pub mod Alloc
