-- ===== src/Memory.antt =====
-- mm.c: physical frames, page tables and the page heap.
pub mod Freemap
pub mod Paging
pub mod Translate
pub mod Heap
pub mod Setup
pub mod Tree
