-- ===== src/Sync.antt =====
-- sync.c: the synchronisation of the processors.
pub mod Mutex
pub mod Flag
pub mod Barrier
pub mod Collective
