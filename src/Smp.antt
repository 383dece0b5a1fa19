-- ===== src/Smp.antt =====
-- smp.c and cpu.c: stopping processors and waking them.
pub mod Halt
pub mod Stop
