-- ===== src/Tests.antt =====
-- The theorems at concrete inputs.
mod Frames
mod Paging
mod Devices
mod Tables
mod Mps
mod Info
mod Printf
mod Smp
mod Hardware
mod Apic
mod Barrier
mod Locks
mod Strings
mod Cpu
mod Timers
mod Stopping
mod Bench
mod Startup
mod Mapping
