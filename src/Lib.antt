-- ===== src/Lib.antt =====
-- smp.boot is a small multiprocessor operating system for x86: a boot loader starts it on one
-- processor, which reads the firmware's tables, fills the bitmap of free page frames, maps memory,
-- drives the text screen and the keyboard, and starts the other processors.
--
-- Parts and files:
-- - Base: the numbers, the Boolean tests, bits of numbers, and lists that all parts share.
-- - Clib: lib.c and lib.h. Masks has the macros (MASK_SET, IS_BIT_CLEAR, BITS_FROM_CNT and the
--   others), Blocks `memcpy` and `memset` on an address space, Strings `strcmp` and `strncmp`,
--   Numbers `atoi`, Division `abs`, `labs` and `__udivdi3`.
-- - Memory: mm.c. Freemap has `get_free_frame` and the part of `mm_init` that fills the bitmap;
--   Paging has the table entries of mm_struct.h, `map_temporary` and `map_frame_to_adr`; Translate
--   has `virt_to_phys` and `reconf_adr`, beside the walk that the processor does; Setup has the
--   first tables of the 32-bit build; Tree views the page tables as a tree of four levels and follows
--   `map_frame_to_adr` through it; Heap has `heap_alloc` and `heap_reconfig`. The heap takes frames
--   from the bitmap and maps them, Heap/Backing relates addresses to
--   frames, Tree/Supply and Heap/Total are about the frames that this needs.
-- - Keyboard: keyboard.c, `keyboard_get_scancode` and `scancode_to_keycode`.
-- - Screen: screen.c. Text has `putch`, `scroll`, `cls` and the functions around them, Itoa
--   `itoa`, Printf `vprintf` and `printf`.
-- - Boot: boot32.c, the readers of the ACPI tables and the searches for their root pointers. Mps has
--   the tables of the Multiprocessor Specification, Info `get_info`, which reads the command line and
--   calls the others. Cpu has `cpu_features`, with Cpu/Detect on the vendor and Cpu/Caches on the loop
--   over the caches.
-- - Sync: sync.c. Mutex has `mutex_trylock` and the locks that repeat it, Flag the flags, Barrier the
--   barrier, each access to the shared structure a step of one processor, in any order. Collective has
--   `collective_only` and `collective_end`. Flags and collective sections are modelled as calls one
--   after another, each as a whole.
-- - Smp: smp.c and cpu.c. Halt has `smp_halt` and `smp_wakeup`, each access to the flags a step, with
--   interrupts that may come at any time. Stop has `stop` of cpu.c on any number of processors.
-- - Apic: apic.c. The registers of the local APIC, `send_ipi`, `config_apic`, and the loop of
--   `apic_init` that starts the processors which `get_info` found.
-- - Startup: main.c, the accesses of `main_bsp` and `main_ap` to what they share, in any order, with
--   the test that `apic_init` does in between. Startup/Reached, Startup/Late and Startup/Together follow
--   them.
-- - Idt and Isr: `idt_set_gate` of idt.c, and from isr.c `isr_install`, which fills the table with it,
--   and `int_handler`.
-- - Pci: `pci_config_read` of pci.c. Scan has the scan of `pci_init` over it, and the drivers of
--   driver.c and nic.c that the scan calls.
-- - Timer: pit.c and time.c, the calibration of the time stamp counter and `udelay` with its result.
-- - Menu: menu.c, `menu` on the keys that keyboard.c delivers.
-- - Bench and Payload: benchmark.c and payload.c. Bench has the measuring loops, Bench/Summary what they
--   say of the gaps between readings, Bench/Mean what `hourglass` does in both builds, Bench/Sweep and Bench/Worker which parts of a buffer they touch;
--   Payload has `payload_benchmark_menu`, which sets the cache modes that Memory/Heap understands.
-- - Smm and Perfcount: smm.c and perfcount.c, the registers behind the ports and the model-specific
--   registers.
-- - Tests: runs of the code on concrete input.
--
-- The arrays of `hw_info` are functions of the index. The C arrays have 16 processors and one I/O APIC,
-- and no write is checked, so what is said of them is limited to tables that list no more than that.
--
-- State is passed explicitly: static variables and the structures in memory are records (`Freemap`,
-- `Machine`, `Heap`, `Decoder`, `Screen`, `HwInfo`), memory is a function from addresses to bytes or
-- cells, and page tables are a function from frames and indices to entries. A part of mm.c that runs
-- under `pt_mutex` is one step. A C integer of w bits is a natural number with its wrap-around
-- written out, a negative one in two's complement.
--
-- The value of `1 << b` for an int, converted to unsigned long, is an argument `one_shl` of the
-- bitmap's functions. `IsShift` says that it fits into a word, `IsX86Shift` that x86 takes the shift
-- count modulo 32.
--
-- Bounds and fuel: the loop of `get_free_frame` runs at most to the end of the supported memory,
-- 2 GB / 4 kB frames, and its fuel is the number of frames left, so that it halts of itself first.
-- `itoa` has at most 64 digits, one for each bit of an unsigned long. The loop of `read_madt` has the
-- length of the table as fuel, which is enough when no entry is empty. The command line of `get_info`
-- is read in at most 1000 rounds, and a word of it within the 2^32 bytes of the address space.
-- The loop over the caches in `cpu_features` ends after five rounds. The calibration needs at most
-- 1050 rounds, `udelay` as many as there are ticks to wait, since every reading of the counter is
-- later than the one before, and so do the measuring loops of Bench.
-- `vprintf` has as many rounds as its format has characters, since each reads one at least. All
-- other loops are structural. An endless halt, or a loop that never ends, is `none`.
--
-- Not modelled: port I/O and memory-mapped devices (the hardware cursor, the keyboard's commands,
-- I/O APIC, the set-up of the timer, `reboot`), the TLB and the caches, assembler start-up code, the
-- dumps of debug.c, the calls of the parts in `main_bsp` and `main`, the functions of benchmark.c that run the
-- measuring loops on several processors and print, and the self-tests of tests.c.
pub mod Base
pub mod Clib
pub mod Memory
pub mod Keyboard
pub mod Screen
pub mod Boot
pub mod Sync
pub mod Smp
pub mod Apic
pub mod Startup
pub mod Idt
pub mod Isr
pub mod Timer
pub mod Menu
pub mod Smm
pub mod Perfcount
pub mod Bench
pub mod Payload
pub mod Pci
mod Tests
