-- ===== src/Tests/Cpu.antt =====
-- Runs of the detection of the processor, the interrupt table and the performance counters.
use smp_boot.Base.{◌+◌, ◌*◌, ◌≡◌, refl, ◌↔◌, true, false, ltb, if◌then◌else◌, [], ◌∷◌, arith}
use smp_boot.Clib.Masks.{bits_from_cnt, bits_from_to, is_mask_set, is_mask_clear}
use smp_boot.Clib.Strings.{strcmp, char_difference}
use smp_boot.Apic.{write_local_apic}
use mathlib.Core.Option
use smp_boot.Base.{none, some, ◌==◌}
use smp_boot.Boot.Cpu.{
  CpuInfo, vend_unknown, vendor_str, cpu_features, Regs, Cpuid, Cache, vend_intel, vend_amd,
  detect_vendor, read_cache,
}
use smp_boot.Boot.Cpu.Detect.{IntelWords, AmdWords, detect_vendor-words}
use smp_boot.Idt.{handler}
use smp_boot.Isr.{int_handler, cleared, isr_install, page_fault_words, wr, protection, ring_3}
use smp_boot.Isr.Gates.{is_interrupt_gate, isr_install-vectors}
use smp_boot.Isr.Faults.{page_fault_words-bits}
use smp_boot.Perfcount.{Counters}
use smp_boot.Perfcount.Enable.{enables}

abbrev amd : Regs
amd = record { eax = 1; ebx = 0x68747541; ecx = 0x444d4163; edx = 0x69746e65 }

detect_vendor-words_example :
    ((detect_vendor amd ≡ vend_intel) ↔ IntelWords amd)
    × ((detect_vendor amd ≡ vend_amd) ↔ AmdWords amd)
detect_vendor-words_example = detect_vendor-words amd (omega arith, omega arith, omega arith)

-- Function 4 with five caches.
abbrev five_caches : Cpuid
five_caches f u = record { eax = if ltb u 5 then 0x20 * u + 1 else 0; ebx = 63; ecx = 127; edx = 0 }

abbrev no_cache : Cache
no_cache = record { level = 0; type = 0; shared_by = 0; line_size = 0; size = 0 }

-- A line of 256 bytes is stored as 0.
line_of_256 :
    let c = read_cache (record { eax = 1; ebx = 255; ecx = 127; edx = 0 }) no_cache in
    (c.line_size ≡ 0) × (c.size ≡ 0)
unfolding read_cache bits_from_cnt
line_of_256 = (refl, refl)

isr_install-vectors_example :
    let g = isr_install (λ v. 0x100000 + v * 16) 8 cleared 0xA6 in
    (is_interrupt_gate g ≡ false) × (handler g ≡ 0x100A60)
isr_install-vectors_example = isr_install-vectors 0xA6 8 (λ v. 0x100000 + v * 16) (omega arith)

-- A read of a page with a reserved bit set.
reserved_bit_fault : page_fault_words 13 ≡ wr ∷ protection ∷ ring_3 ∷ []
reserved_bit_fault = page_fault_words-bits 13

abbrev counters : Counters
counters = record { msr = λ i. 0x5300C0; initialised = true }

-- Number 3 of the four counters is refused, and 256 is taken for 0.
counter_numbers : (enables counters 3 0x189 22 ≡ false) × (enables counters 256 0x186 22 ≡ true)
counter_numbers = (refl, refl)

-- A page fault halts; an interrupt between processors acknowledges itself, and sets `cpu_online`
-- back although another processor came up meanwhile.
int_handler_runs :
    ((int_handler 14 13 (λ n. n) 2 (λ i. 7)).1 ≡ none)
    × ((int_handler 0x80 0 (λ n. n + 1) 2 (λ i. 7)).0 ≡ [])
    × (Option.map (λ r. r.1) (int_handler 0x80 0 (λ n. n + 1) 2 (λ i. 7)).1 ≡ some 2)
    × (Option.map (λ r. r.0 0xB0) (int_handler 0x80 0 (λ n. n + 1) 2 (λ i. 7)).1 ≡ some 0)
unfolding int_handler write_local_apic
int_handler_runs = (refl, refl, refl, refl)

-- An AMD processor with 64 kB of first-level caches and no third level.
abbrev small_amd : Cpuid
small_amd f u =
    if f == 0
    then record amd { eax = 1 }
    else if f == 0x80000000
    then record { eax = 0x80000008; ebx = 0; ecx = 0; edx = 0 }
    else if f == 0x80000005
    then record { eax = 0; ebx = 0; ecx = 0x40020140; edx = 0x40020140 }
    else record { eax = 0x20; ebx = 0x800; ecx = 0; edx = 0 }

abbrev unread : CpuInfo
unread = record {
  cpuid_max = 0;
  cpuid_high_max = 0;
  cpuid_family = 0;
  cpuid_cachelinesize = 0;
  cpuid_lapic_id = 0;
  maxphyaddr = 0;
  cpu_vendor = vend_unknown;
  cpuid_processor_name = λ i. 0;
  cpuid_threads_per_package = 0;
  cpuid_cache = λ i. no_cache;
}

cpu_features_run :
    let h = cpu_features small_amd unread in
    (h.cpu_vendor ≡ vend_amd)
    × (h.cpuid_cachelinesize ≡ 64)
    × (h.cpuid_threads_per_package ≡ 1)
    × ((h.cpuid_cache 1).size ≡ 0x10000)
    × ((h.cpuid_cache 3).size ≡ 0)
unfolding cpu_features detect_vendor vendor_str strcmp char_difference bits_from_cnt bits_from_to
    is_mask_set is_mask_clear
cpu_features_run = (refl, refl, refl, refl, refl)
