-- ===== src/Isr.antt =====
-- isr.c: the gates that `isr_install` sets, after `idt_install` of idt.c has cleared the table, and
-- `int_handler`, without its messages but for those about a page fault.
pub mod Gates
pub mod Faults
use smp_boot.Base.{
  ℕ, zero, suc, ◌+◌, ◌*◌, ◌^◌, Bool, true, false, not, ◌==◌, ltb, if◌then◌else◌, Option, none, some,
  List, [], ◌∷◌, ◌++◌, bit_and,
}
use smp_boot.Idt.{Gate, Table, idt_set_gate}
use smp_boot.Apic.{Registers, write_local_apic}

-- The table after `memset` of `idt_install`.
abbrev pub cleared : Table Gate
cleared i = record { base_lo = 0; sel = 0; ist = 0; flags = 0; base_mid = 0; base_high = 0 }

-- A run of calls of `idt_set_gate`, for `n` vectors from `num` on; `isr` are the entry points in
-- the assembler file, and `flags` the last arguments.
unfoldable pub set_gates : ℕ → ℕ → (ℕ → ℕ) → (ℕ → ℕ) → ℕ → Table Gate → Table Gate
set_gates zero num flags isr sel idt = idt
set_gates (suc n) num flags isr sel idt =
    set_gates n (num + 1) flags isr sel (idt_set_gate num (isr num) sel (flags num) idt)

unfoldable pub isr_install : (ℕ → ℕ) → ℕ → Table Gate → Table Gate
unfolding set_gates
isr_install isr sel idt =
    let exceptions = set_gates 32 0 (λ v. 0x8E) isr sel idt in
    let system_call = idt_set_gate 0x80 (isr 0x80) sel 0x8E exceptions in
    set_gates 10 0xA0 (λ v. v) isr sel system_call

abbrev pub lapic_reg_eoi : ℕ
lapic_reg_eoi = 0xB0

unfoldable pub apic_eoi : Registers → Registers
apic_eoi r = write_local_apic lapic_reg_eoi 0 r

-- What is printed about a page fault.
pub data FaultWord : Type 0 where
  rd wr not_present protection ring_0 ring_3 reserved instr_fetch : FaultWord

abbrev pub if_word : Bool → FaultWord → List FaultWord → List FaultWord
if_word b w rest = if b then w ∷ rest else rest

unfoldable pub page_fault_words : ℕ → List FaultWord
page_fault_words err_code =
    (if bit_and err_code 2 == 1 then rd else wr)
    ∷ (if bit_and err_code 1 == 0 then not_present else protection)
    ∷ (if bit_and err_code 4 == 0 then ring_0 else ring_3)
    ∷ if_word (bit_and err_code 8 == 1) reserved (if_word (bit_and err_code 8 == 1) instr_fetch [])

-- `int_handler`: the words about a page fault, and then `none` where it halts, or the registers and
-- `cpu_online` at its end. `meanwhile` is what the other processors make of `cpu_online` while it
-- runs.
unfoldable pub int_handler :
    ℕ → ℕ → (ℕ → ℕ) → ℕ → Registers → List FaultWord × Option (Registers × ℕ)
unfolding page_fault_words apic_eoi
int_handler int_no err_code meanwhile cpu_online r =
    let bak = cpu_online in
    let words = if int_no == 14 then page_fault_words err_code else [] in
    let online = meanwhile cpu_online in
    let back = some (apic_eoi r, bak) in
    if ltb int_no 32 then if int_no == 15 then ([], back) else (words, none) else ([], back)
