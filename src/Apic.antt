-- ===== src/Apic.antt =====
-- apic.c: the local APIC's registers, the interrupts between processors, and the loop of
-- `apic_init` that starts the other processors. A register holds what was last written to it;
-- waiting, messages and the status line are left out.
pub mod Local
pub mod Start
use smp_boot.Base.{
  ℕ, zero, suc, ◌+◌, ◌-◌, ◌*◌, ◌%◌, ◌^◌, Bool, true, false, not, ◌||◌, ◌==◌, leb, ltb,
  if◌then◌else◌, List, [], ◌∷◌, ◌++◌, bit_and, bit_or, complement,
}
use smp_boot.Boot.{HwInfo}
use smp_boot.Boot.Info.{Options}

abbrev pub Registers : Type 0
Registers = ℕ → ℕ

abbrev pub lapic_reg_id : ℕ
lapic_reg_id = 0x20

abbrev pub lapic_reg_spurious : ℕ
lapic_reg_spurious = 0xf0

abbrev pub lapic_lvt_timer : ℕ
lapic_lvt_timer = 0x320

abbrev pub lapic_lvt_thermal : ℕ
lapic_lvt_thermal = 0x330

abbrev pub lapic_lvt_perf : ℕ
lapic_lvt_perf = 0x340

abbrev pub lapic_lvt_lint0 : ℕ
lapic_lvt_lint0 = 0x350

abbrev pub lapic_lvt_lint1 : ℕ
lapic_lvt_lint1 = 0x360

abbrev pub lapic_lvt_error : ℕ
lapic_lvt_error = 0x370

abbrev pub lapic_icr_low : ℕ
lapic_icr_low = 0x300

abbrev pub lapic_icr_high : ℕ
lapic_icr_high = 0x310

unfoldable pub write_local_apic : ℕ → ℕ → Registers → Registers
write_local_apic offset value r i = if i == offset then value else r i

unfoldable pub set_local_apic : ℕ → ℕ → ℕ → Registers → Registers
unfolding write_local_apic
set_local_apic offset mask value r =
    write_local_apic offset (bit_or (bit_and (r offset) (complement 32 mask)) value) r

unfoldable pub send_ipi : HwInfo → ℕ → ℕ → Registers → Registers
unfolding write_local_apic
send_ipi hw to vector r =
    let kept = bit_and (r lapic_icr_high) 0x00FFFFFF in
    let high = bit_or kept (hw.cpu_lapic_id to * 2 ^ 24 % 2 ^ 32) in
    let low = bit_or (bit_or (bit_or (2 ^ 14) (2 ^ 12)) 0) vector in
    write_local_apic lapic_icr_low low (write_local_apic lapic_icr_high high r)

unfoldable pub config_apic : ℕ → Registers → Registers
unfolding set_local_apic write_local_apic
config_apic id r =
    let enabled = set_local_apic lapic_reg_spurious (2 ^ 8) (2 ^ 8) r in
    let spurious = set_local_apic lapic_reg_spurious 0xFF 0xA0 enabled in
    let named =
      if ltb 0 id
      then write_local_apic lapic_reg_id (bit_and id 0x7F * 2 ^ 24) spurious
      else spurious in
    let timer = set_local_apic lapic_lvt_timer (2 ^ 16) (2 ^ 16) named in
    let lint0 = set_local_apic lapic_lvt_lint0 0xFF 0xA4 timer in
    let lint1 = set_local_apic lapic_lvt_lint1 (2 ^ 16) (2 ^ 16) lint0 in
    let error = set_local_apic lapic_lvt_error (2 ^ 16) 0 lint1 in
    let error_vector = set_local_apic lapic_lvt_error 0xFF 0xA6 error in
    let perf = set_local_apic lapic_lvt_perf (2 ^ 16) (2 ^ 16) error_vector in
    set_local_apic lapic_lvt_thermal (2 ^ 16) (2 ^ 16) perf

abbrev pub smp_frame : ℕ
smp_frame = 0x88

-- What `apic_init` does to the other processors, in order: it writes the number of the next one for
-- the start code, sends an interrupt to a local APIC, and finds that a processor did not come up.
pub data Event : Type 0 where
  apid : (u : ℕ) → Event
  ipi : (lapic_id command : ℕ) → Event
  missing : (u : ℕ) → Event

abbrev pub init_ipi : ℕ
init_ipi = 0x500 + smp_frame

abbrev pub startup_ipi : ℕ
startup_ipi = 0x600 + smp_frame

-- The test at the begin of the loop, where `1 << u` is an `int`: exact for `u` below 31, and so for
-- the processors that `hw_info` has room for.
unfoldable pub is_skipped : Options → ℕ → Bool
is_skipped o u = leb o.cmd_maxcpu u || bit_and o.cmd_cpumask (2 ^ u) == 0

-- The loop's body for a processor that is not skipped, and whether it takes its lock in time.
unfoldable pub wake_ap : HwInfo → (ℕ → Bool) → ℕ → List Event
wake_ap hw comes_up u =
    let lapic_id = hw.cpu_lapic_id u in
    apid u
    ∷ ipi lapic_id init_ipi
    ∷ ipi lapic_id startup_ipi
    ∷ ipi lapic_id startup_ipi
    ∷ (if comes_up u then [] else missing u ∷ [])

-- The loop from processor `u` on, by the rounds left.
unfoldable pub start_aps : ℕ → ℕ → HwInfo → Options → (ℕ → Bool) → List Event
unfolding is_skipped wake_ap
start_aps zero u hw o comes_up = []
start_aps (suc rounds) u hw o comes_up =
    let rest = start_aps rounds (u + 1) hw o comes_up in
    if is_skipped o u then rest else wake_ap hw comes_up u ++ rest

-- `apic_init`, with the size of the start code: the set-up of this processor's registers, and what
-- it does to the others. The old interrupt controller and the copy of the code are left out.
unfoldable pub apic_init : HwInfo → Options → (ℕ → Bool) → ℕ → Registers → Registers × List Event
unfolding start_aps config_apic
apic_init hw o comes_up size r =
    let ready = config_apic 0 r in
    if ltb 4096 size then (ready, []) else (ready, start_aps (hw.cpu_cnt - 1) 1 hw o comes_up)
