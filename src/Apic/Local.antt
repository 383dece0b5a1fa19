-- ===== src/Apic/Local.antt =====
-- apic.c: what `config_apic` and `send_ipi` leave in the registers.
use smp_boot.Base.{
  ℕ, ◌+◌, ◌*◌, ◌/◌, ◌%◌, ◌^◌, ◌<◌, ◌≡◌, ◌≢◌, refl, ◌∙◌, true, false, Bool-cases, inl, inr, arith,
  bit_and, bit_or, testbit, complement, testbit-bit_and, testbit-bit_or, bit_or_disjoint,
  bit_and_ones, bit_or_comm, ◌==◌, ltb,
}
use smp_boot.Boot.{HwInfo}
use smp_boot.Apic.{
  Registers, write_local_apic, set_local_apic, config_apic, send_ipi, lapic_reg_spurious,
  lapic_lvt_timer, lapic_lvt_thermal, lapic_lvt_perf, lapic_lvt_lint1, lapic_lvt_error,
  lapic_icr_low, lapic_icr_high,
}

-- A bit that the value of `set_localAPIC` has is set, one that only the mask has is clear, and one
-- that neither has is kept.
bit_value : (k x value : ℕ) → testbit value k ≡ true → testbit (bit_or x value) k ≡ true
bit_value k x value h = ground (arith, testbit-bit_or k x value, h)

bit_mask :
    (k x keep value : ℕ)
    → testbit keep k ≡ false
    → testbit value k ≡ false
    → testbit (bit_or (bit_and x keep) value) k ≡ false
bit_mask k x keep value h h' =
    ground (arith, testbit-bit_or k (bit_and x keep) value, testbit-bit_and k x keep, h, h')

bit_kept :
    (k x keep value : ℕ)
    → testbit keep k ≡ true
    → testbit value k ≡ false
    → testbit (bit_or (bit_and x keep) value) k ≡ testbit x k
bit_kept k x keep value h h' =
    ground (arith, testbit-bit_or k (bit_and x keep) value, testbit-bit_and k x keep, h, h')

-- Whatever the registers hold before, after `config_apic` the local APIC is enabled, its timer,
-- LINT1, performance and thermal entries are masked, and its error entry is not.
pub config_apic-testbit :
    (id : ℕ) (r : Registers)
    → let after = config_apic id r in
      (testbit (after lapic_reg_spurious) 8 ≡ true)
      × (testbit (after lapic_lvt_timer) 16 ≡ true)
      × (testbit (after lapic_lvt_lint1) 16 ≡ true)
      × (testbit (after lapic_lvt_perf) 16 ≡ true)
      × (testbit (after lapic_lvt_thermal) 16 ≡ true)
      × (testbit (after lapic_lvt_error) 16 ≡ false)
unfolding config_apic set_local_apic write_local_apic
config_apic-testbit id r =
    let kept = complement 32 (2 ^ 8) in
    let spurious : testbit
          (bit_or
            (bit_and (bit_or (bit_and (r lapic_reg_spurious) kept) (2 ^ 8)) (complement 32 0xFF))
            0xA0)
          8
        ≡ true =
      bit_kept 8 _ (complement 32 0xFF) 0xA0 refl refl
      ∙ bit_value 8 (bit_and (r lapic_reg_spurious) kept) (2 ^ 8) refl in
    let masked : (x : ℕ) → testbit (bit_or x (2 ^ 16)) 16 ≡ true =
      λ x. bit_value 16 x (2 ^ 16) refl in
    let timer = masked (bit_and (r lapic_lvt_timer) (complement 32 (2 ^ 16))) in
    let lint1 = masked (bit_and (r lapic_lvt_lint1) (complement 32 (2 ^ 16))) in
    let perf = masked (bit_and (r lapic_lvt_perf) (complement 32 (2 ^ 16))) in
    let thermal = masked (bit_and (r lapic_lvt_thermal) (complement 32 (2 ^ 16))) in
    let unmasked = bit_or (bit_and (r lapic_lvt_error) (complement 32 (2 ^ 16))) 0 in
    let error : testbit (bit_or (bit_and unmasked (complement 32 0xFF)) 0xA6) 16 ≡ false =
      bit_kept 16 unmasked (complement 32 0xFF) 0xA6 refl refl
      ∙ bit_mask 16 (r lapic_lvt_error) (complement 32 (2 ^ 16)) 0 refl refl in
    elim (Bool-cases (ltb 0 id)) [
      | inl named ↦ rw named (spurious, timer, lint1, perf, thermal, error)
      | inr first ↦ rw first (spurious, timer, lint1, perf, thermal, error)
    ]

-- `send_ipi` leaves the destination's id in the upper byte of the one command register and the
-- rest of it as it was; the other gets the vector, fixed delivery, and the level and status bits.
-- No other register changes.
pub send_ipi-fields :
    (hw : HwInfo) (to vector other : ℕ) (r : Registers)
    → hw.cpu_lapic_id to < 256
    → vector < 256
    → other ≢ lapic_icr_low
    → other ≢ lapic_icr_high
    → let after = send_ipi hw to vector r in
      (after lapic_icr_high / 2 ^ 24 ≡ hw.cpu_lapic_id to)
      × (after lapic_icr_high % 2 ^ 24 ≡ r lapic_icr_high % 2 ^ 24)
      × (after lapic_icr_low ≡ 2 ^ 14 + 2 ^ 12 + vector)
      × (after other ≡ r other)
unfolding send_ipi write_local_apic
send_ipi-fields hw to vector other r hid hvec low high =
    let id = hw.cpu_lapic_id to in
    let kept = bit_and_ones 24 (r lapic_icr_high) in
    let fits : id * 2 ^ 24 % 2 ^ 32 ≡ id * 2 ^ 24 = omega arith in
    let joined =
      bit_or_comm (r lapic_icr_high % 2 ^ 24) (id * 2 ^ 24)
      ∙ bit_or_disjoint 24 id (r lapic_icr_high % 2 ^ 24) (omega arith) in
    let command : bit_or 0x5000 vector ≡ 0x5000 + vector = bit_or_disjoint 8 0x50 vector hvec in
    let not_low : (other == lapic_icr_low) ≡ false = ground arith in
    let not_high : (other == lapic_icr_high) ≡ false = ground arith in
    (
      rw (kept, fits, joined) (omega arith),
      rw (kept, fits, joined) (omega arith),
      command,
      rw (not_low, not_high) refl,
    )
