-- ===== src/Isr/Faults.antt =====
-- isr.c: what `int_handler` leaves, and what it says about a page fault.
use smp_boot.Base.{
  ℕ, ◌*◌, ◌%◌, ◌/◌, ◌≡◌, arith, false, ◌==◌, if◌then◌else◌, [], ◌∷◌, bit_and, and_digit,
  bit_and_none, testbit,
}
use smp_boot.Isr.{wr, not_present, protection, ring_0, ring_3, page_fault_words}

-- For every error code the words are that the fault is a write, then what bit 0 says, the
-- protection, and what bit 2 says, the ring, and no more: no read, reserved bit or instruction
-- fetch is ever named.
pub page_fault_words-bits :
    (err_code : ℕ)
    → page_fault_words err_code
      ≡ wr
        ∷ (if testbit err_code 0 then protection else not_present)
        ∷ (if testbit err_code 2 then ring_3 else ring_0)
        ∷ []
unfolding page_fault_words
page_fault_words-bits e =
    let bit0 : bit_and e 1 ≡ e % 2 = omega (arith, and_digit e 1, bit_and_none (e / 2)) in
    let bit1 : bit_and e 2 ≡ e / 2 % 2 * 2 =
      omega (arith, and_digit e 2, and_digit (e / 2) 1, bit_and_none (e / 2 / 2)) in
    let bit2 : bit_and e 4 ≡ e / 2 / 2 % 2 * 4 = omega (
      arith,
      and_digit e 4,
      and_digit (e / 2) 2,
      and_digit (e / 2 / 2) 1,
      bit_and_none (e / 2 / 2 / 2),
    ) in
    let bit3 : bit_and e 8 ≡ e / 2 / 2 / 2 % 2 * 8 = omega (
      arith,
      and_digit e 8,
      and_digit (e / 2) 4,
      and_digit (e / 2 / 2) 2,
      and_digit (e / 2 / 2 / 2) 1,
      bit_and_none (e / 2 / 2 / 2 / 2),
    ) in
    let no_read : (bit_and e 2 == 1) ≡ false = ground arith in
    let no_more : (bit_and e 8 == 1) ≡ false = ground arith in rw (no_read, no_more) (ground arith)
