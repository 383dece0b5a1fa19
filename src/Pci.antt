-- ===== src/Pci.antt =====
-- pci.c: `pci_config_read`. The host bridge is what CONFIG_DATA delivers for each address that is
-- written to CONFIG_ADR; no other processor comes between, by `pci_mutex`.
pub mod Scan
use smp_boot.Base.{
  ℕ, ◌+◌, ◌*◌, ◌/◌, ◌%◌, ◌^◌, ◌<◌, ◌≡◌, ◌∙◌, ◌⊎◌, inl, inr, arith, bit_and, bit_or, and_digit,
  bit_and_ones, bit_and_none, bit_or_disjoint,
}
use smp_boot.Boot.{Bytes, word16, word32}

unfoldable pub config_address : ℕ → ℕ → ℕ → ℕ → ℕ
config_address bus slot func offset =
    bit_or (bit_or (bit_or (bit_or 0x80000000 (bus * 2 ^ 16)) (slot * 2 ^ 11)) (func * 2 ^ 8))
      (bit_and offset 0xfc)

unfoldable pub pci_config_read : (ℕ → ℕ) → ℕ → ℕ → ℕ → ℕ → ℕ
unfolding config_address
pci_config_read bridge bus slot func offset =
    bridge (config_address bus slot func offset) / 2 ^ (bit_and offset 2 * 8) % 2 ^ 16

bit_and_dword : (offset : ℕ) → offset < 256 → bit_and offset 0xfc ≡ offset / 4 * 4
bit_and_dword offset h =
    omega
      (arith, and_digit offset 0xfc, and_digit (offset / 2) 126, bit_and_ones 6 (offset / 2 / 2))

bit_and_upper_half : (offset : ℕ) → bit_and offset 2 ≡ offset / 2 % 2 * 2
bit_and_upper_half offset =
    let high = offset / 2 / 2 in
    omega (arith, and_digit offset 2, and_digit (offset / 2) 1, bit_and_none high)

config_address-sum :
    (bus slot func offset : ℕ)
    → bus < 256
    → slot < 32
    → func < 8
    → offset < 256
    → config_address bus slot func offset
      ≡ 2 ^ 31 + bus * 2 ^ 16 + slot * 2 ^ 11 + func * 2 ^ 8 + offset / 4 * 4
unfolding config_address
config_address-sum bus slot func offset hb hs hf ho =
    let with_bus : bit_or 0x80000000 (bus * 2 ^ 16) ≡ (2 ^ 15 + bus) * 2 ^ 16 =
      bit_or_disjoint 31 1 (bus * 2 ^ 16) (omega arith) ∙ omega arith in
    let with_slot : bit_or ((2 ^ 15 + bus) * 2 ^ 16) (slot * 2 ^ 11)
        ≡ (2 ^ 20 + bus * 2 ^ 5 + slot) * 2 ^ 11 =
      bit_or_disjoint 16 (2 ^ 15 + bus) (slot * 2 ^ 11) (omega arith) ∙ omega arith in
    let with_func : bit_or ((2 ^ 20 + bus * 2 ^ 5 + slot) * 2 ^ 11) (func * 2 ^ 8)
        ≡ (2 ^ 23 + bus * 2 ^ 8 + slot * 2 ^ 3 + func) * 2 ^ 8 =
      bit_or_disjoint 11 (2 ^ 20 + bus * 2 ^ 5 + slot) (func * 2 ^ 8) (omega arith) ∙ omega arith in
    let with_register =
      bit_or_disjoint 8 (2 ^ 23 + bus * 2 ^ 8 + slot * 2 ^ 3 + func) (offset / 4 * 4)
        (omega arith) in
    rw (with_bus, with_slot, with_func, bit_and_dword offset ho, with_register, config_address)
      (omega arith)

-- The bytes of the configuration space of each device.
abbrev pub Space : Type 0
Space = ℕ → ℕ → ℕ → Bytes

-- The bridge's side of configuration mechanism 1: where bit 31 of the address is set, it delivers
-- the four bytes at the register that the address names, low byte first.
abbrev pub IsBridge : Space → (ℕ → ℕ) → Type 0
IsBridge space bridge =
    (bus slot func reg : ℕ)
    → bus < 256
    → slot < 32
    → func < 8
    → reg < 64
    → bridge (2 ^ 31 + bus * 2 ^ 16 + slot * 2 ^ 11 + func * 2 ^ 8 + reg * 4)
      ≡ word32 (space bus slot func) (reg * 4)

-- Of the four bytes at `a`, the two that `offset & 2` selects.
half_of_word32 :
    (mem : Bytes) (offset : ℕ)
    → ((i : ℕ) → mem i < 256)
    → word32 mem (offset / 4 * 4) / 2 ^ (offset / 2 % 2 * 2 * 8) % 2 ^ 16
      ≡ word16 mem (offset / 2 * 2)
half_of_word32 mem offset bytes =
    let a = offset / 4 * 4 in
    let b0 = bytes a in
    let b1 = bytes (a + 1) in
    let b2 = bytes (a + 2) in
    let b3 = bytes (a + 3) in
    let half : (offset / 2 % 2 ≡ 0) ⊎ (offset / 2 % 2 ≡ 1) = omega arith in
    elim half [
      | inl low ↦ let same : offset / 2 * 2 ≡ a = omega arith in rw (low, same) (omega arith)
      | inr high ↦
          let same : offset / 2 * 2 ≡ a + 2 = omega arith in
          let next : a + 2 + 1 ≡ a + 3 = omega arith in rw (high, same, next) (omega arith)
    ]

-- With a bridge for configuration mechanism 1, `pci_config_read` returns the two bytes of the
-- device's configuration space that hold the byte at the offset, for every bus, slot, function and
-- offset in range.
pub pci_config_read-word16 :
    (space : Space) (bridge : ℕ → ℕ) (bus slot func offset : ℕ)
    → IsBridge space bridge
    → ((i : ℕ) → space bus slot func i < 256)
    → bus < 256
    → slot < 32
    → func < 8
    → offset < 256
    → pci_config_read bridge bus slot func offset ≡ word16 (space bus slot func) (offset / 2 * 2)
unfolding pci_config_read
pci_config_read-word16 space bridge bus slot func offset is_bridge bytes hb hs hf ho =
    let delivered = is_bridge bus slot func (offset / 4) hb hs hf (omega arith) in
    rw (config_address-sum bus slot func offset hb hs hf ho, bit_and_upper_half offset, delivered)
      (half_of_word32 (space bus slot func) offset bytes)
