-- ===== src/Boot.antt =====
-- boot32.c: the tables that the firmware leaves in memory, as bytes at physical addresses.
pub mod Search
pub mod Madt
pub mod Mps
pub mod Cpu
pub mod Info
use smp_boot.Base.{
  ℕ, zero, suc, ◌+◌, ◌-◌, ◌*◌, ◌/◌, ◌%◌, ◌^◌, Bool, true, false, ◌&&◌, Option, none, some, ◌==◌,
  leb, ltb, if◌then◌else◌,
}

abbrev pub Bytes : Type 0
Bytes = ℕ → ℕ

-- A `uint32_t` and a `uint16_t` at an address, low byte first.
abbrev pub word32 : Bytes → ℕ → ℕ
word32 mem a = mem a + mem (a + 1) * 2 ^ 8 + mem (a + 2) * 2 ^ 16 + mem (a + 3) * 2 ^ 24

abbrev pub word16 : Bytes → ℕ → ℕ
word16 mem a = mem a + mem (a + 1) * 2 ^ 8

-- The loop of `check_sum`: a `uint8_t` sum.
unfoldable pub sum_bytes : Bytes → ℕ → ℕ → ℕ → ℕ
sum_bytes mem a zero sum = sum
sum_bytes mem a (suc rounds) sum = sum_bytes mem (a + 1) rounds ((sum + mem a) % 2 ^ 8)

unfoldable pub check_sum : Bytes → ℕ → ℕ → ℕ
check_sum mem hdr length = sum_bytes mem hdr length 0

-- The loop of `search_rsdp` and `search_fp`, by the rounds left: the address of the first word that
-- passes a test, or 0.
unfoldable pub search_words : (ℕ → Bool) → ℕ → ℕ → ℕ
search_words test a zero = 0
search_words test a (suc rounds) =
    let rest = search_words test (a + 4) rounds in if test a then a else rest

-- "RSD PTR "
unfoldable pub is_rsdp : Bytes → ℕ → Bool
is_rsdp mem a = word32 mem a == 0x20445352 && word32 mem (a + 4) == 0x20525450

-- "_MP_"
unfoldable pub is_fp : Bytes → ℕ → Bool
is_fp mem a = word32 mem a == 0x5f504d5f

unfoldable pub search_rsdp : Bytes → ℕ → ℕ → ℕ
search_rsdp mem offset size = search_words (is_rsdp mem) offset (size / 4)

unfoldable pub search_fp : Bytes → ℕ → ℕ → ℕ
search_fp mem offset size = search_words (is_fp mem) offset (size / 4)

-- The fields of `hw_info` that `read_madt` and `read_mcfg` write. An array is a function of the
-- index. The C arrays have `max_cpu`, `max_ioapic` and `max_pcie` elements, and no write is
-- checked: one behind the end of an array goes to the fields that follow it in C. The functions
-- below are exact as long as the counter that they use as an index is below the size of the array.
pub record HwInfo : Type 0 where
  pub lapic_adr : ℕ
  pub cpu_cnt : ℕ
  pub cpu_lapic_id : ℕ → ℕ
  pub ioapic_cnt : ℕ
  pub ioapic_id : ℕ → ℕ
  pub ioapic_adr : ℕ → ℕ
  pub pcie_cnt : ℕ
  pub pcie_base_adr : ℕ → ℕ
  pub pcie_grp_nbr : ℕ → ℕ
  pub pcie_bus_start : ℕ → ℕ
  pub pcie_bus_end : ℕ → ℕ

abbrev pub max_cpu : ℕ
max_cpu = 16

abbrev pub max_ioapic : ℕ
max_ioapic = 1

abbrev pub max_pcie : ℕ
max_pcie = 1

abbrev pub put_at : (ℕ → ℕ) → ℕ → ℕ → ℕ → ℕ
put_at f i v j = if i == j then v else f j

-- `case MADT_TYPE_LAPIC`, for the entry at an address, exact for `cpu_cnt` below `max_cpu`
unfoldable pub add_lapic : Bytes → ℕ → HwInfo → HwInfo
add_lapic mem a hw =
    if word32 mem (a + 4) % 2 == 1
    then record hw {
      cpu_lapic_id = put_at hw.cpu_lapic_id hw.cpu_cnt (mem (a + 3));
      cpu_cnt = hw.cpu_cnt + 1;
    }
    else hw

-- `case MADT_TYPE_IOAPIC`, exact for `ioapic_cnt` below `max_ioapic`
unfoldable pub add_ioapic : Bytes → ℕ → HwInfo → HwInfo
add_ioapic mem a hw = record hw {
  ioapic_id = put_at hw.ioapic_id hw.ioapic_cnt (mem (a + 2));
  ioapic_adr = put_at hw.ioapic_adr hw.ioapic_cnt (word32 mem (a + 4));
  ioapic_cnt = hw.ioapic_cnt + 1;
}

-- The `switch` of `read_madt`.
unfoldable pub read_entry : Bytes → ℕ → HwInfo → HwInfo
unfolding add_lapic add_ioapic
read_entry mem a hw =
    if mem a == 0 then add_lapic mem a hw else if mem a == 1 then add_ioapic mem a hw else hw

-- The loop of `read_madt` from byte `i` of the entries. `none` means that the fuel ran out: an
-- entry of length 0 makes the loop run for ever.
unfoldable pub read_entries : ℕ → Bytes → ℕ → ℕ → ℕ → HwInfo → Option HwInfo
read_entries zero mem offset length i hw = if ltb (44 + i) length then none else some hw
read_entries (suc fuel) mem offset length i hw =
    let a = offset + 44 + i in
    let rest = read_entries fuel mem offset length (i + mem (a + 1)) (read_entry mem a hw) in
    if ltb (44 + i) length then rest else some hw

-- `read_madt`; the first part of the result is what the function returns, -1 as `false`.
unfoldable pub read_madt : Bytes → ℕ → HwInfo → Option (Bool × HwInfo)
read_madt mem offset hw =
    let length = word32 mem (offset + 4) in
    let start = record hw { lapic_adr = word32 mem (offset + 36); cpu_cnt = 0; ioapic_cnt = 0 } in
    let read = read_entries length mem offset length 0 start in
    if check_sum mem offset length == 0
    then elim read [ none ↦ none | some hw' ↦ some (true, hw') ]
    else some (false, hw)

-- The loop of `read_mcfg` from entry `i`, by the rounds left. `none` is the halt on more entries
-- than are supported.
unfoldable pub read_config_spaces : ℕ → Bytes → ℕ → ℕ → ℕ → HwInfo → Option HwInfo
read_config_spaces zero mem offset length i hw = some hw
read_config_spaces (suc rounds) mem offset length i hw =
    let a = offset + 44 + i * 16 in
    let n = hw.pcie_cnt in
    let hw' = record hw {
      pcie_base_adr = put_at hw.pcie_base_adr n (word32 mem a + word32 mem (a + 4) * 2 ^ 32);
      pcie_grp_nbr = put_at hw.pcie_grp_nbr n (word16 mem (a + 8));
      pcie_bus_start = put_at hw.pcie_bus_start n (mem (a + 10));
      pcie_bus_end = put_at hw.pcie_bus_end n (mem (a + 11));
      pcie_cnt = n + 1;
    } in
    let rest = read_config_spaces rounds mem offset length (i + 1) hw' in
    if ltb length (44 + i * 16) then some hw else if leb max_pcie i then none else rest

-- `read_mcfg`: its check of the sum only prints.
unfoldable pub read_mcfg : Bytes → ℕ → HwInfo → Option HwInfo
read_mcfg mem offset hw =
    let length = word32 mem (offset + 4) in
    read_config_spaces ((length + 2 ^ 32 - 44) % 2 ^ 32 / 16) mem offset length 0 hw
