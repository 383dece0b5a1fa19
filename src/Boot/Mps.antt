-- ===== src/Boot/Mps.antt =====
-- boot32.c: the part of `get_info` that reads the tables of the Multiprocessor Specification.
pub mod Entries
use smp_boot.Base.{
  ℕ, zero, suc, ◌+◌, ◌*◌, ◌/◌, ◌%◌, ◌^◌, Bool, true, false, not, ◌&&◌, ◌||◌, ◌==◌, if◌then◌else◌,
}
use smp_boot.Boot.{Bytes, HwInfo, word32, word16, check_sum, search_fp, put_at}

-- `case 0`, for the entry at an address, exact for `cpu_cnt` below `max_cpu`
unfoldable pub add_processor : Bytes → ℕ → HwInfo → HwInfo
add_processor mem a hw =
    if mem (a + 3) % 2 == 1
    then record hw {
      cpu_lapic_id = put_at hw.cpu_lapic_id hw.cpu_cnt (mem (a + 1));
      cpu_cnt = hw.cpu_cnt + 1;
    }
    else hw

-- `case 2`, exact for `ioapic_cnt` below `max_ioapic`
unfoldable pub add_mps_ioapic : Bytes → ℕ → HwInfo → HwInfo
add_mps_ioapic mem a hw =
    if mem (a + 3) % 2 == 1
    then record hw {
      ioapic_id = put_at hw.ioapic_id hw.ioapic_cnt (mem (a + 1));
      ioapic_adr = put_at hw.ioapic_adr hw.ioapic_cnt (word32 mem (a + 4));
      ioapic_cnt = hw.ioapic_cnt + 1;
    }
    else hw

-- The `switch`: the new `hw_info`, and the address of the next entry.
unfoldable pub read_mps_entry : Bytes → ℕ → HwInfo → HwInfo × ℕ
unfolding add_processor add_mps_ioapic
read_mps_entry mem a hw =
    if mem a == 0
    then (add_processor mem a hw, a + 20)
    else if mem a == 2
    then (add_mps_ioapic mem a hw, a + 8)
    else (hw, a + 8)

-- The loop over the entries of the configuration table, by the rounds left.
unfoldable pub read_mps_entries : ℕ → Bytes → ℕ → HwInfo → HwInfo
read_mps_entries zero mem a hw = hw
read_mps_entries (suc rounds) mem a hw =
    let (hw', next) = read_mps_entry mem a hw in read_mps_entries rounds mem next hw'

-- The three places of the floating pointer structure; 0 where there is none.
unfoldable pub find_fp : Bytes → ℕ → ℕ
find_fp mem ebda_adr =
    let ebda = search_fp mem ebda_adr 1024 in
    let base = search_fp mem (639 * 1024) 1024 in
    let rom = search_fp mem 0xE0000 0x20000 in
    if not (ebda == 0) then ebda else if not (base == 0) then base else rom

-- The configuration table at an address.
unfoldable pub read_mps_config : Bytes → ℕ → HwInfo → HwInfo
read_mps_config mem config hw =
    let found = record hw { lapic_adr = word32 mem (config + 36) } in
    if not (check_sum mem config (word16 mem (config + 4)) == 0)
    then hw
    else if not (check_sum mem config (word16 mem (config + 40)) == 0)
    then found
    else read_mps_entries (word16 mem (config + 34)) mem (config + 44)
        (record found { cpu_cnt = 0; ioapic_cnt = 0 })

-- From the floating pointer structure on, with every `goto skip_mps` a return of what is there.
unfoldable pub read_mps : Bytes → ℕ → HwInfo → HwInfo
read_mps mem ebda_adr hw =
    let fp = find_fp mem ebda_adr in
    if fp == 0
    then hw
    else if not (check_sum mem fp (mem (fp + 8) * 16) == 0)
    then hw
    else if not (mem (fp + 9) == 4) || (not (mem (fp + 11) == 0) || (word32 mem (fp + 4) == 0))
    then hw
    else read_mps_config mem (word32 mem (fp + 4)) hw
