-- ===== src/Tests/Mps.antt =====
-- Runs of the readers of the Multiprocessor Specification's tables, on a small memory.
use smp_boot.Base.{ℕ, ◌≡◌, refl, true, List, [], ◌∷◌, get_or}
use smp_boot.Boot.{Bytes, HwInfo, search_fp, search_words, is_fp}
use smp_boot.Boot.Mps.{find_fp}
use smp_boot.Boot.Mps.Entries.{Item, processor, io_apic, note_all}
use smp_boot.Boot.Info.{no_info}

-- A floating pointer structure at 16 and a configuration table at 32.
abbrev pub mp_bytes : List ℕ
mp_bytes =
    0 ∷ 0 ∷ 0 ∷ 0 ∷ 0 ∷ 0 ∷ 0 ∷ 0 ∷ 0 ∷ 0 ∷ 0 ∷ 0 ∷ 0 ∷ 0 ∷ 0 ∷ 0 ∷ b'_' ∷ b'M' ∷ b'P' ∷ b'_' ∷ 32
    ∷ 0 ∷ 0 ∷ 0 ∷ 1 ∷ 4 ∷ 128 ∷ 0 ∷ 0 ∷ 0 ∷ 0 ∷ 0 ∷ b'P' ∷ b'C' ∷ b'M' ∷ b'P' ∷ 72 ∷ 0 ∷ 4 ∷ 182 ∷ 0
    ∷ 0 ∷ 0 ∷ 0 ∷ 0 ∷ 0 ∷ 0 ∷ 0 ∷ 0 ∷ 0 ∷ 0 ∷ 0 ∷ 0 ∷ 0 ∷ 0 ∷ 0 ∷ 0 ∷ 0 ∷ 0 ∷ 0 ∷ 0 ∷ 0 ∷ 0 ∷ 0 ∷ 0
    ∷ 0 ∷ 2 ∷ 0 ∷ 0 ∷ 0 ∷ 0xe0 ∷ 0xfe ∷ 0 ∷ 0 ∷ 0 ∷ 0 ∷ 0 ∷ 5 ∷ 20 ∷ 1 ∷ 0 ∷ 0 ∷ 0 ∷ 0 ∷ 0 ∷ 0 ∷ 0
    ∷ 0 ∷ 0 ∷ 0 ∷ 0 ∷ 0 ∷ 0 ∷ 0 ∷ 0 ∷ 0 ∷ 2 ∷ 2 ∷ 17 ∷ 1 ∷ 0 ∷ 0 ∷ 0xc0 ∷ 0xfe ∷ []

abbrev pub mp_memory : Bytes
mp_memory a = get_or mp_bytes a 0

abbrev items : List Item
items = processor 5 true ∷ io_apic 2 0xfec00000 true ∷ []

abbrev read_items : HwInfo
read_items = note_all items (record no_info { lapic_adr = 0xfee00000; cpu_cnt = 0; ioapic_cnt = 0 })

found_16 : find_fp mp_memory 16 ≡ 16
unfolding find_fp search_fp search_words is_fp
found_16 = refl
