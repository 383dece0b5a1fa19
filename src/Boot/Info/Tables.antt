-- ===== src/Boot/Info/Tables.antt =====
-- boot32.c: `get_info` on a machine whose RSDT leads to one MADT.
use smp_boot.Base.{ℕ, ◌+◌, ◌*◌, ◌^◌, ◌<◌, ◌≤◌, ◌≡◌, ◌≢◌, List, [], ◌∷◌, length}
use smp_boot.Boot.{Bytes, HwInfo, max_cpu, max_ioapic, word32, check_sum, search_rsdp}
use smp_boot.Boot.Madt.{Entry, Layout, enter_all, cpus, ioapics, emptied}
use smp_boot.Boot.Info.{Info, no_info, madt_signature, mcfg_signature}
use smp_boot.Boot.Info.Result.{ebda_of}

-- The addresses in a list stand one behind the other in the RSDT.
abbrev pub Names : Bytes → ℕ → List ℕ → Type 0
Names mem entry [] = Unit
Names mem entry (t ∷ ts) = (word32 mem entry ≡ t) × Names mem (entry + 4) ts

-- Tables that `get_info` does not read.
abbrev pub Others : Bytes → List ℕ → Type 0
Others mem [] = Unit
Others mem (t ∷ ts) =
    (word32 mem t ≢ madt_signature) × (word32 mem t ≢ mcfg_signature) × Others mem ts

-- A root pointer in the BIOS area that leads to an RSDT with these tables.
pub record IsRoot (mem : Bytes) (rsdp rsdt : ℕ) (tables : List ℕ) : Type 0 where
  pub none_in_ebda : search_rsdp mem (ebda_of mem) (mem (ebda_of mem)) ≡ 0
  pub found : search_rsdp mem 0xE0000 0x20000 ≡ rsdp
  pub there : rsdp ≢ 0
  pub sum : check_sum mem rsdp 20 ≡ 0
  pub leads : word32 mem (rsdp + 16) ≡ rsdt
  pub rsdt_length : word32 mem (rsdt + 4) ≡ 36 + length tables * 4
  pub rsdt_sum : check_sum mem rsdt (36 + length tables * 4) ≡ 0
  pub short : length tables < 2 ^ 16
  pub names : Names mem (rsdt + 36) tables

-- The MADT at `t` has these entries, at least one processor and one I/O APIC, and no more than the
-- arrays of `hw_info` hold.
pub record IsMadt (mem : Bytes) (t end : ℕ) (es : List Entry) : Type 0 where
  pub signature : word32 mem t ≡ madt_signature
  pub table_length : word32 mem (t + 4) ≡ 44 + end
  pub table_sum : check_sum mem t (44 + end) ≡ 0
  pub layout : Layout mem (t + 44) 0 es end
  pub lapic : word32 mem (t + 36) ≢ 0
  pub some_cpu : 0 < cpus es
  pub some_ioapic : 0 < ioapics es
  pub room_cpu : cpus es ≤ max_cpu
  pub room_ioapic : ioapics es ≤ max_ioapic

-- What a table says.
abbrev pub read_from : Bytes → ℕ → List Entry → HwInfo
read_from mem t es = enter_all es (emptied (word32 mem (t + 36)) no_info)
