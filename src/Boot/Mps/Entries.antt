-- ===== src/Boot/Mps/Entries.antt =====
-- boot32.c: which processors and I/O APICs the loop over a configuration table enters.
use smp_boot.Base.{ℕ, suc, ◌+◌, ◌*◌, ◌%◌, ◌≡◌, ◌≢◌, Bool, true, false, List, [], ◌∷◌}
use smp_boot.Boot.{Bytes, HwInfo, word32, check_sum, put_at}

pub data Item : Type 0 where
  processor : (lapic_id : ℕ) (enabled : Bool) → Item
  io_apic : (id adr : ℕ) (enabled : Bool) → Item
  item : (type : ℕ) → Item

abbrev pub item_size : Item → ℕ
item_size (processor _ _) = 20
item_size (io_apic _ _ _) = 8
item_size (item _) = 8

abbrev pub bit : Bool → ℕ
bit true = 1
bit false = 0

-- `e` stands at address `a`.
abbrev pub Stands : Bytes → ℕ → Item → Type 0
Stands mem a (processor id on) = (mem a ≡ 0) × (mem (a + 1) ≡ id) × (mem (a + 3) % 2 ≡ bit on)
Stands mem a (io_apic id adr on) =
    (mem a ≡ 2) × (mem (a + 1) ≡ id) × (mem (a + 3) % 2 ≡ bit on) × (word32 mem (a + 4) ≡ adr)
Stands mem a (item type) = (mem a ≡ type) × (type ≢ 0) × (type ≢ 2)

abbrev pub StandsAll : Bytes → ℕ → List Item → Type 0
StandsAll mem a [] = Unit
StandsAll mem a (e ∷ es) = Stands mem a e × StandsAll mem (a + item_size e) es

-- What the table says of the processors and the I/O APICs.
abbrev pub note : Item → HwInfo → HwInfo
note (processor id true) hw = record hw {
  cpu_lapic_id = put_at hw.cpu_lapic_id hw.cpu_cnt id;
  cpu_cnt = hw.cpu_cnt + 1;
}
note (io_apic id adr true) hw = record hw {
  ioapic_id = put_at hw.ioapic_id hw.ioapic_cnt id;
  ioapic_adr = put_at hw.ioapic_adr hw.ioapic_cnt adr;
  ioapic_cnt = hw.ioapic_cnt + 1;
}
note _ hw = hw

abbrev pub note_all : List Item → HwInfo → HwInfo
note_all [] hw = hw
note_all (e ∷ es) hw = note_all es (note e hw)

-- The processors and the I/O APICs that a table lists as enabled.
abbrev pub processors : List Item → ℕ
processors [] = 0
processors (processor id true ∷ es) = suc (processors es)
processors (e ∷ es) = processors es

abbrev pub io_apics : List Item → ℕ
io_apics [] = 0
io_apics (io_apic id adr true ∷ es) = suc (io_apics es)
io_apics (e ∷ es) = io_apics es

-- The floating pointer structure at `fp` is one that `get_info` accepts, and names `config`.
pub record IsPointer (mem : Bytes) (fp config : ℕ) : Type 0 where
  pub there : fp ≢ 0
  pub sum : check_sum mem fp (mem (fp + 8) * 16) ≡ 0
  pub revision : mem (fp + 9) ≡ 4
  pub no_default : mem (fp + 11) ≡ 0
  pub names : word32 mem (fp + 4) ≡ config
  pub given : config ≢ 0
