-- ===== src/Pci/Scan.antt =====
-- pci.c, driver.c and nic.c: the scan of `pci_init`, as the list of its calls of
-- `driver_check_pci`, and what those do. The region for PCIe is never mapped, and so its scan not
-- reached.
pub mod Found
use smp_boot.Base.{
  ℕ, zero, suc, ◌+◌, ◌*◌, ◌%◌, ◌^◌, Bool, true, false, not, ◌||◌, ◌==◌, if◌then◌else◌, List, [],
  ◌∷◌, ◌++◌, bit_and, bit_or, complement,
}
use smp_boot.Pci.{pci_config_read}

-- The arguments of `driver_check_pci`.
pub record Device : Type 0 where
  pub vendor : ℕ
  pub device : ℕ
  pub bus : ℕ
  pub slot : ℕ

-- The inner loop, for `n` slots from `slot` on.
unfoldable pub scan_slots : ℕ → (ℕ → ℕ) → ℕ → ℕ → List Device
scan_slots zero bridge bus slot = []
scan_slots (suc n) bridge bus slot =
    let vendor = pci_config_read bridge bus slot 0 0 in
    let device = pci_config_read bridge bus slot 0 2 in
    let rest = scan_slots n bridge bus (slot + 1) in
    if not (vendor == 0xFFFF)
    then record { vendor = vendor; device = device; bus = bus; slot = slot } ∷ rest
    else rest

-- The outer loop, for `n` buses from `bus` on.
unfoldable pub scan_buses : ℕ → (ℕ → ℕ) → ℕ → List Device
scan_buses zero bridge bus = []
scan_buses (suc n) bridge bus = scan_slots 32 bridge bus 0 ++ scan_buses n bridge (bus + 1)

unfoldable pub pci_init : (ℕ → ℕ) → List Device
pci_init bridge = scan_buses 16 bridge 0

-- `driver_check_pci`: whether the device is known; the first of the two gets `rtl8139_init`.
unfoldable pub driver_check_pci : ℕ → ℕ → Bool
driver_check_pci vendor device =
    let vendev = bit_or (vendor * 2 ^ 16) device in vendev == 0x10ec8139 || vendev == 0x808610cc

-- `mac` of `rtl8139_init`, where `inportb` is what the ports deliver.
unfoldable pub rtl8139_iobase : ℕ → ℕ
rtl8139_iobase bar = if bit_and bar 1 == 0 then bar else bit_and bar (complement 16 3)

unfoldable pub read_mac : (ℕ → ℕ) → ℕ → ℕ → ℕ → List ℕ
read_mac inportb iobase zero u = []
read_mac inportb iobase (suc n) u =
    inportb ((iobase + u) % 2 ^ 16) ∷ read_mac inportb iobase n (u + 1)

unfoldable pub rtl8139_init : (ℕ → ℕ) → (ℕ → ℕ) → ℕ → ℕ → List ℕ
unfolding rtl8139_iobase read_mac
rtl8139_init bridge inportb bus slot =
    read_mac inportb (rtl8139_iobase (pci_config_read bridge bus slot 0 0x10)) 6 0
