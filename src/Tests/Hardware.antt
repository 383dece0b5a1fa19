-- ===== src/Tests/Hardware.antt =====
-- Runs of `pci_config_read` and of the scan.
use smp_boot.Base.{ℕ, ◌+◌, ◌*◌, ◌/◌, ◌%◌, ◌^◌, ◌≡◌, refl, true, false, [], ◌∷◌, arith}
use smp_boot.Pci.Scan.{pci_init, driver_check_pci}
use smp_boot.Pci.Scan.Found.{calls_at, pci_init-calls}
use smp_boot.Pci.{Space, IsBridge}

-- Every device has the numbers 0 to 255 in its space.
abbrev counting : Space
counting bus slot func i = i % 256

abbrev counting_bridge : ℕ → ℕ
counting_bridge adr =
    let reg = adr % 256 / 4 * 4 in reg + (reg + 1) * 2 ^ 8 + (reg + 2) * 2 ^ 16 + (reg + 3) * 2 ^ 24

counting_bridge-IsBridge : IsBridge counting counting_bridge
counting_bridge-IsBridge bus slot func reg hb hs hf hr =
    let same : (2 ^ 31 + bus * 2 ^ 16 + slot * 2 ^ 11 + func * 2 ^ 8 + reg * 4) % 256 / 4 * 4
        ≡ reg * 4 =
      omega arith in
    rw same (omega arith)

pci_init-calls_example :
    calls_at 3 7 (pci_init counting_bridge)
    ≡ record { vendor = 0x100; device = 0x302; bus = 3; slot = 7 } ∷ []
pci_init-calls_example =
    pci_init-calls counting counting_bridge 3 7 counting_bridge-IsBridge (λ i. omega arith)

-- The two network cards that the drivers know.
known_cards :
    (driver_check_pci 0x10ec 0x8139 ≡ true)
    × (driver_check_pci 0x8086 0x10cc ≡ true)
    × (driver_check_pci 0x8086 0x8139 ≡ false)
unfolding driver_check_pci
known_cards = (refl, refl, refl)
