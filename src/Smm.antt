-- ===== src/Smm.antt =====
-- smm.c: the register that enables system management interrupts. The ports are what `inportl` reads
-- from each; `write` is what a port holds after a value is written over another, where only some
-- bits can be changed. The interrupt flag and the messages are left out.
pub mod Restore
use smp_boot.Base.{ℕ, ◌+◌, Bool, not, ◌==◌, if◌then◌else◌, bit_and}
use smp_boot.Pci.{pci_config_read}

-- The two static variables.
pub record Smm : Type 0 where
  pub pmbase : ℕ
  pub bak_smi_en : ℕ

abbrev pub Ports : Type 0
Ports = ℕ → ℕ

abbrev pub smm_default : ℕ
smm_default = 0xDEADBEEF

-- SMI_EN
abbrev pub smi_en : Smm → ℕ
smi_en s = s.pmbase + 0x30

unfoldable pub outportl : (ℕ → ℕ → ℕ) → ℕ → ℕ → Ports → Ports
outportl write port value ports i = if i == port then write (ports i) value else ports i

unfoldable pub smm_init : (ℕ → ℕ) → Ports → Smm → Smm
smm_init bridge ports s =
    let base = bit_and (pci_config_read bridge 0x00 0x1F 0x00 0x40) 0xFF80 in
    if not (base == 0)
    then record { pmbase = base; bak_smi_en = ports (base + 0x30) }
    else record s { pmbase = base }

-- What the function returns, and the ports.
unfoldable pub smm_deactivate : (ℕ → ℕ → ℕ) → Smm → Ports → ℕ × Ports
unfolding outportl
smm_deactivate write s ports =
    if not (s.pmbase == 0)
    then (ports (smi_en s), outportl write (smi_en s) 0 ports)
    else (smm_default, ports)

unfoldable pub smm_restore : (ℕ → ℕ → ℕ) → ℕ → Smm → Ports → ℕ × Ports
unfolding outportl
smm_restore write value s ports =
    let written = if value == smm_default then s.bak_smi_en else value in
    if not (s.pmbase == 0)
    then (ports (smi_en s), outportl write (smi_en s) written ports)
    else (smm_default, ports)
