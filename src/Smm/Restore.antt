-- ===== src/Smm/Restore.antt =====
-- smm.c: `smm_restore` undoes `smm_deactivate`.
use smp_boot.Pci.{pci_config_read}
use smp_boot.Base.{
  bit_and, ℕ, ◌≡◌, ◌⊎◌, refl, inl, inr, true, ◌==◌, if◌then◌else◌, Bool-cases, ==_iff,
}
use smp_boot.Smm.{Smm, Ports, smm_default, smi_en, outportl, smm_init, smm_deactivate, smm_restore}

-- Writing back what a port held undoes a write, whichever bits of it can be changed.
abbrev pub IsLatch : (ℕ → ℕ → ℕ) → Type 0
IsLatch write = (x v : ℕ) → write (write x v) x ≡ x

outportl-undo :
    (write : ℕ → ℕ → ℕ) (port v p : ℕ) (ports : Ports)
    → IsLatch write
    → outportl write port (ports port) (outportl write port v ports) p ≡ ports p
unfolding outportl
outportl-undo write port v p ports latch = elim (Bool-cases (p == port)) [
  | inl here ↦ let e : p ≡ port = (==_iff p port).0 here in rw (here, e) (latch (ports port) v)
  | inr other ↦ rw other refl
]

-- What a restore of either kind writes after `smm_init`.
written_back :
    (s : Smm) (ports : Ports)
    → s.bak_smi_en ≡ ports (smi_en s)
    → (if ports (smi_en s) == smm_default then s.bak_smi_en else ports (smi_en s))
      ≡ ports (smi_en s)
written_back s ports saved = elim (Bool-cases (ports (smi_en s) == smm_default)) [
  | inl sentinel ↦ rw sentinel saved
  | inr other ↦ rw other refl
]

deactivated :
    (write : ℕ → ℕ → ℕ) (s : Smm) (p : ℕ) (ports : Ports)
    → IsLatch write
    → ((s.pmbase == 0) ≡ true) ⊎ (s.bak_smi_en ≡ ports (smi_en s))
    → let (value, off) = smm_deactivate write s ports in
      ((smm_restore write value s off).1 p ≡ ports p)
      × ((smm_restore write smm_default s off).1 p ≡ ports p)
unfolding smm_deactivate smm_restore
deactivated write s p ports latch (inl absent) = rw absent (refl, refl)
deactivated write s p ports latch (inr saved) = elim (Bool-cases (s.pmbase == 0)) [
  | inl absent ↦ rw absent (refl, refl)
  | inr present ↦
      let undo = outportl-undo write (smi_en s) 0 p ports latch in
      rw present (rw (written_back s ports saved) undo, rw saved undo)
]

smm_init-saved :
    (bridge : ℕ → ℕ) (ports : Ports) (before : Smm)
    → let s = smm_init bridge ports before in
      ((s.pmbase == 0) ≡ true) ⊎ (s.bak_smi_en ≡ ports (smi_en s))
unfolding smm_init
smm_init-saved bridge ports before =
    let base = bit_and (pci_config_read bridge 0x00 0x1F 0x00 0x40) 0xFF80 in
    elim (Bool-cases (base == 0)) [
      | inl absent ↦ inl (rw absent absent)
      | inr present ↦ inr (rw present refl)
    ]

-- After `smm_init`, `smm_restore` undoes `smm_deactivate`: with the value that this returned, and
-- with SMM_DEFAULT, every port is as it was, also where that value is SMM_DEFAULT itself, or where
-- there is no such register.
pub smm_restore-undo :
    (bridge : ℕ → ℕ) (ports : Ports) (write : ℕ → ℕ → ℕ) (before : Smm) (p : ℕ)
    → IsLatch write
    → let s = smm_init bridge ports before in
      let (value, off) = smm_deactivate write s ports in
      ((smm_restore write value s off).1 p ≡ ports p)
      × ((smm_restore write smm_default s off).1 p ≡ ports p)
smm_restore-undo bridge ports write before p latch =
    deactivated write (smm_init bridge ports before) p ports latch
      (smm_init-saved bridge ports before)
