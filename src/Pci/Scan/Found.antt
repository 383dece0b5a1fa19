-- ===== src/Pci/Scan/Found.antt =====
-- pci.c: which devices `pci_init` finds.
use smp_boot.Base.{
  in_run, in_run-other, in_run-first, in_run-past, ℕ, zero, suc, ◌+◌, ◌<◌, ◌≡◌, refl, ◌∙◌, inl, inr,
  arith, Bool, true, false, not, ◌&&◌, ◌==◌, ltb, if◌then◌else◌, Bool-cases, ==_iff, List, [], ◌∷◌,
  ◌++◌,
}
use mathlib.Core.List.{append-nil}
use smp_boot.Boot.{word16}
use smp_boot.Pci.{pci_config_read, pci_config_read-word16, Space, IsBridge}
use smp_boot.Pci.Scan.{Device, scan_slots, scan_buses, pci_init}

-- The calls for one bus and slot.
abbrev pub is_at : ℕ → ℕ → Device → Bool
is_at bus slot d = bus == d.bus && slot == d.slot

abbrev pub calls_at : ℕ → ℕ → List Device → List Device
calls_at bus slot [] = []
calls_at bus slot (d ∷ l) =
    let rest = calls_at bus slot l in if is_at bus slot d then d ∷ rest else rest

calls_at-append :
    (bus slot : ℕ) (l m : List Device)
    → calls_at bus slot (l ++ m) ≡ calls_at bus slot l ++ calls_at bus slot m
calls_at-append bus slot [] m = refl
calls_at-append bus slot (d ∷ l) m = elim (Bool-cases (is_at bus slot d)) [
  | inl here ↦ rw (here, calls_at-append bus slot l m) refl
  | inr other ↦ rw (other, calls_at-append bus slot l m) refl
]

-- The call for an address, where the vendor is not 0xFFFF.
abbrev pub seen : (ℕ → ℕ) → ℕ → ℕ → List Device
seen bridge bus slot =
    let vendor = pci_config_read bridge bus slot 0 0 in
    let device = pci_config_read bridge bus slot 0 2 in
    if not (vendor == 0xFFFF)
    then record { vendor = vendor; device = device; bus = bus; slot = slot } ∷ []
    else []

calls_at-own :
    (bus slot : ℕ) (bridge : ℕ → ℕ)
    → calls_at bus slot (seen bridge bus slot) ≡ seen bridge bus slot
calls_at-own bus slot bridge =
    let self_bus : (bus == bus) ≡ true = ground arith in
    let self_slot : (slot == slot) ≡ true = ground arith in
    elim (Bool-cases (pci_config_read bridge bus slot 0 0 == 0xFFFF)) [
      | inl absent ↦ rw absent refl
      | inr present ↦ rw (present, self_bus, self_slot) refl
    ]

calls_at-other :
    (b s bus slot : ℕ) (bridge : ℕ → ℕ)
    → (b == bus && s == slot) ≡ false
    → calls_at b s (seen bridge bus slot) ≡ []
calls_at-other b s bus slot bridge other =
    elim (Bool-cases (pci_config_read bridge bus slot 0 0 == 0xFFFF)) [
      | inl absent ↦ rw absent refl
      | inr present ↦ rw (present, other) refl
    ]

calls_at-seen :
    (b s bus slot : ℕ) (bridge : ℕ → ℕ)
    → calls_at b s (seen bridge bus slot) ≡ (if b == bus && s == slot then seen bridge b s else [])
calls_at-seen b s bus slot bridge = elim (Bool-cases (b == bus && s == slot)) [
  | inl here ↦
      let same_bus : b ≡ bus = ground arith in
      let same_slot : s ≡ slot = ground arith in
      rw (here, same_bus, same_slot) (calls_at-own bus slot bridge)
  | inr other ↦ calls_at-other b s bus slot bridge other ∙ rw other refl
]

scan_slots-step :
    (n bus slot : ℕ) (bridge : ℕ → ℕ)
    → scan_slots (suc n) bridge bus slot
      ≡ seen bridge bus slot ++ scan_slots n bridge bus (slot + 1)
unfolding scan_slots
scan_slots-step n bus slot bridge =
    elim (Bool-cases (pci_config_read bridge bus slot 0 0 == 0xFFFF)) [
      | inl absent ↦ rw absent refl
      | inr present ↦ rw present refl
    ]

-- A number at the begin of a run, and the rest of it.
join_runs :
    (g : Bool) (n slot s : ℕ) (l : List Device)
    → (if g && s == slot then l else []) ++ (if g && in_run (slot + 1) n s then l else [])
      ≡ (if g && in_run slot (suc n) s then l else [])
join_runs false n slot s l = refl
join_runs true n slot s l = elim (Bool-cases (s == slot)) [
  | inl first ↦
      let e : s ≡ slot = (==_iff s slot).0 first in
      let self : (slot == slot) ≡ true = ground arith in
      rw (e, self, in_run-past n slot, in_run-first n slot) (append-nil l)
  | inr later ↦ rw (later, in_run-other n slot s later) refl
]

scan_slots-calls :
    (n bus slot b s : ℕ) (bridge : ℕ → ℕ)
    → calls_at b s (scan_slots n bridge bus slot)
      ≡ (if b == bus && in_run slot n s then seen bridge b s else [])
unfolding scan_slots
scan_slots-calls zero bus slot b s bridge =
    let empty : in_run slot 0 s ≡ false = ground arith in
    let not_here : (b == bus && false) ≡ false = ground arith in rw (empty, not_here) refl
scan_slots-calls (suc n) bus slot b s bridge =
    rw
      (
        scan_slots-step n bus slot bridge,
        calls_at-append b s (seen bridge bus slot) (scan_slots n bridge bus (slot + 1)),
        calls_at-seen b s bus slot bridge,
        scan_slots-calls n bus (slot + 1) b s bridge,
      )
      (join_runs (b == bus) n slot s (seen bridge b s))

whole_bus : (b bus s : ℕ) → (b == bus && in_run 0 32 s) ≡ (ltb s 32 && b == bus)
whole_bus b bus s = ground arith

scan_buses-calls :
    (n bus b s : ℕ) (bridge : ℕ → ℕ)
    → calls_at b s (scan_buses n bridge bus)
      ≡ (if ltb s 32 && in_run bus n b then seen bridge b s else [])
unfolding scan_buses
scan_buses-calls zero bus b s bridge =
    let empty : (ltb s 32 && in_run bus 0 b) ≡ false = ground arith in rw empty refl
scan_buses-calls (suc n) bus b s bridge =
    rw
      (
        calls_at-append b s (scan_slots 32 bridge bus 0) (scan_buses n bridge (bus + 1)),
        scan_slots-calls 32 bus 0 b s bridge,
        whole_bus b bus s,
        scan_buses-calls n (bus + 1) b s bridge,
      )
      (join_runs (ltb s 32) n bus b (seen bridge b s))

in_all_buses : (bus : ℕ) → in_run 0 16 bus ≡ ltb bus 16
in_all_buses bus = ground arith

-- With a bridge for configuration mechanism 1, `pci_init` calls `driver_check_pci` exactly once for
-- each bus below 16 and slot below 32 whose function 0 has a vendor other than 0xFFFF, with the
-- first two words of its configuration space, and for no other bus or slot.
pub pci_init-calls :
    (space : Space) (bridge : ℕ → ℕ) (bus slot : ℕ)
    → IsBridge space bridge
    → ((i : ℕ) → space bus slot 0 i < 256)
    → let vendor = word16 (space bus slot 0) 0 in
      let device = word16 (space bus slot 0) 2 in
      calls_at bus slot (pci_init bridge) ≡ (
        if ltb slot 32 && ltb bus 16 && not (vendor == 0xFFFF)
        then record { vendor = vendor; device = device; bus = bus; slot = slot } ∷ []
        else [])
unfolding pci_init
pci_init-calls space bridge bus slot is_bridge bytes =
    scan_buses-calls 16 0 bus slot bridge
    ∙ rw (in_all_buses bus) (elim (Bool-cases (ltb slot 32 && ltb bus 16)) [
      | inl inside ↦
          let small_bus : bus < 256 = ground arith in
          let small_slot : slot < 32 = ground arith in
          let vendor =
            pci_config_read-word16 space bridge bus slot 0 0 is_bridge bytes small_bus small_slot
              (omega arith) (omega arith) in
          let device =
            pci_config_read-word16 space bridge bus slot 0 2 is_bridge bytes small_bus small_slot
              (omega arith) (omega arith) in
          rw (inside, vendor, device) refl
      | inr outside ↦ rw outside refl
    ])
