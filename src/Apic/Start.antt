-- ===== src/Apic/Start.antt =====
-- apic.c: which processors `apic_init` starts.
use smp_boot.Base.{
  ℕ, zero, suc, ◌+◌, ◌-◌, ◌≤◌, ◌≡◌, refl, ap, ◌∙◌, Bool, true, false, not, ◌&&◌, ltb, if◌then◌else◌,
  List, [], ◌∷◌, ◌++◌, Bool-cases, inl, inr, arith, testbit,
}
use smp_boot.Clib.Masks.{is_mask_clear, is_mask_clear-pow}
use smp_boot.Boot.{HwInfo}
use smp_boot.Boot.Info.{Options}
use smp_boot.Apic.{
  Registers, Event, apid, ipi, missing, init_ipi, startup_ipi, is_skipped, wake_ap, start_aps,
  apic_init,
}

-- The command line allows processor `u`: it is below maxcpu and its bit of cpumask is set.
abbrev pub is_allowed : Options → ℕ → Bool
is_allowed o u = ltb u o.cmd_maxcpu && testbit o.cmd_cpumask u

-- The allowed ones of `n` processors from `u` on.
abbrev pub allowed : Options → ℕ → ℕ → List ℕ
allowed o u zero = []
allowed o u (suc n) = if is_allowed o u then u ∷ allowed o (u + 1) n else allowed o (u + 1) n

-- The start of a processor: its number for the start code, then INIT and two start-up interrupts.
abbrev pub start_of : HwInfo → ℕ → List Event → List Event
start_of hw u rest =
    apid u
    ∷ ipi (hw.cpu_lapic_id u) init_ipi
    ∷ ipi (hw.cpu_lapic_id u) startup_ipi
    ∷ ipi (hw.cpu_lapic_id u) startup_ipi
    ∷ rest

abbrev pub starts_of : HwInfo → List ℕ → List Event
starts_of hw [] = []
starts_of hw (u ∷ us) = start_of hw u (starts_of hw us)

-- Without the messages about processors that do not come up.
abbrev pub orders : List Event → List Event
orders [] = []
orders (apid u ∷ es) = apid u ∷ orders es
orders (ipi id command ∷ es) = ipi id command ∷ orders es
orders (missing u ∷ es) = orders es

is_skipped-not : (o : Options) (u : ℕ) → is_skipped o u ≡ not (is_allowed o u)
unfolding is_skipped is_mask_clear
is_skipped-not o u = ground (arith, is_mask_clear-pow u o.cmd_cpumask)

orders-wake_ap :
    (hw : HwInfo) (comes_up : ℕ → Bool) (u : ℕ) (rest : List Event)
    → orders (wake_ap hw comes_up u ++ rest) ≡ start_of hw u (orders rest)
unfolding wake_ap
orders-wake_ap hw comes_up u rest = elim (Bool-cases (comes_up u)) [
  | inl up ↦ rw up refl
  | inr down ↦ rw down refl
]

orders-start_aps :
    (n u : ℕ) (hw : HwInfo) (o : Options) (comes_up : ℕ → Bool)
    → orders (start_aps n u hw o comes_up) ≡ starts_of hw (allowed o u n)
unfolding start_aps wake_ap
orders-start_aps zero u hw o comes_up = refl
orders-start_aps (suc n) u hw o comes_up =
    let rest = orders-start_aps n (u + 1) hw o comes_up in
    let skip = is_skipped-not o u in
    elim (Bool-cases (is_allowed o u)) [
      | inl yes_allowed ↦
          let goes : is_skipped o u ≡ false = skip ∙ ap not yes_allowed in
          rw (goes, yes_allowed)
            (orders-wake_ap hw comes_up u (start_aps n (u + 1) hw o comes_up)
              ∙ ap (start_of hw u) rest)
      | inr not_allowed ↦
          let stays : is_skipped o u ≡ true = skip ∙ ap not not_allowed in
          rw (stays, not_allowed) rest
    ]

-- With start code that fits into a page, `apic_init` starts exactly the processors behind the first
-- one that the command line allows, in order, each by its own local APIC's id, whether they come up
-- or not.
pub apic_init-starts_of :
    (hw : HwInfo) (o : Options) (comes_up : ℕ → Bool) (size : ℕ) (r : Registers)
    → size ≤ 4096
    → orders (apic_init hw o comes_up size r).1 ≡ starts_of hw (allowed o 1 (hw.cpu_cnt - 1))
unfolding apic_init
apic_init-starts_of hw o comes_up size r fits =
    let one_page : ltb 4096 size ≡ false = ground arith in
    rw one_page (orders-start_aps (hw.cpu_cnt - 1) 1 hw o comes_up)
