-- ===== src/Isr/Gates.antt =====
-- isr.c: which vectors have an interrupt gate after `isr_install`.
use smp_boot.Base.{
  in_run, in_run-other, in_run-first, in_run-past, ℕ, zero, suc, ◌+◌, ◌%◌, ◌/◌, ◌^◌, ◌<◌, ◌≡◌, refl,
  ◌∙◌, inl, inr, arith, Bool, true, false, ◌&&◌, ◌||◌, ◌==◌, ltb, leb, if◌then◌else◌, Bool-cases,
  ==_iff, testbit,
}
use smp_boot.Idt.{Gate, Table, idt_set_gate, handler}
use smp_boot.Isr.{cleared, set_gates, isr_install}

-- A run of calls leaves its own gate at the vectors of the run.
abbrev pub gate_of : (ℕ → ℕ) → (ℕ → ℕ) → ℕ → ℕ → Gate
gate_of flags isr sel num = record {
  base_lo = isr num % 2 ^ 16;
  sel = sel;
  ist = 0;
  flags = flags num;
  base_mid = isr num / 2 ^ 16 % 2 ^ 16;
  base_high = isr num / 2 ^ 32 % 2 ^ 32;
}

set_gates-gate :
    (n num v : ℕ) (flags isr : ℕ → ℕ) (sel : ℕ) (idt : Table Gate)
    → set_gates n num flags isr sel idt v
      ≡ (if in_run num n v then gate_of flags isr sel v else idt v)
unfolding set_gates idt_set_gate
set_gates-gate zero num v flags isr sel idt = ground arith
set_gates-gate (suc n) num v flags isr sel idt =
    let rest =
      set_gates-gate n (num + 1) v flags isr sel (idt_set_gate num (isr num) sel (flags num) idt) in
    elim (Bool-cases (v == num)) [
      | inl same ↦
          let e : v ≡ num = (==_iff v num).0 same in
          let self : (num == num) ≡ true = ground arith in
          rest ∙ rw (e, in_run-past n num, in_run-first n num, self) refl
      | inr other ↦ rest ∙ rw (in_run-other n num v other, other) refl
    ]

one_gate :
    (num v : ℕ) (flags isr : ℕ → ℕ) (sel : ℕ) (idt : Table Gate)
    → idt_set_gate num (isr num) sel (flags num) idt v
      ≡ (if v == num then gate_of flags isr sel v else idt v)
unfolding idt_set_gate
one_gate num v flags isr sel idt = elim (Bool-cases (v == num)) [
  | inl same ↦
      let e : v ≡ num = (==_iff v num).0 same in
      let self : (num == num) ≡ true = ground arith in rw (e, self) refl
  | inr other ↦ rw other refl
]

-- The gate of each vector.
abbrev pub installed : ℕ → ℕ → (ℕ → ℕ) → Gate
installed v sel isr =
    if in_run 0xA0 10 v
    then gate_of (λ n. n) isr sel v
    else if v == 0x80
    then gate_of (λ n. 0x8E) isr sel v
    else if in_run 0 32 v
    then gate_of (λ n. 0x8E) isr sel v
    else cleared v

isr_install-gate : (v sel : ℕ) (isr : ℕ → ℕ) → isr_install isr sel cleared v ≡ installed v sel isr
unfolding isr_install
isr_install-gate v sel isr =
    let exceptions = set_gates 32 0 (λ n. 0x8E) isr sel cleared in
    let call = idt_set_gate 0x80 (isr 0x80) sel 0x8E exceptions in
    rw
      (
        set_gates-gate 10 0xA0 v (λ n. n) isr sel call,
        one_gate 0x80 v (λ n. 0x8E) isr sel exceptions,
        set_gates-gate 32 0 v (λ n. 0x8E) isr sel cleared,
      )
      refl

-- The processor enters a handler through a gate that is present and an interrupt gate.
abbrev pub is_interrupt_gate : Gate → Bool
is_interrupt_gate g = testbit g.flags 7 && g.flags % 16 == 0xE

-- A number below ten behind 0xA0 is not the flags of an interrupt gate.
vector_flags : (v : ℕ) → in_run 0xA0 10 v ≡ true → (v % 16 == 0xE) ≡ false
vector_flags v h = ground arith

gate_of-handler :
    (v sel : ℕ) (flags isr : ℕ → ℕ) → isr v < 2 ^ 64 → handler (gate_of flags isr sel v) ≡ isr v
gate_of-handler v sel flags isr fits = omega arith

-- The vectors of an exception or of the system call.
abbrev pub is_fixed : ℕ → Bool
is_fixed v = ltb v 32 || v == 0x80

installed-vectors :
    (v sel : ℕ) (isr : ℕ → ℕ)
    → isr v < 2 ^ 64
    → (is_interrupt_gate (installed v sel isr) ≡ is_fixed v)
      × (handler (installed v sel isr) ≡ (if is_fixed v || in_run 0xA0 10 v then isr v else 0))
installed-vectors v sel isr fits = elim (Bool-cases (in_run 0xA0 10 v)) [
  | inl high ↦
      let plain : is_fixed v ≡ false = ground arith in
      rw (high, plain, vector_flags v high)
        ((ground arith), gate_of-handler v sel (λ n. n) isr fits)
  | inr low ↦ elim (Bool-cases (v == 0x80)) [
    | inl call ↦
        let not_first : ltb v 32 ≡ false = ground arith in
        rw (low, call, not_first) (refl, gate_of-handler v sel (λ n. 0x8E) isr fits)
    | inr other ↦
        let first : leb 0 v ≡ true = ground arith in
        elim (Bool-cases (ltb v 32)) [
          | inl exception ↦
              rw (low, other, first, exception) (refl, gate_of-handler v sel (λ n. 0x8E) isr fits)
          | inr none ↦ rw (low, other, first, none) (refl, refl)
        ]
  ]
]

-- After `idt_install` and `isr_install`, the vectors with an interrupt gate are 0 to 31 and 0x80,
-- of all 256. Each of them, and each of the ten from 0xA0 on, has the address of its own entry
-- point in its gate.
pub isr_install-vectors :
    (v sel : ℕ) (isr : ℕ → ℕ)
    → isr v < 2 ^ 64
    → let g = isr_install isr sel cleared v in
      (is_interrupt_gate g ≡ (ltb v 32 || v == 0x80))
      × (handler g ≡ (if ltb v 32 || v == 0x80 || in_run 0xA0 10 v then isr v else 0))
isr_install-vectors v sel isr fits =
    rw (isr_install-gate v sel isr) (installed-vectors v sel isr fits)
