-- ===== src/Idt.antt =====
-- idt.c: `idt_set_gate` of both builds, beside what the processor reads from a gate.
use smp_boot.Base.{
  ℕ, ◌+◌, ◌*◌, ◌/◌, ◌%◌, ◌^◌, ◌<◌, ◌≡◌, ◌≢◌, refl, true, false, ◌==◌, if◌then◌else◌, arith,
}

-- `struct idt_entry` (64 bit), without its last field, that only `idt_install` writes
pub record Gate : Type 0 where
  pub base_lo : ℕ
  pub sel : ℕ
  pub ist : ℕ
  pub flags : ℕ
  pub base_mid : ℕ
  pub base_high : ℕ

-- The table of both builds: a gate for each vector.
abbrev pub Table : Type 0 → Type 0
Table G = ℕ → G

abbrev pub set_entry : {G : Type 0} → Table G → ℕ → G → Table G
set_entry idt num g i = if i == num then g else idt i

unfoldable pub idt_set_gate : ℕ → ℕ → ℕ → ℕ → Table Gate → Table Gate
idt_set_gate num base sel flags idt = set_entry idt num (record {
  base_lo = base % 2 ^ 16;
  sel = sel;
  ist = 0;
  flags = flags;
  base_mid = base / 2 ^ 16 % 2 ^ 16;
  base_high = base / 2 ^ 32 % 2 ^ 32;
})

-- `struct idt_entry` (32 bit)
pub record Gate32 : Type 0 where
  pub base_lo : ℕ
  pub sel : ℕ
  pub always0 : ℕ
  pub flags : ℕ
  pub base_hi : ℕ

unfoldable pub idt_set_gate32 : ℕ → ℕ → ℕ → ℕ → Table Gate32 → Table Gate32
idt_set_gate32 num base sel flags idt = set_entry idt num (record {
  base_lo = base % 2 ^ 16;
  sel = sel;
  always0 = 0;
  flags = flags;
  base_hi = base / 2 ^ 16 % 2 ^ 16;
})

-- The handler that the processor jumps to.
abbrev pub handler : Gate → ℕ
handler g = g.base_lo + g.base_mid * 2 ^ 16 + g.base_high * 2 ^ 32

abbrev pub handler32 : Gate32 → ℕ
handler32 g = g.base_lo + g.base_hi * 2 ^ 16

-- After `idt_set_gate` of either build, the gate of the vector leads to the handler's address, of
-- 64 or 32 bits, with its selector and flags; every other gate is as before.
pub idt_set_gate-handler :
    (num base base32 sel flags other : ℕ) (idt : Table Gate) (idt32 : Table Gate32)
    → base < 2 ^ 64
    → base32 < 2 ^ 32
    → other ≢ num
    → let after = idt_set_gate num base sel flags idt in
      let after32 = idt_set_gate32 num base32 sel flags idt32 in
      (handler (after num) ≡ base)
      × ((after num).sel ≡ sel)
      × ((after num).flags ≡ flags)
      × (after other ≡ idt other)
      × (handler32 (after32 num) ≡ base32)
      × ((after32 num).sel ≡ sel)
      × ((after32 num).flags ≡ flags)
      × (after32 other ≡ idt32 other)
unfolding idt_set_gate idt_set_gate32
idt_set_gate-handler num base base32 sel flags other idt idt32 fits fits32 h =
    let here : (num == num) ≡ true = ground arith in
    let there : (other == num) ≡ false = ground arith in
    rw (here, there) (omega arith, refl, refl, refl, omega arith, refl, refl, refl)
