-- ===== src/Tests/Frames.antt =====
-- Runs of the frame bitmap of mm.c.
use smp_boot.Base.{
  ℕ, ◌+◌, ◌-◌, ◌*◌, ◌%◌, ◌^◌, ◌<◌, ◌≡◌, refl, false, [], ◌∷◌, arith, if◌then◌else◌, ◌==◌, inl, inr,
  ap, Bool-cases,
}
use native.Mathlib.Nat.{pow-le-pow_right, pow-suc, one-le-pow}
use native.Mathlib.Numerals.{add-one}
use smp_boot.Clib.Masks.{is_mask_set, mask_clear}
use smp_boot.Memory.Freemap.{Freemap, BootInfo, is_free, take_frame, scan, get_free_frame}
use smp_boot.Memory.Freemap.Scan.{IsShift, Grants}
use smp_boot.Memory.Freemap.Grants.{grant_all, Distinct, get_free_frame-Grants, grant_all-Distinct}
use smp_boot.Memory.Freemap.Alias.{IsX86Shift, get_free_frame-loses_partner}

abbrev pow_shl : ℕ → ℕ
pow_shl b = 2 ^ b

-- A shift of an `int` as x86 computes it, converted to a 64-bit `unsigned long`.
abbrev pub int_shl : ℕ → ℕ
int_shl b = if b % 32 == 31 then 2 ^ 64 - 2 ^ 31 else 2 ^ (b % 32)

pow_lt_pow : (a b : ℕ) → a < b → 2 ^ a < 2 ^ b
pow_lt_pow a b h = omega (
  arith,
  pow-le-pow_right {n = 2} (omega arith) {i = a + 1} {j = b} (omega arith),
  pow-suc 2 a,
  one-le-pow a 2,
  ap (λ t. 2 ^ t) (add-one a),
)

pow_shl-IsShift : IsShift 32 pow_shl
pow_shl-IsShift = record { positive = omega arith; fits = λ b h. pow_lt_pow b 32 h }

pub int_shl-IsShift : IsShift 64 int_shl
int_shl-IsShift = record {
  positive = omega arith;
  fits = λ b h. elim (Bool-cases (b % 32 == 31)) [
    | inl top ↦ rw top (omega arith)
    | inr low ↦ rw low (pow_lt_pow (b % 32) 64 (omega arith))
  ];
}

int_shl-IsX86Shift : IsX86Shift int_shl
int_shl-IsX86Shift = record {
  masked = λ b. let same : (b + 32) % 32 ≡ b % 32 = omega arith in rw same;
}

-- Every frame of the first words is free.
abbrev all_free : Freemap
all_free = record { words = λ i. 2 ^ 32 - 1; last_frame_pt = 0x400; last_frame_4k = 0x800 }

abbrev pub all_free64 : Freemap
all_free64 = record { words = λ i. 2 ^ 64 - 1; last_frame_pt = 0x400; last_frame_4k = 0x800 }

-- 4 MB and two pages of upper memory, and one more page in the map.
abbrev boot_info : BootInfo
boot_info = record {
  flags = 0x41;
  mem_upper = 4 * 0x402;
  mmap =
      record { addr = 0x500000; len = 0x1fff; kind = 1 }
      ∷ record { addr = 0x600000; len = 0x1000; kind = 2 }
      ∷ [];
}

get_free_frame-Grants_example :
    Grants pow_shl-IsShift 2 all_free (get_free_frame 32 pow_shl 2 all_free)
get_free_frame-Grants_example =
    get_free_frame-Grants pow_shl-IsShift 2 all_free (omega arith) (inl refl)

grant_all-Distinct_example : Distinct (0x800 ∷ 0x400 ∷ 0x801 ∷ [])
unfolding grant_all get_free_frame scan is_free take_frame is_mask_set mask_clear
grant_all-Distinct_example =
    grant_all-Distinct pow_shl-IsShift (2 ∷ 1 ∷ 2 ∷ []) all_free {last = _} (omega arith) refl

get_free_frame-loses_partner_example :
    is_free 64 int_shl (take_frame 64 int_shl all_free64.words 0x800) 0x820 ≡ false
unfolding get_free_frame scan is_free take_frame is_mask_set mask_clear
get_free_frame-loses_partner_example =
    get_free_frame-loses_partner int_shl-IsX86Shift int_shl-IsShift 2 all_free64 (omega arith) refl
      (omega arith)
