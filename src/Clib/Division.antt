-- ===== src/Clib/Division.antt =====
-- lib.c: `abs` and `labs`, and the division of 64-bit numbers in the 32-bit build.
use native.Mathlib.Nat.{div-le_self}
use smp_boot.Base.{
  ℕ, zero, suc, ◌+◌, ◌-◌, ◌*◌, ◌/◌, ◌%◌, ◌^◌, ◌<◌, ◌≡◌, refl, false, Option, none, some, arith,
  ◌==◌, ltb, if◌then◌else◌,
}

-- `abs` at 32 bits and `labs` at the width of `long`, on two's complement
unfoldable pub abs : ℕ → ℕ → ℕ
abs w j = if ltb j (2 ^ (w - 1)) then j else (2 ^ w - j) % 2 ^ w

-- `abs` gives the magnitude of every int, and the smallest int itself, whose magnitude is none.
pub abs_lem :
    (j : ℕ)
    → j < 2 ^ 31
    → (abs 32 j ≡ j) × (abs 32 ((2 ^ 32 - j) % 2 ^ 32) ≡ j) × (abs 32 (2 ^ 31) ≡ 2 ^ 31)
unfolding abs
abs_lem j small = (ground arith, ground arith, refl)

-- `while (n > 0xFFFFFFFF) { n >>= 1; c++; }`. A number of 64 bits takes at most 32 rounds.
unfoldable pub shift_dividend : ℕ → ℕ → ℕ → ℕ × ℕ
shift_dividend zero n c = (n, c)
shift_dividend (suc rounds) n c =
    let rest = shift_dividend rounds (n / 2) (c + 1) in if ltb 0xFFFFFFFF n then rest else (n, c)

-- `while (d > 0xFFFFFFFF && c >= 1) { d >>= 1; c--; }`, of which `c` bounds the rounds
unfoldable pub shift_divisor : ℕ → ℕ → ℕ × ℕ
shift_divisor d zero = (d, zero)
shift_divisor d (suc c) =
    let rest = shift_divisor (d / 2) c in if ltb 0xFFFFFFFF d then rest else (d, suc c)

-- `none` is the processor's divide error.
unfoldable pub udivdi3 : ℕ → ℕ → Option ℕ
udivdi3 n d =
    let (n', c) = shift_dividend 32 n 0 in
    let (d', c') = shift_divisor d c in
    let d32 = d' % 2 ^ 32 in if d32 == 0 then none else some (n' % 2 ^ 32 / d32 * 2 ^ c' % 2 ^ 64)

-- A dividend of 32 bits is divided exactly by the lower half of the divisor, whatever the upper
-- half is, and a divisor with a lower half of zero gives the divide error.
pub udivdi3_small :
    (n d : ℕ)
    → n < 2 ^ 32
    → udivdi3 n d ≡ (if d % 2 ^ 32 == 0 then none else some (n / (d % 2 ^ 32)))
unfolding udivdi3 shift_dividend shift_divisor
udivdi3_small n d small =
    let k = d % 2 ^ 32 in
    let stays : ltb 0xFFFFFFFF n ≡ false = ground arith in
    let low : n % 2 ^ 32 ≡ n = omega arith in
    let back : n / k * 1 % 2 ^ 64 ≡ n / k = omega (arith, div-le_self n k) in rw (stays, low, back)
