-- ===== src/Clib/Masks.antt =====
-- lib.h: the macros on masks. A word of `w` bits is a number below `2 ^ w`.
use smp_boot.Base.{
  ℕ, zero, suc, ◌+◌, ◌-◌, ◌/◌, ◌%◌, ◌^◌, ◌≤◌, ◌<◌, bit_and, bit_or, min, zero-bit_and, ◌≡◌, refl,
  Bool, true, not, arith, ◌==◌, if◌then◌else◌, testbit, and_digit, complement, complement-half,
  testbit-bit_and, testbit-bit_or, testbit-zero, ◌||◌, ◌&&◌, testbit-complement, ap, ◌∙◌,
}
use native.Mathlib.Nat.{pow-suc, one-le-pow}

-- `MASK_SET`
unfoldable pub mask_set : ℕ → ℕ → ℕ
mask_set var mask = bit_or var mask

-- `MASK_CLEAR`, on a variable of `w` bits
unfoldable pub mask_clear : ℕ → ℕ → ℕ → ℕ
mask_clear w var mask = bit_and var (complement w mask)

-- `IS_MASK_SET`
unfoldable pub is_mask_set : ℕ → ℕ → Bool
is_mask_set var mask = not (bit_and var mask == 0)

-- `IS_MASK_CLEAR`
unfoldable pub is_mask_clear : ℕ → ℕ → Bool
is_mask_clear var mask = bit_and var mask == 0

-- `MASK(n)` and `BITS_FROM_CNT`: `cnt` bits from bit `from` on.
unfoldable pub bits_from_cnt : ℕ → ℕ → ℕ → ℕ
bits_from_cnt reg from cnt = bit_and (reg / 2 ^ from) (2 ^ cnt - 1)

-- `BITS_FROM_TO`
unfoldable pub bits_from_to : ℕ → ℕ → ℕ → ℕ
unfolding bits_from_cnt
bits_from_to reg from to = bits_from_cnt reg from (to - from + 1)

-- Facts about `&` by its binary digits; `n` bounds the first word.
pub bit_and-le-right : (n a b : ℕ) → a ≤ n → bit_and a b ≤ b
bit_and-le-right n zero b h = omega (arith, zero-bit_and b)
bit_and-le-right zero (suc a) b h = absurd (omega arith)
bit_and-le-right (suc n) (suc a) b h =
    omega (arith, and_digit (suc a) b, bit_and-le-right n (suc a / 2) (b / 2) (omega arith))

bit_and-le-narrow :
    (n var keep mask : ℕ) → var ≤ n → bit_and (bit_and var keep) mask ≤ bit_and var mask
bit_and-le-narrow n zero keep mask h = rw zero-bit_and (omega (arith, zero-bit_and mask))
bit_and-le-narrow zero (suc v) keep mask h = absurd (omega arith)
bit_and-le-narrow (suc n) (suc v) keep mask h =
    let half : bit_and (suc v) keep / 2 ≡ bit_and (suc v / 2) (keep / 2) =
      omega (arith, and_digit (suc v) keep) in
    let low : bit_and (suc v) keep % 2 ≡ min (suc v % 2) (keep % 2) =
      omega (arith, and_digit (suc v) keep) in
    let rest = bit_and-le-narrow n (suc v / 2) (keep / 2) (mask / 2) (omega arith) in
    omega (
      arith,
      and_digit (bit_and (suc v) keep) mask,
      and_digit (suc v) mask,
      ap (λ t. bit_and t (mask / 2)) half,
      low,
      rest,
    )

bit_and-of-cleared :
    (w var mask : ℕ) → mask < 2 ^ w → bit_and (bit_and var (complement w mask)) mask ≡ 0
bit_and-of-cleared zero var mask fits =
    let word = bit_and var (complement 0 mask) in
    omega (arith, bit_and-le-right word word mask (omega arith))
bit_and-of-cleared (suc w) var mask fits =
    let keep = complement (suc w) mask in
    let half : bit_and var keep / 2 ≡ bit_and (var / 2) (complement w (mask / 2)) =
      omega
        (arith, and_digit var keep, ap (λ t. bit_and (var / 2) t) (complement-half w mask fits)) in
    let rest = bit_and-of-cleared w (var / 2) (mask / 2) (omega (arith, pow-suc 2 w)) in
    omega (
      arith,
      and_digit var keep,
      and_digit (bit_and var keep) mask,
      ap (λ t. bit_and t (mask / 2)) half,
      rest,
      pow-suc 2 w,
      one-le-pow w 2,
    )

-- After `MASK_CLEAR` the mask tests clear, on a variable of `w` bits.
pub is_mask_clear-mask_clear :
    (w var mask : ℕ) → mask < 2 ^ w → is_mask_clear (mask_clear w var mask) mask ≡ true
unfolding is_mask_clear mask_clear
is_mask_clear-mask_clear w var mask fits = ground (arith, bit_and-of-cleared w var mask fits)

-- A mask that tests clear stays clear when others are cleared.
pub is_mask_clear-mask_clear_other :
    (w var mask other : ℕ)
    → is_mask_clear var other ≡ true
    → is_mask_clear (mask_clear w var mask) other ≡ true
unfolding is_mask_clear mask_clear
is_mask_clear-mask_clear_other w var mask other h =
    ground (arith, bit_and-le-narrow var var (complement w mask) other)

-- `var & (1 << k)`, in terms of bit `k`.
bit_and-pow : (k var : ℕ) → bit_and var (2 ^ k) ≡ (if testbit var k then 2 ^ k else 0)
bit_and-pow zero var =
    let z = bit_and-le-right (var / 2) (var / 2) 0 (omega arith) in
    ground (arith, and_digit var 1, z)
bit_and-pow (suc k) var =
    let half : 2 ^ suc k / 2 ≡ 2 ^ k = omega (arith, pow-suc 2 k) in
    ground (
      arith,
      and_digit var (2 ^ suc k),
      ap (λ t. bit_and (var / 2) t) half,
      bit_and-pow k (var / 2),
      pow-suc 2 k,
    )

-- `IS_BIT_SET` of one bit reads that bit.
pub is_mask_set-pow : (k var : ℕ) → is_mask_set var (2 ^ k) ≡ testbit var k
unfolding is_mask_set
is_mask_set-pow k var = ground (arith, bit_and-pow k var, one-le-pow k 2)

pub is_mask_clear-pow : (k var : ℕ) → is_mask_clear var (2 ^ k) ≡ not (testbit var k)
unfolding is_mask_clear
is_mask_clear-pow k var = ground (arith, bit_and-pow k var, one-le-pow k 2)

-- The word `1 << j` has bit `j` and no other.
testbit-pow : (j k : ℕ) → testbit (2 ^ j) k ≡ (j == k)
testbit-pow zero zero = refl
testbit-pow zero (suc k) = ground (arith, testbit-zero k)
testbit-pow (suc j) zero = ground (arith, pow-suc 2 j)
testbit-pow (suc j) (suc k) =
    let half : 2 ^ suc j / 2 ≡ 2 ^ j = omega (arith, pow-suc 2 j) in
    ap (λ t. testbit t k) half ∙ ground (arith, testbit-pow j k)

-- `BIT_SET` sets its bit and leaves the others.
pub testbit-mask_set :
    (k j var : ℕ) → testbit (mask_set var (2 ^ j)) k ≡ (testbit var k || (j == k))
unfolding mask_set
testbit-mask_set k j var = ground (arith, testbit-bit_or k var (2 ^ j), testbit-pow j k)

-- `BIT_CLEAR` clears its bit and leaves the others.
pub testbit-mask_clear :
    (k w j var : ℕ)
    → k < w
    → 2 ^ j < 2 ^ w
    → testbit (mask_clear w var (2 ^ j)) k ≡ (testbit var k && not (j == k))
unfolding mask_clear
testbit-mask_clear k w j var lt fits = ground (
  arith,
  testbit-bit_and k var (complement w (2 ^ j)),
  testbit-complement k w (2 ^ j) lt fits,
  testbit-pow j k,
)
