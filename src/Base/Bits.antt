-- ===== src/Base/Bits.antt =====
-- Bitwise operations of C at variables: single bits of a word, and what `&`, `|` and a masked
-- complement do to them.
use Prim.Native.Nat.{
  ℕ, zero, suc, ◌+◌, ◌-◌, ◌*◌, ◌/◌, ◌%◌, ◌^◌, ◌≤◌, ◌<◌, min, max, bit_and, bit_or, digits,
  bit_and-bitwise, bit_or-bitwise,
}
use mathlib.Core.Path.{◌≡◌, refl, ap, ◌∙◌}
use mathlib.Core.Bool.{Bool, true, false, not, ◌&&◌, ◌||◌}
use native.Mathlib.Omega.{arith}
use native.Mathlib.Nat.{
  pow-suc, one-le-pow, div-div-eq-div-mul, mod-eq-sub-div-mul, div-mul-le_self,
}
use smp_boot.Base.Tests.{◌==◌}

-- The digit recursion with any fuel that is enough for its first argument.
module _ (end : ℕ → ℕ) (op : ℕ → ℕ → ℕ) where
  fuel_irrelevant : (n a b m : ℕ) → a ≤ n → a ≤ m → digits end op n a b ≡ digits end op m a b
  fuel_irrelevant zero zero b zero p q = refl
  fuel_irrelevant zero zero b (suc m) p q = refl
  fuel_irrelevant zero (suc a) b m p q = absurd (omega arith)
  fuel_irrelevant (suc n) zero b zero p q = refl
  fuel_irrelevant (suc n) zero b (suc m) p q = refl
  fuel_irrelevant (suc n) (suc a) b zero p q = absurd (omega arith)
  fuel_irrelevant (suc n) (suc a) b (suc m) p q =
      let rest = fuel_irrelevant n (suc a / 2) (b / 2) m (omega arith) (omega arith) in
      ap (λ t. t * 2 + op (suc a % 2) (b % 2)) rest

-- One binary digit of `&` and of `|`.
pub and_digit : (a b : ℕ) → bit_and a b ≡ bit_and (a / 2) (b / 2) * 2 + min (a % 2) (b % 2)
and_digit zero b = omega (arith, bit_and-bitwise 0 b, bit_and-bitwise 0 (b / 2))
and_digit (suc a) b = omega (
  arith,
  bit_and-bitwise (suc a) b,
  bit_and-bitwise (suc a / 2) (b / 2),
  fuel_irrelevant (λ _. 0) min a (suc a / 2) (b / 2) (suc a / 2) (omega arith) (omega arith),
)

pub or_digit : (a b : ℕ) → bit_or a b ≡ bit_or (a / 2) (b / 2) * 2 + max (a % 2) (b % 2)
or_digit zero b = omega (arith, bit_or-bitwise 0 b, bit_or-bitwise 0 (b / 2))
or_digit (suc a) b = omega (
  arith,
  bit_or-bitwise (suc a) b,
  bit_or-bitwise (suc a / 2) (b / 2),
  fuel_irrelevant (λ y. y) max a (suc a / 2) (b / 2) (suc a / 2) (omega arith) (omega arith),
)

pub zero-bit_and : (b : ℕ) → bit_and 0 b ≡ 0
zero-bit_and b = bit_and-bitwise 0 b

-- Bit `k` of a word, counted from the lowest.
abbrev pub testbit : ℕ → ℕ → Bool
testbit a zero = a % 2 == 1
testbit a (suc k) = testbit (a / 2) k

pub testbit-bit_and : (k a b : ℕ) → testbit (bit_and a b) k ≡ (testbit a k && testbit b k)
testbit-bit_and zero a b = ground (arith, and_digit a b)
testbit-bit_and (suc k) a b =
    let half : bit_and a b / 2 ≡ bit_and (a / 2) (b / 2) = omega (arith, and_digit a b) in
    ap (λ t. testbit t k) half ∙ testbit-bit_and k (a / 2) (b / 2)

pub testbit-bit_or : (k a b : ℕ) → testbit (bit_or a b) k ≡ (testbit a k || testbit b k)
testbit-bit_or zero a b = ground (arith, or_digit a b)
testbit-bit_or (suc k) a b =
    let half : bit_or a b / 2 ≡ bit_or (a / 2) (b / 2) = omega (arith, or_digit a b) in
    ap (λ t. testbit t k) half ∙ testbit-bit_or k (a / 2) (b / 2)

-- `~m` of a word of `w` bits.
abbrev pub complement : ℕ → ℕ → ℕ
complement w m = 2 ^ w - 1 - m

pub complement-half : (w m : ℕ) → m < 2 ^ suc w → complement (suc w) m / 2 ≡ complement w (m / 2)
complement-half w m h = omega (arith, pow-suc 2 w, one-le-pow w 2)

pub testbit-complement :
    (k w m : ℕ) → k < w → m < 2 ^ w → testbit (complement w m) k ≡ not (testbit m k)
testbit-complement k zero m lt fits = absurd (omega arith)
testbit-complement zero (suc w) m lt fits = ground (arith, pow-suc 2 w, one-le-pow w 2)
testbit-complement (suc k) (suc w) m lt fits =
    ap (λ t. testbit t k) (complement-half w m fits)
    ∙ testbit-complement k w (m / 2) (omega arith) (omega (arith, pow-suc 2 w))

pub testbit-zero : (k : ℕ) → testbit 0 k ≡ false
testbit-zero zero = refl
testbit-zero (suc k) = testbit-zero k

-- The word with the one bit `j`.
pub testbit-pow_self : (k : ℕ) → testbit (2 ^ k) k ≡ true
testbit-pow_self zero = refl
testbit-pow_self (suc k) =
    let half : 2 ^ suc k / 2 ≡ 2 ^ k = omega (arith, pow-suc 2 k) in
    ap (λ t. testbit t k) half ∙ testbit-pow_self k

-- A word with no bit set is 0.
pub eq_zero_of_bits : (w a : ℕ) → a < 2 ^ w → ((k : ℕ) → testbit a k ≡ false) → a ≡ 0
eq_zero_of_bits zero a fits none_set = omega arith
eq_zero_of_bits (suc w) a fits none_set =
    let half = eq_zero_of_bits w (a / 2) (omega (arith, pow-suc 2 w)) (λ k. none_set (suc k)) in
    ground (arith, half, none_set 0)

bit_or-zero_fuel : (n a : ℕ) → a ≤ n → bit_or a 0 ≡ a
bit_or-zero_fuel n zero h = bit_or-bitwise 0 0
bit_or-zero_fuel zero (suc a) h = absurd (omega arith)
bit_or-zero_fuel (suc n) (suc a) h =
    omega (arith, or_digit (suc a) 0, bit_or-zero_fuel n (suc a / 2) (omega arith))

pub bit_or-zero : (a : ℕ) → bit_or a 0 ≡ a
bit_or-zero a = bit_or-zero_fuel a a (omega arith)

-- `|` of words that have no bit in common, the first a multiple of `2 ^ k`, is a sum.
pub bit_or_disjoint :
    (k high low : ℕ) → low < 2 ^ k → bit_or (high * 2 ^ k) low ≡ high * 2 ^ k + low
bit_or_disjoint zero high low h =
    let none_low : low ≡ 0 = omega arith in rw none_low (omega (arith, bit_or-zero (high * 1)))
bit_or_disjoint (suc k) high low h = omega (
  arith,
  or_digit (high * 2 ^ suc k) low,
  ap (λ t. bit_or t (low / 2)) (double_half k high),
  bit_or_disjoint k high (low / 2) (omega (arith, pow-suc 2 k)),
  double k high,
)
  where
    double : (k high : ℕ) → high * 2 ^ suc k ≡ 2 * (high * 2 ^ k)
    double k high = omega (arith, ap (λ t. high * t) (pow-suc 2 k))

    double_half : (k high : ℕ) → high * 2 ^ suc k / 2 ≡ high * 2 ^ k
    double_half k high = omega (arith, double k high)

bit_or-comm_fuel : (n a b : ℕ) → a + b ≤ n → bit_or a b ≡ bit_or b a
bit_or-comm_fuel zero a b h =
    let none_a : a ≡ 0 = omega arith in let none_b : b ≡ 0 = omega arith in rw (none_a, none_b) refl
bit_or-comm_fuel (suc n) a b h =
    omega (arith, or_digit a b, or_digit b a, bit_or-comm_fuel n (a / 2) (b / 2) (omega arith))

pub bit_or_comm : (a b : ℕ) → bit_or a b ≡ bit_or b a
bit_or_comm a b = bit_or-comm_fuel (a + b) a b (omega arith)

bit_and-none_fuel : (n a : ℕ) → a ≤ n → bit_and a 0 ≡ 0
bit_and-none_fuel zero a h = let none_set : a ≡ 0 = omega arith in rw none_set (zero-bit_and 0)
bit_and-none_fuel (suc n) a h =
    omega (arith, and_digit a 0, bit_and-none_fuel n (a / 2) (omega arith))

pub bit_and_none : (a : ℕ) → bit_and a 0 ≡ 0
bit_and_none a = bit_and-none_fuel a a (omega arith)

mod_double : (p a : ℕ) → a % (2 * p) ≡ a / 2 % p * 2 + a % 2
mod_double p a =
    let e = div-div-eq-div-mul a 2 p in
    omega (
      arith,
      mod-eq-sub-div-mul a (2 * p),
      mod-eq-sub-div-mul (a / 2) p,
      div-mul-le_self (a / 2) p,
      e,
      ap (λ q. q * p) e,
    )

-- `&` with the `k` lowest bits is the remainder by `2 ^ k`.
pub bit_and_ones : (k a : ℕ) → bit_and a (2 ^ k - 1) ≡ a % 2 ^ k
bit_and_ones zero a = omega (arith, and_digit a 0, bit_and_none (a / 2))
bit_and_ones (suc k) a =
    let half : (2 ^ suc k - 1) / 2 ≡ 2 ^ k - 1 = omega (arith, pow-suc 2 k, one-le-pow k 2) in
    let twice : 2 ^ suc k ≡ 2 * 2 ^ k = omega (arith, pow-suc 2 k) in
    omega (
      arith,
      and_digit a (2 ^ suc k - 1),
      ap (λ t. bit_and (a / 2) t) half,
      bit_and_ones k (a / 2),
      ap (λ t. a % t) twice,
      mod_double (2 ^ k) a,
      pow-suc 2 k,
      one-le-pow k 2,
    )
