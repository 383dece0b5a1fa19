-- ===== src/Screen/Itoa.antt =====
-- screen.c: `itoa`.
pub mod RoundTrip
use smp_boot.Base.{
  ℕ, zero, suc, ◌+◌, ◌-◌, ◌*◌, ◌/◌, ◌%◌, ◌^◌, Bool, true, false, ◌&&◌, List, [], ◌∷◌, ◌==◌, leb,
  ltb, if◌then◌else◌,
}
use mathlib.Core.List.{reverse}

abbrev pub digit_char : ℕ → ℕ
digit_char r = if ltb r 10 then r + b'0' else r + b'a' - 10

-- The loop "Divide UD by DIVISOR until UD == 0": the characters in the order in which it writes
-- them. The fuel bounds the rounds; 64 are enough for every `unsigned long`.
unfoldable pub digits_from : ℕ → ℕ → ℕ → List ℕ
digits_from zero divisor ud = []
digits_from (suc fuel) divisor ud =
    let rest = digits_from fuel divisor (ud / divisor) in
    digit_char (ud % divisor) ∷ (if ud / divisor == 0 then [] else rest)

abbrev pub max_digits : ℕ
max_digits = 64

-- The digits of `ud`, after "Reverse BUF".
unfoldable pub digits : ℕ → ℕ → List ℕ
digits divisor ud = reverse (digits_from max_digits divisor ud)

-- `itoa`, with `d` as a 64-bit pattern: the string that it leaves in the buffer.
unfoldable pub itoa : ℕ → ℕ → List ℕ
itoa base d =
    let base' = if base == b'p' then b'x' else base in
    if base' == b'd' && leb (2 ^ 63) d
    then b'-' ∷ digits 10 (2 ^ 64 - d)
    else digits (if base' == b'x' then 16 else 10) d
