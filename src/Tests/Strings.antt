-- ===== src/Tests/Strings.antt =====
-- Runs of the string and number functions of lib.c.
use smp_boot.Base.{ℕ, ◌-◌, ◌^◌, ◌≡◌, refl, some, List, [], ◌∷◌}
use smp_boot.Clib.Division.{shift_dividend, shift_divisor, udivdi3}
use smp_boot.Clib.Strings.{strcmp, strlen, char_difference}

abbrev key : List ℕ
key = b'n' ∷ b'o' ∷ []

abbrev argument : List ℕ
argument = b'n' ∷ b'o' ∷ b'=' ∷ b'1' ∷ []

strcmp-prefix : strcmp key argument ≡ 2 ^ 32 - b'='
unfolding strcmp char_difference
strcmp-prefix = refl

strlen-argument : strlen argument ≡ 4
unfolding strlen
strlen-argument = refl

-- The exact quotient is 2 ^ 33 - 1.
udivdi3_large : udivdi3 (2 ^ 33 - 1) 1 ≡ some (2 ^ 33 - 2)
unfolding udivdi3 shift_dividend shift_divisor
udivdi3_large = refl
