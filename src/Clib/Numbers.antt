-- ===== src/Clib/Numbers.antt =====
-- lib.c: `atoi`. A string is the list of its characters up to the terminating 0; a character is a
-- code below 128. An `int` is its 32-bit pattern.
use smp_boot.Base.{
  ℕ, ◌+◌, ◌-◌, ◌*◌, ◌%◌, ◌^◌, Bool, ◌&&◌, ◌||◌, List, [], ◌∷◌, ◌==◌, leb, ltb, if◌then◌else◌,
}

-- The test of the loop: a digit of the base.
unfoldable pub is_digit_of : ℕ → ℕ → Bool
is_digit_of base c =
    (leb b'0' c && leb c (b'0' + (if ltb 10 base then 10 else base) - 1))
    || (ltb 10 base
        && ((leb b'A' c && leb c (b'A' + base - 11)) || (leb b'a' c && leb c (b'a' + base - 11))))

-- What a digit adds.
unfoldable pub digit_value : ℕ → ℕ
digit_value c = if leb c b'9' then c - b'0' else if leb b'a' c then c - b'a' + 10 else c - b'A' + 10

unfoldable pub atoi_loop : ℕ → ℕ → List ℕ → ℕ
atoi_loop base i [] = i
atoi_loop base i (c ∷ cs) =
    let rest = atoi_loop base ((i * base + digit_value c) % 2 ^ 32) cs in
    if is_digit_of base c then rest else i

-- The base, and the characters behind its prefix: 0x or 0X, 0, or none.
unfoldable pub atoi_base : List ℕ → ℕ × List ℕ
atoi_base [] = (10, [])
atoi_base (c ∷ []) = if c == b'0' then (8, []) else (10, c ∷ [])
atoi_base (c ∷ x ∷ cs) =
    if c == b'0' then if x == b'x' || x == b'X' then (16, cs) else (8, x ∷ cs) else (10, c ∷ x ∷ cs)

unfoldable pub atoi_unsigned : List ℕ → ℕ
atoi_unsigned a = let (base, cs) = atoi_base a in atoi_loop base 0 cs

unfoldable pub atoi : List ℕ → ℕ
atoi [] = atoi_unsigned []
atoi (c ∷ cs) = if c == b'-' then (2 ^ 32 - atoi_unsigned cs) % 2 ^ 32 else atoi_unsigned (c ∷ cs)
