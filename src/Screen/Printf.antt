-- ===== src/Screen/Printf.antt =====
-- screen.c: `vprintf` and `printf`. A format is the list of its characters before the final 0, the
-- result the characters that are passed to `putch`. What C leaves undefined is `none`: an `int`
-- that overflows, to write behind the end of `buf`, to read behind `bi_prefix`, the arguments or
-- the end of the format, or to take an argument for one of the other kind; strings have no address
-- here.
pub mod Room
pub mod Pieces
pub mod Format
use smp_boot.Base.{
  ℕ, zero, suc, ◌+◌, ◌-◌, ◌*◌, ◌/◌, ◌%◌, ◌^◌, Bool, true, false, not, ◌&&◌, ◌||◌, Option, none,
  some, List, [], ◌∷◌, ◌++◌, length, get_elem?, ◌==◌, leb, ltb, if◌then◌else◌,
}
use smp_boot.Screen.Itoa.{itoa}
use smp_boot.Screen.Text.{Screen, puts}

-- An argument: 64 bits, or a pointer to a string, `none` for a null pointer.
pub data Arg : Type 0 where
  word : (value : ℕ) → Arg
  text : (p : Option (List ℕ)) → Arg

abbrev pub buf_size : ℕ
buf_size = 20

abbrev pub bi_prefix : List ℕ
bi_prefix = b' ' ∷ b'k' ∷ b'M' ∷ b'G' ∷ b'T' ∷ []

-- The loop that divides by 1024: the value and `bi_pref_idx`. A value of 64 bits is divided at most
-- six times.
unfoldable pub scale : ℕ → ℕ → ℕ → ℕ × ℕ
scale zero value idx = (value, idx)
scale (suc fuel) value idx =
    let rest = scale fuel (value / 1024) (idx + 1) in
    if leb 1024 value && value % 1024 == 0 then rest else (value, idx)

-- A string and its final 0 in `buf`.
abbrev pub in_buf : List ℕ → Option (List ℕ)
in_buf s = if leb (length s + 1) buf_size then some s else none

-- The string that stands in `buf` for `%#u`.
unfoldable pub convert_scaled : ℕ → Option (List ℕ)
convert_scaled value =
    let (v, idx) = scale 6 value 0 in
    elim (get_elem? bi_prefix idx) [
      | none ↦ none
      | some prefix ↦ in_buf (itoa b'u' v ++ b' ' ∷ prefix ∷ [])
    ]

-- What `buf` holds after the conversion of a number.
unfoldable pub convert : ℕ → Bool → ℕ → Option (List ℕ)
unfolding convert_scaled
convert c hash value =
    if (c == b'x' || c == b'p') && hash
    then in_buf (b'0' ∷ b'x' ∷ itoa c value)
    else if c == b'u' && hash
    then convert_scaled value
    else in_buf (itoa c value)

-- Whether a flag character is next, and the rest of the format.
unfoldable pub read_flag : ℕ → List ℕ → Bool × List ℕ
read_flag f [] = (false, [])
read_flag f (c ∷ cs) = if c == f then (true, cs) else (false, c ∷ cs)

-- The loop that reads the field width into an `int`, of which C leaves the overflow undefined.
unfoldable pub read_len : ℕ → List ℕ → Option (ℕ × List ℕ)
read_len len [] = some (len, [])
read_len len (c ∷ cs) =
    let more = len * 10 + (c - b'0') in
    let rest = read_len more cs in
    if leb b'0' c && leb c b'9'
    then if ltb more (2 ^ 31) then rest else none
    else some (len, c ∷ cs)

unfoldable pub padding : ℕ → ℕ → List ℕ
padding zero prefix = []
padding (suc n) prefix = prefix ∷ padding n prefix

-- From the label `string` on.
unfoldable pub put_string : ℕ → ℕ → List ℕ → List ℕ
put_string prefix len p = padding (len - length p) prefix ++ p

abbrev pub is_number : ℕ → Bool
is_number c = (c == b'd' || c == b'i') || (c == b'u' || (c == b'x' || c == b'p'))

unfoldable pub print_number : ℕ → Bool → ℕ → ℕ → ℕ → Option (List ℕ)
print_number c hash prefix len value =
    let len' = if (c == b'u' && hash) && len == 0 then 6 else len in
    elim (convert c hash value) [ none ↦ none | some s ↦ some (put_string prefix len' s) ]

-- The `switch`, with the next argument.
unfoldable pub print_arg : ℕ → Bool → ℕ → ℕ → Arg → Option (List ℕ)
unfolding print_number
print_arg c hash prefix len (word value) =
    if is_number c
    then print_number c hash prefix len value
    else if c == b's'
    then none
    else some (value % 2 ^ 32 ∷ [])
print_arg c hash prefix len (text (some p)) =
    if c == b's' then some (put_string prefix len p) else none
print_arg c hash prefix len (text none) =
    if c == b's'
    then some (put_string prefix len (b'(' ∷ b'n' ∷ b'u' ∷ b'l' ∷ b'l' ∷ b')' ∷ []))
    else none

-- The character of the conversion, what is left of the format, and the arguments.
unfoldable pub convert_next :
    Bool → Bool → ℕ → List ℕ → List Arg → Option (List ℕ × List ℕ × List Arg)
unfolding print_arg
convert_next hash zero_flag len [] args = none
convert_next hash zero_flag len (c ∷ cs) [] = none
convert_next hash zero_flag len (c ∷ cs) (arg ∷ args) =
    elim (print_arg c hash (if zero_flag then b'0' else b' ') len arg) [
      | none ↦ none
      | some out ↦ some (out, cs, args)
    ]

-- What follows a `%`.
unfoldable pub directive : List ℕ → List Arg → Option (List ℕ × List ℕ × List Arg)
unfolding read_flag read_len convert_next
directive cs args =
    let (hash, after_hash) = read_flag b'#' cs in
    let (zero_flag, after_zero) = read_flag b'0' after_hash in
    elim (read_len 0 after_zero) [
      | none ↦ none
      | some (len, rest) ↦ convert_next hash zero_flag len rest args
    ]

-- One round of the loop, for the character `c`.
unfoldable pub print_next : ℕ → List ℕ → List Arg → Option (List ℕ × List ℕ × List Arg)
unfolding directive
print_next c cs args = if c == b'%' then directive cs args else some (c ∷ [], cs, args)

-- The loop, by a bound on its rounds.
unfoldable pub print_rounds : ℕ → List ℕ → List Arg → Option (List ℕ)
unfolding print_next
print_rounds n [] args = some []
print_rounds zero (c ∷ cs) args = none
print_rounds (suc n) (c ∷ cs) args = elim (print_next c cs args) [
  | none ↦ none
  | some (out, cs', args') ↦ elim (print_rounds n cs' args') [
    | none ↦ none
    | some more ↦ some (out ++ more)
  ]
]

-- Every round reads a character of the format.
unfoldable pub vprintf : List ℕ → List Arg → Option (List ℕ)
unfolding print_rounds
vprintf format args = print_rounds (length format) format args

unfoldable pub printf : List ℕ → List Arg → Screen → Option Screen
unfolding vprintf
printf format args s = elim (vprintf format args) [ none ↦ none | some out ↦ puts out s ]
