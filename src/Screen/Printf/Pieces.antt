-- ===== src/Screen/Printf/Pieces.antt =====
-- screen.c: the pieces of a format of `vprintf`, and what they are to print.
use smp_boot.Base.{
  ℕ, ◌+◌, ◌-◌, ◌*◌, ◌^◌, ◌<◌, ◌≤◌, ◌≡◌, ◌≢◌, Bool, true, false, ◌&&◌, some, List, [], ◌∷◌, ◌++◌,
  ◌==◌, if◌then◌else◌,
}
use smp_boot.Screen.Printf.{Arg, word, text, convert, put_string, is_number}

-- The flags and the field width of a directive.
pub record Field : Type 0 where
  pub hash : Bool
  pub zero_flag : Bool
  pub width : List ℕ

-- A piece of a format with its argument: a character, a number with the digits to be printed, a
-- string.
pub data Piece : Type 0 where
  char : (c : ℕ) → Piece
  number : (f : Field) (conv value : ℕ) (s : List ℕ) → Piece
  string : (f : Field) (s : List ℕ) → Piece

abbrev pub flag : Bool → ℕ → List ℕ
flag true c = c ∷ []
flag false c = []

abbrev pub field_text : Field → ℕ → List ℕ → List ℕ
field_text f conv rest =
    b'%' ∷ (flag f.hash b'#' ++ (flag f.zero_flag b'0' ++ (f.width ++ conv ∷ rest)))

-- The format and the arguments of a list of pieces.
abbrev pub format_of : List Piece → List ℕ
format_of [] = []
format_of (char c ∷ ps) = c ∷ format_of ps
format_of (number f conv value s ∷ ps) = field_text f conv (format_of ps)
format_of (string f s ∷ ps) = field_text f b's' (format_of ps)

abbrev pub args_of : List Piece → List Arg
args_of [] = []
args_of (char c ∷ ps) = args_of ps
args_of (number f conv value s ∷ ps) = word value ∷ args_of ps
args_of (string f s ∷ ps) = text (some s) ∷ args_of ps

-- The number that a field width stands for.
abbrev pub width_from : ℕ → List ℕ → ℕ
width_from n [] = n
width_from n (c ∷ cs) = width_from (n * 10 + (c - b'0')) cs

-- A string at the right end of its field.
abbrev pub justified : Field → ℕ → List ℕ → List ℕ
justified f least s =
    put_string (if f.zero_flag then b'0' else b' ')
      (if width_from 0 f.width == 0 then least else width_from 0 f.width) s

-- Decimal digits.
abbrev pub IsWidth : List ℕ → Type 0
IsWidth [] = Unit
IsWidth (c ∷ cs) = (b'0' ≤ c) × (c ≤ b'9') × IsWidth cs

-- No flag `f` is taken from `xs` where none is meant.
abbrev pub IsClear : Bool → ℕ → List ℕ → Type 0
IsClear true f xs = Unit
IsClear false f [] = Unit
IsClear false f (x ∷ xs) = x ≢ f

-- The width is an `int`.
abbrev pub IsField : Field → Type 0
IsField f = IsWidth f.width × (width_from 0 f.width < 2 ^ 31) × IsClear f.zero_flag b'0' f.width

-- The pieces stand for what `vprintf` makes of them, and the numbers fit into its buffer.
abbrev pub AreSound : List Piece → Type 0
AreSound [] = Unit
AreSound (char c ∷ ps) = (c ≢ b'%') × AreSound ps
AreSound (number f conv value s ∷ ps) =
    IsField f × (is_number conv ≡ true) × (convert conv f.hash value ≡ some s) × AreSound ps
AreSound (string f s ∷ ps) = IsField f × AreSound ps

abbrev pub out_of : List Piece → List ℕ
out_of [] = []
out_of (char c ∷ ps) = c ∷ out_of ps
out_of (number f conv value s ∷ ps) =
    justified f (if conv == b'u' && f.hash then 6 else 0) s ++ out_of ps
out_of (string f s ∷ ps) = justified f 0 s ++ out_of ps
