-- ===== src/Clib/Strings.antt =====
-- lib.c: `strlen`, `strcmp` and `strncmp`. A string is the list of its bytes before the final 0, so
-- that `*a` at its end is 0.
use smp_boot.Base.{
  ℕ, zero, suc, ◌+◌, ◌-◌, ◌%◌, ◌^◌, ◌<◌, ◌≡◌, refl, ◌↔◌, inl, inr, arith, ◌==◌, ltb, if◌then◌else◌,
  ==_iff, Bool-cases, List, [], ◌∷◌, take, length,
}

unfoldable pub strlen : List ℕ → ℕ
strlen [] = 0
strlen (c ∷ cs) = strlen cs + 1

-- A `char` is signed: a byte as an int, in two's complement.
abbrev pub char_int : ℕ → ℕ
char_int c = if ltb c 128 then c else c + (2 ^ 32 - 256)

-- `*a - *b`
unfoldable pub char_difference : ℕ → ℕ → ℕ
char_difference x y = (char_int x + (2 ^ 32 - char_int y)) % 2 ^ 32

unfoldable pub strcmp : List ℕ → List ℕ → ℕ
unfolding char_difference
strcmp [] [] = char_difference 0 0
strcmp [] (y ∷ ys) = char_difference 0 y
strcmp (x ∷ xs) [] = char_difference x 0
strcmp (x ∷ xs) (y ∷ ys) = let rest = strcmp xs ys in if x == y then rest else char_difference x y

unfoldable pub strncmp : List ℕ → List ℕ → ℕ → ℕ
unfolding char_difference
strncmp a b zero = 0
strncmp [] [] (suc n) = char_difference 0 0
strncmp [] (y ∷ ys) (suc n) = char_difference 0 y
strncmp (x ∷ xs) [] (suc n) = char_difference x 0
strncmp (x ∷ xs) (y ∷ ys) (suc n) =
    let rest = strncmp xs ys n in if x == y then rest else char_difference x y

-- The bytes of a string.
abbrev pub AllChars : List ℕ → Type 0
AllChars [] = Unit
AllChars (c ∷ cs) = (0 < c) × (c < 256) × AllChars cs

char_difference-zero : (x y : ℕ) → x < 256 → y < 256 → char_difference x y ≡ 0 → x ≡ y
unfolding char_difference
char_difference-zero x y hx hy e = ground arith

pub head_eq : {x y : ℕ} {xs ys : List ℕ} → (x ∷ xs) ≡ (y ∷ ys) → x ≡ y
head_eq e = grind arith

pub tail_eq : {x y : ℕ} {xs ys : List ℕ} → (x ∷ xs) ≡ (y ∷ ys) → xs ≡ ys
tail_eq e = grind arith

take-strncmp :
    (a b : List ℕ) (n : ℕ) → AllChars a → AllChars b → strncmp a b n ≡ 0 → take n a ≡ take n b
unfolding strncmp
take-strncmp a b zero ha hb e = refl
take-strncmp [] [] (suc n) ha hb e = refl
take-strncmp [] (y ∷ ys) (suc n) ha (y1, y2, hb) e =
    absurd (omega (arith, char_difference-zero 0 y (omega arith) y2 e))
take-strncmp (x ∷ xs) [] (suc n) (x1, x2, ha) hb e =
    absurd (omega (arith, char_difference-zero x 0 x2 (omega arith) e))
take-strncmp (x ∷ xs) (y ∷ ys) (suc n) (x1, x2, ha) (y1, y2, hb) e = elim (Bool-cases (x == y)) [
  | inl same ↦
      let rest : take n xs ≡ take n ys = take-strncmp xs ys n ha hb (ground arith) in
      let heads : x ≡ y = (==_iff x y).0 same in cc
  | inr other ↦ absurd (ground (arith, char_difference-zero x y x2 y2))
]

strncmp-take : (a b : List ℕ) (n : ℕ) → take n a ≡ take n b → strncmp a b n ≡ 0
unfolding strncmp char_difference
strncmp-take a b zero e = refl
strncmp-take [] [] (suc n) e = refl
strncmp-take [] (y ∷ ys) (suc n) e = absurd (ground arith)
strncmp-take (x ∷ xs) [] (suc n) e = absurd (ground arith)
strncmp-take (x ∷ xs) (y ∷ ys) (suc n) e =
    ground (arith, head_eq e, strncmp-take xs ys n (tail_eq e))

-- `strncmp` is 0 exactly if the two strings have the same first `n` bytes, where a string that ends
-- before counts as all of it.
pub strncmp_lem :
    (a b : List ℕ) (n : ℕ) → AllChars a → AllChars b → (strncmp a b n ≡ 0) ↔ (take n a ≡ take n b)
strncmp_lem a b n ha hb = (take-strncmp a b n ha hb, strncmp-take a b n)

-- `strcmp` answers as `strncmp` does with any bound above the length of the first string.
pub strcmp-strncmp : (a b : List ℕ) (n : ℕ) → length a < n → strcmp a b ≡ strncmp a b n
unfolding strcmp strncmp
strcmp-strncmp a b zero room = elim room [ ]
strcmp-strncmp [] [] (suc n) room = refl
strcmp-strncmp [] (y ∷ ys) (suc n) room = refl
strcmp-strncmp (x ∷ xs) [] (suc n) room = refl
strcmp-strncmp (x ∷ xs) (y ∷ ys) (suc n) room = ground (arith, strcmp-strncmp xs ys n (omega arith))
