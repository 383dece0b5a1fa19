-- ===== src/Screen/Itoa/RoundTrip.antt =====
-- screen.c and lib.c: `atoi` reads back what `itoa` writes, and the room that `itoa` needs.
use smp_boot.Base.{
  ℕ, zero, suc, ◌+◌, ◌-◌, ◌*◌, ◌/◌, ◌%◌, ◌^◌, ◌≤◌, ◌<◌, ◌≡◌, ◌≢◌, refl, true, List, [], ◌∷◌, ◌++◌,
  ◌==◌, if◌then◌else◌, arith, Bool-cases, inl, inr, ap, ◌∙◌,
}
use mathlib.Core.List.{reverse, reverse-append}
use native.Mathlib.Nat.{pow-suc}
use smp_boot.Clib.Numbers.{is_digit_of, digit_value, atoi_loop, atoi_base, atoi_unsigned, atoi}
use smp_boot.Screen.Itoa.{digit_char, digits_from, max_digits, digits, itoa}

abbrev AllDigits : ℕ → List ℕ → Type 0
AllDigits base [] = Unit
AllDigits base (c ∷ cs) = (is_digit_of base c ≡ true) × AllDigits base cs

AllDigits-append :
    (base : ℕ) (xs ys : List ℕ) → AllDigits base xs → AllDigits base ys → AllDigits base (xs ++ ys)
AllDigits-append base [] ys p q = q
AllDigits-append base (x ∷ xs) ys p q = (p.0, AllDigits-append base xs ys p.1 q)

-- One more digit at the end.
atoi_loop-snoc :
    (base i : ℕ) (xs : List ℕ) (c : ℕ)
    → AllDigits base xs
    → is_digit_of base c ≡ true
    → atoi_loop base i (xs ++ c ∷ []) ≡ (atoi_loop base i xs * base + digit_value c) % 2 ^ 32
unfolding atoi_loop
atoi_loop-snoc base i [] c all h = rw h
atoi_loop-snoc base i (x ∷ xs) c all h =
    rw all.0 (atoi_loop-snoc base ((i * base + digit_value x) % 2 ^ 32) xs c all.1 h)

-- The bases that `itoa` writes.
pub data Base10or16 : ℕ → Type 0 where
  ten : Base10or16 10
  sixteen : Base10or16 16

digit_char-digit :
    {b : ℕ} (base : Base10or16 b) (r : ℕ) → r < b → is_digit_of b (digit_char r) ≡ true
unfolding is_digit_of
digit_char-digit ten r h = ground arith
digit_char-digit sixteen r h = ground arith

digit_value-digit_char : (r : ℕ) → r < 16 → digit_value (digit_char r) ≡ r
unfolding digit_value
digit_value-digit_char r h = ground arith

snoc-reverse : (c : ℕ) (xs : List ℕ) → reverse (c ∷ xs) ≡ reverse xs ++ c ∷ []
snoc-reverse c xs = reverse-append (c ∷ []) xs

mod-lt_base : {b : ℕ} (base : Base10or16 b) (ud : ℕ) → ud % b < b
mod-lt_base ten ud = omega arith
mod-lt_base sixteen ud = omega arith

-- The characters of one round and of the rest, in the order of the buffer.
abbrev rest_of : ℕ → ℕ → ℕ → List ℕ
rest_of fuel b ud = if ud / b == 0 then [] else digits_from fuel b (ud / b)

reverse-digits_from :
    (fuel b ud : ℕ)
    → reverse (digits_from (suc fuel) b ud)
      ≡ reverse (rest_of fuel b ud) ++ digit_char (ud % b) ∷ []
unfolding digits_from
reverse-digits_from fuel b ud = snoc-reverse (digit_char (ud % b)) (rest_of fuel b ud)

AllDigits-digits_from :
    {b : ℕ} (base : Base10or16 b) (fuel ud : ℕ) → AllDigits b (reverse (digits_from fuel b ud))
AllDigits-digits_from base zero ud = unfold digits_from in tt
AllDigits-digits_from {b} base (suc fuel) ud =
    let last = digit_char-digit base (ud % b) (mod-lt_base base ud) in
    let front : AllDigits b (reverse (rest_of fuel b ud)) = elim (Bool-cases (ud / b == 0)) [
      | inl done ↦ rw done tt
      | inr more ↦ rw more (AllDigits-digits_from base fuel (ud / b))
    ] in
    rw (reverse-digits_from fuel b ud) (AllDigits-append b _ _ front (last, tt))

AllDigits-rest :
    {b : ℕ} (base : Base10or16 b) (fuel ud : ℕ) → AllDigits b (reverse (rest_of fuel b ud))
AllDigits-rest {b} base fuel ud = elim (Bool-cases (ud / b == 0)) [
  | inl done ↦ rw done tt
  | inr more ↦ rw more (AllDigits-digits_from base fuel (ud / b))
]

step_value :
    {b : ℕ} (base : Base10or16 b) (ud front : ℕ)
    → ud < 2 ^ 32
    → front ≡ ud / b
    → (front * b + digit_value (digit_char (ud % b))) % 2 ^ 32 ≡ ud
step_value ten ud front small e = omega (arith, digit_value-digit_char (ud % 10) (omega arith))
step_value sixteen ud front small e = omega (arith, digit_value-digit_char (ud % 16) (omega arith))

pub div-lt_pow :
    {b : ℕ} (base : Base10or16 b) (fuel ud : ℕ)
    → ud < b ^ suc fuel
    → (ud / b < b ^ fuel) × (ud / b ≤ ud)
div-lt_pow ten fuel ud h = omega (arith, pow-suc 10 fuel)
div-lt_pow sixteen fuel ud h = omega (arith, pow-suc 16 fuel)

-- The digits of a number stand for it, if the fuel is enough.
atoi_loop-digits_from :
    {b : ℕ} (base : Base10or16 b) (fuel ud : ℕ)
    → ud < b ^ fuel
    → ud < 2 ^ 32
    → atoi_loop b 0 (reverse (digits_from fuel b ud)) ≡ ud
atoi_loop-digits_from ten zero ud h small = unfold digits_from atoi_loop in omega arith
atoi_loop-digits_from sixteen zero ud h small = unfold digits_from atoi_loop in omega arith
atoi_loop-digits_from {b} base (suc fuel) ud h small =
    let bounds = div-lt_pow base fuel ud h in
    let front : atoi_loop b 0 (reverse (rest_of fuel b ud)) ≡ ud / b =
      elim (Bool-cases (ud / b == 0)) [
        | inl done ↦ rw done (unfold atoi_loop in ground arith)
        | inr more ↦ rw more (atoi_loop-digits_from base fuel (ud / b) bounds.0 (omega arith))
      ] in
    rw (reverse-digits_from fuel b ud) (
      atoi_loop-snoc b 0 (reverse (rest_of fuel b ud)) (digit_char (ud % b))
        (AllDigits-rest base fuel ud) (digit_char-digit base (ud % b) (mod-lt_base base ud))
      ∙ step_value base ud _ small front)

-- A string that begins with a digit other than 0.
abbrev Leads : List ℕ → Type 0
Leads xs = (c : ℕ) × (cs : List ℕ) × (xs ≡ c ∷ cs) × (c ≢ b'0') × (c ≢ b'-')

Leads-append : (xs ys : List ℕ) → Leads xs → Leads (xs ++ ys)
Leads-append xs ys (c, cs, e, zero_free, sign_free) =
    (c, cs ++ ys, ap (λ t. t ++ ys) e, zero_free, sign_free)

Leads-last : (c : ℕ) → 0 < c → c < 10 → Leads (digit_char c ∷ [])
Leads-last c pos small = (digit_char c, [], refl, ground arith, ground arith)

Leads-digits_from :
    (fuel ud : ℕ) → 0 < ud → ud < 10 ^ fuel → Leads (reverse (digits_from fuel 10 ud))
Leads-digits_from zero ud pos h = absurd (omega arith)
Leads-digits_from (suc fuel) ud pos h =
    rw (reverse-digits_from fuel 10 ud) (elim (Bool-cases (ud / 10 == 0)) [
      | inl done ↦ rw done (Leads-last (ud % 10) (ground arith) (omega arith))
      | inr more ↦ rw more (
          Leads-append (reverse (digits_from fuel 10 (ud / 10))) (digit_char (ud % 10) ∷ [])
            (Leads-digits_from fuel (ud / 10) (ground arith) (div-lt_pow ten fuel ud h).0))
    ])

atoi_base-decimal : (c : ℕ) (cs : List ℕ) → c ≢ b'0' → atoi_base (c ∷ cs) ≡ (10, c ∷ cs)
unfolding atoi_base
atoi_base-decimal c [] h = ground arith
atoi_base-decimal c (x ∷ cs) h = ground arith

atoi_unsigned-Leads : (xs : List ℕ) → Leads xs → atoi_unsigned xs ≡ atoi_loop 10 0 xs
unfolding atoi_unsigned
atoi_unsigned-Leads xs (c, cs, e, zero_free, sign_free) = rw (e, atoi_base-decimal c cs zero_free)

atoi-Leads : (xs : List ℕ) → Leads xs → atoi xs ≡ atoi_unsigned xs
unfolding atoi
atoi-Leads xs (c, cs, e, zero_free, sign_free) = rw e (ground arith)

digits-zero : digits 10 0 ≡ b'0' ∷ []
unfolding digits digits_from
digits-zero = refl

digits-Leads : (v : ℕ) → 0 < v → v < 2 ^ 32 → Leads (digits 10 v)
unfolding digits
digits-Leads v pos h = Leads-digits_from max_digits v pos (omega arith)

atoi_loop-digits :
    {b : ℕ} (base : Base10or16 b) (v : ℕ) → v < 2 ^ 32 → atoi_loop b 0 (digits b v) ≡ v
unfolding digits
atoi_loop-digits ten v h = atoi_loop-digits_from ten max_digits v (omega arith) h
atoi_loop-digits sixteen v h = atoi_loop-digits_from sixteen max_digits v (omega arith) h

atoi_zero : (atoi_unsigned (b'0' ∷ []) ≡ 0) × (atoi (b'0' ∷ []) ≡ 0)
unfolding atoi atoi_unsigned atoi_base atoi_loop
atoi_zero = (refl, refl)

atoi-digits : (v : ℕ) → v < 2 ^ 32 → (atoi_unsigned (digits 10 v) ≡ v) × (atoi (digits 10 v) ≡ v)
atoi-digits zero h = rw digits-zero atoi_zero
atoi-digits (suc n) h =
    let leads = digits-Leads (suc n) (omega arith) h in
    let value = atoi_unsigned-Leads _ leads ∙ atoi_loop-digits ten (suc n) h in
    (value, atoi-Leads _ leads ∙ value)

atoi-negative : (xs : List ℕ) → atoi (b'-' ∷ xs) ≡ (2 ^ 32 - atoi_unsigned xs) % 2 ^ 32
unfolding atoi
atoi-negative xs = refl

atoi-hex : (xs : List ℕ) → atoi (b'0' ∷ b'x' ∷ xs) ≡ atoi_loop 16 0 xs
unfolding atoi atoi_unsigned atoi_base
atoi-hex xs = refl

itoa-decimal : (v : ℕ) → v < 2 ^ 31 → itoa b'd' v ≡ digits 10 v
unfolding itoa
itoa-decimal v h = ground arith

itoa-negative : (v : ℕ) → 0 < v → v ≤ 2 ^ 31 → itoa b'd' (2 ^ 64 - v) ≡ b'-' ∷ digits 10 v
unfolding itoa
itoa-negative v pos h =
    let back : 2 ^ 64 - (2 ^ 64 - v) ≡ v = omega arith in ground (arith, ap (digits 10) back)

itoa-hex : (v : ℕ) → itoa b'x' v ≡ digits 16 v
unfolding itoa
itoa-hex v = refl

-- `atoi` reads back every `int` that `itoa` writes in decimal, and every 32-bit number that it
-- writes in hexadecimal behind 0x.
pub atoi-itoa :
    (v below_zero x : ℕ)
    → v < 2 ^ 31
    → 0 < below_zero
    → below_zero ≤ 2 ^ 31
    → x < 2 ^ 32
    → (atoi (itoa b'd' v) ≡ v)
      × (atoi (itoa b'd' (2 ^ 64 - below_zero)) ≡ 2 ^ 32 - below_zero)
      × (atoi (b'0' ∷ b'x' ∷ itoa b'x' x) ≡ x)
atoi-itoa v below_zero x v_fits pos fits x_fits = (
  rw (itoa-decimal v v_fits) (atoi-digits v (omega arith)).1,
  rw
      (
        itoa-negative below_zero pos fits,
        atoi-negative (digits 10 below_zero),
        (atoi-digits below_zero (omega arith)).0,
      )
      (omega arith),
  rw (itoa-hex x, atoi-hex (digits 16 x)) (atoi_loop-digits sixteen x x_fits),
)
