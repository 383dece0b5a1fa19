-- ===== src/Screen/Printf/Room.antt =====
-- screen.c: which numbers `vprintf` can convert in its buffer of 20 bytes.
use smp_boot.Base.{
  ℕ, zero, suc, ◌+◌, ◌-◌, ◌*◌, ◌/◌, ◌%◌, ◌^◌, ◌≤◌, ◌<◌, ◌≡◌, refl, ◌↔◌, ◌⊎◌, Bool, true, false,
  ◌&&◌, some, List, [], ◌∷◌, ◌++◌, ◌==◌, leb, ltb, arith, Bool-cases, inl, inr, ap, ◌∙◌, length,
  length-append, get_elem?,
}
use mathlib.Core.List.{reverse, reverse-append}
use native.Mathlib.Nat.{mul_assoc, pow-zero, pow-suc, pow-le-pow_right}
use smp_boot.Screen.Itoa.{digits_from, max_digits, digits, itoa}
use smp_boot.Screen.Itoa.RoundTrip.{Base10or16, ten, sixteen, div-lt_pow}
use smp_boot.Screen.Printf.{in_buf, buf_size, convert, convert_scaled, scale, bi_prefix}

length-reverse : (xs : List ℕ) → length (reverse xs) ≡ length xs
length-reverse [] = refl
length-reverse (x ∷ xs) =
    ap length (reverse-append (x ∷ []) xs)
    ∙ omega (arith, length-append (reverse xs) (x ∷ []), length-reverse xs)

length-digits_from-le :
    {b : ℕ} (base : Base10or16 b) (fuel n ud : ℕ)
    → n < fuel
    → ud < b ^ suc n
    → length (digits_from fuel b ud) ≤ suc n
unfolding digits_from
length-digits_from-le base zero n ud room h = absurd (omega arith)
length-digits_from-le {b} base (suc fuel) zero ud room h =
    ground (arith, div-lt_pow base 0 ud h, pow-zero b)
length-digits_from-le {b} base (suc fuel) (suc n) ud room h =
    let below = div-lt_pow base (suc n) ud h in
    ground (arith, length-digits_from-le base fuel n (ud / b) (omega arith) below.0)

length-digits_from-gt :
    (fuel n ud : ℕ) → n < fuel → 10 ^ n ≤ ud → n < length (digits_from fuel 10 ud)
unfolding digits_from
length-digits_from-gt zero n ud room h = absurd (omega arith)
length-digits_from-gt (suc fuel) zero ud room h = omega arith
length-digits_from-gt (suc fuel) (suc n) ud room h =
    let above : 10 ^ n ≤ ud / 10 = omega (arith, pow-suc 10 n) in
    let pos : 10 ^ 0 ≤ 10 ^ n = pow-le-pow_right (omega arith) {i = 0} (omega arith) in
    ground (arith, pos, pow-zero 10, length-digits_from-gt fuel n (ud / 10) (omega arith) above)

length-digits-le :
    {b : ℕ} (base : Base10or16 b) (n ud : ℕ)
    → n < 64
    → ud < b ^ suc n
    → length (digits b ud) ≤ suc n
unfolding digits
length-digits-le {b} base n ud room h =
    omega (
      arith,
      length-reverse (digits_from max_digits b ud),
      length-digits_from-le base 64 n ud room h,
    )

length-digits-gt : (n ud : ℕ) → n < 64 → 10 ^ n ≤ ud → n < length (digits 10 ud)
unfolding digits
length-digits-gt n ud room h =
    omega
      (arith, length-reverse (digits_from max_digits 10 ud), length-digits_from-gt 64 n ud room h)

-- The sign and the digits of `%d`, the digits of `%u` and of `%x`.
itoa_u : (value : ℕ) → itoa b'u' value ≡ digits 10 value
unfolding itoa
itoa_u value = refl

itoa_x : (value : ℕ) → itoa b'x' value ≡ digits 16 value
unfolding itoa
itoa_x value = refl

itoa_d : (value : ℕ) → value < 2 ^ 63 → itoa b'd' value ≡ digits 10 value
unfolding itoa
itoa_d value h = ground arith

itoa_d_negative : (value : ℕ) → 2 ^ 63 ≤ value → itoa b'd' value ≡ b'-' ∷ digits 10 (2 ^ 64 - value)
unfolding itoa
itoa_d_negative value h = ground arith

in_buf-fits : (s : List ℕ) → (in_buf s ≡ some s) ↔ (length s < buf_size)
in_buf-fits s = ground arith

convert_plain :
    (value : ℕ)
    → (convert b'u' false value ≡ in_buf (itoa b'u' value))
      × (convert b'd' false value ≡ in_buf (itoa b'd' value))
      × (convert b'x' false value ≡ in_buf (itoa b'x' value))
      × (convert b'x' true value ≡ in_buf (b'0' ∷ b'x' ∷ itoa b'x' value))
unfolding convert
convert_plain value = (refl, refl, refl, refl)

fits_u : (value : ℕ) → value < 2 ^ 64 → (length (itoa b'u' value) < 20) ↔ (value < 10 ^ 19)
fits_u value h = rw (itoa_u value) (
    ground
      (arith, length-digits-gt 19 value (omega arith), length-digits-le ten 18 value (omega arith)))

fits_x : (value : ℕ) → value < 2 ^ 64 → length (itoa b'x' value) ≤ 16
fits_x value h = rw (itoa_x value) (length-digits-le sixteen 15 value (omega arith) (omega arith))

fits_d :
    (value : ℕ)
    → value < 2 ^ 64
    → (length (itoa b'd' value) < 20) ↔ ((value < 2 ^ 63) ⊎ (2 ^ 64 - 10 ^ 18 < value))
fits_d value h = elim (Bool-cases (ltb value (2 ^ 63))) [
  | inl pos ↦
      rw (itoa_d value (ground arith)) (ground (arith, length-digits-le ten 18 value (omega arith)))
  | inr neg ↦ rw (itoa_d_negative value (ground arith)) (
      ground (
        arith,
        length-digits-gt 18 (2 ^ 64 - value) (omega arith),
        length-digits-le ten 17 (2 ^ 64 - value) (omega arith),
      ))
]

-- `vprintf` has room for exactly these 64-bit values: without `#`, all that `%x` prints, those
-- below 10^19 that `%u` prints, and those above -10^18 that `%d` prints; `%#x` always has room.
pub convert-room :
    (value : ℕ)
    → value < 2 ^ 64
    → ((convert b'u' false value ≡ some (itoa b'u' value)) ↔ (value < 10 ^ 19))
      × ((convert b'd' false value ≡ some (itoa b'd' value))
          ↔ ((value < 2 ^ 63) ⊎ (2 ^ 64 - 10 ^ 18 < value)))
      × (convert b'x' false value ≡ some (itoa b'x' value))
      × (convert b'x' true value ≡ some (b'0' ∷ b'x' ∷ itoa b'x' value))
convert-room value h =
    let (u, d, x, hash_x) = convert_plain value in
    rw (u, d, x, hash_x)
      (ground (
        arith,
        in_buf-fits (itoa b'u' value),
        in_buf-fits (itoa b'd' value),
        in_buf-fits (itoa b'x' value),
        in_buf-fits (b'0' ∷ b'x' ∷ itoa b'x' value),
        fits_u value h,
        fits_d value h,
        fits_x value h,
      ))

-- The loop of `%#u`: `k` divisions by 1024 without a remainder.
abbrev pub Scaled : ℕ → ℕ → ℕ → ℕ × ℕ → Type 0
Scaled n value idx r =
    (k : ℕ) × (k ≤ n) × (r.1 ≡ idx + k) × (r.0 * 1024 ^ k ≡ value) × (r.0 ≤ value)

abbrev pub goes_on : ℕ → Bool
goes_on value = leb 1024 value && value % 1024 == 0

scale-stop : (fuel value idx : ℕ) → goes_on value ≡ false → scale fuel value idx ≡ (value, idx)
unfolding scale
scale-stop zero value idx h = refl
scale-stop (suc fuel) value idx h = rw h refl

scale-go :
    (fuel value idx : ℕ)
    → goes_on value ≡ true
    → scale (suc fuel) value idx ≡ scale fuel (value / 1024) (idx + 1)
unfolding scale
scale-go fuel value idx h = rw h refl

Scaled-stop : (n value idx : ℕ) → Scaled n value idx (value, idx)
Scaled-stop n value idx = (0, omega arith, omega arith, omega (arith, pow-zero 1024), omega arith)

goes_on-rem : (value : ℕ) → goes_on value ≡ true → value % 1024 ≡ 0
goes_on-rem value h = ground arith

Scaled-go :
    (n value idx : ℕ) (r : ℕ × ℕ)
    → goes_on value ≡ true
    → Scaled n (value / 1024) (idx + 1) r
    → Scaled (suc n) value idx r
Scaled-go n value idx r go (k, le, at, back, small) = (
  suc k,
  omega arith,
  omega arith,
  omega (
    arith,
    mul_assoc r.0 (1024 ^ k) 1024,
    ap (λ p. r.0 * p) (pow-suc 1024 k),
    goes_on-rem value go,
  ),
  ground arith,
)

scale-Scaled :
    (fuel n value idx : ℕ)
    → n ≤ fuel
    → value < 1024 ^ suc n
    → Scaled n value idx (scale fuel value idx)
scale-Scaled zero n value idx room h = unfold scale in Scaled-stop n value idx
scale-Scaled (suc fuel) zero value idx room h =
    rw (scale-stop (suc fuel) value idx (ground (arith, pow-suc 1024 0, pow-zero 1024)))
      (Scaled-stop 0 value idx)
scale-Scaled (suc fuel) (suc n) value idx room h = elim (Bool-cases (goes_on value)) [
  | inl go ↦ rw (scale-go fuel value idx go) (
      Scaled-go n value idx (scale fuel (value / 1024) (idx + 1)) go (
        scale-Scaled fuel n (value / 1024) (idx + 1) (omega arith)
          (omega (arith, pow-suc 1024 (suc n)))))
  | inr stop ↦ rw (scale-stop (suc fuel) value idx stop) (Scaled-stop (suc n) value idx)
]

-- The string of `%#u`.
abbrev pub scaled_text : ℕ → ℕ → List ℕ
scaled_text v prefix = itoa b'u' v ++ b' ' ∷ prefix ∷ []

prefix_at : (k : ℕ) → k ≤ 4 → (prefix : ℕ) × (get_elem? bi_prefix k ≡ some prefix)
prefix_at zero h = (b' ', refl)
prefix_at (suc zero) h = (b'k', refl)
prefix_at (suc (suc zero)) h = (b'M', refl)
prefix_at (suc (suc (suc zero))) h = (b'G', refl)
prefix_at (suc (suc (suc (suc zero)))) h = (b'T', refl)
prefix_at (suc (suc (suc (suc (suc k))))) h = absurd (omega arith)

convert-at :
    (value k prefix : ℕ)
    → (scale 6 value 0).1 ≡ k
    → get_elem? bi_prefix k ≡ some prefix
    → convert b'u' true value ≡ in_buf (scaled_text (scale 6 value 0).0 prefix)
unfolding convert convert_scaled
convert-at value k prefix e stands = rw (e, stands, convert_scaled) refl

in_buf-scaled_text :
    (v prefix : ℕ) → v < 2 ^ 50 → in_buf (scaled_text v prefix) ≡ some (scaled_text v prefix)
in_buf-scaled_text v prefix h =
    let digits : length (itoa b'u' v) ≤ 16 =
      rw (itoa_u v) (length-digits-le ten 15 v (omega arith) (omega arith)) in
    let total = length-append (itoa b'u' v) (b' ' ∷ prefix ∷ []) in
    (in_buf-fits (scaled_text v prefix)).1 (omega arith)

-- `vprintf` prints each value below 2^50 by `%#u` within its buffer, as a number and the prefix of
-- the power of 1024 by which it was divided without a remainder.
pub convert-scaled :
    (value : ℕ)
    → value < 2 ^ 50
    → (v k prefix : ℕ) × (get_elem? bi_prefix k ≡ some prefix)
      × (v * 1024 ^ k ≡ value)
      × (convert b'u' true value ≡ some (itoa b'u' v ++ b' ' ∷ prefix ∷ []))
convert-scaled value h =
    let (k, le, at, back, small) = scale-Scaled 6 4 value 0 (omega arith) (omega arith) in
    let v = (scale 6 value 0).0 in
    let (prefix, stands) = prefix_at k le in
    (
      v,
      k,
      prefix,
      stands,
      back,
      convert-at value k prefix (omega (arith, at)) stands
          ∙ in_buf-scaled_text v prefix (omega arith),
    )
