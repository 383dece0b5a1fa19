-- ===== src/Bench/Sweep.antt =====
-- benchmark.c: the elements that the loops over a buffer touch.
use smp_boot.Base.{
  ℕ, zero, suc, ◌+◌, ◌-◌, ◌*◌, ◌/◌, ◌%◌, ◌^◌, ◌≤◌, ◌<◌, ◌≡◌, refl, inl, inr, arith, true, false,
  ◌==◌, ltb, ltb→lt, leb, if◌then◌else◌, Bool-cases, none, some, List, [], ◌∷◌, length, get_elem?,
}
use smp_boot.Bench.{worker_addresses, sweep, range_stride, bench_rangestride_rep}

-- Eight bytes at each address are inside of the buffer.
abbrev pub AllInside : ℕ → ℕ → List ℕ → Type 0
AllInside base range [] = Unit
AllInside base range (p ∷ ps) = (base ≤ p) × (p + 8 ≤ base + range) × AllInside base range ps

-- Where a stride behind the buffer is still an address, the accesses stay inside of a buffer of
-- whole words, one at least.
pub worker_addresses-Inside :
    (n words stride base p : ℕ)
    → base + words * 8 + stride < 2 ^ 64
    → p < words
    → AllInside base (words * 8) (worker_addresses n base (words * 8) stride (base + p * 8))
unfolding worker_addresses
worker_addresses-Inside zero words stride base p fits inside = tt
worker_addresses-Inside (suc n) words stride base p fits inside =
    let end : (base + words * 8) % 2 ^ 64 ≡ base + words * 8 = omega arith in
    let next : (base + p * 8 + stride / 8 * 8) % 2 ^ 64 ≡ base + (p + stride / 8) * 8 =
      omega arith in
    let start : base ≡ base + 0 * 8 = omega arith in
    elim (Bool-cases (leb (base + words * 8) (base + (p + stride / 8) * 8))) [
      | inl past ↦
          let rest = worker_addresses-Inside n words stride base 0 fits (omega arith) in
          let rest' = rw (← start) at rest in rw (end, next, past) (omega arith, omega arith, rest')
      | inr before ↦
          rw (end, next, before)
            (
              omega arith,
              omega arith,
              worker_addresses-Inside n words stride base (p + stride / 8) fits (ground arith),
            )
    ]

pub length-worker_addresses :
    (n base range stride p : ℕ) → length (worker_addresses n base range stride p) ≡ n
unfolding worker_addresses
length-worker_addresses zero base range stride p = refl
length-worker_addresses (suc n) base range stride p =
    let next = (p + stride / 8 * 8) % 2 ^ 64 in
    let next' = if leb ((base + range) % 2 ^ 64) next then base else next in
    omega (arith, length-worker_addresses n base range stride next')

-- The list has the numbers from `r` on, `stride` apart, that are below `range`.
abbrev pub Multiples : ℕ → ℕ → ℕ → List ℕ → Type 0
Multiples range stride r l =
    (j : ℕ) → get_elem? l j ≡ (if ltb (r + j * stride) range then some (r + j * stride) else none)

Multiples-nil : (range stride r : ℕ) → range ≤ r → Multiples range stride r []
Multiples-nil range stride r h j =
    let out : ltb (r + j * stride) range ≡ false = ground arith in rw out refl

Multiples-cons :
    (range stride r : ℕ) (l : List ℕ)
    → ltb r range ≡ true
    → Multiples range stride (r + stride) l
    → Multiples range stride r (r ∷ l)
Multiples-cons range stride r l more rest zero =
    let first : r + 0 * stride ≡ r = omega arith in rw (first, more) refl
Multiples-cons range stride r l more rest (suc j) =
    let next : r + suc j * stride ≡ r + stride + j * stride = omega arith in rw next (rest j)

sweep-Multiples :
    (fuel range stride r : ℕ)
    → 0 < stride
    → range - r ≤ fuel
    → (l : List ℕ) × (sweep fuel range stride r ≡ some l) × Multiples range stride r l
unfolding sweep
sweep-Multiples zero range stride r moves room =
    let end : ltb r range ≡ false = ground arith in
    ([], rw end refl, Multiples-nil range stride r (omega arith))
sweep-Multiples (suc fuel) range stride r moves room = elim (Bool-cases (ltb r range)) [
  | inl more ↦
      let below = ltb→lt r range more in
      let (l, ends, elements) =
        sweep-Multiples fuel range stride (r + stride) moves (omega arith) in
      (r ∷ l, rw (more, ends) refl, Multiples-cons range stride r l more elements)
  | inr end ↦ ([], rw end refl, Multiples-nil range stride r (ground arith))
]

-- Where the stride is neither 0 nor above the range, `range_stride` ends. Each of its runs reads
-- the multiples of the stride below the range, in order, and no other byte, and it counts 2^28 by
-- the number of strides in the range.
pub range_stride-elements :
    (range stride j : ℕ)
    → 0 < stride
    → 0 < range / stride
    → (l : List ℕ) × (range_stride range stride
        ≡ some (bench_rangestride_rep / (range / stride), l))
      × (get_elem? l j ≡ (if ltb (j * stride) range then some (j * stride) else none))
unfolding range_stride
range_stride-elements range stride j moves fits =
    let (l, ends, elements) = sweep-Multiples range range stride 0 moves (omega arith) in
    let nonzero : (stride == 0) ≡ false = ground arith in
    let some_count : (range / stride == 0) ≡ false = ground arith in
    let from0 : 0 + j * stride ≡ j * stride = omega arith in
    (l, rw (nonzero, some_count, ends) refl, rw from0 at (elements j))
