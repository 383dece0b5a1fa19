-- ===== src/Bench/Mean.antt =====
-- benchmark.c: what `hourglass` says of the gaps, in both builds.
use smp_boot.Base.{
  ℕ, zero, suc, ◌+◌, ◌-◌, ◌*◌, ◌/◌, ◌%◌, ◌^◌, ◌≤◌, ◌<◌, ◌≡◌, refl, sym, ◌∙◌, ap, ◌⊎◌, inl, inr,
  arith, true, false, ◌==◌, ltb, ltb→lt, Bool-cases, some, length,
}
use native.Mathlib.Nat.{mod-eq_of_lt, pow-suc, div-div-eq-div-mul, mul-le-mul_right}
use smp_boot.Bench.{hourglass, Gaps, fit_avg, mean, measure}
use smp_boot.Bench.Summary.{
  IsClock, gaps_from, summary, sum_of, blank, First-elapsed, sum-gaps_from, length-gaps_from,
  measure-summary,
}
use smp_boot.Timer.Delay.{First}

-- The least shift by which a number fits in 32 bits.
abbrev pub IsShift32 : ℕ → ℕ → Type 0
IsShift32 sum s = (sum / 2 ^ s < 2 ^ 32) × ((s ≡ 0) ⊎ (2 ^ 32 ≤ sum / 2 ^ (s - 1)))

-- The mean of the 64-bit build, and that of the 32-bit build.
abbrev pub IsMean : ℕ → ℕ → ℕ → ℕ → Type 0
IsMean w sum cnt avg =
    ((w ≡ 64) × (avg ≡ sum / cnt))
    ⊎ ((w ≡ 32) × (s : ℕ) × IsShift32 sum s × (avg ≡ sum / 2 ^ s / cnt * 2 ^ s))

div_half : (sum s : ℕ) → sum / 2 ^ s / 2 ≡ sum / 2 ^ (s + 1)
div_half sum s =
    let double : 2 ^ s * 2 ≡ 2 ^ (s + 1) =
      sym (pow-suc 2 s) ∙ ap (λ t. 2 ^ t) (let e : suc s ≡ s + 1 = omega arith in e) in
    div-div-eq-div-mul sum (2 ^ s) 2 ∙ ap (λ t. sum / t) double

fit_avg-IsShift32 :
    (n sum s : ℕ)
    → sum / 2 ^ s < 2 ^ 32 * 2 ^ n
    → (s ≡ 0) ⊎ (2 ^ 32 ≤ sum / 2 ^ (s - 1))
    → (t : ℕ) × (fit_avg n (sum / 2 ^ s) s ≡ (sum / 2 ^ t, t)) × IsShift32 sum t
unfolding fit_avg
fit_avg-IsShift32 zero sum s fits least = (s, refl, (omega arith, least))
fit_avg-IsShift32 (suc n) sum s fits least = elim (Bool-cases (ltb 0xFFFFFFFF (sum / 2 ^ s))) [
  | inl large ↦
      let half = div_half sum s in
      let back : s + 1 - 1 ≡ s = omega arith in
      let least' : 2 ^ 32 ≤ sum / 2 ^ (s + 1 - 1) = rw back (ground arith) in
      let (t, ends, shift) =
        fit_avg-IsShift32 n sum (s + 1) (omega (arith, pow-suc 2 n)) (inr least') in
      (t, rw (large, half) ends, shift)
  | inr small ↦ (s, rw small refl, (ground arith, least))
]

mean-IsMean :
    (w sum cnt : ℕ)
    → (w ≡ 32) ⊎ (w ≡ 64)
    → sum < 2 ^ 64
    → 0 < cnt
    → cnt < 2 ^ w
    → (avg : ℕ) × (mean w sum cnt ≡ some avg) × IsMean w sum cnt avg
unfolding mean
mean-IsMean w sum cnt (inl narrow) short some_gap few =
    let plain : cnt % 2 ^ w ≡ cnt = mod-eq_of_lt {n = cnt} {m = 2 ^ w} few in
    let (t, ends, shift) = fit_avg-IsShift32 32 sum 0 (omega arith) (inl refl) in
    let nonzero : (cnt == 0) ≡ false = ground arith in
    let narrow' : (w == 64) ≡ false = ground arith in
    let whole : sum / 2 ^ 0 ≡ sum = omega arith in
    let ends' : fit_avg 32 sum 0 ≡ (sum / 2 ^ t, t) = rw whole at ends in
    (
      sum / 2 ^ t / cnt * 2 ^ t,
      rw (mean, narrow', plain, nonzero, ends') refl,
      inr (narrow, t, shift, refl),
    )
mean-IsMean w sum cnt (inr wide) short some_gap few =
    let plain : cnt % 2 ^ w ≡ cnt = mod-eq_of_lt {n = cnt} {m = 2 ^ w} few in
    let nonzero : (cnt == 0) ≡ false = ground arith in
    let wide' : (w == 64) ≡ true = ground arith in
    let same : sum / cnt * 2 ^ 0 ≡ sum / cnt = omega arith in
    (sum / cnt, rw (mean, wide', plain, nonzero) (ap some same), inl (wide, refl))

-- A counter of which any two readings are `d` ticks apart at least.
abbrev pub Spaced : ℕ → (ℕ → ℕ) → Type 0
Spaced d tsc = (k : ℕ) → tsc k + d ≤ tsc (suc k)

Spaced-far : (n k d : ℕ) (tsc : ℕ → ℕ) → Spaced d tsc → tsc k + n * d ≤ tsc (k + n)
Spaced-far zero k d tsc apart =
    let same = ap tsc (let e : k + 0 ≡ k = omega arith in e) in omega arith
Spaced-far (suc n) k d tsc apart =
    let next = ap tsc (let e : k + suc n ≡ suc k + n = omega arith in e) in
    omega (arith, apart k, Spaced-far n (suc k) d tsc apart)

few_gaps :
    (w ticks d k n : ℕ) (tsc : ℕ → ℕ)
    → Spaced d tsc
    → ticks ≤ (2 ^ w - 1) * d
    → First tsc (tsc k + ticks) k n
    → k < n
    → n - k < 2 ^ w
few_gaps w ticks d k n tsc apart room (from, late, inl none_yet) some_gap = absurd (omega arith)
few_gaps w ticks d k n tsc apart room (from, late, inr before) some_gap =
    elim (Bool-cases (ltb (n - k) (2 ^ w))) [
      | inl few ↦ ltb→lt (n - k) (2 ^ w) few
      | inr many ↦
          let last = ap tsc (let e : k + (n - 1 - k) ≡ n - 1 = omega arith in e) in
          let all : 2 ^ w ≤ n - k = ground arith in
          let far = Spaced-far (n - 1 - k) k d tsc apart in
          let more = mul-le-mul_right {m = 2 ^ w - 1} {n = n - 1 - k} d (omega arith) in
          absurd (omega arith)
    ]

hourglass-measure :
    (w fuel rate sec m n t0 sum avg : ℕ) (tsc : ℕ → ℕ) (g0 g : Gaps)
    → measure fuel tsc rate 1 0xFFFFFFFF 0 ≡ some (m, g0, t0)
    → measure fuel tsc rate sec 0xFFFFFFFF (m + 1) ≡ some (n, g, sum)
    → mean w sum g.cnt ≡ some avg
    → hourglass w fuel tsc rate sec ≡ some (g, avg)
unfolding hourglass
hourglass-measure w fuel rate sec m n t0 sum avg tsc g0 g warm_up counted divides =
    rw (hourglass, warm_up, counted, divides) refl

-- Let `unsigned long` have `w` bits, 32 or 64, let each reading of a counter be at least `d` and
-- less than 2^62 ticks above the one before, and let the ticks to wait be at most (2^w - 1) * d,
-- above 0. With an end that fits in 63 bits and fuel for more than the ticks to wait, `hourglass`
-- returns. It computes the least and the greatest of the gaps between the readings `k` to `n` (the
-- least of them and 2^32 - 1), their number, and in the 64-bit build their mean; in the 32-bit
-- build the sum is divided by the least 2^s that makes it fit in 32 bits, and the quotient is
-- multiplied by 2^s again. Reading `n` is the first one at which the time is over.
pub hourglass-summary :
    (w d fuel rate sec : ℕ) (tsc : ℕ → ℕ)
    → (w ≡ 32) ⊎ (w ≡ 64)
    → IsClock tsc
    → Spaced d tsc
    → sec * 1000000 * rate ≤ (2 ^ w - 1) * d
    → 0 < rate
    → 0 < sec * 1000000 * rate
    → tsc 0 + 1 * 1000000 * rate + sec * 1000000 * rate < 2 ^ 63
    → 1 * 1000000 * rate + sec * 1000000 * rate < fuel
    → (k : ℕ) × (n : ℕ) × (avg : ℕ) × (let l = gaps_from tsc k (n - k) in
        (hourglass w fuel tsc rate sec ≡ some (summary (blank 0xFFFFFFFF) l, avg))
        × IsMean w (sum_of l) (length l) avg)
      × First tsc (tsc k + sec * 1000000 * rate) k n
hourglass-summary w d fuel rate sec tsc word clock apart room positive some_time fits enough =
    let (m, warm_up, first, from) =
      measure-summary fuel rate 1 0xFFFFFFFF 0 tsc clock (omega arith) (omega arith) (omega arith)
        (omega arith) in
    let (some_gap, near) =
      First-elapsed tsc (tsc 0 + 1 * 1000000 * rate) 0 m clock first (omega arith) in
    let (on, next) = clock m in
    let same = ap tsc (let e : suc m ≡ m + 1 = omega arith in e) in
    let (n, counted, last, from_k) =
      measure-summary fuel rate sec 0xFFFFFFFF (m + 1) tsc clock some_time (omega arith)
        (omega arith) (omega arith) in
    let l = gaps_from tsc (m + 1) (n - (m + 1)) in
    let (later, end) =
      First-elapsed tsc (tsc (m + 1) + sec * 1000000 * rate) (m + 1) n clock last (omega arith) in
    let many = length-gaps_from (n - (m + 1)) (m + 1) tsc in
    let few = few_gaps w (sec * 1000000 * rate) d (m + 1) n tsc apart room last from_k in
    let whole = ap tsc (let e : m + 1 + (n - (m + 1)) ≡ n = omega arith in e) in
    let sum = sum-gaps_from (n - (m + 1)) (m + 1) tsc clock in
    let (avg, divides, right) =
      mean-IsMean w (sum_of l) (length l) word (omega arith) (omega arith) (omega arith) in
    let plain : 0 + length l ≡ length l = omega arith in
    let run =
      hourglass-measure w fuel rate sec m n _ (sum_of l) avg tsc _ (summary (blank 0xFFFFFFFF) l)
        warm_up counted (ap (mean w (sum_of l)) plain ∙ divides) in
    (m + 1, n, avg, (run, right), last)
