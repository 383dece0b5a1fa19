-- ===== src/Timer/Calibration.antt =====
-- pit.c: the rates that the calibration stores.
use smp_boot.Base.{
  ℕ, zero, suc, ◌+◌, ◌*◌, ◌^◌, ◌≤◌, ◌<◌, ◌≡◌, refl, inl, inr, arith, false, ltb, ltb→lt, Bool-cases,
  some,
}
use smp_boot.Timer.{Rates, count_usecs, measured_rate, pit_measure_tsc_per_sec}

-- `n` steps of the rate stay below 2^20, and one more does not.
abbrev pub Fits : ℕ → ℕ → Type 0
Fits rate n = (n * rate < 2 ^ 20) × (2 ^ 20 ≤ (n + 1) * rate)

count_usecs-Fits :
    (fuel rate n : ℕ)
    → 1000 ≤ rate
    → n * rate < 2 ^ 20
    → 2 ^ 20 ≤ (n + 1) * rate + fuel * 1000
    → (m : ℕ) × (count_usecs (suc fuel) rate ((n + 1) * rate) n ≡ some m) × Fits rate m
unfolding count_usecs
count_usecs-Fits zero rate n big below room =
    let last : ltb ((n + 1) * rate) (2 ^ 20) ≡ false = ground arith in
    (n, rw last refl, (below, omega arith))
count_usecs-Fits (suc fuel) rate n big below room =
    let step : (n + 1 + 1) * rate ≡ (n + 1) * rate + rate = omega arith in
    elim (Bool-cases (ltb ((n + 1) * rate) (2 ^ 20))) [
      | inl more ↦
          let (m, ends, fits) =
            count_usecs-Fits fuel rate (n + 1) big (ltb→lt _ _ more) (omega arith) in
          (m, rw more (rw step at ends), fits)
      | inr last ↦ (n, rw last refl, (below, ground arith))
    ]

measured_rate-ge : (res : ℕ → ℕ) → 1000 ≤ measured_rate res
unfolding measured_rate
measured_rate-ge res = ground arith

-- Whatever the sixteen measurements are, fuel for 1050 rounds is enough for the calibration. It
-- stores a rate of at least 1000 ticks in a microsecond, and as the microseconds in 2^20 ticks the
-- number of times that this rate fits below 2^20.
pub pit_measure_tsc_per_sec-Fits :
    (fuel : ℕ) (res : ℕ → ℕ)
    → 1049 ≤ fuel
    → (r : Rates) × (pit_measure_tsc_per_sec (suc fuel) res ≡ some r)
      × (1000 ≤ r.tsc_per_usec)
      × Fits r.tsc_per_usec r.usec_per_mtsc
unfolding pit_measure_tsc_per_sec
pit_measure_tsc_per_sec-Fits fuel res room =
    let rate = measured_rate res in
    let big = measured_rate-ge res in
    let one : (0 + 1) * rate ≡ rate = omega arith in
    let (m, ends, fits) = count_usecs-Fits fuel rate 0 big (omega arith) (omega arith) in
    (
      record { tsc_per_usec = rate; usec_per_mtsc = m },
      rw (pit_measure_tsc_per_sec, rw one at ends) refl,
      big,
      fits,
    )
