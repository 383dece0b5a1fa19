-- ===== src/Timer.antt =====
-- pit.c and time.c: the calibration of the time stamp counter by the timer, and `udelay`. What the
-- devices deliver, the counts of the timer and the readings of the counter, are functions of the
-- number of the access. A loop runs on fuel; `none` means that it ran out.
pub mod Calibration
pub mod Delay
use smp_boot.Base.{
  ℕ, zero, suc, ◌+◌, ◌-◌, ◌*◌, ◌/◌, ◌%◌, ◌^◌, ltb, leb, if◌then◌else◌, Option, none, some,
}

-- The fields of `hw_info`.
pub record Rates : Type 0 where
  pub tsc_per_usec : ℕ
  pub usec_per_mtsc : ℕ

-- The loop of `PIT_get_tsc_per_xxx` from round `k` on: the round that ends it.
unfoldable pub pit_wait : ℕ → (ℕ → ℕ) → ℕ → Option ℕ
pit_wait zero count k = none
pit_wait (suc fuel) count k =
    let rest = pit_wait fuel count (k + 1) in if leb (count k) (65536 - 19549) then some k else rest

-- `PIT_get_tsc_per_xxx`: `tsc_start`, the counter when round `k` ends, and the counts.
unfoldable pub pit_get_tsc_per_xxx : ℕ → ℕ → (ℕ → ℕ) → (ℕ → ℕ) → Option ℕ
unfolding pit_wait
pit_get_tsc_per_xxx fuel tsc_start tsc count = elim (pit_wait fuel count 0) [
  | none ↦ none
  | some k ↦ some ((tsc k + (2 ^ 64 - tsc_start)) % 2 ^ 64)
]

-- The sum over `n` measurements from `c` on.
unfoldable pub sum_runs : (ℕ → ℕ) → ℕ → ℕ → ℕ → ℕ
sum_runs res c zero sum = sum
sum_runs res c (suc n) sum = sum_runs res (c + 1) n ((sum + res c) % 2 ^ 64)

-- The last loop of `PIT_measure_tsc_per_sec`, with `usec_per_mtsc` in `n`.
unfoldable pub count_usecs : ℕ → ℕ → ℕ → ℕ → Option ℕ
count_usecs zero tsc_per_usec sum n = none
count_usecs (suc fuel) tsc_per_usec sum n =
    let rest = count_usecs fuel tsc_per_usec (sum + tsc_per_usec) (n + 1) in
    if ltb sum (1024 * 1024) then rest else some n

-- The rate, by the measurements, with the fall-back.
unfoldable pub measured_rate : (ℕ → ℕ) → ℕ
unfolding sum_runs
measured_rate res =
    let rate = sum_runs res 0 16 0 / 2 ^ 18 % 2 ^ 32 in if ltb rate 1000 then 2666 else rate

-- `PIT_measure_tsc_per_sec`, by the results of `PIT_get_tsc_per_xxx`.
unfoldable pub pit_measure_tsc_per_sec : ℕ → (ℕ → ℕ) → Option Rates
pit_measure_tsc_per_sec fuel res =
    let rate = measured_rate res in
    elim (count_usecs fuel rate rate 0) [
      | none ↦ none
      | some n ↦ some (record { tsc_per_usec = rate; usec_per_mtsc = n })
    ]

-- The loop of `udelay`, after reading `k` of the counter: the number of the last reading.
unfoldable pub delay_loop : ℕ → (ℕ → ℕ) → ℕ → ℕ → Option ℕ
delay_loop zero tsc tsc_end k = none
delay_loop (suc fuel) tsc tsc_end k =
    let rest = delay_loop fuel tsc tsc_end (suc k) in if ltb (tsc k) tsc_end then rest else some k

-- `udelay`, where `unsigned long` has `w` bits
unfoldable pub udelay : ℕ → ℕ → (ℕ → ℕ) → ℕ → ℕ → Option ℕ
unfolding delay_loop
udelay w fuel tsc tsc_per_usec us =
    delay_loop fuel tsc ((tsc 0 + us * tsc_per_usec % 2 ^ w) % 2 ^ 64) 0
