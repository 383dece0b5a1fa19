-- ===== src/Bench.antt =====
-- benchmark.c: what the measuring loops compute and which parts of a buffer they touch. The
-- readings of the time stamp counter are a function of the number of the reading. A loop runs on
-- fuel; `none` means that it ran out, or a division by 0.
pub mod Mean
pub mod Summary
pub mod Sweep
pub mod Worker
use smp_boot.Base.{
  ℕ, zero, suc, ◌+◌, ◌-◌, ◌*◌, ◌/◌, ◌%◌, ◌^◌, ◌||◌, ◌==◌, ltb, leb, if◌then◌else◌, Option, none,
  some, List, [], ◌∷◌,
}

-- `min`, `max` and `cnt` of the gaps between readings.
pub record Gaps : Type 0 where
  pub least : ℕ
  pub greatest : ℕ
  pub cnt : ℕ

unfoldable pub note_gap : ℕ → Gaps → Gaps
note_gap diff g = record {
  least = if ltb diff g.least then diff else g.least;
  greatest = if ltb g.greatest diff then diff else g.greatest;
  cnt = g.cnt + 1;
}

-- `tsc - tsc_last`
abbrev pub gap : (ℕ → ℕ) → ℕ → ℕ
gap tsc k = (tsc (suc k) + 2 ^ 64 - tsc k) % 2 ^ 64

-- The loop of `hourglass` and of `worker`, after reading `k`: the number of its last reading, and
-- the gaps.
unfoldable pub gap_loop : ℕ → (ℕ → ℕ) → ℕ → ℕ → Gaps → Option (ℕ × Gaps)
gap_loop zero tsc tsc_end k g = none
gap_loop (suc fuel) tsc tsc_end k g =
    let rest = gap_loop fuel tsc tsc_end (suc k) (note_gap (gap tsc k) g) in
    if ltb (tsc k) tsc_end then rest else some (k, g)

-- The end of a loop that starts with reading `k`.
abbrev pub end_of : (ℕ → ℕ) → ℕ → ℕ → ℕ → ℕ
end_of tsc k sec rate = (tsc k + sec * 1000000 * rate % 2 ^ 64) % 2 ^ 64

-- A measurement from reading `k` on: its last reading, the gaps, and the time between.
unfoldable pub measure : ℕ → (ℕ → ℕ) → ℕ → ℕ → ℕ → ℕ → Option (ℕ × Gaps × ℕ)
measure fuel tsc rate sec lowest k =
    elim (gap_loop fuel tsc (end_of tsc k sec rate) k
      (record { least = lowest; greatest = 0; cnt = 0 })) [
        | none ↦ none
        | some (m, g) ↦ some (m, g, (tsc m + 2 ^ 64 - tsc k) % 2 ^ 64)
      ]

-- The loop of the 32-bit build that shifts `avg` until it fits in 32 bits: `avg` and `shift`. It
-- ends after at most 32 rounds.
unfoldable pub fit_avg : ℕ → ℕ → ℕ → ℕ × ℕ
fit_avg zero avg shift = (avg, shift)
fit_avg (suc n) avg shift =
    let rest = fit_avg n (avg / 2) (shift + 1) in if ltb 0xFFFFFFFF avg then rest else (avg, shift)

-- The mean of `hourglass`, where `unsigned long` has `w` bits, 32 or 64.
unfoldable pub mean : ℕ → ℕ → ℕ → Option ℕ
unfolding fit_avg
mean w sum cnt =
    let (avg, shift) = if w == 64 then (sum, 0) else fit_avg 32 sum 0 in
    if cnt % 2 ^ w == 0 then none else some (avg / (cnt % 2 ^ w) * 2 ^ shift)

-- `hourglass`: the loop that warms up, and the one that counts.
unfoldable pub hourglass : ℕ → ℕ → (ℕ → ℕ) → ℕ → ℕ → Option (Gaps × ℕ)
unfolding mean
hourglass w fuel tsc rate sec = elim (measure fuel tsc rate 1 0xFFFFFFFF 0) [
  | none ↦ none
  | some (n, warm_up, time) ↦ elim (measure fuel tsc rate sec 0xFFFFFFFF (n + 1)) [
    | none ↦ none
    | some (m, g, sum) ↦ elim (mean w sum g.cnt) [ none ↦ none | some avg ↦ some (g, avg) ]
  ]
]

-- The addresses of the accesses of `worker` in the 64-bit build: `n` rounds from the address `p`
-- on, for a buffer at `base`, with 8 bytes in an unsigned long.
unfoldable pub worker_addresses : ℕ → ℕ → ℕ → ℕ → ℕ → List ℕ
worker_addresses zero base range stride p = []
worker_addresses (suc n) base range stride p =
    let next = (p + stride / 8 * 8) % 2 ^ 64 in
    let next' = if leb ((base + range) % 2 ^ 64) next then base else next in
    p ∷ worker_addresses n base range stride next'

-- `worker` of the 64-bit build, with a buffer: the gaps, their average, and the addresses of its
-- accesses
unfoldable pub worker : ℕ → (ℕ → ℕ) → ℕ → ℕ → ℕ → ℕ → ℕ → Option (Gaps × ℕ × List ℕ)
worker fuel tsc rate base range stride sec = elim (measure fuel tsc rate sec (2 ^ 64 - 1) 0) [
  | none ↦ none
  | some (m, g, sum) ↦
      if g.cnt == 0
      then none
      else some (g, sum / g.cnt, worker_addresses g.cnt base range stride base)
]

-- The loop over the elements of a buffer below `range`, from `r` on.
unfoldable pub sweep : ℕ → ℕ → ℕ → ℕ → Option (List ℕ)
sweep zero range stride r = if ltb r range then none else some []
sweep (suc fuel) range stride r =
    let rest = sweep fuel range stride (r + stride) in
    if ltb r range then elim rest [ none ↦ none | some l ↦ some (r ∷ l) ] else some []

-- One round of `load_until_flag`: the elements that it increments.
unfoldable pub load_round : ℕ → ℕ → Option (List ℕ)
load_round size stride = sweep (size / 8) (size / 8) (stride / 8) 0

abbrev pub bench_rangestride_rep : ℕ
bench_rangestride_rep = 256 * 1024 * 1024

-- `range_stride`: how often the counted loop runs, and the bytes that each run reads
unfoldable pub range_stride : ℕ → ℕ → Option (ℕ × List ℕ)
range_stride range stride =
    let reads = sweep range range stride 0 in
    let reps = bench_rangestride_rep / (range / stride) in
    if stride == 0 || range / stride == 0
    then none
    else elim reads [ none ↦ none | some l ↦ some (reps, l) ]

-- The ranges of `bench_worker_cut`, from `r` on.
unfoldable pub cut_ranges : ℕ → ℕ → Option (List ℕ)
cut_ranges zero r = none
cut_ranges (suc fuel) r =
    let next = if leb 0x80000 r then (if ltb r 0x800000 then r + 0x80000 else r * 2) else r * 2 in
    let rest = cut_ranges fuel next in
    if leb r 0x1000000 then elim rest [ none ↦ none | some l ↦ some (r ∷ l) ] else some []
