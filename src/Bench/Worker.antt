-- ===== src/Bench/Worker.antt =====
-- benchmark.c: `worker` measures and stays inside of its buffer.
use smp_boot.Base.{
  ℕ, ◌+◌, ◌-◌, ◌*◌, ◌/◌, ◌^◌, ◌<◌, ◌≡◌, refl, arith, false, ◌==◌, some, List, length,
}
use smp_boot.Bench.{Gaps, measure, worker, worker_addresses}
use smp_boot.Bench.Summary.{
  IsClock, gaps_from, summary, sum_of, blank, measure-summary, length-gaps_from,
}
use smp_boot.Bench.Sweep.{AllInside, worker_addresses-Inside, length-worker_addresses}

worker-measure :
    (fuel rate base range stride sec n sum : ℕ) (tsc : ℕ → ℕ) (g : Gaps)
    → measure fuel tsc rate sec (2 ^ 64 - 1) 0 ≡ some (n, g, sum)
    → (g.cnt == 0) ≡ false
    → worker fuel tsc rate base range stride sec
      ≡ some (g, sum / g.cnt, worker_addresses g.cnt base range stride base)
unfolding worker
worker-measure fuel rate base range stride sec n sum tsc g measured nonzero =
    rw (worker, measured, nonzero) refl

-- With a counter that goes on by less than 2^62 ticks from reading to reading, an end that fits in
-- 63 bits, and fuel for more than the ticks to wait, `worker` returns for any time above 0. It
-- makes one access between any two readings, and in the 64-bit build all eight bytes of each are
-- inside of the buffer, if this has a number of whole words, one at least, and the address one
-- stride behind its end is below 2^64.
pub worker-Inside :
    (fuel rate base words stride sec : ℕ) (tsc : ℕ → ℕ)
    → IsClock tsc
    → 0 < words
    → base + words * 8 + stride < 2 ^ 64
    → 0 < sec * 1000000 * rate
    → tsc 0 + sec * 1000000 * rate < 2 ^ 63
    → sec * 1000000 * rate < fuel
    → (g : Gaps) × (avg : ℕ) × (l : List ℕ) × (worker fuel tsc rate base (words * 8) stride sec
        ≡ some (g, avg, l))
      × (length l ≡ g.cnt)
      × AllInside base (words * 8) l
worker-Inside fuel rate base words stride sec tsc clock some_words behind some_time fits room =
    let (n, measured, last, some_gap) =
      measure-summary fuel rate sec (2 ^ 64 - 1) 0 tsc clock some_time (omega arith) (omega arith)
        room in
    let gaps = gaps_from tsc 0 (n - 0) in
    let g = summary (blank (2 ^ 64 - 1)) gaps in
    let many = length-gaps_from (n - 0) 0 tsc in
    let nonzero : (g.cnt == 0) ≡ false = ground arith in
    let base_lem : base + 0 * 8 ≡ base = omega arith in
    (
      g,
      sum_of gaps / g.cnt,
      worker_addresses g.cnt base (words * 8) stride base,
      worker-measure fuel rate base (words * 8) stride sec n (sum_of gaps) tsc g measured nonzero,
      length-worker_addresses g.cnt base (words * 8) stride base,
      rw base_lem at (worker_addresses-Inside g.cnt words stride base 0 behind some_words),
    )
