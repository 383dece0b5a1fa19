-- ===== src/Tests/Bench.antt =====
-- Runs of the measuring loops and of the menu of the benchmarks.
use smp_boot.Base.{
  ℕ, ◌+◌, ◌-◌, ◌*◌, ◌^◌, ◌≡◌, refl, inl, inr, none, some, List, [], ◌∷◌, ◌++◌, length, arith,
}
use smp_boot.Bench.{Gaps, mean, hourglass, worker, range_stride, cut_ranges, load_round, sweep}
use smp_boot.Timer.Delay.{First}
use smp_boot.Bench.Summary.{gaps_from, summary, sum_of, blank}
use smp_boot.Bench.Mean.{IsMean, hourglass-summary}
use smp_boot.Bench.Sweep.{AllInside}
use smp_boot.Bench.Worker.{worker-Inside}
use smp_boot.Memory.Heap.{mm_write_through, mm_cache_disable}
use smp_boot.Payload.{
  BenchOpt, Call, reconfig_buffer, bench_round, bench_menu, quit, cm_cache_disable, cm_write_back,
  cm_write_through,
}
use smp_boot.Payload.Modes.{NoBack, bench_menu-NoBack}

abbrev slow_clock : ℕ → ℕ
slow_clock k = 50 + k * 1000

hourglass-summary_example :
    (k : ℕ) × (n : ℕ) × (avg : ℕ) × (let l = gaps_from slow_clock k (n - k) in
      (hourglass 32 12000001 slow_clock 2 5 ≡ some (summary (blank 0xFFFFFFFF) l, avg))
      × IsMean 32 (sum_of l) (length l) avg)
    × First slow_clock (slow_clock k + 5 * 1000000 * 2) k n
hourglass-summary_example =
    hourglass-summary 32 1000 12000001 2 5 slow_clock (inl refl) (λ k. (omega arith, omega arith))
      (λ k. omega arith) (omega arith) (omega arith) (omega arith) (omega arith) (omega arith)

-- A sum of 2^33 + 3 over 5 gaps: the 32-bit build loses 2 bits.
mean_runs : (mean 64 (2 ^ 33 + 3) 5 ≡ some 1717986919) × (mean 32 (2 ^ 33 + 3) 5 ≡ some 1717986916)
unfolding mean
mean_runs = (refl, refl)

worker-Inside_example :
    (g : Gaps) × (avg : ℕ) × (l : List ℕ) × (worker 2000001 slow_clock 2 0x500000 (2048 * 8) 32 1
      ≡ some (g, avg, l))
    × (length l ≡ g.cnt)
    × AllInside 0x500000 (2048 * 8) l
worker-Inside_example =
    worker-Inside 2000001 2 0x500000 2048 32 1 slow_clock (λ k. (omega arith, omega arith))
      (omega arith) (omega arith) (omega arith) (omega arith) (omega arith)

-- A range below the stride is a division by 0, and so is an hourglass of 0 seconds.
division_by_0 : (range_stride 32 64 ≡ none) × (mean 64 0 0 ≡ none)
unfolding range_stride mean
division_by_0 = (refl, refl)

range_stride_run : range_stride 128 32 ≡ some (2 ^ 26, 0 ∷ 32 ∷ 64 ∷ 96 ∷ [])
unfolding range_stride sweep
range_stride_run = refl

load_round_run : load_round 64 16 ≡ some (0 ∷ 2 ∷ 4 ∷ 6 ∷ [])
unfolding load_round sweep
load_round_run = refl

cut_ranges_run : cut_ranges 4 0x800000 ≡ some (0x800000 ∷ 0x1000000 ∷ [])
unfolding cut_ranges
cut_ranges_run = refl

-- What `payload_benchmark_menu` starts with.
abbrev at_start : BenchOpt
at_start = record {
  cm_buffer = cm_write_back;
  cm_contender = cm_write_back;
  timebase = 2;
  flag = 0;
}

-- "cache disable" at the start, then "write through", then "cache disable" again.
bench_menu-NoBack_example :
    (s1 : BenchOpt) × (last : BenchOpt) × (before : List Call) × (after : List Call) × (bench_menu
        (((1, cm_cache_disable) ∷ []) ++ (quit, quit) ∷ [])
        at_start
      ≡ some (s1, before))
    × (bench_menu
          (((1, cm_cache_disable) ∷ [])
            ++ (1, cm_write_through) ∷ (((1, cm_cache_disable) ∷ []) ++ (quit, quit) ∷ []))
          at_start
        ≡ some (last, before ++ after))
    × NoBack after
bench_menu-NoBack_example =
    bench_menu-NoBack ((1, cm_cache_disable) ∷ []) ((1, cm_cache_disable) ∷ []) [] 1
      cm_write_through at_start (λ e. absurd (omega arith), λ e. absurd (omega arith), tt)
      (inl refl, inr refl) (λ e. absurd (omega arith), λ e. absurd (omega arith), tt)

abbrev uncached : BenchOpt
uncached = record { cm_buffer = 2; cm_contender = 1; timebase = 10; flag = mm_write_through }

-- "write back" disables the cache, and "cache disable" sets the flags that were set last, at the
-- start those of write-back.
wrong_modes :
    ((bench_round 1 cm_write_back uncached).1 ≡ reconfig_buffer mm_cache_disable ∷ [])
    × ((bench_round 1 cm_cache_disable uncached).1 ≡ reconfig_buffer mm_write_through ∷ [])
    × ((bench_round 1 cm_cache_disable at_start).1 ≡ reconfig_buffer 0 ∷ [])
unfolding bench_round
wrong_modes = (refl, refl, refl)
