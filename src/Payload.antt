-- ===== src/Payload.antt =====
-- payload.c: `payload_benchmark_menu` on what `menu` returns, and the cache modes of benchmark.h.
-- The benchmarks and `heap_reconfig` are calls in a list.
pub mod Modes
use smp_boot.Base.{
  ℕ, zero, suc, Bool, not, ◌==◌, if◌then◌else◌, Option, none, some, List, [], ◌∷◌, ◌++◌,
}
use smp_boot.Memory.Heap.{mm_cache_disable, mm_write_through}

-- `cachemode_t`
abbrev pub cm_cache_disable : ℕ
cm_cache_disable = 0

abbrev pub cm_write_back : ℕ
cm_write_back = 1

abbrev pub cm_write_through : ℕ
cm_write_through = 2

-- The value of "return" and "abort"
abbrev pub quit : ℕ
quit = 999

-- `bench_opt`, and the variable `flag`
pub record BenchOpt : Type 0 where
  pub cm_buffer : ℕ
  pub cm_contender : ℕ
  pub timebase : ℕ
  pub flag : ℕ

pub data Call : Type 0 where
  reconfig_buffer : (flags : ℕ) → Call
  reconfig_contender : (flags : ℕ) → Call
  run_hourglass run_worker run_worker_cut run_mem run_rangestride : Call

-- The inner `switch` on `r`: `flag`, and the mode that is stored.
unfoldable pub reconfigure : ℕ → ℕ → ℕ → ℕ × ℕ
reconfigure r mode flag =
    if r == 1
    then (mm_cache_disable, r)
    else if r == 2
    then (mm_write_through, r)
    else if r == 3
    then (0, r)
    else (flag, mode)

-- The outer `switch` from 4 on.
unfoldable pub run_bench : ℕ → List Call
run_bench t =
    if t == 4
    then run_hourglass ∷ []
    else if t == 5
    then run_worker ∷ []
    else if t == 6
    then run_worker_cut ∷ []
    else if t == 7
    then run_mem ∷ []
    else if t == 8
    then run_rangestride ∷ []
    else []

-- The outer `switch` on `t`; `r` is what the second menu returns, if there is one.
unfoldable pub bench_round : ℕ → ℕ → BenchOpt → BenchOpt × List Call
unfolding reconfigure run_bench
bench_round t r s =
    let (flag, mode) = reconfigure r s.cm_buffer s.flag in
    let (flag', mode') = reconfigure r s.cm_contender s.flag in
    if t == 1
    then (
      record s { flag = flag; cm_buffer = mode },
      if r == quit then [] else reconfig_buffer flag ∷ [],
    )
    else if t == 2
    then (
      record s { flag = flag'; cm_contender = mode' },
      if r == quit then [] else reconfig_contender flag' ∷ [],
    )
    else if t == 3
    then ((if r == quit then s else record s { timebase = r }), [])
    else (s, run_bench t)

-- The loop, by what the menus return. `none` means that it waits for a further choice.
unfoldable pub bench_menu : List (ℕ × ℕ) → BenchOpt → Option (BenchOpt × List Call)
unfolding bench_round
bench_menu [] s = none
bench_menu ((t, r) ∷ choices) s =
    let (s', calls) = bench_round t r s in
    let rest = bench_menu choices s' in
    if t == quit
    then some (s', calls)
    else elim rest [ none ↦ none | some (last, more) ↦ some (last, calls ++ more) ]
