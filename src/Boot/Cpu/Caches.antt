-- ===== src/Boot/Cpu/Caches.antt =====
-- boot32.c: which elements of `cpuid_cache` the loop over function 4 writes.
use smp_boot.Base.{ℕ, zero, suc, ◌+◌, ◌-◌, ◌<◌, ◌≡◌, Bool, false, not, ◌&&◌, ◌==◌, leb, arith}
use smp_boot.Clib.Masks.{bits_from_cnt}
use smp_boot.Boot.Cpu.{Cpuid, max_cache}

-- Sub-leaf `u` describes a cache.
abbrev pub is_cache : Cpuid → ℕ → Bool
is_cache cpuid u = not (bits_from_cnt (cpuid 4 u).eax 0 5 == 0)

-- So do `n` sub-leaves from `u` on and the one behind them.
abbrev pub caches_from : Cpuid → ℕ → ℕ → Bool
caches_from cpuid u zero = is_cache cpuid u
caches_from cpuid u (suc n) = is_cache cpuid u && caches_from cpuid (u + 1) n

-- The loop that has started at sub-leaf `u` writes element `i`.
abbrev pub writes : Cpuid → ℕ → ℕ → Bool
writes cpuid u i = leb u i && leb i max_cache && caches_from cpuid u (i - u)

writes-beyond : (u i : ℕ) (cpuid : Cpuid) → max_cache < i → writes cpuid u i ≡ false
writes-beyond u i cpuid h = ground arith
