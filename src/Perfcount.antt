-- ===== src/Perfcount.antt =====
-- perfcount.c: the performance counters. The model-specific registers hold what was last written to
-- each; a `uint8_t` parameter takes the low byte of its argument.
pub mod Enable
use smp_boot.Base.{
  ℕ, zero, suc, ◌+◌, ◌*◌, ◌%◌, ◌^◌, Bool, true, false, ◌==◌, ltb, leb, if◌then◌else◌, List, [], ◌∷◌,
  get_or, bit_and, bit_or,
}
use smp_boot.Boot.Cpu.{Vendor, vend_intel}
use smp_boot.Clib.Masks.{mask_set, mask_clear}

-- The registers, and whether the function pointers have been set.
pub record Counters : Type 0 where
  pub msr : ℕ → ℕ
  pub initialised : Bool

abbrev pub perfevtsel : ℕ → ℕ
perfevtsel counter = get_or (0x186 ∷ 0x187 ∷ 0x188 ∷ 0x189 ∷ []) counter 0

abbrev pub pmc : ℕ → ℕ
pmc counter = get_or (0x0C1 ∷ 0x0C2 ∷ 0x0C3 ∷ 0x0C4 ∷ []) counter 0

abbrev pub globalctrl : ℕ
globalctrl = 0x38F

unfoldable pub wrmsr : ℕ → ℕ → Counters → Counters
wrmsr reg value s = record s { msr = λ i. if i == reg then value else s.msr i }

-- The functions for Nehalem, with their test of the counter.
unfoldable pub reset_nehalem : ℕ → Counters → Counters
unfolding wrmsr
reset_nehalem counter s = if leb 3 counter then s else wrmsr (pmc counter) 0 s

unfoldable pub init_nehalem : ℕ → ℕ → Counters → Counters
unfolding wrmsr reset_nehalem
init_nehalem counter config s =
    let kept = if leb 0xFF000000 config then bit_and config 0xFFFF else config in
    let event_sel = bit_or (bit_or kept (2 ^ 17)) (2 ^ 16) in
    let global = wrmsr globalctrl (bit_or (s.msr globalctrl) (2 ^ counter)) s in
    if leb 3 counter then s else reset_nehalem counter (wrmsr (perfevtsel counter) event_sel global)

unfoldable pub start_nehalem : ℕ → Counters → Counters
unfolding wrmsr
start_nehalem counter s =
    let reg = perfevtsel counter in
    if leb 3 counter then s else wrmsr reg (mask_set (s.msr reg) (2 ^ 22)) s

unfoldable pub stop_nehalem : ℕ → Counters → Counters
unfolding wrmsr
stop_nehalem counter s =
    let reg = perfevtsel counter in
    if leb 3 counter then s else wrmsr reg (mask_clear 64 (s.msr reg) (2 ^ 22)) s

unfoldable pub read_nehalem : ℕ → Counters → ℕ
read_nehalem counter s = if leb 3 counter then 0 else s.msr (pmc counter)

-- Only Intel processors set the function pointers.
unfoldable pub perfcount_init : Vendor → ℕ → ℕ → Counters → Counters
unfolding init_nehalem
perfcount_init vend_intel counter config s =
    init_nehalem (counter % 2 ^ 8) config (record s { initialised = true })
perfcount_init _ counter config s = s

unfoldable pub perfcount_raw : ℕ → ℕ → ℕ
perfcount_raw event umask = bit_or umask (event * 2 ^ 8)

unfoldable pub perfcount_start : ℕ → Counters → Counters
unfolding start_nehalem
perfcount_start counter s = if s.initialised then start_nehalem (counter % 2 ^ 8) s else s

unfoldable pub perfcount_stop : ℕ → Counters → Counters
unfolding stop_nehalem
perfcount_stop counter s = if s.initialised then stop_nehalem (counter % 2 ^ 8) s else s

unfoldable pub perfcount_reset : ℕ → Counters → Counters
unfolding reset_nehalem
perfcount_reset counter s = if s.initialised then reset_nehalem (counter % 2 ^ 8) s else s

unfoldable pub perfcount_read : ℕ → Counters → ℕ
unfolding read_nehalem
perfcount_read counter s = if s.initialised then read_nehalem (counter % 2 ^ 8) s else 0
